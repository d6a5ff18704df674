-- ===== src/Heap/Merge.antt =====
-- The end of vPortFree of kernel/heap_4.c: the freed tile takes over the one behind it.
use mini_free_rtos.Common.{
  ℕ, ◌+◌, ◌<◌, ◌≡◌, refl, ap, sym, subst, some, Bool, true, false, List, [], ◌∷◌, ◌++◌,
  if◌then◌else◌, arith, ◌∈◌,
}
use mini_free_rtos.Dll.Sorted.{first_of}
use mini_free_rtos.Heap.{usable_size}
use mini_free_rtos.Heap.Blocks.{Store, absorb, absorb_if, merge_next, touches}
use mini_free_rtos.Heap.Tiles.{
  Tile, free_tile, used_tile, span, frees, allocations, Tiled, Tiled-split, frees_range,
}
use mini_free_rtos.Heap.Cover.{Covers}
use mini_free_rtos.Heap.Fit.{Merged, starts_free}
use mini_free_rtos.Heap.Absorb.{joined, absorb-Covers}

-- What is behind the freed tile has been merged with it.
pub record MergedBehind (h' : Store) (xs ys : List Tile) (a : ℕ) : Type 0 where
  pub size : ℕ
  pub rest : List Tile
  pub covers : Covers h' (xs ++ free_tile size ∷ rest)
  pub follows : starts_free rest ≡ false
  pub merged : Merged rest
  pub others : allocations (span xs + size) rest ≡ allocations a ys

-- The size in the header of the tile between `xs` and `ys`.
pub size_at :
    (h : Store) (xs : List Tile) (t : Tile) (ys : List Tile)
    → Covers h (xs ++ t ∷ ys)
    → (h.block_size (span xs) ≡ t.size)
      × Tiled h.block_size h.block_magic (span xs + t.size) ys usable_size
size_at h xs t ys c =
    let (l, r) = Tiled-split h.block_size h.block_magic 0 xs (t ∷ ys) usable_size c.tiled in
    let begin : 0 + span xs ≡ span xs = omega arith in
    let r' = subst (λ b. Tiled h.block_size h.block_magic b (t ∷ ys) usable_size) begin r in
    (r'.0, r'.4)

-- A next free tile that does not touch is left alone.
merge_next-apart :
    (h : Store) (b : ℕ) (stop : ℕ → Bool) (ys : List ℕ)
    → ((y : ℕ) → y ∈ ys → b + h.block_size b < y)
    → merge_next b (first_of stop ys) h ≡ h
unfolding merge_next absorb_if
merge_next-apart h b stop [] far = refl
merge_next-apart h b stop (y ∷ ys) far =
    let gap = far y (ground arith) in
    let miss : touches b y h ≡ false = ground arith in ap (λ m. if m then absorb b y h else h) miss

module _ (h : Store) (xs : List Tile) (s : ℕ) (stop : ℕ → Bool) where
  merge_next-used :
      (r : ℕ) (ys : List Tile)
      → Covers h (xs ++ free_tile s ∷ used_tile r ∷ ys)
      → Merged ys
      → MergedBehind
          (merge_next (span xs) (first_of stop (frees (span xs + s + r) ys)) h)
          xs
          (used_tile r ∷ ys)
          (span xs + s)
  merge_next-used r ys c m =
      let (size, tiled) = size_at h xs (free_tile s) (used_tile r ∷ ys) c in
      let apart = merge_next-apart h (span xs) stop (frees (span xs + s + r) ys) (λ y i.
        (let p =
            frees_range h.block_size h.block_magic (span xs + s + r) ys usable_size y tiled.4 i in
          let least = tiled.2 in omega (arith, size, p.0))) in
      subst (λ h'. MergedBehind h' xs (used_tile r ∷ ys) (span xs + s)) (sym apart)
        (record {
          size = s;
          rest = used_tile r ∷ ys;
          covers = c;
          follows = refl;
          merged = (refl, m);
          others = refl;
        })

  merge_next-free :
      (r : ℕ) (ys : List Tile)
      → Covers h (xs ++ free_tile s ∷ free_tile r ∷ ys)
      → Merged (free_tile r ∷ ys)
      → MergedBehind
          (merge_next (span xs) (some (span xs + s)) h)
          xs
          (free_tile r ∷ ys)
          (span xs + s)
  unfolding merge_next absorb_if
  merge_next-free r ys c m =
      let (size, tiled) = size_at h xs (free_tile s) (free_tile r ∷ ys) c in
      let near : touches (span xs) (span xs + s) h ≡ true = ground (arith, size) in
      let behind : span xs + (s + r) ≡ span xs + s + r = omega arith in
      subst
        (λ b.
          MergedBehind (if b then joined h xs ys s r c else h) xs (free_tile r ∷ ys) (span xs + s))
        (sym near)
        (record {
          size = s + r;
          rest = ys;
          covers = absorb-Covers h xs ys s r c;
          follows = m.0;
          merged = m.1;
          others = ap (λ b. allocations b ys) behind;
        })

  pub merge_next-MergedBehind :
      (ys : List Tile)
      → Covers h (xs ++ free_tile s ∷ ys)
      → Merged ys
      → MergedBehind
          (merge_next (span xs) (first_of stop (frees (span xs + s) ys)) h)
          xs
          ys
          (span xs + s)
  merge_next-MergedBehind [] c m = record {
    size = s;
    rest = [];
    covers =
        subst (λ h'. Covers h' (xs ++ free_tile s ∷ []))
          (sym (merge_next-apart h (span xs) stop [] (λ y i. cc))) c;
    follows = refl;
    merged = tt;
    others = refl;
  }
  merge_next-MergedBehind (t ∷ ys) c m = by_use t.size t.used c m
    where
      by_use :
          (r : ℕ) (u : Bool)
          → let t' : Tile = record { size = r; used = u } in
            Covers h (xs ++ free_tile s ∷ t' ∷ ys)
            → Merged (t' ∷ ys)
            → MergedBehind
                (merge_next (span xs) (first_of stop (frees (span xs + s) (t' ∷ ys))) h)
                xs
                (t' ∷ ys)
                (span xs + s)
      by_use r true c m = merge_next-used r ys c m.1
      by_use r false c m = merge_next-free r ys c m
