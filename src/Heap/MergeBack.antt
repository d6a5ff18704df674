-- ===== src/Heap/MergeBack.antt =====
-- The end of vPortFree of kernel/heap_4.c: the tile before the freed one takes it over.
use mathlib.Core.List.{append-nil, append_assoc}
use mini_free_rtos.Common.{
  ℕ, ◌+◌, ◌≤◌, ◌<◌, ◌≡◌, refl, ap, ap₂, sym, subst, ◌∙◌, inl, inr, ◌⊎◌, Option, none, some, Bool,
  true, false, List, [], ◌∷◌, ◌++◌, ◌==◌, if◌then◌else◌, arith, ◌∈◌, Bool-cases,
}
use mini_free_rtos.Sll.Chain.{last_or}
use mini_free_rtos.Heap.{usable_size}
use mini_free_rtos.Heap.Blocks.{Store, absorb, absorb_if, merge_previous, touches}
use mini_free_rtos.Heap.Tiles.{
  Tile, free_tile, used_tile, span, span-append, frees, allocations, allocations-append, Tiled,
  Tiled-split, Tiled-end, frees-append,
}
use mini_free_rtos.Heap.Cover.{Covers}
use mini_free_rtos.Heap.Fit.{Merged, starts_free}
use mini_free_rtos.Heap.Absorb.{joined, absorb-Covers}
use mini_free_rtos.Heap.Merge.{size_at}

Merged-replace :
    (xs : List Tile) (t t' : Tile) (ys rest : List Tile)
    → t'.used ≡ t.used
    → Merged (xs ++ t ∷ ys)
    → Merged (t' ∷ rest)
    → Merged (xs ++ t' ∷ rest)
Merged-replace [] t t' ys rest same m new = new
Merged-replace (x ∷ []) t t' ys rest same m new = (rw same m.0, new)
Merged-replace (x ∷ y ∷ xs) t t' ys rest same m new =
    (m.0, Merged-replace (y ∷ xs) t t' ys rest same m.1 new)

-- A row of tiles ends, or has a last one.
data Snoc : List Tile → Type 0 where
  empty : Snoc []
  snoc : (xs : List Tile) (r : ℕ) (u : Bool) → Snoc (xs ++ record { size = r; used = u } ∷ [])

snoc_view : (xs : List Tile) → Snoc xs
snoc_view [] = empty
snoc_view (x ∷ xs) = cons x (snoc_view xs)
  where
    cons : {xs : List Tile} (x : Tile) → Snoc xs → Snoc (x ∷ xs)
    cons x empty = snoc [] x.size x.used
    cons x (snoc xs r u) = snoc (x ∷ xs) r u

last_or-snoc : (p : Option ℕ) (xs : List ℕ) (y : ℕ) → last_or p (xs ++ y ∷ []) ≡ some y
last_or-snoc p [] y = refl
last_or-snoc p (x ∷ xs) y = last_or-snoc (some x) xs y

last_or-mem :
    (xs : List ℕ) → (last_or none xs ≡ none) ⊎ ((q : ℕ) × (last_or none xs ≡ some q) × (q ∈ xs))
last_or-mem [] = inl refl
last_or-mem (x ∷ xs) = inr (mem x xs none)
  where
    mem :
        (x : ℕ) (xs : List ℕ) (p : Option ℕ)
        → (q : ℕ) × (last_or p (x ∷ xs) ≡ some q) × (q ∈ x ∷ xs)
    mem x [] p = (x, refl, ground arith)
    mem x (y ∷ ys) p = let (q, e, i) = mem y ys (some x) in (q, e, ground arith)

-- A free tile ends before the row that it stands in does.
frees_end :
    (size magic : ℕ → ℕ) (a : ℕ) (ts : List Tile) (e x : ℕ)
    → Tiled size magic a ts e
    → x ∈ frees a ts
    → x + size x ≤ e
frees_end size magic a [] e x h i = cc
frees_end size magic a (t ∷ ts) e x h i =
    let rest = frees_end size magic (a + t.size) ts e x h.4 in
    let ends = Tiled-end size magic (a + t.size) ts e h.4 in
    elim (Bool-cases t.used) [
      | inl u ↦ rest (rw u at i)
      | inr u ↦ elim (Bool-cases (x == a)) [
        | inl q ↦ (let same : x ≡ a = ground arith in rw same (omega (arith, h.0)))
        | inr q ↦ rest (ground arith)
      ]
    ]

-- A previous free tile that does not touch is left alone.
merge_previous-apart :
    (h : Store) (b : ℕ) (xs : List ℕ)
    → ((q : ℕ) → q ∈ xs → q + h.block_size q < b)
    → merge_previous (last_or none xs) b h ≡ h
unfolding merge_previous absorb_if
merge_previous-apart h b xs far = elim (last_or-mem xs) [
  | inl e ↦ ap (λ o. merge_previous o b h) e
  | inr (q, e, i) ↦
      (let gap = far q i in
        let miss : touches q b h ≡ false = ground arith in
        ap (λ o. merge_previous o b h) e ∙ ap (λ m. if m then absorb q b h else h) miss)
]

-- The whole row after vPortFree.
pub record MergedAll (h' : Store) (xs rest : List Tile) (s : ℕ) : Type 0 where
  pub tiles : List Tile
  pub covers : Covers h' tiles
  pub merged : Merged tiles
  pub others : allocations 0 tiles ≡ allocations 0 xs ++ allocations (span xs + s) rest

module _ (h : Store) (s s0 : ℕ) (rest ys : List Tile) (follows : starts_free rest ≡ false)
    (merged : Merged rest) where
  merge_previous-used :
      (xs : List Tile) (r : ℕ)
      → let ws = xs ++ used_tile r ∷ [] in
        Covers h (ws ++ free_tile s ∷ rest)
        → Merged (ws ++ used_tile s0 ∷ ys)
        → MergedAll (merge_previous (last_or none (frees 0 ws)) (span ws) h) ws rest s
  merge_previous-used xs r c m =
      let ws = xs ++ used_tile r ∷ [] in
      let begin : 0 + span ws ≡ span ws = omega arith in
      let wide = span-append xs (used_tile r ∷ []) in
      let (left_tiles, right) =
        Tiled-split h.block_size h.block_magic 0 ws (free_tile s ∷ rest) usable_size c.tiled in
      let (first, last) =
        Tiled-split h.block_size h.block_magic 0 xs (used_tile r ∷ []) (0 + span ws) left_tiles in
      let list : frees 0 ws ≡ frees 0 xs =
        frees-append 0 xs (used_tile r ∷ []) ∙ append-nil (frees 0 xs) in
      let kept = merge_previous-apart h (span ws) (frees 0 xs) (λ q i.
        (let e = frees_end h.block_size h.block_magic 0 xs (0 + span xs) q first i in
          let least = last.2 in omega (arith, e, wide))) in
      subst (λ h'. MergedAll h' ws rest s)
        (sym (ap (λ zs. merge_previous (last_or none zs) (span ws) h) list ∙ kept))
        (record {
          tiles = ws ++ free_tile s ∷ rest;
          covers = c;
          merged = subst Merged (sym (append_assoc xs (used_tile r ∷ []) (free_tile s ∷ rest))) (
              Merged-replace xs (used_tile r) (used_tile r) (used_tile s0 ∷ ys) (free_tile s ∷ rest)
                refl (subst Merged (append_assoc xs (used_tile r ∷ []) (used_tile s0 ∷ ys)) m)
                (refl, (follows, merged)));
          others =
              allocations-append 0 ws (free_tile s ∷ rest)
              ∙ ap (λ b. allocations 0 ws ++ allocations (b + s) rest) begin;
        })

  merge_previous-free :
      (xs : List Tile) (r : ℕ)
      → let ws = xs ++ free_tile r ∷ [] in
        Covers h (ws ++ free_tile s ∷ rest)
        → Merged (ws ++ used_tile s0 ∷ ys)
        → MergedAll (merge_previous (last_or none (frees 0 ws)) (span ws) h) ws rest s
  unfolding merge_previous absorb_if
  merge_previous-free xs r c m =
      let ws = xs ++ free_tile r ∷ [] in
      let begin : 0 + span xs ≡ span xs = omega arith in
      let wide : span ws ≡ span xs + r = omega (arith, span-append xs (free_tile r ∷ [])) in
      let c' = subst (Covers h) (append_assoc xs (free_tile r ∷ []) (free_tile s ∷ rest)) c in
      let (size, tiled) = size_at h xs (free_tile r) (free_tile s ∷ rest) c' in
      let list : last_or none (frees 0 ws) ≡ some (span xs) =
        ap (last_or none) (frees-append 0 xs (free_tile r ∷ []))
        ∙ last_or-snoc none (frees 0 xs) (0 + span xs)
        ∙ ap some begin in
      let near : touches (span xs) (span ws) h ≡ true = ground (arith, size, wide) in
      let none_new = allocations-append 0 xs (free_tile r ∷ []) ∙ append-nil (allocations 0 xs) in
      let run : merge_previous (last_or none (frees 0 ws)) (span ws) h ≡ joined h xs rest r s c' =
        ap (λ o. merge_previous o (span ws) h) list
        ∙ ap (λ b. if b then absorb (span xs) (span ws) h else h) near
        ∙ ap (λ b. absorb (span xs) b h) wide in
      subst (λ h'. MergedAll h' ws rest s) (sym run)
        (record {
          tiles = xs ++ free_tile (r + s) ∷ rest;
          covers = absorb-Covers h xs rest r s c';
          merged =
              Merged-replace xs (free_tile r) (free_tile (r + s)) (used_tile s0 ∷ ys) rest refl
                (subst Merged (append_assoc xs (free_tile r ∷ []) (used_tile s0 ∷ ys)) m)
                (follows, merged);
          others =
              allocations-append 0 xs (free_tile (r + s) ∷ rest)
              ∙ ap₂ (λ zs b. zs ++ allocations b rest) (sym none_new) (omega (arith, wide));
        })

  pub merge_previous-MergedAll :
      (xs : List Tile)
      → Covers h (xs ++ free_tile s ∷ rest)
      → Merged (xs ++ used_tile s0 ∷ ys)
      → MergedAll (merge_previous (last_or none (frees 0 xs)) (span xs) h) xs rest s
  unfolding merge_previous
  merge_previous-MergedAll xs c m = by_last xs (snoc_view xs) c m
    where
      by_last :
          (xs : List Tile)
          → Snoc xs
          → Covers h (xs ++ free_tile s ∷ rest)
          → Merged (xs ++ used_tile s0 ∷ ys)
          → MergedAll (merge_previous (last_or none (frees 0 xs)) (span xs) h) xs rest s
      by_last xs empty c m = record {
        tiles = free_tile s ∷ rest;
        covers = c;
        merged = (follows, merged);
        others = refl;
      }
      by_last xs (snoc ws r true) c m = merge_previous-used ws r c m
      by_last xs (snoc ws r false) c m = merge_previous-free ws r c m
