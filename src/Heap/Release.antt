-- ===== src/Heap/Release.antt =====
-- vPortFree of kernel/heap_2.c and kernel/heap_4.c: its checks, its search, and the tile that
-- becomes free.
use mini_free_rtos.Common.{
  ℕ, ◌+◌, ◌-◌, ◌%◌, ◌≤◌, ◌<◌, ◌≡◌, refl, ap, sym, subst, ◌∙◌, inl, inr, Option, none, some, Bool,
  true, List, [], ◌∷◌, ◌++◌, leb, arith, ◌∈◌, ◌∉◌, has, Distinct, Bool-cases, update,
}
use mini_free_rtos.Sll.Chain.{Chain, Chain-frame, Chain-split, last_or}
use mini_free_rtos.Dll.Sorted.{first_of}
use mini_free_rtos.Heap.{byte_alignment, usable_size}
use mini_free_rtos.Heap.Blocks.{
  Store, allocated_mark, least_size, header_size, insert_free, free_place, is_block_pointer,
}
use mini_free_rtos.Heap.Tiles.{
  Tile, free_tile, used_tile, span, free_total_bound, frees, Tiled, Tiled-split, Tiled-replace,
  Tiled-end, frees-append, frees_range, frees-Distinct, free_total-append,
}
use mini_free_rtos.Heap.Cover.{Covers, find_place-Covers}
use mini_free_rtos.Sll.Search.{Stops, Chain-first, relink-Chain}

-- Every tile begins on a multiple of the alignment.
span_aligned :
    (size magic : ℕ → ℕ) (a : ℕ) (ts : List Tile) (e : ℕ)
    → Tiled size magic a ts e
    → span ts % byte_alignment ≡ 0
span_aligned size magic a [] e h = refl
span_aligned size magic a (t ∷ ts) e h =
    omega (arith, span_aligned size magic (a + t.size) ts e h.4)

Stops-all : (stop : ℕ → Bool) (ys : List ℕ) → ((y : ℕ) → y ∈ ys → stop y ≡ true) → Stops stop ys
Stops-all stop [] all = tt
Stops-all stop (y ∷ ys) all = all y (ground arith)

module _ (h : Store) (xs ys : List Tile) (s : ℕ) (c : Covers h (xs ++ used_tile s ∷ ys)) where
  abbrev pub at : ℕ
  at = span xs

  parts :
      (frees 0 (xs ++ used_tile s ∷ ys) ≡ frees 0 xs ++ frees (at + s) ys)
      × ((m : Option ℕ) × Chain h.block_next h.free_list (frees 0 xs) m
          × Chain h.block_next m (frees (at + s) ys) none)
  parts =
      let begin : 0 + span xs ≡ span xs = omega arith in
      let e =
        frees-append 0 xs (used_tile s ∷ ys)
        ∙ ap (λ b. frees 0 xs ++ frees b (used_tile s ∷ ys)) begin in
      (
        e,
        Chain-split h.block_next h.free_list (frees 0 xs) (frees (at + s) ys) none
            (subst (λ zs. Chain h.block_next h.free_list zs none) e c.chain),
      )

  places :
      ((x : ℕ) → x ∈ frees 0 xs → x < at)
      × ((x : ℕ) → x ∈ frees (at + s) ys → at + s ≤ x)
      × Distinct (frees 0 xs)
      × ((h.block_size at ≡ s)
          × (h.block_magic at ≡ allocated_mark)
          × (least_size ≤ s)
          × (s % byte_alignment ≡ 0))
      × (at % byte_alignment ≡ 0)
      × (at + s + span ys ≡ usable_size)
  places =
      let (l, r) =
        Tiled-split h.block_size h.block_magic 0 xs (used_tile s ∷ ys) usable_size c.tiled in
      let begin : 0 + span xs ≡ span xs = omega arith in
      let l' = subst (λ b. Tiled h.block_size h.block_magic 0 xs b) begin l in
      let r' =
        subst (λ b. Tiled h.block_size h.block_magic b (used_tile s ∷ ys) usable_size) begin r in
      (
        λ x i. (frees_range h.block_size h.block_magic 0 xs at x l' i).1,
        λ x i. (frees_range h.block_size h.block_magic (at + s) ys usable_size x r'.4 i).0,
        frees-Distinct h.block_size h.block_magic 0 xs at l',
        (r'.0, r'.1, r'.2, r'.3),
        span_aligned h.block_size h.block_magic 0 xs at l',
        Tiled-end h.block_size h.block_magic (at + s) ys usable_size r'.4,
      )

  -- The pointer behind its header is found valid.
  pub valid_lem : is_block_pointer (at + header_size) h ≡ true
  unfolding is_block_pointer
  valid_lem =
      let (lo, hi, d, (size, magic, least, even), even_at, ends) = places in
      let block : at + header_size - header_size ≡ at = omega arith in
      rw block (ground (arith, size, magic, least, even, even_at, ends))

  abbrev pub stop : ℕ → Bool
  stop y = leb at y

  abbrev pub cursor : Option ℕ
  cursor = first_of stop (frees (at + s) ys)

  abbrev pub previous : Option ℕ
  previous = last_or none (frees 0 xs)

  pub place_lem : free_place at h ≡ some (previous, cursor)
  unfolding free_place
  place_lem =
      let (lo, hi, d, tile, even_at, ends) = places in
      find_place-Covers h (xs ++ used_tile s ∷ ys) stop (frees 0 xs) (frees (at + s) ys) c parts.0
        (λ x i. (let p = lo x i in ground arith))
        (Stops-all stop (frees (at + s) ys) (λ y i. (let p = hi y i in ground arith)))

  abbrev pub inserted : Store
  inserted = insert_free at previous cursor h

  pub insert_free-Covers : Covers inserted (xs ++ free_tile s ∷ ys)
  insert_free-Covers =
      let (e, (m, l, r)) = parts in
      let (lo, hi, d, (size, magic, least, even), even_at, ends) = places in
      let begin : 0 + span xs ≡ span xs = omega arith in
      let next1 = update h.block_next at cursor in
      let first = Chain-first h.block_next stop m (frees (at + s) ys) r in
      let apart : (a : ℕ) → a ∈ at ∷ frees (at + s) ys → a ∉ frees 0 xs = λ a i.
        elim (Bool-cases (has a (frees 0 xs))) [
          | inl j ↦ (let p = lo a j in let q = hi a in absurd (ground arith))
          | inr o ↦ o
        ] in
      let rest : Chain next1 cursor (frees (at + s) ys) none =
        Chain-frame h.block_next next1 cursor (frees (at + s) ys) none
          (λ a i. (let q = hi a i in ground arith))
          (subst (λ m. Chain h.block_next m (frees (at + s) ys) none) first r) in
      let here : cursor ≡ next1 at = ground arith in
      let new : Chain next1 (some at) (at ∷ frees (at + s) ys) none =
        (refl, subst (λ m. Chain next1 m (frees (at + s) ys) none) here rest) in
      let linked =
        relink-Chain h.block_next next1 h.free_list m (some at) (frees 0 xs)
          (at ∷ frees (at + s) ys) l d (λ a i. (let p = lo a i in ground arith)) new apart in
      let all =
        frees-append 0 xs (free_tile s ∷ ys) ∙ ap (λ b. frees 0 xs ++ b ∷ frees (b + s) ys) begin in
      let old = free_total-append xs (used_tile s ∷ ys) in
      let bound1 = free_total_bound xs in
      let bound2 = free_total_bound ys in
      record {
        tiled =
            Tiled-replace h.block_size inserted.block_size h.block_magic inserted.block_magic xs
              (used_tile s ∷ []) (free_tile s ∷ []) ys usable_size c.tiled
              (λ x o. elim o [
                | inl q ↦ (refl, ground arith)
                | inr q ↦ (refl, ground (arith, least))
              ])
              (size, ground arith, least, even, omega arith);
        chain = subst (λ zs. Chain inserted.block_next inserted.free_list zs none) (sym all) linked;
        bytes = omega (
          arith,
          c.bytes,
          old,
          free_total-append xs (free_tile s ∷ ys),
          bound1,
          bound2,
          ends,
          size,
        );
        initialized = c.initialized;
      }
