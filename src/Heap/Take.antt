-- ===== src/Heap/Take.antt =====
-- The end of pvPortMalloc: a free tile leaves the free list, wholly or in its first part.
use mini_free_rtos.Common.{
  ℕ, ◌+◌, ◌-◌, ◌%◌, ◌≤◌, ◌<◌, ◌≡◌, refl, ap, sym, subst, ◌∙◌, inl, inr, none, some, List, [], ◌∷◌,
  ◌++◌, arith, ◌∈◌, ◌∉◌, has, has-append, Distinct, Bool-cases, update,
}
use mini_free_rtos.Sll.Chain.{Chain, Chain-frame, Chain-split, last_or}
use mini_free_rtos.Heap.{byte_alignment, usable_size}
use mini_free_rtos.Heap.Blocks.{
  Store, free_mark, allocated_mark, least_size, leave_remainder, relink,
}
use mini_free_rtos.Heap.Tiles.{
  Tile, free_tile, used_tile, span, frees, Tiled, Tiled-split, Tiled-replace, frees-append,
  frees_range, frees-Distinct, free_total-append,
}
use mini_free_rtos.Heap.Cover.{Covers}
use mini_free_rtos.Sll.Search.{relink-Chain}

-- What `allocate` leaves.
abbrev pub allocated_state : ℕ → ℕ → Store → Store
allocated_state block total_size h = record h {
  free_bytes = h.free_bytes - total_size;
  block_next = update h.block_next block none;
  block_size = update h.block_size block total_size;
  block_magic = update h.block_magic block allocated_mark;
}

module _ (h : Store) (xs ys : List Tile) (s : ℕ) (c : Covers h (xs ++ free_tile s ∷ ys)) where
  abbrev pub at : ℕ
  at = span xs

  -- The free list, in two parts around the tile.
  pub parts :
      (frees 0 (xs ++ free_tile s ∷ ys) ≡ frees 0 xs ++ at ∷ frees (at + s) ys)
      × Chain h.block_next h.free_list (frees 0 xs) (some at)
      × Chain h.block_next (h.block_next at) (frees (at + s) ys) none
  parts =
      let begin : 0 + span xs ≡ span xs = omega arith in
      let e =
        frees-append 0 xs (free_tile s ∷ ys)
        ∙ ap (λ b. frees 0 xs ++ frees b (free_tile s ∷ ys)) begin in
      let (m, l, r) =
        Chain-split h.block_next h.free_list (frees 0 xs) (at ∷ frees (at + s) ys) none
          (subst (λ zs. Chain h.block_next h.free_list zs none) e c.chain) in
      (e, subst (λ m. Chain h.block_next h.free_list (frees 0 xs) m) r.0 l, r.1)

  -- Where the free tiles of the two parts lie, and the tile itself.
  pub places :
      ((x : ℕ) → x ∈ frees 0 xs → x < at)
      × ((x : ℕ) → x ∈ frees (at + s) ys → at + s ≤ x)
      × Distinct (frees 0 xs)
      × ((h.block_size at ≡ s)
          × (h.block_magic at ≡ free_mark)
          × (least_size ≤ s)
          × (s % byte_alignment ≡ 0))
  places =
      let (l, r) =
        Tiled-split h.block_size h.block_magic 0 xs (free_tile s ∷ ys) usable_size c.tiled in
      let begin : 0 + span xs ≡ span xs = omega arith in
      let l' = subst (λ b. Tiled h.block_size h.block_magic 0 xs b) begin l in
      let r' =
        subst (λ b. Tiled h.block_size h.block_magic b (free_tile s ∷ ys) usable_size) begin r in
      (
        λ x i. (frees_range h.block_size h.block_magic 0 xs at x l' i).1,
        λ x i. (frees_range h.block_size h.block_magic (at + s) ys usable_size x r'.4 i).0,
        frees-Distinct h.block_size h.block_magic 0 xs at l',
        (r'.0, r'.1, r'.2, r'.3),
      )

  abbrev pub whole_state : Store
  whole_state =
      allocated_state at (h.block_size at) (relink (last_or none (frees 0 xs)) (h.block_next at) h)

  -- The whole tile is used.
  pub whole-Covers : Covers whole_state (xs ++ used_tile s ∷ ys)
  whole-Covers =
      let (e, l, r) = parts in
      let (lo, hi, d, (size, magic, least, even)) = places in
      let begin : 0 + span xs ≡ span xs = omega arith in
      let apart : (a : ℕ) → a ∈ frees (at + s) ys → a ∉ frees 0 xs = λ a i.
        elim (Bool-cases (has a (frees 0 xs))) [
          | inl j ↦ (let p = lo a j in let q = hi a i in absurd (omega arith))
          | inr o ↦ o
        ] in
      let linked =
        relink-Chain h.block_next h.block_next h.free_list (some at) (h.block_next at) (frees 0 xs)
          (frees (at + s) ys) l d (λ a i. refl) r apart in
      let h1 = relink (last_or none (frees 0 xs)) (h.block_next at) h in
      let all =
        frees-append 0 xs (used_tile s ∷ ys) ∙ ap (λ b. frees 0 xs ++ frees (b + s) ys) begin in
      record {
        tiled =
            Tiled-replace h.block_size whole_state.block_size h.block_magic whole_state.block_magic
              xs (free_tile s ∷ []) (used_tile s ∷ []) ys usable_size c.tiled
              (λ x o. elim o [
                | inl q ↦ (ground arith, ground arith)
                | inr q ↦ (ground (arith, least), ground (arith, least))
              ])
              (ground (arith, size), ground arith, least, even, omega arith);
        chain =
            subst (λ zs. Chain whole_state.block_next whole_state.free_list zs none) (sym all)
              (Chain-frame h1.block_next whole_state.block_next whole_state.free_list _ none
                (λ a i.
                  (let p = lo a in
                    let q = hi a in
                    ground (arith, has-append a (frees 0 xs) (frees (at + s) ys), least)))
                linked);
        bytes = omega (
          arith,
          c.bytes,
          size,
          free_total-append xs (free_tile s ∷ ys),
          free_total-append xs (used_tile s ∷ ys),
        );
        initialized = c.initialized;
      }

  -- Part of the tile is used, and what is behind it stays free.
  module _ (total : ℕ) (some_bytes : least_size ≤ total) (multiple : total % byte_alignment ≡ 0)
      (room : total + least_size ≤ s) where
    abbrev pub split_state : Store
    split_state = allocated_state at total (leave_remainder at total (last_or none (frees 0 xs)) h)

    pub split-Covers : Covers split_state (xs ++ used_tile total ∷ free_tile (s - total) ∷ ys)
    split-Covers =
        let (e, l, r) = parts in
        let (lo, hi, d, (size, magic, least, even)) = places in
        let begin : 0 + span xs ≡ span xs = omega arith in
        let rest = at + total in
        let next1 = update h.block_next rest (h.block_next at) in
        let apart : (a : ℕ) → a ∈ rest ∷ frees (at + s) ys → a ∉ frees 0 xs = λ a i.
          elim (Bool-cases (has a (frees 0 xs))) [
            | inl j ↦ (let p = lo a j in let q = hi a in absurd (ground arith))
            | inr o ↦ o
          ] in
        let new : Chain next1 (some rest) (rest ∷ frees (at + s) ys) none = (
          refl,
          Chain-frame h.block_next next1 (next1 rest) (frees (at + s) ys) none
              (λ a i. (let q = hi a i in ground arith)) (ground (arith, r)),
        ) in
        let linked =
          relink-Chain h.block_next next1 h.free_list (some at) (some rest) (frees 0 xs)
            (rest ∷ frees (at + s) ys) l d (λ a i. (let p = lo a i in ground arith)) new apart in
        let h1 = leave_remainder at total (last_or none (frees 0 xs)) h in
        let behind : at + total + (s - total) ≡ at + s = omega arith in
        let all =
          frees-append 0 xs (used_tile total ∷ free_tile (s - total) ∷ ys)
          ∙ ap (λ b. frees 0 xs ++ (b + total) ∷ frees (b + total + (s - total)) ys) begin
          ∙ ap (λ b. frees 0 xs ++ rest ∷ frees b ys) behind in
        record {
          tiled =
              Tiled-replace h.block_size split_state.block_size h.block_magic
                split_state.block_magic xs (free_tile s ∷ [])
                (used_tile total ∷ free_tile (s - total) ∷ []) ys usable_size c.tiled
                (λ x o. elim o [
                  | inl q ↦ (ground arith, ground arith)
                  | inr q ↦ (ground (arith, least), ground (arith, least))
                ])
                (
                  ground arith,
                  ground arith,
                  some_bytes,
                  multiple,
                  (
                    ground (arith, size, some_bytes),
                    ground (arith, some_bytes),
                    omega arith,
                    omega arith,
                    omega arith,
                  ),
                );
          chain =
              subst (λ zs. Chain split_state.block_next split_state.free_list zs none) (sym all)
                (Chain-frame h1.block_next split_state.block_next split_state.free_list _ none
                  (λ a i.
                    (let p = lo a in
                      let q = hi a in
                      ground (arith, has-append a (frees 0 xs) (rest ∷ frees (at + s) ys), least)))
                  linked);
          bytes = omega (
            arith,
            c.bytes,
            size,
            free_total-append xs (free_tile s ∷ ys),
            free_total-append xs (used_tile total ∷ free_tile (s - total) ∷ ys),
          );
          initialized = c.initialized;
        }
