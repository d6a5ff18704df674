-- ===== src/Heap/Absorb.antt =====
-- The merging of kernel/heap_4.c: a free tile takes over the one behind it.
use mini_free_rtos.Common.{
  ℕ, ◌+◌, ◌≡◌, refl, ap, sym, subst, ◌∙◌, inl, inr, none, List, [], ◌∷◌, ◌++◌, arith, ◌∈◌,
}
use mini_free_rtos.Sll.Chain.{Chain, Chain-frame, Chain-append, Chain-split}
use mini_free_rtos.Heap.{usable_size}
use mini_free_rtos.Heap.Blocks.{Store, absorb}
use mini_free_rtos.Heap.Tiles.{
  Tile, free_tile, span, frees, Tiled, Tiled-split, Tiled-replace, Tiled-end, frees-append,
  frees_range, free_total-append,
}
use mini_free_rtos.Heap.Cover.{Covers}

-- Two free tiles side by side become one.
module _ (h : Store) (xs ys : List Tile) (s r : ℕ)
    (c : Covers h (xs ++ free_tile s ∷ free_tile r ∷ ys)) where
  abbrev pub joined : Store
  joined = absorb (span xs) (span xs + s) h

  pub absorb-Covers : Covers joined (xs ++ free_tile (s + r) ∷ ys)
  absorb-Covers =
      let (left_tiles, right) =
        Tiled-split h.block_size h.block_magic 0 xs (free_tile s ∷ free_tile r ∷ ys) usable_size
          c.tiled in
      let begin : 0 + span xs ≡ span xs = omega arith in
      let l' = subst (λ b. Tiled h.block_size h.block_magic 0 xs b) begin left_tiles in
      let t =
        subst (λ b. Tiled h.block_size h.block_magic b (free_tile s ∷ free_tile r ∷ ys) usable_size)
          begin right in
      let ends = Tiled-end h.block_size h.block_magic (span xs + s + r) ys usable_size t.4.4 in
      let here =
        frees-append 0 xs (free_tile s ∷ free_tile r ∷ ys)
        ∙ ap (λ b. frees 0 xs ++ b ∷ (b + s) ∷ frees (b + s + r) ys) begin in
      let (m, before, at_m) =
        Chain-split h.block_next h.free_list (frees 0 xs)
          (span xs ∷ (span xs + s) ∷ frees (span xs + s + r) ys) none
          (subst (λ zs. Chain h.block_next h.free_list zs none) here c.chain) in
      let lo = λ (x : ℕ) (i : x ∈ frees 0 xs).
        (frees_range h.block_size h.block_magic 0 xs (span xs) x l' i).1 in
      let hi = λ (x : ℕ) (i : x ∈ frees (span xs + s + r) ys).
        (frees_range h.block_size h.block_magic (span xs + s + r) ys usable_size x t.4.4 i).0 in
      let behind : span xs + s + r ≡ span xs + (s + r) = omega arith in
      let after : joined.block_next (span xs) ≡ h.block_next (span xs + s) = ground arith in
      let all =
        frees-append 0 xs (free_tile (s + r) ∷ ys)
        ∙ ap (λ b. frees 0 xs ++ b ∷ frees (b + (s + r)) ys) begin
        ∙ ap (λ b. frees 0 xs ++ span xs ∷ frees b ys) (sym behind) in
      record {
        tiled =
            Tiled-replace h.block_size joined.block_size h.block_magic joined.block_magic xs
              (free_tile s ∷ free_tile r ∷ []) (free_tile (s + r) ∷ []) ys usable_size c.tiled
              (λ x o. elim o [
                | inl q ↦ (ground arith, refl)
                | inr q ↦ (let least = t.2 in ground arith, refl)
              ])
              (
                ground (arith, t.0, t.4.0, ends),
                t.1,
                omega (arith, t.2),
                omega (arith, t.3, t.4.3),
                omega arith,
              );
        chain =
            subst (λ zs. Chain joined.block_next joined.free_list zs none) (sym all)
              (Chain-append joined.block_next joined.free_list m (frees 0 xs) _ none
                (Chain-frame h.block_next joined.block_next h.free_list (frees 0 xs) m
                  (λ a i. (let p = lo a i in ground arith)) before)
                (
                  at_m.0,
                  subst (λ v. Chain joined.block_next v (frees (span xs + s + r) ys) none)
                      (sym after)
                      (Chain-frame h.block_next joined.block_next (h.block_next (span xs + s))
                        (frees (span xs + s + r) ys) none (λ a i. (let q = hi a i in ground arith))
                        at_m.1.1),
                ));
        bytes = omega (
          arith,
          c.bytes,
          free_total-append xs (free_tile s ∷ free_tile r ∷ ys),
          free_total-append xs (free_tile (s + r) ∷ ys),
        );
        initialized = c.initialized;
      }
