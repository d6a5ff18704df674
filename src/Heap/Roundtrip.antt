-- ===== src/Heap/Roundtrip.antt =====
-- pvPortMalloc and vPortFree of kernel/heap_4.c, one after the other.
use mini_free_rtos.Common.{
  ℕ, ◌+◌, ◌-◌, ◌≤◌, ◌<◌, ◌≡◌, ap, sym, subst, ◌∙◌, Option, some, List, ◌∷◌, ◌++◌, arith,
}
use mini_free_rtos.Heap.{size_max, usable_size}
use mini_free_rtos.Heap.Blocks.{Store, Run, returned, header_size, block_malloc, free_4}
use mini_free_rtos.Heap.Tiles.{Tile, free_tile, used_tile, span, Tiled-end, allocations, free_total}
use mini_free_rtos.Heap.Cover.{Covers}
use mini_free_rtos.Heap.Fit.{Merged}
use mini_free_rtos.Heap.Allocate.{Granted, refused, split_first, whole_first, block_malloc-Granted}
use mini_free_rtos.Heap.Free.{free_4-Merged}
use mini_free_rtos.Heap.Unique.{Tiled-Positive, Merged-unique}

module _ (ts : List Tile) (h : Store) (c : Covers h ts) (m : Merged ts) where
  -- The same used tiles, and no two free ones side by side, make the same row.
  same_row :
      (k : Store) (us : List Tile)
      → Covers k us
      → Merged us
      → allocations 0 us ≡ allocations 0 ts
      → us ≡ ts
  same_row k us d n e =
      let w = Tiled-end h.block_size h.block_magic 0 ts usable_size c.tiled in
      let w' = Tiled-end k.block_size k.block_magic 0 us usable_size d.tiled in
      Merged-unique 0 us ts (Tiled-Positive k.block_size k.block_magic 0 us usable_size d.tiled)
        (Tiled-Positive h.block_size h.block_magic 0 ts usable_size c.tiled) (omega arith) n m e

  -- vPortFree of a pointer leads to a heap of the same h.
  abbrev Restored : ℕ → Store → Type 0
  Restored p h1 =
      (h2 : Store) × (free_4 (some p) h1 ≡ returned tt h2)
      × Covers h2 ts
      × (h2.free_bytes ≡ h.free_bytes)

  restores :
      (xs rest : List Tile) (size : ℕ) (h1 : Store)
      → Covers h1 (xs ++ used_tile size ∷ rest)
      → Merged (xs ++ used_tile size ∷ rest)
      → allocations 0 ts ≡ allocations 0 xs ++ allocations (span xs + size) rest
      → Restored (span xs + header_size) h1
  restores xs rest size h1 d n e =
      let (h2, us, run, covers, merged, others) = free_4-Merged h1 xs rest size d n in
      let row = same_row h2 us covers merged (others ∙ sym e) in
      (h2, run, subst (Covers h2) row covers, covers.bytes ∙ ap free_total row ∙ sym c.bytes)

  -- The pointer and the heap of an equal result.
  at_result :
      {p p' : ℕ} {h1 h1' : Store}
      → Restored p h1
      → returned (some p) h1 ≡ returned (some p') h1'
      → Restored p' h1'
  at_result {p} {p'} {h1} {h1'} result q =
      let heap : h1 ≡ h1' = cc in
      let pointer : p ≡ p' = cc in
      subst (λ x. Restored x h1') pointer (subst (Restored p) heap result)

  Granted-Restored :
      (total : ℕ) (r : Run (Option ℕ))
      → Granted h ts total r
      → (p : ℕ) (h1 : Store) → r ≡ returned (some p) h1
      → Restored p h1
  Granted-Restored total r (refused small) = λ p h1 e. cc
  Granted-Restored total r (split_first {h'} xs s ys here first room d e n) =
      λ p h1 q. at_result (restores xs (free_tile (s - total) ∷ ys) total h' d (n m) e) q
  Granted-Restored total r (whole_first {h'} xs s ys here first enough tight d e n) =
      λ p h1 q. at_result (restores xs ys s h' d (n m) e) q

  -- When tiles cover the heap, no two free ones side by side, and `pvPortMalloc` of a size that is
  -- not zero and does not overflow returns a pointer, `vPortFree` of kernel/heap_4.c of that
  -- pointer returns, and the heap is covered by the very tiles of before, with as many free bytes.
  pub block_malloc-free_4 :
      (size : ℕ)
      → 0 < size
      → size + 64 ≤ size_max
      → (p : ℕ) (h1 : Store) → block_malloc size h ≡ returned (some p) h1
      → (h2 : Store) × (free_4 (some p) h1 ≡ returned tt h2)
        × Covers h2 ts
        × (h2.free_bytes ≡ h.free_bytes)
  block_malloc-free_4 size pos short p h1 e =
      let (up, g) = block_malloc-Granted size h ts c pos short in
      Granted-Restored _ (block_malloc size h) g p h1 e
