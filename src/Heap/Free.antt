-- ===== src/Heap/Free.antt =====
-- vPortFree of kernel/heap_2.c and kernel/heap_4.c, as a whole.
use mini_free_rtos.Common.{ℕ, ◌+◌, ◌-◌, ◌≡◌, ap, ◌∙◌, Option, some, List, [], ◌∷◌, ◌++◌, arith}
use mini_free_rtos.Heap.Blocks.{
  Store, returned, header_size, release_block, release_merged, release_found, free_with, free_2,
  free_4, merge_next, merge_previous,
}
use mini_free_rtos.Heap.Tiles.{Tile, free_tile, used_tile, span, allocations}
use mini_free_rtos.Heap.Cover.{Covers, heap_init_lem}
use mini_free_rtos.Heap.Fit.{Merged}
use mini_free_rtos.Heap.Release.{
  valid_lem, place_lem, insert_free-Covers, inserted, previous, cursor, stop,
}
use mini_free_rtos.Heap.Merge.{merge_next-MergedBehind}
use mini_free_rtos.Heap.MergeBack.{merge_previous-MergedAll}

Merged-behind : (xs : List Tile) (t : Tile) (ys : List Tile) → Merged (xs ++ t ∷ ys) → Merged ys
Merged-behind [] t ys m = m.1
Merged-behind (x ∷ xs) t ys m = Merged-behind xs t ys m.1

module _ (h : Store) (xs ys : List Tile) (s : ℕ) (c : Covers h (xs ++ used_tile s ∷ ys)) where
  abbrev pointer : ℕ
  pointer = span xs + header_size

  -- The pointer behind the header of a used tile is accepted, and the search ends at its place.
  free_with_lem :
      (release : ℕ → Option ℕ → Option ℕ → Store → Store)
      → free_with release (some pointer) h
        ≡ returned tt (release (span xs) (previous h xs ys s c) (cursor h xs ys s c) h)
  unfolding free_with release_found
  free_with_lem release =
      let block : span xs + header_size - header_size ≡ span xs = omega arith in
      rw (heap_init_lem h c.initialized, valid_lem h xs ys s c, block, place_lem h xs ys s c)

  -- When the tiles cover the heap, `vPortFree` of kernel/heap_2.c of the pointer behind the header of a
  -- used tile returns, and that tile is free; all other tiles stay, and the tiles still cover the heap.
  pub free_2-Covers :
      (h' : Store) × (free_2 (some pointer) h ≡ returned tt h') × Covers h' (xs ++ free_tile s ∷ ys)
  unfolding free_2 release_block
  free_2-Covers =
      (inserted h xs ys s c, free_with_lem release_block, insert_free-Covers h xs ys s c)

  -- When the tiles cover the heap and no two free ones stand side by side, `vPortFree` of
  -- kernel/heap_4.c of the pointer behind the header of a used tile returns. Again tiles cover the
  -- heap, no two free ones side by side, and the used ones are those from before without the one
  -- that was freed.
  pub free_4-Merged :
      Merged (xs ++ used_tile s ∷ ys)
      → (h' : Store) × (tiles : List Tile) × (free_4 (some pointer) h ≡ returned tt h')
        × Covers h' tiles
        × Merged tiles
        × (allocations 0 tiles ≡ allocations 0 xs ++ allocations (span xs + s) ys)
  unfolding free_4 release_merged
  free_4-Merged m =
      let behind =
        merge_next-MergedBehind (inserted h xs ys s c) xs s (stop h xs ys s c) ys
          (insert_free-Covers h xs ys s c) (Merged-behind xs (used_tile s) ys m) in
      let all =
        merge_previous-MergedAll (merge_next (span xs) (cursor h xs ys s c) (inserted h xs ys s c))
          behind.size s behind.rest ys behind.follows behind.merged xs behind.covers m in
      (
        merge_previous (previous h xs ys s c) (span xs)
            (merge_next (span xs) (cursor h xs ys s c) (inserted h xs ys s c)),
        all.tiles,
        free_with_lem release_merged,
        all.covers,
        all.merged,
        all.others ∙ ap (λ l. allocations 0 xs ++ l) behind.others,
      )
