-- ===== src/Tests/Heaps.antt =====
-- The theorems on kernel/heap_2.c and kernel/heap_4.c, on a heap from which one block has been taken.
use mini_free_rtos.Common.{
  ℕ, ◌+◌, ◌-◌, ◌≤◌, ◌≡◌, refl, Option, none, some, false, List, [], ◌∷◌, ◌++◌, arith,
}
use mini_free_rtos.Kernel.Outcome.{assertion_failed}
use mini_free_rtos.Sll.{find_place}
use mini_free_rtos.Heap.{usable_size, align_up}
use mini_free_rtos.Heap.Blocks.{
  Store, Run, returned, stopped, heap_init, header_size, block_malloc, free_2, free_4,
}
use mini_free_rtos.Heap.Tiles.{Tile, free_tile, used_tile, allocations}
use mini_free_rtos.Heap.Cover.{Covers, heap_init-Covers}
use mini_free_rtos.Heap.Fit.{Merged}
use mini_free_rtos.Heap.Take.{split_state, split-Covers}
use mini_free_rtos.Heap.Allocate.{Granted, block_malloc-Granted}
use mini_free_rtos.Heap.Free.{free_2-Covers, free_4-Merged}
use mini_free_rtos.Heap.Roundtrip.{block_malloc-free_4}
use mini_free_rtos.Heap.Misuse.{free_2-twice, free_4-twice}

-- Static storage before the first call.
abbrev raw : Store
raw = record {
  block_size = λ _. 0;
  block_next = λ _. none;
  block_magic = λ _. 0;
  free_list = none;
  free_bytes = 0;
  heap_initialized = false;
}

abbrev whole : List Tile
whole = free_tile usable_size ∷ []

whole-Covers : Covers (heap_init raw) whole
whole-Covers = heap_init-Covers raw refl

block_malloc-Granted_example :
    (100 ≤ align_up 100)
    × Granted (heap_init raw) whole (align_up 100 + header_size) (block_malloc 100 (heap_init raw))
block_malloc-Granted_example =
    block_malloc-Granted 100 (heap_init raw) whole whole-Covers (omega arith) (omega arith)

-- The first 144 bytes are used.
abbrev rest : List Tile
rest = free_tile (usable_size - 144) ∷ []

abbrev taken : Store
taken =
    split_state (heap_init raw) [] [] usable_size whole-Covers 144 (omega arith) refl (omega arith)

taken-Covers : Covers taken ([] ++ used_tile 144 ∷ rest)
taken-Covers =
    split-Covers (heap_init raw) [] [] usable_size whole-Covers 144 (omega arith) refl (omega arith)

free_2-Covers_example :
    (h' : Store) × (free_2 (some 32) taken ≡ returned tt h')
    × Covers h' ([] ++ free_tile 144 ∷ rest)
free_2-Covers_example = free_2-Covers taken [] rest 144 taken-Covers

freed_2 :
    (h' : Store) × (free_2 (some 32) taken ≡ returned tt h')
    × Covers h' ([] ++ free_tile 144 ∷ rest)
freed_2 = free_2-Covers taken [] rest 144 taken-Covers

free_4-Merged_example :
    (h' : Store) × (tiles : List Tile) × (free_4 (some 32) taken ≡ returned tt h')
    × Covers h' tiles
    × Merged tiles
    × (allocations 0 tiles ≡ allocations 0 [] ++ allocations 144 rest)
free_4-Merged_example = free_4-Merged taken [] rest 144 taken-Covers (refl, (refl, tt))

freed_4 :
    (h' : Store) × (tiles : List Tile) × (free_4 (some 32) taken ≡ returned tt h')
    × Covers h' tiles
    × Merged tiles
    × (allocations 0 tiles ≡ allocations 0 [] ++ allocations 144 rest)
freed_4 = free_4-Merged taken [] rest 144 taken-Covers (refl, (refl, tt))

free_2-twice_example : free_2 (some 32) freed_2.0 ≡ stopped assertion_failed
free_2-twice_example = free_2-twice 32 taken freed_2.0 freed_2.1

free_4-twice_example : free_4 (some 32) freed_4.0 ≡ stopped assertion_failed
free_4-twice_example = free_4-twice 32 taken freed_4.0 freed_4.2

abbrev store_of : Run (Option ℕ) → Store
store_of (returned _ h) = h
store_of (stopped _) = raw

granted_run :
    block_malloc 100 (heap_init raw)
    ≡ returned (some 32) (store_of (block_malloc 100 (heap_init raw)))
unfolding block_malloc heap_init align_up find_place
granted_run = refl

block_malloc-free_4_example :
    (h2 : Store) × (free_4 (some 32) (store_of (block_malloc 100 (heap_init raw))) ≡ returned tt h2)
    × Covers h2 whole
    × (h2.free_bytes ≡ (heap_init raw).free_bytes)
block_malloc-free_4_example =
    block_malloc-free_4 whole (heap_init raw) whole-Covers (refl, tt) 100 (omega arith)
      (omega arith) 32 (store_of (block_malloc 100 (heap_init raw))) granted_run
