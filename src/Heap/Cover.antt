-- ===== src/Heap/Cover.antt =====
-- What a state of the heap of kernel/heap_2.c and kernel/heap_4.c stands for.
use mini_free_rtos.Common.{
  ℕ, ◌≡◌, refl, ap, subst, none, some, Bool, true, false, List, [], ◌∷◌, ◌++◌, arith, ◌∈◌, length,
}
use mini_free_rtos.Sll.{find_place}
use mini_free_rtos.Sll.Chain.{Chain, last_or}
use mini_free_rtos.Dll.Sorted.{first_of}
use mini_free_rtos.Sll.Search.{Stops, find_place-split}
use mini_free_rtos.Heap.{usable_size}
use mini_free_rtos.Heap.Blocks.{Store, heap_init}
use mini_free_rtos.Heap.Tiles.{Tile, free_tile, free_total, frees, Tiled, frees_length}

-- The tiles cover the heap, the free list leads through the free ones by address, and `free_bytes`
-- counts their bytes.
pub record Covers (h : Store) (ts : List Tile) : Type 0 where
  pub tiled : Tiled h.block_size h.block_magic 0 ts usable_size
  pub chain : Chain h.block_next h.free_list (frees 0 ts) none
  pub bytes : h.free_bytes ≡ free_total ts
  pub initialized : h.heap_initialized ≡ true

-- Before the first call nothing is set up; afterwards one free tile covers the heap.
pub heap_init-Covers :
    (h : Store) → h.heap_initialized ≡ false → Covers (heap_init h) (free_tile usable_size ∷ [])
unfolding heap_init
heap_init-Covers h e = rw e (record {
  tiled = (refl, refl, omega arith, refl, refl);
  chain = (refl, refl);
  bytes = refl;
  initialized = refl;
})

pub heap_init_lem : (h : Store) → h.heap_initialized ≡ true → heap_init h ≡ h
unfolding heap_init
heap_init_lem h e = ground arith

-- A search of the free list that stops between `xs` and `ys`.
pub find_place-Covers :
    (h : Store) (ts : List Tile) (stop : ℕ → Bool) (xs ys : List ℕ)
    → Covers h ts
    → frees 0 ts ≡ xs ++ ys
    → ((x : ℕ) → x ∈ xs → stop x ≡ false)
    → Stops stop ys
    → find_place usable_size stop h.block_next none h.free_list
      ≡ some (last_or none xs, first_of stop ys)
find_place-Covers h ts stop xs ys c e over at_ys =
    let few = frees_length h.block_size h.block_magic 0 ts usable_size c.tiled in
    find_place-split stop usable_size h.block_next none h.free_list xs ys
      (subst (λ zs. Chain h.block_next h.free_list zs none) e c.chain)
      (omega (arith, few, ap length e)) over at_ys
