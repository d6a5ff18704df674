-- ===== src/Heap/Allocate.antt =====
-- pvPortMalloc of kernel/heap_2.c and kernel/heap_4.c, first fit: the first free tile that is large
-- enough is used, in part if a tile can be left.
use mini_free_rtos.Common.{
  ℕ, ◌+◌, ◌-◌, ◌%◌, ◌≤◌, ◌<◌, ◌≡◌, refl, ap, sym, subst, ◌∙◌, inl, inr, Option, none, some, Bool,
  false, ◌||◌, List, [], ◌∷◌, ◌++◌, ltb, leb, ◌==◌, arith, Bool-cases,
}
use mathlib.Core.List.{append-nil}
use mini_free_rtos.Sll.Chain.{last_or}
use mini_free_rtos.Heap.{byte_alignment, usable_size, size_max, align_up, align_up_lem}
use mini_free_rtos.Heap.Blocks.{
  Store, add64, block_malloc, Run, returned, free_mark, least_size, header_size, allocate,
  take_block, take_found, leave_remainder, relink, malloc_total,
}
use mini_free_rtos.Heap.Tiles.{
  Tile, free_tile, used_tile, span, frees, allocations, allocations-append, Tiled-split,
  free_total-append,
}
use mini_free_rtos.Heap.Cover.{Covers, heap_init_lem, find_place-Covers}
use mini_free_rtos.Heap.Fit.{
  Small, Merged, Fit, none_fits, fits, first-Fit, Small-frees, Merged-used,
}
use mini_free_rtos.Heap.Take.{allocated_state, parts, places, whole-Covers, split-Covers}

-- What pvPortMalloc does to a heap of tiles. It leaves it alone, and no free tile is large enough;
-- or it takes the first free tile that is, where `Small` says that no free tile before is large
-- enough: its first `total` bytes if what is left can hold a block, and else all of it. All other
-- used tiles stay.
pub data Granted (h : Store) (ts : List Tile) (total : ℕ) : Run (Option ℕ) → Type 0 where
  refused : Small total ts → Granted h ts total (returned none h)
  split_first :
      {h' : Store} (xs : List Tile) (s : ℕ) (ys : List Tile)
      → ts ≡ xs ++ free_tile s ∷ ys
      → Small total xs
      → total + least_size ≤ s
      → Covers h' (xs ++ used_tile total ∷ free_tile (s - total) ∷ ys)
      → allocations 0 ts ≡ allocations 0 xs ++ allocations (span xs + total + (s - total)) ys
      → (Merged ts → Merged (xs ++ used_tile total ∷ free_tile (s - total) ∷ ys))
      → Granted h ts total (returned (some (span xs + header_size)) h')
  whole_first :
      {h' : Store} (xs : List Tile) (s : ℕ) (ys : List Tile)
      → ts ≡ xs ++ free_tile s ∷ ys
      → Small total xs
      → total ≤ s
      → s < total + least_size
      → Covers h' (xs ++ used_tile s ∷ ys)
      → allocations 0 ts ≡ allocations 0 xs ++ allocations (span xs + s) ys
      → (Merged ts → Merged (xs ++ used_tile s ∷ ys))
      → Granted h ts total (returned (some (span xs + header_size)) h')

-- What `allocate` needs.
allocate_lem :
    (block total : ℕ) (h : Store)
    → total ≤ h.free_bytes
    → h.block_magic block ≡ free_mark
    → allocate block total h ≡ returned (some (block + header_size)) (allocated_state block total h)
unfolding allocate
allocate_lem block total h enough free = ground arith

take_block-Granted :
    (total : ℕ) (h : Store) (xs : List Tile) (s : ℕ) (ys : List Tile)
    (c : Covers h (xs ++ free_tile s ∷ ys))
    → least_size ≤ total
    → total % byte_alignment ≡ 0
    → total ≤ s
    → Small total xs
    → Granted h
        (xs ++ free_tile s ∷ ys)
        total
        (take_block total (last_or none (frees 0 xs)) (some (span xs)) h)
unfolding take_block
take_block-Granted total h xs s ys c least multiple enough small =
    let (lo, hi, d, (size, magic, least_s, even)) = places h xs ys s c in
    let count = free_total-append xs (free_tile s ∷ ys) in
    let begin : 0 + span xs ≡ span xs = omega arith in
    let others =
      allocations-append 0 xs (free_tile s ∷ ys)
      ∙ ap (λ b. allocations 0 xs ++ allocations (b + s) ys) begin in
    let previous = last_or none (frees 0 xs) in
    elim (Bool-cases (leb least_size (h.block_size (span xs) - total))) [
      | inl room ↦
          (let fit : total + least_size ≤ s = ground (arith, size) in
            let behind : span xs + total + (s - total) ≡ span xs + s = omega arith in
            let run =
              allocate_lem (span xs) total (leave_remainder (span xs) total previous h)
                (ground (arith, c.bytes, count)) (ground (arith, magic)) in
            rw room (
              subst (Granted h (xs ++ free_tile s ∷ ys) total) (sym run) (
                split_first xs s ys refl small fit
                  (split-Covers h xs ys s c total least multiple fit)
                  (others ∙ ap (λ b. allocations 0 xs ++ allocations b ys) (sym behind))
                  (Merged-used xs s total ys (free_tile (s - total) ∷ ys) (λ m. m)))))
      | inr tight ↦
          (let run =
              allocate_lem (span xs) (h.block_size (span xs))
                (relink previous (h.block_next (span xs)) h) (ground (arith, c.bytes, count, size))
                (ground (arith, magic)) in
            rw tight (
              subst (Granted h (xs ++ free_tile s ∷ ys) total) (sym run) (
                whole_first xs s ys refl small enough (ground (arith, size))
                  (whole-Covers h xs ys s c) others (Merged-used xs s s ys ys (λ m. m.1)))))
    ]

-- When the tiles cover the heap, a search for a block of a size that is a multiple of the alignment
-- ends, the assertion holds, and the first free tile that is large enough is granted.
pub malloc_total-Granted :
    (total : ℕ) (h : Store) (ts : List Tile)
    → Covers h ts
    → least_size ≤ total
    → total % byte_alignment ≡ 0
    → Granted h ts total (malloc_total total h)
unfolding malloc_total
malloc_total-Granted total h ts c least multiple = by_fit ts (first-Fit total ts) c
  where
    stop : ℕ → Bool
    stop b = leb total (h.block_size b)

    by_fit :
        (ts : List Tile) → Fit total ts → Covers h ts → Granted h ts total (malloc_total total h)
    by_fit ts (none_fits small) c =
        let found =
          find_place-Covers h ts stop (frees 0 ts) [] c (sym (append-nil (frees 0 ts)))
            (λ x i. Small-frees h.block_size h.block_magic total 0 ts usable_size x c.tiled small i)
            tt in
        subst (λ r. Granted h ts total (take_found total r h)) (sym found) (refused small)
    by_fit ts (fits xs s ys small enough) c =
        let (e, l, r) = parts h xs ys s c in
        let (lo, hi, d, (size, magic, least_s, even)) = places h xs ys s c in
        let (left_tiles, right_tiles) =
          Tiled-split h.block_size h.block_magic 0 xs (free_tile s ∷ ys) usable_size c.tiled in
        let found =
          find_place-Covers h (xs ++ free_tile s ∷ ys) stop (frees 0 xs)
            (span xs ∷ frees (span xs + s) ys) c e
            (λ x i.
              Small-frees h.block_size h.block_magic total 0 xs (0 + span xs) x left_tiles small i)
            (ground (arith, size)) in
        subst (λ r. Granted h (xs ++ free_tile s ∷ ys) total (take_found total r h)) (sym found)
          (take_block-Granted total h xs s ys c least multiple enough small)

-- Rounding up adds nothing to a multiple.
aligned_lem :
    (n : ℕ)
    → n + 40 ≤ size_max
    → n % byte_alignment ≡ 0
    → align_up (add64 n header_size) ≡ n + header_size
unfolding align_up
aligned_lem n short even = ground arith

-- The size of the block for a request that does not overflow.
total_lem :
    (size : ℕ)
    → 0 < size
    → size + 64 ≤ size_max
    → ((align_up size == 0 || ltb (size_max - header_size) (align_up size)) ≡ false)
      × (align_up (add64 (align_up size) header_size) ≡ align_up size + header_size)
      × (align_up size % byte_alignment ≡ 0)
      × (size ≤ align_up size)
total_lem size pos short =
    let (even, up, near) = align_up_lem size (omega arith) in
    (ground arith, aligned_lem (align_up size) (ground arith) even, even, up)

-- When the tiles cover the heap, `pvPortMalloc` of a size that is not zero and does not overflow
-- returns. With `total` the size, rounded up to the alignment, and a header, it refuses, and leaves
-- the heap alone, only if no free tile has room for `total`. Otherwise it takes the first free tile
-- that has room, no free tile before it being large enough: its first `total` bytes if at least
-- `least_size` bytes are left, which become a free tile, and else the whole tile. The pointer is
-- behind the header; no other used tile changes, the tiles still cover the heap, and if no free
-- tiles stood side by side, none do.
pub block_malloc-Granted :
    (size : ℕ) (h : Store) (ts : List Tile)
    → Covers h ts
    → 0 < size
    → size + 64 ≤ size_max
    → (size ≤ align_up size) × Granted h ts (align_up size + header_size) (block_malloc size h)
unfolding block_malloc
block_malloc-Granted size h ts c pos short =
    let (small, total, even, up) = total_lem size pos short in
    let zero : (size == 0) ≡ false = ground arith in
    let some_bytes : (align_up size + header_size == 0) ≡ false = ground arith in
    let start = heap_init_lem h c.initialized in
    (
      up,
      rw (zero, small, total, some_bytes, start)
          (malloc_total-Granted (align_up size + header_size) h ts c (omega (arith, even, up))
            (omega (arith, even))),
    )
