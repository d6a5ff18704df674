-- ===== src/Heap/Blocks.antt =====
-- kernel/heap_2.c and kernel/heap_4.c: a heap of blocks, the free ones in a list by address. The
-- files differ in what vPortFree does at its end. An address is an offset into `ucHeap`, and a
-- pointer outside the heap is an offset behind it; the critical sections keep ticks out and change
-- nothing here. The searches run on fuel. The fields of a header are functions from the address of
-- its block, not bytes of `ucHeap`: headers that overlap one another or what a task has written do
-- not alias here. In the theorems the blocks stand side by side, each long enough for its header,
-- and tasks write behind it.
use mini_free_rtos.Common.{
  ℕ, ◌+◌, ◌-◌, ◌%◌, Option, none, some, Bool, true, ◌&&◌, ◌||◌, ltb, leb, ◌==◌, if◌then◌else◌,
  update,
}
use mini_free_rtos.Sll.{find_place, link}
use mini_free_rtos.Heap.{byte_alignment, usable_size, size_max, align_up}
use mini_free_rtos.Kernel.Outcome.{Fault, assertion_failed, out_of_fuel}

-- sizeof(HeapBlock_t) with 64-bit pointers, and the least block.
abbrev pub header_size : ℕ
header_size = 32

abbrev pub least_size : ℕ
least_size = header_size + byte_alignment

-- eBlockFree, eBlockAllocated
abbrev pub free_mark : ℕ
free_mark = 1179796805

abbrev pub allocated_mark : ℕ
allocated_mark = 1095519311

-- Addition of size_t.
abbrev pub add64 : ℕ → ℕ → ℕ
add64 a b = (a + b) % (size_max + 1)

-- The fields of the header at an address, and the static variables.
pub record Store : Type 0 where
  pub block_size : ℕ → ℕ
  pub block_next : ℕ → Option ℕ
  pub block_magic : ℕ → ℕ
  pub free_list : Option ℕ
  pub free_bytes : ℕ
  pub heap_initialized : Bool

pub data Run (A : Type 0) : Type 0 where
  returned : A → Store → Run A
  stopped : Fault → Run A

-- `prvHeapInit`
unfoldable pub heap_init : Store → Store
heap_init h = if h.heap_initialized then h else record {
  block_size = update h.block_size 0 usable_size;
  block_next = update h.block_next 0 none;
  block_magic = update h.block_magic 0 free_mark;
  free_list = some 0;
  free_bytes = usable_size;
  heap_initialized = true;
}

-- `prvBlockPointerIsValid` of a pointer that is not NULL; its block is a header before it.
unfoldable pub is_block_pointer : ℕ → Store → Bool
is_block_pointer pointer h =
    let block = pointer - header_size in
    let size = h.block_size block in
    ltb pointer usable_size
    && pointer % byte_alignment == 0
    && leb header_size pointer
    && h.block_magic block == allocated_mark
    && leb least_size size
    && leb size usable_size
    && size % byte_alignment == 0
    && leb size (usable_size - block)

-- The free list with another pointer behind `previous`.
abbrev pub relink : Option ℕ → Option ℕ → Store → Store
relink previous v h =
    let (head, next) = link previous v (h.free_list, h.block_next) in
    record h { free_list = head; block_next = next }

-- The end of pvPortMalloc, for a block that has left the free list.
unfoldable pub allocate : ℕ → ℕ → Store → Run (Option ℕ)
allocate block total_size h =
    if leb total_size h.free_bytes && h.block_magic block == free_mark
    then returned (some (block + header_size)) (record h {
      free_bytes = h.free_bytes - total_size;
      block_next = update h.block_next block none;
      block_size = update h.block_size block total_size;
      block_magic = update h.block_magic block allocated_mark;
    })
    else stopped assertion_failed

-- The block behind the first `total_size` bytes of a block stays free.
abbrev pub leave_remainder : ℕ → ℕ → Option ℕ → Store → Store
leave_remainder block total_size previous h =
    let remainder = block + total_size in
    relink previous (some remainder) (record h {
      block_size = update h.block_size remainder (h.block_size block - total_size);
      block_next = update h.block_next remainder (h.block_next block);
      block_magic = update h.block_magic remainder free_mark;
    })

-- What pvPortMalloc does with the block that its search found.
unfoldable pub take_block : ℕ → Option ℕ → Option ℕ → Store → Run (Option ℕ)
unfolding allocate
take_block total_size previous none h = returned none h
take_block total_size previous (some block) h =
    if leb least_size (h.block_size block - total_size)
    then allocate block total_size (leave_remainder block total_size previous h)
    else allocate block (h.block_size block) (relink previous (h.block_next block) h)

-- What it does at the end of its search.
unfoldable pub take_found : ℕ → Option (Option ℕ × Option ℕ) → Store → Run (Option ℕ)
unfolding take_block
take_found total_size none h = stopped out_of_fuel
take_found total_size (some (previous, block)) h = take_block total_size previous block h

-- The search of pvPortMalloc: the first block that is large enough.
unfoldable pub malloc_total : ℕ → Store → Run (Option ℕ)
unfolding take_found
malloc_total total_size h =
    let place =
      find_place usable_size (λ b. leb total_size (h.block_size b)) h.block_next none h.free_list in
    take_found total_size place h

-- `pvPortMalloc`
unfoldable pub block_malloc : ℕ → Store → Run (Option ℕ)
unfolding malloc_total
block_malloc size h =
    let aligned_size = align_up size in
    let total_size = align_up (add64 aligned_size header_size) in
    if size == 0
    then returned none h
    else if aligned_size == 0 || ltb (size_max - header_size) aligned_size
    then returned none h
    else if total_size == 0
    then returned none h
    else malloc_total total_size (heap_init h)

-- A block goes into the free list between `previous` and `cursor`.
abbrev pub insert_free : ℕ → Option ℕ → Option ℕ → Store → Store
insert_free block previous cursor h =
    let h' = relink previous (some block) (record h {
      block_magic = update h.block_magic block free_mark;
      block_next = update h.block_next block cursor;
    }) in
    record h' { free_bytes = add64 h'.free_bytes (h'.block_size block) }

-- A free block takes over the next one, `other`.
abbrev pub absorb : ℕ → ℕ → Store → Store
absorb block other h = record h {
  block_size = update h.block_size block (add64 (h.block_size block) (h.block_size other));
  block_next = update h.block_next block (h.block_next other);
}

-- Whether a block ends where another one begins.
abbrev pub touches : ℕ → ℕ → Store → Bool
touches block other h = block + h.block_size block == other

unfoldable pub absorb_if : ℕ → ℕ → Store → Store
absorb_if block other h = if touches block other h then absorb block other h else h

unfoldable pub merge_next : ℕ → Option ℕ → Store → Store
unfolding absorb_if
merge_next block none h = h
merge_next block (some cursor) h = absorb_if block cursor h

unfoldable pub merge_previous : Option ℕ → ℕ → Store → Store
unfolding absorb_if
merge_previous none block h = h
merge_previous (some previous) block h = absorb_if previous block h

-- The search of vPortFree: the first free block that does not lie before `block`.
unfoldable pub free_place : ℕ → Store → Option (Option ℕ × Option ℕ)
free_place block h = find_place usable_size (λ c. leb block c) h.block_next none h.free_list

-- What the two files do with a block and its place.
unfoldable pub release_block : ℕ → Option ℕ → Option ℕ → Store → Store
release_block block previous cursor h = insert_free block previous cursor h

unfoldable pub release_merged : ℕ → Option ℕ → Option ℕ → Store → Store
unfolding merge_next merge_previous
release_merged block previous cursor h =
    merge_previous previous block (merge_next block cursor (insert_free block previous cursor h))

unfoldable pub release_found :
    (ℕ → Option ℕ → Option ℕ → Store → Store)
    → ℕ
    → Option (Option ℕ × Option ℕ)
    → Store
    → Run (Unit {0})
release_found release block none h = stopped out_of_fuel
release_found release block (some (previous, cursor)) h =
    returned tt (release block previous cursor h)

-- `vPortFree`, given what is done with the block.
unfoldable pub free_with :
    (ℕ → Option ℕ → Option ℕ → Store → Store) → Option ℕ → Store → Run (Unit {0})
unfolding free_place release_found
free_with release none h = returned tt h
free_with release (some pointer) h =
    let h' = heap_init h in
    let block = pointer - header_size in
    if is_block_pointer pointer h'
    then release_found release block (free_place block h') h'
    else stopped assertion_failed

-- `vPortFree` of kernel/heap_2.c and of kernel/heap_4.c
unfoldable pub free_2 : Option ℕ → Store → Run (Unit {0})
unfolding free_with
free_2 = free_with release_block

unfoldable pub free_4 : Option ℕ → Store → Run (Unit {0})
unfolding free_with
free_4 = free_with release_merged

-- `xPortGetFreeHeapSize`
unfoldable pub free_heap_size : Store → ℕ × Store
free_heap_size h = let h' = heap_init h in (h'.free_bytes, h')
