-- ===== src/Heap.antt =====
-- kernel/heap_1.c, the heap that only grows, and the alignment of kernel/heap_internal.h. size_t has
-- 64 bits; the critical sections around the two variables keep ticks out and change nothing here.
pub mod Blocks
pub mod Tiles
pub mod Cover
pub mod Fit
pub mod Take
pub mod Allocate
pub mod Release
pub mod Absorb
pub mod Merge
pub mod MergeBack
pub mod Free
pub mod Unique
pub mod Roundtrip
pub mod Misuse
use mini_free_rtos.Common.{
  ℕ, ◌+◌, ◌-◌, ◌*◌, ◌/◌, ◌%◌, ◌≤◌, ◌<◌, ◌≡◌, refl, ap, Option, none, some, false, List, [], ◌∷◌,
  ltb, ◌==◌, if◌then◌else◌, arith, inl, inr, Bool-cases, Option-cases, subst, sym,
}

-- portBYTE_ALIGNMENT, configTOTAL_HEAP_SIZE, SIZE_MAX
abbrev pub byte_alignment : ℕ
byte_alignment = 8

abbrev pub total_heap_size : ℕ
total_heap_size = 1048576

abbrev pub size_max : ℕ
size_max = 18446744073709551615

-- MINI_HEAP_USABLE_SIZE: masking the low bits off is rounding down.
abbrev pub usable_size : ℕ
usable_size = total_heap_size / byte_alignment * byte_alignment

-- `miniHeapAlignUp`
unfoldable pub align_up : ℕ → ℕ
align_up size =
    if ltb (size_max - (byte_alignment - 1)) size
    then 0
    else (size + (byte_alignment - 1)) / byte_alignment * byte_alignment

-- The static variables; an address is an offset into `ucHeap`.
pub record Heap : Type 0 where
  pub next_free : ℕ
  pub free_bytes : ℕ

abbrev pub fresh : Heap
fresh = record { next_free = 0; free_bytes = usable_size }

-- `pvPortMalloc`
unfoldable pub malloc : ℕ → Heap → Option ℕ × Heap
malloc size h =
    let aligned_size = align_up size in
    if size == 0
    then (none, h)
    else if aligned_size == 0
    then (none, h)
    else if ltb h.free_bytes aligned_size
    then (none, h)
    else (
      some h.next_free,
      record { next_free = h.next_free + aligned_size; free_bytes = h.free_bytes - aligned_size },
    )

-- `xPortGetFreeHeapSize`
unfoldable pub get_free_heap_size : Heap → ℕ
get_free_heap_size h = h.free_bytes

-- A request that does not overflow is rounded up to the next multiple of the alignment.
pub align_up_lem :
    (size : ℕ)
    → size + 7 ≤ size_max
    → (align_up size % byte_alignment ≡ 0)
      × (size ≤ align_up size)
      × (align_up size < size + byte_alignment)
unfolding align_up
align_up_lem size fits = ground arith

-- What is used and what is free make up the heap, and blocks begin on multiples of the alignment.
pub record IsValid (h : Heap) : Type 0 where
  pub conserved : h.next_free + h.free_bytes ≡ usable_size
  pub aligned : h.next_free % byte_alignment ≡ 0

-- A block that was got, before the later ones.
abbrev pub keep : Option ℕ → ℕ → List (ℕ × ℕ) → List (ℕ × ℕ)
keep none size blocks = blocks
keep (some a) size blocks = (a, size) ∷ blocks

-- The blocks that a sequence of requests gets, each with its size, and the heap that is left.
unfoldable pub requests : Heap → List ℕ → List (ℕ × ℕ)
requests h [] = []
requests h (size ∷ sizes) = let (a, h') = malloc size h in keep a size (requests h' sizes)

-- Each block is not empty, is aligned, lies in the heap, and begins behind the blocks before it.
abbrev pub Apart : ℕ → List (ℕ × ℕ) → Type 0
Apart low [] = Unit {0}
Apart low ((a, size) ∷ bs) =
    (low ≤ a)
    × (a % byte_alignment ≡ 0)
    × (a + size ≤ usable_size)
    × (0 < size)
    × Apart (a + size) bs

Apart-weaken : (low low' : ℕ) (bs : List (ℕ × ℕ)) → low' ≤ low → Apart low bs → Apart low' bs
Apart-weaken low low' [] h a = tt
Apart-weaken low low' ((b, size) ∷ bs) h a = (omega arith, a.1, a.2, a.3, a.4)

-- A request keeps the heap valid. If it gets a block, that begins at the next free byte, lies in the
-- heap, and the next free byte is behind it; otherwise the heap is as it was.
pub record Allocated (size : ℕ) (h : Heap) (r : Option ℕ × Heap) : Type 0 where
  pub valid : IsValid r.1
  pub got : (a : ℕ) → r.0 ≡ some a → (a ≡ h.next_free) × (0 < size) × (a + size ≤ r.1.next_free)
  pub refused : r.0 ≡ none → r.1 ≡ h

-- A size that is not refused as too large.
align_up_bound :
    (size : ℕ)
    → (align_up size == 0) ≡ false
    → (align_up size % byte_alignment ≡ 0) × (size ≤ align_up size)
unfolding align_up
align_up_bound size h = ground arith

-- The heap as it was.
kept-Allocated : (size : ℕ) (h : Heap) → IsValid h → Allocated size h (none, h)
kept-Allocated size h v = record { valid = v; got = λ a e. ground arith; refused = λ e. refl }

-- The next block.
taken-Allocated :
    (size aligned_size : ℕ) (h : Heap)
    → IsValid h
    → 0 < size
    → aligned_size % byte_alignment ≡ 0
    → size ≤ aligned_size
    → aligned_size ≤ h.free_bytes
    → Allocated size h (
      some h.next_free,
      record { next_free = h.next_free + aligned_size; free_bytes = h.free_bytes - aligned_size },
    )
taken-Allocated size aligned_size h v pos al up fits = record {
  valid = record { conserved = ground (arith, v.conserved); aligned = ground (arith, v.aligned) };
  got = λ a e. ground arith;
  refused = λ e. ground arith;
}

malloc-Allocated : (size : ℕ) (h : Heap) → IsValid h → Allocated size h (malloc size h)
unfolding malloc
malloc-Allocated size h v = elim (Bool-cases (size == 0)) [
  | inl e ↦ rw e (kept-Allocated size h v)
  | inr pos ↦ elim (Bool-cases (align_up size == 0)) [
    | inl e ↦ rw (pos, e) (kept-Allocated size h v)
    | inr some_size ↦ elim (Bool-cases (ltb h.free_bytes (align_up size))) [
      | inl e ↦ rw (pos, some_size, e) (kept-Allocated size h v)
      | inr fits ↦
          (let (al, up) = align_up_bound size some_size in
            rw (pos, some_size, fits)
              (taken-Allocated size (align_up size) h v (ground arith) al up (ground arith)))
    ]
  ]
]

-- From a valid heap, however often memory is asked for, the blocks that are handed out are not
-- empty, are aligned, lie in the heap, and do not overlap.
pub requests-Apart : (sizes : List ℕ) (h : Heap) → IsValid h → Apart h.next_free (requests h sizes)
unfolding requests
requests-Apart [] h v = tt
requests-Apart (size ∷ sizes) h v =
    let r = malloc-Allocated size h v in
    let rest = requests-Apart sizes (malloc size h).1 r.valid in
    let next = (malloc size h).1 in
    let blocks = λ (o : Option ℕ). Apart h.next_free (keep o size (requests next sizes)) in
    elim (Option-cases (malloc size h).0) [
      | inl e ↦
          (let same = ap (λ g. g.next_free) (r.refused e) in
            subst blocks (sym e)
              (Apart-weaken next.next_free h.next_free (requests next sizes) (omega arith) rest))
      | inr (a, e) ↦
          (let (at_free, pos, behind) = r.got a e in
            let whole = r.valid.conserved in
            subst blocks (sym e) (
              omega arith,
              ground (arith, v.aligned),
              omega arith,
              pos,
              Apart-weaken next.next_free (a + size) (requests next sizes) behind rest,
            ))
    ]

pub fresh-IsValid : IsValid fresh
fresh-IsValid = record { conserved = refl; aligned = refl }
