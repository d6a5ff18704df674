-- ===== src/Heap/Misuse.antt =====
-- vPortFree of kernel/heap_2.c and kernel/heap_4.c: what it does with a pointer that is not valid.
use mini_free_rtos.Common.{
  ℕ, ◌-◌, ◌≡◌, refl, ap, subst, ◌∙◌, inl, inr, Option, none, some, true, false, arith, Bool-cases,
  ◌==◌,
}
use mini_free_rtos.Kernel.Outcome.{assertion_failed}
use mini_free_rtos.Heap.Blocks.{
  Store, returned, stopped, header_size, free_mark, allocated_mark, heap_init, release_block,
  release_merged, release_found, free_with, free_2, free_4, is_block_pointer, free_place,
  insert_free, merge_next, merge_previous, absorb_if, touches,
}
use mini_free_rtos.Heap.Cover.{heap_init_lem}

-- What is freed is marked as free, and the heap stays set up.
abbrev Unmarks : (ℕ → Option ℕ → Option ℕ → Store → Store) → Type 0
Unmarks release =
    (block : ℕ) (previous cursor : Option ℕ) (h : Store)
    → ((release block previous cursor h).block_magic block ≡ free_mark)
      × ((release block previous cursor h).heap_initialized ≡ h.heap_initialized)

release_block-Unmarks : Unmarks release_block
unfolding release_block
release_block-Unmarks block previous cursor h = (ground arith, refl)

absorb_if-magic :
    (block other : ℕ) (h : Store)
    → ((absorb_if block other h).block_magic ≡ h.block_magic)
      × ((absorb_if block other h).heap_initialized ≡ h.heap_initialized)
unfolding absorb_if
absorb_if-magic block other h = elim (Bool-cases (touches block other h)) [
  | inl e ↦ rw e (refl, refl)
  | inr e ↦ rw e (refl, refl)
]

merge_next-magic :
    (block : ℕ) (cursor : Option ℕ) (h : Store)
    → ((merge_next block cursor h).block_magic ≡ h.block_magic)
      × ((merge_next block cursor h).heap_initialized ≡ h.heap_initialized)
unfolding merge_next
merge_next-magic block none h = (refl, refl)
merge_next-magic block (some cursor) h = absorb_if-magic block cursor h

merge_previous-magic :
    (previous : Option ℕ) (block : ℕ) (h : Store)
    → ((merge_previous previous block h).block_magic ≡ h.block_magic)
      × ((merge_previous previous block h).heap_initialized ≡ h.heap_initialized)
unfolding merge_previous
merge_previous-magic none block h = (refl, refl)
merge_previous-magic (some previous) block h = absorb_if-magic previous block h

release_merged-Unmarks : Unmarks release_merged
unfolding release_merged
release_merged-Unmarks block previous cursor h =
    let h1 = insert_free block previous cursor h in
    let h2 = merge_next block cursor h1 in
    let (m1, i1) = merge_next-magic block cursor h1 in
    let (m2, i2) = merge_previous-magic previous block h2 in
    let marked : h1.block_magic block ≡ free_mark = ground arith in
    (ap (λ f. f block) (m2 ∙ m1) ∙ marked, i2 ∙ i1)

-- The assertion of vPortFree fails for a block without the mark.
unmarked-invalid :
    (p : ℕ) (h : Store) → h.block_magic (p - header_size) ≡ free_mark → is_block_pointer p h ≡ false
unfolding is_block_pointer
unmarked-invalid p h e =
    let miss : (h.block_magic (p - header_size) == allocated_mark) ≡ false = rw e refl in
    ground (arith, miss)

heap_init-initialized : (h : Store) → (heap_init h).heap_initialized ≡ true
unfolding heap_init
heap_init-initialized h = ground arith

module _ (release : ℕ → Option ℕ → Option ℕ → Store → Store) (unmarks : Unmarks release)
    (p : ℕ) where
  release_found-marks :
      (place : Option (Option ℕ × Option ℕ)) (h h' : Store)
      → h.heap_initialized ≡ true
      → release_found release (p - header_size) place h ≡ returned tt h'
      → (h'.block_magic (p - header_size) ≡ free_mark) × (h'.heap_initialized ≡ true)
  unfolding release_found
  release_found-marks none h h' i e = cc
  release_found-marks (some (previous, cursor)) h h' i e =
      let same : release (p - header_size) previous cursor h ≡ h' = cc in
      let (m, j) = unmarks (p - header_size) previous cursor h in
      subst (λ h'. (h'.block_magic (p - header_size) ≡ free_mark) × (h'.heap_initialized ≡ true))
        same (m, j ∙ i)

  free_with-twice :
      (h h' : Store)
      → free_with release (some p) h ≡ returned tt h'
      → free_with release (some p) h' ≡ stopped assertion_failed
  unfolding free_with
  free_with-twice h h' e = elim (Bool-cases (is_block_pointer p (heap_init h))) [
    | inl valid ↦
        (let (m, i) =
            release_found-marks (free_place (p - header_size) (heap_init h)) (heap_init h) h'
              (heap_init-initialized h) (rw valid at e) in
          rw (heap_init_lem h' i, unmarked-invalid p h' m))
    | inr invalid ↦ (let e' = rw invalid at e in cc)
  ]

-- When `vPortFree` of kernel/heap_2.c of a pointer has returned, in any state of the heap, a second
-- `vPortFree` of the same pointer right after it stops with a failed assertion.
pub free_2-twice :
    (p : ℕ) (h h' : Store)
    → free_2 (some p) h ≡ returned tt h'
    → free_2 (some p) h' ≡ stopped assertion_failed
unfolding free_2
free_2-twice = free_with-twice release_block release_block-Unmarks

-- When `vPortFree` of kernel/heap_4.c of a pointer has returned, in any state of the heap, a second
-- `vPortFree` of the same pointer right after it stops with a failed assertion, whether or not the
-- block has been merged with others.
pub free_4-twice :
    (p : ℕ) (h h' : Store)
    → free_4 (some p) h ≡ returned tt h'
    → free_4 (some p) h' ≡ stopped assertion_failed
unfolding free_4
free_4-twice = free_with-twice release_merged release_merged-Unmarks
