-- ===== src/Tasks/Name.antt =====
-- Task names: `prvCopyName` of kernel/tasks.c.
use mini_free_rtos.Common.{
  ℕ, zero, suc, ◌+◌, ◌<◌, ◌≤◌, ◌≡◌, ◌≢◌, ◌⊎◌, inl, inr, subst, ◌==◌, if◌then◌else◌, update, arith,
  Bool-cases,
}

-- The rest of the loop of `prvCopyName`, with `room` bytes left from `index` on.
unfoldable pub copy_rest : ℕ → ℕ → (ℕ → ℕ) → (ℕ → ℕ) → ℕ → ℕ
copy_rest zero index source destination = destination
copy_rest (suc zero) index source destination = update destination index 0
copy_rest (suc (suc room)) index source destination =
    let rest = copy_rest (suc room) (index + 1) source (update destination index (source index)) in
    if source index == 0 then update destination index 0 else rest

-- `prvCopyName`
unfoldable pub copy_name : (ℕ → ℕ) → ℕ → (ℕ → ℕ) → ℕ → ℕ
unfolding copy_rest
copy_name destination destination_size source = copy_rest destination_size 0 source destination

-- A string of at most `size` bytes, the terminator included, that is the source or its beginning.
pub record Copied (from size : ℕ) (source destination result : ℕ → ℕ) : Type 0 where
  pub end : ℕ
  pub above : from ≤ end
  pub below : end < size
  pub terminated : result end ≡ 0
  pub same : (i : ℕ) → from ≤ i → i < end → (result i ≡ source i) × (source i ≢ 0)
  pub whole : (end + 1 ≡ size) ⊎ (source end ≡ 0)
  pub before : (i : ℕ) → i < from → result i ≡ destination i
  pub behind : (i : ℕ) → end < i → result i ≡ destination i

copy_rest-Copied :
    (room index : ℕ) (source destination : ℕ → ℕ)
    → Copied index
        (index + suc room)
        source
        destination
        (copy_rest (suc room) index source destination)
unfolding copy_rest
copy_rest-Copied zero index source destination = record {
  end = index;
  above = omega arith;
  below = omega arith;
  terminated = ground arith;
  same = λ i h g. absurd (omega arith);
  whole = inl (omega arith);
  before = λ i h. ground arith;
  behind = λ i h. ground arith;
}
copy_rest-Copied (suc room) index source destination = elim (Bool-cases (source index == 0)) [
  | inl e ↦ rw e (record {
    end = index;
    above = omega arith;
    below = omega arith;
    terminated = ground arith;
    same = λ i h g. absurd (omega arith);
    whole = inr (ground arith);
    before = λ i h. ground arith;
    behind = λ i h. ground arith;
  })
  | inr e ↦
      (let r = copy_rest-Copied room (index + 1) source (update destination index (source index)) in
        rw e (record {
          end = r.end;
          above = (let h = r.above in omega arith);
          below = (let h = r.below in omega arith);
          terminated = r.terminated;
          same = λ i h g. ground (arith, r.same i, r.before i);
          whole = ground (arith, r.whole);
          before = λ i h. ground (arith, r.before i);
          behind = λ i h. (let a = r.above in ground (arith, r.behind i));
        }))
]

-- `prvCopyName` into an array of at least one byte terminates it, copies the source up to its end or
-- up to the room that there is, and leaves what is behind the terminator.
pub copy_name-Copied :
    (room : ℕ) (source destination : ℕ → ℕ)
    → Copied 0 (suc room) source destination (copy_name destination (suc room) source)
unfolding copy_name
copy_name-Copied room source destination =
    subst (λ n. Copied 0 n source destination (copy_rest (suc room) 0 source destination))
      (ground arith) (copy_rest-Copied room 0 source destination)
