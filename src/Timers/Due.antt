-- ===== src/Timers/Due.antt =====
-- kernel/timers.c: the two functions that look at the list of active timers, in the terms of their own
-- test; Timers/Clock states them by the clock.
use mini_free_rtos.Common.{
  ℕ, zero, suc, ◌≤◌, ◌<◌, ◌≡◌, refl, inl, inr, ◌⊎◌, Option, none, some, Bool, true, false, List, [],
  ◌∷◌, arith, ◌∈◌, length, Bool-cases, ◌==◌, ltb, if◌then◌else◌,
}
use mini_free_rtos.Sll.Chain.{Chain}
use mini_free_rtos.Timers.{Timers}
use mini_free_rtos.Timers.Active.{
  not_positive, until, walk_fuel, find_due_from, find_due_timer, wait_ticks_from, timer_wait_ticks,
  longest_wait,
}
use mini_free_rtos.Timers.Listed.{Listed, walk_enough}

-- A timer that is due has expired at most half the counter's range ago.
abbrev pub is_due : ℕ → Timers → ℕ → Bool
is_due now s t = not_positive (until now s t)

abbrev pub NoneDue : ℕ → Timers → List ℕ → Type 0
NoneDue now s xs = (t : ℕ) → t ∈ xs → is_due now s t ≡ false

-- What a search for a due timer finds.
pub data Found (now : ℕ) (s : Timers) (xs : List ℕ) : Option (Option ℕ) → Type 0 where
  none_due : NoneDue now s xs → Found now s xs (some none)
  due : (t : ℕ) → t ∈ xs → is_due now s t ≡ true → Found now s xs (some (some t))

Found-cons :
    (now : ℕ) (s : Timers) (x : ℕ) (xs : List ℕ) (r : Option (Option ℕ))
    → is_due now s x ≡ false
    → Found now s xs r
    → Found now s (x ∷ xs) r
Found-cons now s x xs r early (none_due all) = none_due (λ t i. elim (Bool-cases (t == x)) [
  | inl e ↦ (let same : t ≡ x = ground arith in rw same early)
  | inr e ↦ all t (ground arith)
])
Found-cons now s x xs r early (due t i late) = due t (ground arith) late

find_due_from-Found :
    (fuel now : ℕ) (s : Timers) (cursor : Option ℕ) (xs : List ℕ)
    → Chain s.next_active cursor xs none
    → length xs < fuel
    → Found now s xs (find_due_from fuel now s cursor)
unfolding find_due_from
find_due_from-Found zero now s cursor xs c h = absurd (omega arith)
find_due_from-Found (suc fuel) now s cursor [] c h = rw c (none_due (λ t i. cc))
find_due_from-Found (suc fuel) now s cursor (x ∷ xs) c h =
    rw c.0 (elim (Bool-cases (is_due now s x)) [
      | inl late ↦ rw late (due x (ground arith) late)
      | inr early ↦ rw early (
          Found-cons now s x xs _ early
            (find_due_from-Found fuel now s (s.next_active x) xs c.1 (omega arith)))
    ])

-- The search with enough fuel.
pub find_due_timer-Found :
    (now : ℕ) (s : Timers) (xs : List ℕ) → Listed s xs → Found now s xs (find_due_timer now s)
unfolding find_due_timer
find_due_timer-Found now s xs l =
    find_due_from-Found (walk_fuel s) now s s.active_timers xs l.chain (walk_enough s xs l)

-- The ticks to wait: none if a timer is due, and else the least of a bound and of what remains of the
-- timers.
pub data Waits (now : ℕ) (s : Timers) (xs : List ℕ) (bound : ℕ) : Option ℕ → Type 0 where
  at_once : (t : ℕ) → t ∈ xs → is_due now s t ≡ true → Waits now s xs bound (some 0)
  waits :
      (w : ℕ)
      → NoneDue now s xs
      → w ≤ bound
      → ((t : ℕ) → t ∈ xs → w ≤ until now s t)
      → (w ≡ bound) ⊎ ((t : ℕ) × (t ∈ xs) × (w ≡ until now s t))
      → Waits now s xs bound (some w)

Waits-cons :
    (now : ℕ) (s : Timers) (x : ℕ) (xs : List ℕ) (bound : ℕ) (r : Option ℕ)
    → is_due now s x ≡ false
    → Waits now s xs (if ltb (until now s x) bound then until now s x else bound) r
    → Waits now s (x ∷ xs) bound r
Waits-cons now s x xs bound r early (at_once t i late) = at_once t (ground arith) late
Waits-cons now s x xs bound r early (waits w all below least reached) =
    waits w
      (λ t i. elim (Bool-cases (t == x)) [
        | inl e ↦ (let same : t ≡ x = ground arith in rw same early)
        | inr e ↦ all t (ground arith)
      ])
      (ground arith)
      (λ t i. elim (Bool-cases (t == x)) [
        | inl e ↦ (let same : t ≡ x = ground arith in rw same (ground arith))
        | inr e ↦ least t (ground arith)
      ])
      (elim reached [
        | inl e ↦ (elim (Bool-cases (ltb (until now s x) bound)) [
          | inl b ↦ inr (x, ground arith, ground arith)
          | inr b ↦ inl (ground arith)
        ])
        | inr (t, i, e) ↦ inr (t, ground arith, e)
      ])

wait_ticks_from-Waits :
    (fuel now : ℕ) (s : Timers) (bound : ℕ) (cursor : Option ℕ) (xs : List ℕ)
    → Chain s.next_active cursor xs none
    → length xs < fuel
    → Waits now s xs bound (wait_ticks_from fuel now s bound cursor)
unfolding wait_ticks_from
wait_ticks_from-Waits zero now s bound cursor xs c h = absurd (omega arith)
wait_ticks_from-Waits (suc fuel) now s bound cursor [] c h =
    rw c (waits bound (λ t i. cc) (omega arith) (λ t i. cc) (inl refl))
wait_ticks_from-Waits (suc fuel) now s bound cursor (x ∷ xs) c h =
    rw c.0 (elim (Bool-cases (is_due now s x)) [
      | inl late ↦ rw late (at_once x (ground arith) late)
      | inr early ↦ rw early (
          Waits-cons now s x xs bound _ early
            (wait_ticks_from-Waits fuel now s _ (s.next_active x) xs c.1 (omega arith)))
    ])

-- The wait, with enough fuel.
pub timer_wait_ticks-Waits :
    (now : ℕ) (s : Timers) (xs : List ℕ)
    → Listed s xs
    → Waits now s xs longest_wait (timer_wait_ticks now s)
unfolding timer_wait_ticks
timer_wait_ticks-Waits now s xs l =
    wait_ticks_from-Waits (walk_fuel s) now s longest_wait s.active_timers xs l.chain
      (walk_enough s xs l)
