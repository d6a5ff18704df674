-- ===== src/Timers/Clock.antt =====
-- kernel/timers.c: `prvFindDueTimer` and `prvTimerWaitTicks` by the clock, which turns over at 2 ^ 32.
use mini_free_rtos.Common.{
  ℕ, zero, suc, ◌+◌, ◌-◌, ◌%◌, ◌≤◌, ◌<◌, ◌≡◌, refl, ap, inl, inr, ◌⊎◌, Option, none, some, true,
  false, List, [], ◌∷◌, ◌++◌, arith, ◌∈◌, length, Bool-cases, ◌==◌, ltb, if◌then◌else◌,
}
use mini_free_rtos.Word.{word, half_word, sub32}
use mini_free_rtos.Sll.Chain.{Chain}
use mini_free_rtos.Timers.{Timers}
use mini_free_rtos.Timers.Active.{
  not_positive, until, walk_fuel, find_due_from, find_due_timer, wait_ticks_from, timer_wait_ticks,
  longest_wait,
}
use mini_free_rtos.Timers.Listed.{Listed, walk_enough}

-- The clock shows `expiry` in `d` ticks from `now`, less than half a turn.
abbrev pub Ahead : ℕ → ℕ → ℕ → Type 0
Ahead now expiry d = (expiry ≡ (now + d) % word) × (0 < d) × (d < half_word)

-- The clock shows `expiry` now, or showed it `d` ticks ago, at most half a turn.
abbrev pub Late : ℕ → ℕ → ℕ → Type 0
Late now expiry d = (now ≡ (expiry + d) % word) × (d ≤ half_word)

late_lem :
    (now e : ℕ)
    → now < word
    → e < word
    → not_positive (sub32 e now) ≡ true
    → Late now e ((now + word - e) % word)
late_lem now e n b h = (ground arith, ground arith)

ahead_lem :
    (now e : ℕ)
    → now < word
    → e < word
    → not_positive (sub32 e now) ≡ false
    → Ahead now e (sub32 e now)
ahead_lem now e n b h = (ground arith, ground arith, ground arith)

-- The clock has not reached the expiry of any of these timers.
abbrev pub AllAhead : ℕ → Timers → List ℕ → Type 0
AllAhead now s xs = (t : ℕ) → t ∈ xs → (d : ℕ) × Ahead now (s.timer t).expiry_tick d

AllAhead-cons :
    (now : ℕ) (s : Timers) (x : ℕ) (xs : List ℕ)
    → ((d : ℕ) × Ahead now (s.timer x).expiry_tick d)
    → AllAhead now s xs
    → AllAhead now s (x ∷ xs)
AllAhead-cons now s x xs here all t i = elim (Bool-cases (t == x)) [
  | inl e ↦ (let same : t ≡ x = ground arith in rw same here)
  | inr e ↦ all t (ground arith)
]

-- What a search for a timer that is late finds: none, and all are ahead, or the first that is late.
pub data FirstLate (now : ℕ) (s : Timers) (xs : List ℕ) : Option (Option ℕ) → Type 0 where
  none_late : AllAhead now s xs → FirstLate now s xs (some none)
  first_late :
      (ys zs : List ℕ) (t d : ℕ)
      → xs ≡ ys ++ t ∷ zs
      → AllAhead now s ys
      → Late now (s.timer t).expiry_tick d
      → FirstLate now s xs (some (some t))

-- The ticks to wait: none if a timer is late, and else as many as until the first timer expires, or the
-- bound if that comes first.
pub data WaitsUntil (now : ℕ) (s : Timers) (xs : List ℕ) (bound : ℕ) : Option ℕ → Type 0 where
  no_wait :
      (t d : ℕ) → t ∈ xs → Late now (s.timer t).expiry_tick d → WaitsUntil now s xs bound (some 0)
  wait_until :
      (w : ℕ)
      → 0 < w
      → w ≤ bound
      → ((t : ℕ) → t ∈ xs → (d : ℕ) × Ahead now (s.timer t).expiry_tick d × (w ≤ d))
      → (w ≡ bound) ⊎ ((t : ℕ) × (t ∈ xs) × Ahead now (s.timer t).expiry_tick w)
      → WaitsUntil now s xs bound (some w)

module _ (now : ℕ) (s : Timers) (in_range : now < word) where
  -- The expiry ticks are numbers of 32 bits.
  abbrev InRange : List ℕ → Type 0
  InRange xs = (t : ℕ) → t ∈ xs → (s.timer t).expiry_tick < word

  InRange-head : (x : ℕ) (xs : List ℕ) → InRange (x ∷ xs) → (s.timer x).expiry_tick < word
  InRange-head x xs r = r x (ground arith)

  InRange-tail : (x : ℕ) (xs : List ℕ) → InRange (x ∷ xs) → InRange xs
  InRange-tail x xs r t i = r t (ground arith)

  FirstLate-cons :
      (x : ℕ) (xs : List ℕ) (r : Option (Option ℕ))
      → ((d : ℕ) × Ahead now (s.timer x).expiry_tick d)
      → FirstLate now s xs r
      → FirstLate now s (x ∷ xs) r
  FirstLate-cons x xs r ahead (none_late all) = none_late (AllAhead-cons now s x xs ahead all)
  FirstLate-cons x xs r ahead (first_late ys zs t d e all late) =
      first_late (x ∷ ys) zs t d (ap (λ l. x ∷ l) e) (AllAhead-cons now s x ys ahead all) late

  find_due_from-FirstLate :
      (fuel : ℕ) (cursor : Option ℕ) (xs : List ℕ)
      → Chain s.next_active cursor xs none
      → InRange xs
      → length xs < fuel
      → FirstLate now s xs (find_due_from fuel now s cursor)
  unfolding find_due_from
  find_due_from-FirstLate zero cursor xs c b h = absurd (omega arith)
  find_due_from-FirstLate (suc fuel) cursor [] c b h = rw c (none_late (λ t i. cc))
  find_due_from-FirstLate (suc fuel) cursor (x ∷ xs) c b h =
      let bound = InRange-head x xs b in
      rw c.0 (elim (Bool-cases (not_positive (until now s x))) [
        | inl e ↦ rw e (
            first_late [] xs x _ refl (λ t i. cc)
              (late_lem now (s.timer x).expiry_tick in_range bound e))
        | inr e ↦ rw e (
            FirstLate-cons x xs _ (_, ahead_lem now (s.timer x).expiry_tick in_range bound e)
              (find_due_from-FirstLate fuel (s.next_active x) xs c.1 (InRange-tail x xs b)
                (omega arith)))
      ])

  -- When the list of active timers is what it should be, and the tick count and the expiry ticks
  -- are numbers of 32 bits, `prvFindDueTimer` ends. It returns NULL if the clock, which turns over
  -- at 2 ^ 32, shows the expiry tick of every active timer in less than half a turn from now;
  -- otherwise it returns the first timer of the list whose expiry tick the clock shows now or has
  -- shown at most half a turn ago.
  pub find_due_timer-FirstLate :
      (xs : List ℕ)
      → Listed s xs
      → ((t : ℕ) → t ∈ xs → (s.timer t).expiry_tick < word)
      → FirstLate now s xs (find_due_timer now s)
  unfolding find_due_timer
  find_due_timer-FirstLate xs l b =
      find_due_from-FirstLate (walk_fuel s) s.active_timers xs l.chain b (walk_enough s xs l)

  WaitsUntil-cons :
      (x : ℕ) (xs : List ℕ) (bound d : ℕ) (r : Option ℕ)
      → Ahead now (s.timer x).expiry_tick d
      → WaitsUntil now s xs (if ltb d bound then d else bound) r
      → WaitsUntil now s (x ∷ xs) bound r
  WaitsUntil-cons x xs bound d r ahead (no_wait t n i late) = no_wait t n (ground arith) late
  WaitsUntil-cons x xs bound d r ahead (wait_until w some_ticks below least reached) =
      wait_until w some_ticks (ground arith)
        (λ t i. elim (Bool-cases (t == x)) [
          | inl e ↦ (let same : t ≡ x = ground arith in rw same (d, ahead, ground arith))
          | inr e ↦ least t (ground arith)
        ])
        (elim reached [
          | inl e ↦ elim (Bool-cases (ltb d bound)) [
            | inl b ↦ (let same : w ≡ d = ground arith in inr (x, ground arith, rw same ahead))
            | inr b ↦ inl (ground arith)
          ]
          | inr (t, i, a) ↦ inr (t, ground arith, a)
        ])

  wait_ticks_from-WaitsUntil :
      (fuel bound : ℕ) (cursor : Option ℕ) (xs : List ℕ)
      → 0 < bound
      → Chain s.next_active cursor xs none
      → InRange xs
      → length xs < fuel
      → WaitsUntil now s xs bound (wait_ticks_from fuel now s bound cursor)
  unfolding wait_ticks_from
  wait_ticks_from-WaitsUntil zero bound cursor xs p c b h = absurd (omega arith)
  wait_ticks_from-WaitsUntil (suc fuel) bound cursor [] p c b h =
      rw c (wait_until bound p (omega arith) (λ t i. cc) (inl refl))
  wait_ticks_from-WaitsUntil (suc fuel) bound cursor (x ∷ xs) p c b h =
      let range = InRange-head x xs b in
      rw c.0 (elim (Bool-cases (not_positive (until now s x))) [
        | inl e ↦
            rw e
              (no_wait x _ (ground arith) (late_lem now (s.timer x).expiry_tick in_range range e))
        | inr e ↦
            (let ahead = ahead_lem now (s.timer x).expiry_tick in_range range e in
              rw e (
                WaitsUntil-cons x xs bound (until now s x) _ ahead (
                  wait_ticks_from-WaitsUntil fuel _ (s.next_active x) xs (ground arith) c.1
                    (InRange-tail x xs b) (omega arith))))
      ])

  -- When the list of active timers is what it should be, and the tick count and the expiry ticks
  -- are numbers of 32 bits, `prvTimerWaitTicks` ends. It returns 0 if the clock, which turns over
  -- at 2 ^ 32, shows the expiry tick of an active timer now or has shown it at most half a turn
  -- ago. Otherwise the clock shows every expiry tick in less than half a turn from now, and the
  -- ticks returned are those until it shows the first of them, or 2 ^ 31 - 2 if that is less.
  pub timer_wait_ticks-WaitsUntil :
      (xs : List ℕ)
      → Listed s xs
      → ((t : ℕ) → t ∈ xs → (s.timer t).expiry_tick < word)
      → WaitsUntil now s xs (half_word - 2) (timer_wait_ticks now s)
  unfolding timer_wait_ticks
  timer_wait_ticks-WaitsUntil xs l b =
      wait_ticks_from-WaitsUntil (walk_fuel s) longest_wait s.active_timers xs (omega arith) l.chain
        b (walk_enough s xs l)
