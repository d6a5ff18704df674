-- ===== src/Timers/Active.antt =====
-- kernel/timers.c: the list of active timers. A walk along it runs on fuel, one unit more than there
-- are timers.
use mini_free_rtos.Common.{
  ℕ, zero, suc, Option, none, some, Bool, true, false, not, has, length, ltb, leb, ◌==◌, ◌&&◌, ◌||◌,
  if◌then◌else◌, update,
}
use mini_free_rtos.Word.{half_word, sub32}
use mini_free_rtos.Sll.{find_place, link}
use mini_free_rtos.Timers.{Timer, Timers}
use mini_free_rtos.Kernel.Outcome.{
  M, kernel, modify, halted, out_of_fuel, config_assert, ◌>>=◌, ◌>>◌,
}
use mini_free_rtos.Tasks.Wait.{max_delay}

-- `prvTimerIsRegistered`; NULL is not registered.
abbrev pub is_registered : Option ℕ → Timers → Bool
is_registered none s = false
is_registered (some t) s = has t s.timer_registry

-- `prvTimerPeriodIsValid`
abbrev pub period_is_valid : ℕ → Bool
period_is_valid period = ltb 0 period && ltb period max_delay

abbrev pub walk_fuel : Timers → ℕ
walk_fuel s = suc (length s.timer_registry)

-- Assignments to fields of the timer at an address, and to static variables.
abbrev pub set_timers : (Timers → Timers) → M (Unit {0})
set_timers f = modify λ k. record k { timers = f k.timers }

abbrev pub set_timer : ℕ → (Timer → Timer) → M (Unit {0})
set_timer t f = set_timers λ s. record s { timer = update s.timer t (f (s.timer t)) }

abbrev pub linked_in : ℕ → Timers → Timers
linked_in t s = record s {
  next_active = update s.next_active t s.active_timers;
  active_timers = some t;
  timer = update s.timer t (record (s.timer t) { active = true });
}

-- `prvActiveTimerInsert`
unfoldable pub active_timer_insert : ℕ → M (Unit {0})
active_timer_insert t = do
  k ← kernel
  config_assert (not (k.timers.timer t).active)
  set_timers (linked_in t)

abbrev pub linked_out : ℕ → Option ℕ → Timers → Timers
linked_out t previous s =
    let (head, next) = link previous (s.next_active t) (s.active_timers, s.next_active) in
    record s {
      active_timers = head;
      next_active = update next t none;
      timer = update s.timer t (record (s.timer t) { active = false });
    }

abbrev pub is_at : Option ℕ → ℕ → Bool
is_at none t = false
is_at (some c) t = c == t

-- From the end of the search on.
unfoldable pub remove_found : ℕ → Option (Option ℕ × Option ℕ) → M (Unit {0})
remove_found t none = λ _. halted out_of_fuel
remove_found t (some (previous, cursor)) = do
  config_assert (is_at cursor t)
  set_timers (linked_out t previous)

-- `prvActiveTimerRemove`
unfoldable pub active_timer_remove : ℕ → M (Unit {0})
unfolding remove_found
active_timer_remove t = do
  k ← kernel
  config_assert (k.timers.timer t).active
  remove_found t (
      find_place (walk_fuel k.timers) (λ c. c == t) k.timers.next_active none
        k.timers.active_timers)

-- (int32_t)delta <= 0
abbrev pub not_positive : ℕ → Bool
not_positive delta = delta == 0 || leb half_word delta

-- What remains of a timer, as a uint32_t.
abbrev pub until : ℕ → Timers → ℕ → ℕ
until now s t = sub32 (s.timer t).expiry_tick now

-- The loop of `prvFindDueTimer`; the outer `none` says that the fuel ran out.
unfoldable pub find_due_from : ℕ → ℕ → Timers → Option ℕ → Option (Option ℕ)
find_due_from zero now s cursor = none
find_due_from (suc fuel) now s none = some none
find_due_from (suc fuel) now s (some t) =
    let rest = find_due_from fuel now s (s.next_active t) in
    if not_positive (until now s t) then some (some t) else rest

-- `prvFindDueTimer`
unfoldable pub find_due_timer : ℕ → Timers → Option (Option ℕ)
unfolding find_due_from
find_due_timer now s = find_due_from (walk_fuel s) now s s.active_timers

-- The loop of `prvTimerWaitTicks`.
unfoldable pub wait_ticks_from : ℕ → ℕ → Timers → ℕ → Option ℕ → Option ℕ
wait_ticks_from zero now s wait_ticks cursor = none
wait_ticks_from (suc fuel) now s wait_ticks none = some wait_ticks
wait_ticks_from (suc fuel) now s wait_ticks (some t) =
    let delta = until now s t in
    let least = if ltb delta wait_ticks then delta else wait_ticks in
    let rest = wait_ticks_from fuel now s least (s.next_active t) in
    if not_positive delta then some 0 else rest

-- INT32_MAX - 1
abbrev pub longest_wait : ℕ
longest_wait = 2147483646

-- `prvTimerWaitTicks`
unfoldable pub timer_wait_ticks : ℕ → Timers → Option ℕ
unfolding wait_ticks_from
timer_wait_ticks now s = wait_ticks_from (walk_fuel s) now s longest_wait s.active_timers
