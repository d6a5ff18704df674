-- ===== src/Tests/Timing.antt =====
-- The theorems on kernel/timers.c, on two timers of which one is active.
use mini_free_rtos.Common.{
  ℕ, ◌-◌, ◌<◌, ◌∈◌, ◌≡◌, refl, none, some, false, List, [], ◌∷◌, arith, update,
}
use mini_free_rtos.Trace.{timer_command_applied}
use mini_free_rtos.Port.{with_event}
use mini_free_rtos.Timers.{Timers, command_start}
use mini_free_rtos.Timers.Active.{find_due_timer, timer_wait_ticks}
use mini_free_rtos.Timers.Service.{apply_command, expire_due_timers}
use mini_free_rtos.Timers.Listed.{Listed}
use mini_free_rtos.Timers.Clock.{
  FirstLate, find_due_timer-FirstLate, WaitsUntil, timer_wait_ticks-WaitsUntil,
}
use mini_free_rtos.Word.{word, half_word}
use mini_free_rtos.Timers.Leaves.{applied}
use mini_free_rtos.Timers.Applied.{apply_command-applied}
use mini_free_rtos.Timers.Round.{Quiet}
use mini_free_rtos.Timers.Served.{Ended}
use mini_free_rtos.Timers.Expire.{expire_due_timers-Ended}
use mini_free_rtos.Kernel.{Kernel}
use mini_free_rtos.Kernel.Outcome.{M, done, pure}
use mini_free_rtos.Scenario.{starting, two_timers}

two-Listed : Listed two_timers (20 ∷ [])
two-Listed = record {
  chain = (refl, refl);
  distinct = (refl, tt);
  marked = λ t. ground arith;
  known = λ t i. ground arith;
}

two_in_range : (t : ℕ) → t ∈ 20 ∷ [] → (two_timers.timer t).expiry_tick < word
two_in_range t i = ground arith

-- The timer 20 expired a tick ago, and it will expire in five ticks, when the clock has turned over.
find_due_timer-FirstLate_example : FirstLate 4 two_timers (20 ∷ []) (find_due_timer 4 two_timers)
find_due_timer-FirstLate_example =
    find_due_timer-FirstLate 4 two_timers (omega arith) (20 ∷ []) two-Listed two_in_range

timer_wait_ticks-WaitsUntil_example :
    WaitsUntil 4294967294 two_timers
      (20 ∷ [])
      (half_word - 2)
      (timer_wait_ticks 4294967294 two_timers)
timer_wait_ticks-WaitsUntil_example =
    timer_wait_ticks-WaitsUntil 4294967294 two_timers (omega arith) (20 ∷ []) two-Listed
      two_in_range

abbrev system : Kernel
system = starting false

apply_command-applied_example :
    (s' : Timers) × (apply_command
        (record { kind = command_start; timer = some 21; period = 0 })
        system
      ≡ done tt (
          with_event timer_command_applied
            (some 1)
            none
            (some 21)
            0
            (record system { timers = s' })))
    × Listed s' (21 ∷ 20 ∷ [])
    × ((u : ℕ)
        → s'.timer u
          ≡ update two_timers.timer 21 (applied command_start 0 4294967294 (two_timers.timer 21)) u)
    × (s'.timer_registry ≡ two_timers.timer_registry)
apply_command-applied_example =
    apply_command-applied command_start 21 0 system (20 ∷ []) two-Listed refl (λ e. cc)

-- Callbacks that do nothing, and a state in which timer 20 has been due for six ticks, more than its
-- period.
abbrev nothing : ℕ → ℕ → M (Unit {0})
nothing f t = pure tt

nothing-Quiet : Quiet nothing
nothing-Quiet f t k = (k, refl, refl, refl)

abbrev late_system : Kernel
late_system = record (starting false) { tick_count = 9 }

expire_due_timers-Ended_example :
    (k' : Kernel) × (ys : List ℕ) × (expire_due_timers nothing 8 late_system ≡ done tt k')
    × Ended 9 two_timers k'.timers (20 ∷ []) ys
    × (k'.tick_count ≡ 9)
expire_due_timers-Ended_example =
    expire_due_timers-Ended nothing nothing-Quiet 8 late_system (20 ∷ []) two-Listed (omega arith)
      (λ t i. ground arith) (omega arith)
