-- ===== src/Timers/Applied.antt =====
-- kernel/timers.c: what a command does to the timers.
use mini_free_rtos.Common.{
  ℕ, ◌≡◌, refl, ap, sym, subst, ◌∙◌, none, some, true, List, ◌∷◌, arith, ◌∈◌, ◌∉◌, delete,
  not-has-delete, update,
}
use mini_free_rtos.Trace.{timer_command_applied}
use mini_free_rtos.Timers.{
  Timer, Timers, TimerCommandKind, command_start, command_stop, command_reset,
  command_change_period, command_value,
}
use mini_free_rtos.Timers.Active.{period_is_valid, set_timer}
use mini_free_rtos.Timers.Service.{remove_if_active, restart, apply_kind, apply_command}
use mini_free_rtos.Timers.Listed.{Listed}
use mini_free_rtos.Kernel.{Kernel}
use mini_free_rtos.Kernel.Outcome.{M, done, kernel, and_then-done, config_assert-true, ◌>>=◌, ◌>>◌}
use mini_free_rtos.Port.{with_event, trace_record, trace_record_lem}
use mini_free_rtos.Timers.Leaves.{
  restarted, applied, listed_after, Leaves-then, at_timer, remove_if_active-Leaves,
  set_timer-Leaves, restart-Leaves, Leaves,
}

module _ (t now : ℕ) (k : Kernel) (xs : List ℕ) (l : Listed k.timers xs)
    (known : t ∈ k.timers.timer_registry) (distinct : t ∉ delete t xs) where
  abbrev Result : M (Unit {0}) → Timer → List ℕ → Type 0
  Result m c ys =
      (s' : Timers) × (m k ≡ done tt (record k { timers = s' })) × Leaves k.timers s' t c ys

  start-Leaves :
      Result
        (do remove_if_active t; restart t now)
        (restarted (k.timers.timer t).period now (k.timers.timer t))
        (t ∷ delete t xs)
  start-Leaves =
      let (s1, run1, first) = remove_if_active-Leaves t k xs l in
      let (s2, run2, second) =
        restart-Leaves t now (record k { timers = s1 }) (delete t xs) first.listed distinct
          (subst (λ r. t ∈ r) (sym first.registry) known) in
      let here = at_timer k.timers s1 t _ _ first in
      (
        s2,
        and_then-done (λ _. restart t now) run1 ∙ run2,
        Leaves-then k.timers s1 s2 t _ _ (delete t xs) (t ∷ delete t xs) first (
            subst (λ c. Leaves s1 s2 t c (t ∷ delete t xs))
              (ap (λ c. restarted c.period now c) here) second),
      )

  change-Leaves :
      (period : ℕ)
      → Result
          (do remove_if_active t; set_timer t (λ c. record c { period = period }); restart t now)
          (restarted period now (k.timers.timer t))
          (t ∷ delete t xs)
  change-Leaves period =
      let (s1, run1, first) = remove_if_active-Leaves t k xs l in
      let c : Timer = record (s1.timer t) { period = period } in
      let k1 : Kernel = record k { timers = record s1 { timer = update s1.timer t c } } in
      let middle = set_timer-Leaves t s1 c (delete t xs) first.listed refl in
      let (s2, run2, second) =
        restart-Leaves t now k1 (delete t xs) middle.listed distinct
          (subst (λ r. t ∈ r) (sym first.registry) known) in
      let here = at_timer k.timers s1 t _ _ first in
      let written : k1.timers.timer t ≡ c = ground arith in
      (
        s2,
        and_then-done (λ _. set_timer t (λ c. record c { period = period }) >> restart t now) run1
            ∙ run2,
        Leaves-then k.timers s1 s2 t _ _ (delete t xs) (t ∷ delete t xs) first (
            Leaves-then s1 k1.timers s2 t _ _ (delete t xs) (t ∷ delete t xs) middle (
              subst (λ c. Leaves k1.timers s2 t c (t ∷ delete t xs))
                (ap (λ c. restarted c.period now c) written ∙ ap (λ c. restarted period now c) here)
                second)),
      )

  apply_kind-Leaves :
      (kind : TimerCommandKind) (period : ℕ)
      → (kind ≡ command_change_period → period_is_valid period ≡ true)
      → Result
          (apply_kind kind t period now)
          (applied kind period now (k.timers.timer t))
          (listed_after kind t xs)
  unfolding apply_kind
  apply_kind-Leaves command_start period valid = start-Leaves
  apply_kind-Leaves command_reset period valid = start-Leaves
  apply_kind-Leaves command_stop period valid = remove_if_active-Leaves t k xs l
  apply_kind-Leaves command_change_period period valid =
      let (s2, run, r) = change-Leaves period in
      (
        s2,
        and_then-done
              (λ _.
                remove_if_active t
                >> (set_timer t (λ c. record c { period = period }) >> restart t now))
              (config_assert-true k (valid refl))
            ∙ run,
        r,
      )

-- When the list of active timers is what it should be, `prvApplyTimerCommand` of a command for a
-- registered timer, with a valid period where it changes the period, meets no failing assertion.
-- Start and reset make the timer active, to expire its period after now; stop makes it inactive; a
-- change of the period also starts it with the new one. The list is again what it should be: the
-- timer stands first or is gone. No other timer changes, nor does the registry, and outside the
-- timers nothing changes but for one trace event.
pub apply_command-applied :
    (kind : TimerCommandKind) (t period : ℕ) (k : Kernel) (xs : List ℕ)
    → Listed k.timers xs
    → t ∈ k.timers.timer_registry
    → (kind ≡ command_change_period → period_is_valid period ≡ true)
    → (s' : Timers) × (apply_command (record { kind = kind; timer = some t; period = period }) k
        ≡ done tt (
            with_event timer_command_applied k.current_task none
              (some t)
              (command_value kind)
              (record k { timers = s' })))
      × Listed s' (listed_after kind t xs)
      × ((u : ℕ)
          → s'.timer u
            ≡ update k.timers.timer t (applied kind period k.tick_count (k.timers.timer t)) u)
      × (s'.timer_registry ≡ k.timers.timer_registry)
unfolding apply_command
apply_command-applied kind t period k xs l known valid =
    let (s', run, r) =
      apply_kind-Leaves t k.tick_count k xs l known (not-has-delete t xs l.distinct) kind period
        valid in
    let rest : M (Unit {0}) = kernel >>= λ k'.
    trace_record timer_command_applied k'.current_task none (some t) (command_value kind) in
    (
      s',
      and_then-done (λ _. apply_kind kind t period k.tick_count >> rest)
            (config_assert-true k known)
          ∙ and_then-done (λ _. rest) run
          ∙ trace_record_lem timer_command_applied k.current_task none (some t) (command_value kind)
              (record k { timers = s' }),
      r.listed,
      r.timer,
      r.registry,
    )
