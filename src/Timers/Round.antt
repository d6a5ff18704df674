-- ===== src/Timers/Round.antt =====
-- kernel/timers.c: a round of `prvExpireDueTimers`, with a callback that leaves the timers alone.
use mini_free_rtos.Common.{
  ℕ, ◌+◌, ◌≡◌, refl, ap, sym, subst, ◌∙◌, inl, inr, none, some, Bool, true, false, not, List, ◌∷◌,
  arith, ◌∈◌, ◌∉◌, delete, not-has-delete, update, Bool-cases, ◌==◌, ◌&&◌, if◌then◌else◌,
}
use mini_free_rtos.Word.{add32}
use mini_free_rtos.Trace.{timer_callback}
use mini_free_rtos.Timers.{Timer, Timers}
use mini_free_rtos.Timers.Active.{set_timer, linked_in, active_timer_insert}
use mini_free_rtos.Timers.Service.{rearm, notify, expire_timer}
use mini_free_rtos.Timers.Listed.{Listed, active_timer_remove-Removed, active_timer_insert-Listed}
use mini_free_rtos.Timers.Leaves.{Leaves, Leaves-then, at_timer, set_timer-Leaves}
use mini_free_rtos.Kernel.{Kernel}
use mini_free_rtos.Kernel.Outcome.{M, Outcome, done, pure, and_then, and_then-done, ◌>>◌}
use mini_free_rtos.Port.{
  with_event, enter_critical, exit_critical, exit_critical-enter, trace_record_lem,
}

-- The callbacks return, and leave the timers and the tick count alone.
abbrev pub Quiet : (ℕ → ℕ → M (Unit {0})) → Type 0
Quiet call =
    (f t : ℕ) (k : Kernel)
    → (k' : Kernel) × (call f t k ≡ done tt k')
      × (k'.timers ≡ k.timers)
      × (k'.tick_count ≡ k.tick_count)

abbrev reloaded : ℕ → Timer → Timer
reloaded expiry_tick c = record c { expiry_tick = add32 expiry_tick c.period; active = true }

-- The timer after a round, and the active timers.
abbrev pub expired : Timer → Timer
expired c =
    if c.auto_reload == 1
    then record c { expiry_tick = add32 c.expiry_tick c.period; active = true }
    else record c { active = false }

abbrev pub listed_then : Timer → ℕ → List ℕ → List ℕ
listed_then c t xs = if c.auto_reload == 1 then t ∷ delete t xs else delete t xs

-- The second critical section, when its test is known.
abbrev rearm_tail : ℕ → Timer → Kernel → Bool → Outcome (Unit {0})
rearm_tail t before k b =
    and_then
      ((if b
          then (do
            set_timer t (λ c. record c { expiry_tick = add32 before.expiry_tick c.period })
            active_timer_insert t)
          else pure tt)
        (record k { critical_nesting = k.critical_nesting + 1 }))
      (λ _. exit_critical)

-- A timer that is not active is started again if it reloads.
rearm-Leaves :
    (t : ℕ) (before : Timer) (k : Kernel) (xs : List ℕ)
    → Listed k.timers xs
    → t ∉ xs
    → t ∈ k.timers.timer_registry
    → k.timers.timer t ≡ record before { active = false }
    → (s' : Timers) × (rearm t before k ≡ done tt (record k { timers = s' }))
      × Leaves k.timers s' t (expired before) (if before.auto_reload == 1 then t ∷ xs else xs)
unfolding rearm enter_critical
rearm-Leaves t before k xs l out known here = elim (Bool-cases (before.auto_reload == 1)) [
  | inl again ↦
      (let inactive : (k.timers.timer t).active ≡ false = l.marked t ∙ out in
        let chosen : (before.auto_reload == 1 && not (k.timers.timer t).active) ≡ true =
          ground (arith, again, inactive) in
        let s = k.timers in
        let c : Timer = record (s.timer t) {
          expiry_tick = add32 before.expiry_tick (s.timer t).period;
        } in
        let s1 : Timers = record s { timer = update s.timer t c } in
        let written = set_timer-Leaves t s c xs l refl in
        let k1 : Kernel = record k { timers = s1; critical_nesting = k.critical_nesting + 1 } in
        let (run, l') = active_timer_insert-Listed t k1 xs written.listed out known in
        let same = ap (reloaded before.expiry_tick) here in
        (
          linked_in t s1,
          ap (rearm_tail t before k) chosen
              ∙ and_then-done (λ _. exit_critical) run
              ∙ exit_critical-enter k.critical_nesting (record k1 { timers = linked_in t s1 }) refl,
          rw again (
              subst (λ d. Leaves s (linked_in t s1) t d (t ∷ xs)) same
                (record { listed = l'; timer = λ u. ground arith; registry = refl })),
        ))
  | inr once ↦
      (let s = k.timers in
        (
          s,
          rw once (
              exit_critical-enter k.critical_nesting
                (record k { critical_nesting = k.critical_nesting + 1 }) refl),
          rw once (record { listed = l; timer = λ u. ground (arith, here); registry = refl }),
        ))
]

module _ (call : ℕ → ℕ → M (Unit {0})) (quiet : Quiet call) (t : ℕ) where
  -- The callback is called, and the timers stay.
  notify-quiet :
      (before : Timer) (k : Kernel)
      → (k' : Kernel) × (notify call t before k ≡ done tt k')
        × (k'.timers ≡ k.timers)
        × (k'.tick_count ≡ k.tick_count)
  unfolding notify
  notify-quiet before k =
      let k1 = with_event timer_callback k.current_task none (some t) before.auto_reload k in
      let (k', run, timers, tick) = quiet before.callback t k1 in
      (
        k',
        and_then-done (λ _. call before.callback t)
              (trace_record_lem timer_callback k.current_task none (some t) before.auto_reload k)
            ∙ run,
        timers,
        tick,
      )

  pub expire_timer-Leaves :
      (n : ℕ) (k : Kernel) (xs : List ℕ)
      → k.critical_nesting ≡ n + 1
      → Listed k.timers xs
      → t ∈ xs
      → (k' : Kernel) × (expire_timer call t k ≡ done tt k')
        × (k'.tick_count ≡ k.tick_count)
        × Leaves k.timers k'.timers t
            (expired (k.timers.timer t))
            (listed_then (k.timers.timer t) t xs)
  unfolding expire_timer
  expire_timer-Leaves n k xs inside l i =
      let before = k.timers.timer t in
      let (s1, run1, r) = active_timer_remove-Removed t k xs l i in
      let k1 : Kernel = record k { timers = s1; critical_nesting = n } in
      let (k2, run2, timers, tick) = notify-quiet before k1 in
      let first : Leaves k.timers s1 t (record before { active = false }) (delete t xs) = record {
        listed = r.listed;
        timer = r.timer;
        registry = r.registry;
      } in
      let first2 =
        subst (λ s. Leaves k.timers s t (record before { active = false }) (delete t xs))
          (sym timers) first in
      let (s3, run3, second) =
        rearm-Leaves t before k2 (delete t xs) first2.listed (not-has-delete t xs l.distinct)
          (subst (λ r. t ∈ r) (sym first2.registry) (l.known t i))
          (at_timer k.timers k2.timers t _ _ first2) in
      (
        record k2 { timers = s3 },
        and_then-done (λ _. (exit_critical >> (notify call t before >> rearm t before))) run1
            ∙ and_then-done (λ _. (notify call t before >> rearm t before))
                (exit_critical-enter n (record k { timers = s1 }) inside)
            ∙ and_then-done (λ _. rearm t before) run2
            ∙ run3,
        tick,
        Leaves-then k.timers k2.timers s3 t _ _ (delete t xs) (listed_then before t xs) first2
            second,
      )
