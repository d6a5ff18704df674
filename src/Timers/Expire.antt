-- ===== src/Timers/Expire.antt =====
-- kernel/timers.c: `prvExpireDueTimers` as a whole.
use mini_free_rtos.Common.{
  ℕ, zero, suc, ◌+◌, ◌<◌, ◌≡◌, refl, subst, ◌∙◌, Option, List, arith, has, ◌==◌,
}
use mini_free_rtos.Word.{word}
use mini_free_rtos.Timers.Active.{find_due_timer}
use mini_free_rtos.Timers.Service.{expire_found, expire_due_timers}
use mini_free_rtos.Timers.Listed.{Listed}
use mini_free_rtos.Timers.Due.{is_due, Found, none_due, due, find_due_timer-Found}
use mini_free_rtos.Timers.Round.{Quiet, listed_then, expire_timer-Leaves}
use mini_free_rtos.Timers.Lateness.{total_lateness}
use mini_free_rtos.Kernel.{Kernel}
use mini_free_rtos.Kernel.Outcome.{M, Outcome, done, and_then-done}
use mini_free_rtos.Port.{enter_critical, exit_critical-enter}
use mini_free_rtos.Timers.Served.{Timed, Ended, not_due, Timed-then, total-then, Ended-then}

module _ (call : ℕ → ℕ → M (Unit {0})) (quiet : Quiet call) where
  abbrev Result : Kernel → List ℕ → Outcome (Unit {0}) → Type 0
  Result k xs r =
      (k' : Kernel) × (ys : List ℕ) × (r ≡ done tt k')
      × Ended k.tick_count k.timers k'.timers xs ys
      × (k'.tick_count ≡ k.tick_count)

  -- When the list of active timers is what it should be, ticks have 32 bits, the active timers have
  -- valid periods, the callbacks return and leave the timers and the tick count alone, and there is
  -- more fuel than the active timers are late in all, `prvExpireDueTimers` returns. No active timer
  -- is due then. Of the timers that were active those that were not due are as they were, those
  -- that reload are still active, and the other ones are not.
  pub expire_due_timers-Ended :
      (fuel : ℕ) (k : Kernel) (xs : List ℕ)
      → Listed k.timers xs
      → k.tick_count < word
      → Timed k.timers xs
      → total_lateness k.tick_count k.timers.timer xs < fuel
      → (k' : Kernel) × (ys : List ℕ) × (expire_due_timers call fuel k ≡ done tt k')
        × Ended k.tick_count k.timers k'.timers xs ys
        × (k'.tick_count ≡ k.tick_count)
  unfolding expire_due_timers expire_found enter_critical
  expire_due_timers-Ended zero k xs l small timed enough = absurd (omega arith)
  expire_due_timers-Ended (suc fuel) k xs l small timed enough =
      by_found (λ k1 ys. expire_due_timers-Ended fuel k1 ys) (find_due_timer k.tick_count k.timers)
        (find_due_timer-Found k.tick_count k.timers xs l)
    where
      by_found :
          ((k1 : Kernel) (ys : List ℕ)
            → Listed k1.timers ys
            → k1.tick_count < word
            → Timed k1.timers ys
            → total_lateness k1.tick_count k1.timers.timer ys < fuel
            → Result k1 ys (expire_due_timers call fuel k1))
          → (found : Option (Option ℕ)) → Found k.tick_count k.timers xs found
          → Result k xs (
              expire_found call found
                (expire_due_timers call fuel)
                (record k { critical_nesting = k.critical_nesting + 1 }))
      by_found again found (none_due all) = (
        k,
        xs,
        exit_critical-enter k.critical_nesting
            (record k { critical_nesting = k.critical_nesting + 1 }) refl,
        record {
          listed = l;
          early = all;
          stays = λ u.
              not_due (has u xs) (is_due k.tick_count k.timers u)
                ((k.timers.timer u).auto_reload == 1) (all u);
          untouched = λ u n. refl;
          reloads = λ u. refl;
        },
        refl,
      )
      by_found again found (due t i late) =
          let entered : Kernel = record k { critical_nesting = k.critical_nesting + 1 } in
          let (k1, run1, tick1, r) =
            expire_timer-Leaves call quiet t k.critical_nesting entered xs refl l i in
          let less = total-then k.tick_count small k.timers k1.timers xs t l i late timed r in
          let (k2, ys, run2, ended, tick2) =
            again k1 (listed_then (k.timers.timer t) t xs) r.listed (rw tick1 small)
              (Timed-then k.tick_count small k.timers k1.timers xs t l i late timed r)
              (rw tick1 (omega (arith, less))) in
          (
            k2,
            ys,
            and_then-done (λ _. expire_due_timers call fuel) run1 ∙ run2,
            Ended-then k.tick_count small k.timers k1.timers xs t l i late timed r k2.timers ys (
                subst
                  (λ now. Ended now k1.timers k2.timers (listed_then (k.timers.timer t) t xs) ys)
                  tick1 ended),
            tick2 ∙ tick1,
          )
