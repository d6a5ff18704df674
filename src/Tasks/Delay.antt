-- ===== src/Tasks/Delay.antt =====
-- `vTaskDelay` of kernel/tasks.c puts the running task into the delayed list.
use mini_free_rtos.Common.{
  ℕ, ◌+◌, ◌<◌, ◌≤◌, ◌≡◌, refl, ap, ◌∙◌, none, some, true, false, arith, ltb, update, ◌==◌, subst,
}
use mini_free_rtos.Word.{add32}
use mini_free_rtos.Dll.{Links, Header}
use mini_free_rtos.Dll.Sorted.{insert_by, insert_by-congr}
use mini_free_rtos.Trace.{task_blocked}
use mini_free_rtos.Kernel.{Kernel, blocked, wait_none}
use mini_free_rtos.Kernel.Outcome.{M, done, and_then, and_then-done, config_assert-true, ◌>>◌}
use mini_free_rtos.Port.{
  with_event, trace_record_lem, enter_critical, exit_critical, exit_critical-enter,
}
use mini_free_rtos.Tasks.Ready.{ReadyFamily-frame}
use mini_free_rtos.Tasks.Delayed.{
  DelayParts-frame, delay_inserted, insert_due, delay_list_insert-insert_due, remaining,
}
use mini_free_rtos.Tasks.Waiting.{EventParts-frame}
use mini_free_rtos.Tasks.Wait.{max_delay, clear_wait_state, assert_task}
use mini_free_rtos.Tasks.Schedule.{task_delay, start_delay}
use mini_free_rtos.Tasks.Invariant.{Inv, View, Settled}
use mini_free_rtos.Tasks.Select.{Idle}
use mini_free_rtos.Tasks.Yield.{IsCurrent, running_unlisted}

module _ (k : Kernel) (low : ℕ) (v : View) (i : Inv k low v) (t : ℕ) (c : IsCurrent k t) where
  -- What `vTaskDelay` writes into the task before it enters the delayed list.
  abbrev delaying : ℕ → Kernel
  delaying ticks = record k {
    critical_nesting = k.critical_nesting + 1;
    task = update k.task t (record (k.task t) {
      wake_tick = add32 k.tick_count ticks;
      wait_object = none;
      wait_reason = wait_none;
      wait_result = false;
      wait_has_timeout = false;
      state = blocked;
    });
  }

  abbrev delayed_in : Links × Header → ℕ → Kernel
  delayed_in d ticks =
      with_event task_blocked (some t) none none 0 (delay_inserted t d (delaying ticks))

  abbrev delayed_at : Links × Header → ℕ → Kernel
  delayed_at d ticks = record (delayed_in d ticks) { critical_nesting = k.critical_nesting }

  module _ (ticks : ℕ) (short : ticks < max_delay) (long : low ≤ ticks) where
    remaining-delaying : remaining (delaying ticks) t ≡ ticks
    remaining-delaying = ground (arith, i.delayed.now)

    start_delay-delayed_at :
        (d : Links × Header) × (start_delay ticks t
            (record k { critical_nesting = k.critical_nesting + 1 })
          ≡ done tt (delayed_in d ticks))
        × Inv
            (delayed_at d ticks)
            low
            (record v { delayed = insert_due (delaying ticks) t v.delayed })
    unfolding start_delay
    start_delay-delayed_at =
        let (out, undelayed, unwaiting) = running_unlisted k low v i t c in
        let k1 = delaying ticks in
        let d1 =
          DelayParts-frame k.task k1.task (λ a. (ground arith, λ h. ground arith)) i.delayed in
        let (d, run, d2) =
          delay_list_insert-insert_due k1 t low v.delayed d1 (ground arith) (ground arith)
            (rw remaining-delaying (omega arith)) (rw remaining-delaying long) in
        let k2 = delayed_at d ticks in
        (
          d,
          rw run (trace_record_lem task_blocked (some t) none none 0 _),
          record {
            ready =
                ReadyFamily-frame k.task k2.task (λ a. (ground arith, λ h. ground arith)) i.ready;
            delayed = d2;
            waiting =
                EventParts-frame k.task k2.task (λ a. (ground arith, λ e h. ground arith))
                  i.waiting;
            tasks = λ a.
                (let o = i.tasks a in
                  record {
                    base_bound = ground (arith, o.base_bound);
                    inherited_bound = ground (arith, o.inherited_bound);
                    effective = ground (arith, o.effective);
                    listed_ready = λ h. ground (arith, o.listed_ready);
                    delayed_blocked = λ h. ground (arith, o.delayed_blocked);
                    waiting_blocked = λ e h. ground (arith, o.waiting_blocked e);
                  });
          },
        )

    -- From a state with the invariant in which the scheduler runs, no task is lost and `t` is
    -- the running task, `vTaskDelay` of a number of ticks in range puts `t` into the delayed
    -- list, to be woken after that many ticks, and gives the processor away outside the critical
    -- section; at that moment nobody runs, no task is lost, and the invariant holds. When `t`
    -- runs again it clears its wait state.
    pub task_delay-delayed :
        (yield_task : ℕ → M (Unit {0}))
        → k.scheduler_running ≡ true
        → Settled k
        → 0 < ticks
        → (k' : Kernel) × (task_delay yield_task ticks k
            ≡ and_then (yield_task t k') (λ _. clear_wait_state t))
          × Inv k' low
              (record v { delayed = insert_by (λ c. ltb ticks (remaining k c)) t v.delayed })
          × Settled k'
          × Idle k'
          × (remaining k' t ≡ ticks)
          × (k'.critical_nesting ≡ k.critical_nesting)
          × (k'.task_context_active ≡ k.task_context_active)
    unfolding task_delay enter_critical exit_critical
    task_delay-delayed yield_task on s pos =
        let (out, undelayed, unwaiting) = running_unlisted k low v i t c in
        let (d, run, i') = start_delay-delayed_at in
        let k2 = delayed_at d ticks in
        let resumed = yield_task t >> clear_wait_state t in
        let nonzero : (ticks == 0) ≡ false = ground arith in
        let order =
          insert_by-congr (λ c. ltb (remaining (delaying ticks) t) (remaining (delaying ticks) c))
            (λ c. ltb ticks (remaining k c)) t v.delayed
            (λ a m.
              (let e = i.delayed.family.member tt a m in ground (arith, remaining-delaying))) in
        (
          k2,
          and_then-done _ (config_assert-true k on)
              ∙ and_then-done _ (ap (λ o. assert_task o k) c.current)
              ∙ rw nonzero (
                  and_then-done
                    (λ _. enter_critical >> (start_delay ticks t >> (exit_critical >> resumed)))
                    (config_assert-true {b = ltb ticks max_delay} k (ground arith))
                  ∙ and_then-done (λ _. exit_critical >> resumed) run
                  ∙ and_then-done (λ _. resumed)
                      (exit_critical-enter k.critical_nesting (delayed_in d ticks) refl)),
          subst (λ D. Inv k2 low (record v { delayed = D })) order i',
          (λ a.
              (let o = s a in
                record {
                  ready_listed = λ h. ground (arith, o.ready_listed);
                  blocked_delayed = λ h. ground (arith, o.blocked_delayed);
                  running_current = λ h. ground (arith, o.running_current);
                })),
          (λ a h. ground (arith, (s a).running_current, c.current)),
          (ground (arith, remaining-delaying)),
          refl,
          refl,
        )
