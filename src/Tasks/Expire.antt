-- ===== src/Tasks/Expire.antt =====
-- One round of `prvWakeExpiredTasks` of kernel/tasks.c: a task whose deadline has come leaves its lists
-- and becomes ready.
use mini_free_rtos.Common.{ℕ, ◌≡◌, refl, ◌∙◌, true, false, arith, if◌then◌else◌, ◌==◌, delete}
use mini_free_rtos.Kernel.{Kernel, ready, blocked}
use mini_free_rtos.Kernel.Outcome.{Outcome, done, and_then-done, config_assert-true, ◌>>◌}
use mini_free_rtos.Tasks.Lists.{delay_list_remove}
use mini_free_rtos.Tasks.Wait.{is_blocked, make_ready, leave_event_list, wake_expired_task}
use mini_free_rtos.Tasks.Ready.{ReadyFamily-frame}
use mini_free_rtos.Tasks.Delayed.{delay_removed, delay_list_remove-delete}
use mini_free_rtos.Tasks.Waiting.{EventParts-frame}
use mini_free_rtos.Tasks.Invariant.{Inv, View, Settled}
use mini_free_rtos.Tasks.Delta.{apply}
use mini_free_rtos.Tasks.Wake.{leave_event_list-Left, made_ready, make_ready-made_ready}

-- The task `t` has been made ready before its wait succeeded; nobody else changes state.
pub record Awake (k : Kernel) (low : ℕ) (v : View) (t : ℕ) (r : Outcome (Unit {0})) : Type 0 where
  pub next : Kernel
  pub view : View
  pub returns : r ≡ done tt next
  pub inv : Inv next low view
  pub delayed : view.delayed ≡ delete t v.delayed
  pub settled : Settled next
  pub tick_same : next.tick_count ≡ k.tick_count
  pub current_same : next.current_task ≡ k.current_task
  pub running_same : next.scheduler_running ≡ k.scheduler_running
  pub active_same : next.task_context_active ≡ k.task_context_active
  pub critical_same : next.critical_nesting ≡ k.critical_nesting
  pub state : (a : ℕ) → (next.task a).state ≡ (if a == t then ready else (k.task a).state)
  pub in_delay :
      (a : ℕ) → (next.task a).in_delay_list ≡ (if a == t then false else (k.task a).in_delay_list)
  pub wake_same : (a : ℕ) → (next.task a).wake_tick ≡ (k.task a).wake_tick
  pub failed : (next.task t).wait_result ≡ false

module _ (k : Kernel) (low : ℕ) (v : View) (i : Inv k low v) (s : Settled k) (t : ℕ)
    (l : (k.task t).in_delay_list ≡ true) where
  pub undelayed-Inv :
      (delay_list_remove t k ≡ done tt (delay_removed t k))
      × Inv (delay_removed t k) low (record v { delayed = delete t v.delayed })
  undelayed-Inv =
      let (run, d) = delay_list_remove-delete k t low v.delayed i.delayed l in
      let k1 = delay_removed t k in
      (
        run,
        record {
          ready = ReadyFamily-frame k.task k1.task (λ a. (ground arith, λ h. ground arith)) i.ready;
          delayed = d;
          waiting =
              EventParts-frame k.task k1.task (λ a. (ground arith, λ e h. ground arith)) i.waiting;
          tasks = λ a.
              (let o = i.tasks a in
                record {
                  base_bound = ground (arith, o.base_bound);
                  inherited_bound = ground (arith, o.inherited_bound);
                  effective = ground (arith, o.effective);
                  listed_ready = λ h. ground (arith, o.listed_ready);
                  delayed_blocked = λ h. ground (arith, o.delayed_blocked);
                  waiting_blocked = λ e h. ground (arith, o.waiting_blocked e);
                });
        },
      )

  -- One round of the loop.
  pub wake_expired_task-Awake : Awake k low v t (wake_expired_task t k)
  unfolding wake_expired_task
  wake_expired_task-Awake =
      let (run, i1) = undelayed-Inv in
      let k1 = delay_removed t k in
      let was : (k.task t).state ≡ blocked = (i.tasks t).delayed_blocked l in
      let left =
        leave_event_list-Left k1 low _ i1 (λ a h. let o = s a in ground (arith, o.ready_listed))
          t in
      let k2 = apply left.result k1 in
      let same = left.tasks_same in
      let (run3, i3) =
        make_ready-made_ready k2 low _ left.inv t false
          (ground (arith, same t, (same t).in_ready_list, (i.tasks t).listed_ready))
          (ground (arith, same t, (same t).in_delay_list))
          (ground (arith, same t, (same t).event_list)) in
      record {
        next = made_ready false t k2;
        view = _;
        returns =
            and_then-done _ (config_assert-true {b = is_blocked (k.task t).state} k (ground arith))
            ∙ and_then-done (λ _. leave_event_list t >> make_ready false t) run
            ∙ and_then-done (λ _. make_ready false t) left.returns
            ∙ run3;
        inv = i3;
        delayed = refl;
        settled = λ a.
            (let o = s a in
              record {
                ready_listed =
                    λ h. ground (arith, o.ready_listed, (same a).state, (same a).in_ready_list);
                blocked_delayed =
                    λ h. ground (arith, o.blocked_delayed, (same a).state, (same a).in_delay_list);
                running_current = λ h. ground (arith, o.running_current, (same a).state);
              });
        tick_same = refl;
        current_same = refl;
        running_same = refl;
        active_same = refl;
        critical_same = refl;
        state = λ a. ground (arith, (same a).state);
        in_delay = λ a. ground (arith, (same a).in_delay_list);
        wake_same = λ a. ground (arith, (same a).wake_tick);
        failed = ground arith;
      }
