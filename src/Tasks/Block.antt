-- ===== src/Tasks/Block.antt =====
-- Waiting for an event of a queue: `vTaskBlockCurrent` of kernel/tasks.c.
use mini_free_rtos.Common.{
  ℕ, ◌<◌, ◌≤◌, ◌≡◌, ◌≢◌, ap, ◌∙◌, Option, none, some, true, false, not, arith, if◌then◌else◌, ◌==◌,
  ltb, leb, update,
}
use mini_free_rtos.Word.{add32}
use mini_free_rtos.Dll.Sorted.{insert_by-congr}
use mini_free_rtos.Trace.{task_blocked}
use mini_free_rtos.Kernel.{Kernel, Tcb, EventList, WaitReason, running, blocked}
use mini_free_rtos.Kernel.Outcome.{done, and_then-done, config_assert-true}
use mini_free_rtos.Port.{with_event, trace_record_lem}
use mini_free_rtos.Tasks.Lists.{is_none}
use mini_free_rtos.Tasks.Wait.{
  start_waiting, block_current, is_running, max_delay, wait_reason_value, assert_task,
}
use mini_free_rtos.Tasks.Ready.{ReadyFamily-frame}
use mini_free_rtos.Tasks.Delayed.{
  remaining, remaining_of, DelayParts-frame, delay_list_insert-insert_due, delay_inserted,
}
use mini_free_rtos.Tasks.Waiting.{
  EventParts-frame, update_event_self, event_inserted, event_list_insert-insert_by_priority,
  insert_by_priority,
}
use mini_free_rtos.Tasks.Invariant.{Inv, View, TaskInv, Placed, Settled, priority_bound}
use mini_free_rtos.Tasks.Select.{Idle}
use mini_free_rtos.Tasks.Yield.{IsCurrent, running_unlisted}

-- What `vTaskBlockCurrent` writes into the task first.
abbrev waiting_for : Option ℕ → WaitReason → ℕ → ℕ → Kernel → Kernel
waiting_for wait_object wait_reason ticks_to_wait t k = record k {
  task = update k.task t (record (k.task t) {
    state = blocked;
    wait_object = wait_object;
    wait_reason = wait_reason;
    wait_result = false;
    wait_has_timeout = true;
    wake_tick = add32 k.tick_count ticks_to_wait;
  });
}

-- The running task `t` waits in the event list `e` and has a deadline `n` ticks ahead.
pub record Blocked (k : Kernel) (low : ℕ) (v : View) (e : EventList) (n t : ℕ) (next : Kernel)
    : Type 0 where
  pub view : View
  pub inv : Inv next low view
  pub settled : Settled next
  pub idle : Idle next
  pub waiting : view.waiting e ≡ insert_by_priority k t (v.waiting e)
  pub listed : (next.task t).event_list ≡ some e
  pub state : (a : ℕ) → (next.task a).state ≡ (if a == t then blocked else (k.task a).state)
  pub deadline : remaining next t ≡ n

module _ (k : Kernel) (low : ℕ) (v : View) (i : Inv k low v) (s : Settled k) (t : ℕ)
    (c : IsCurrent k t) (e : EventList) (wait_object : Option ℕ) (wait_reason : WaitReason)
    (n : ℕ) where
  -- The tasks afterwards: `prvEventListInsert` and `prvDelayListInsert` write their marks.
  abbrev announced : ℕ → Tcb
  announced = (waiting_for wait_object wait_reason n t k).task

  abbrev listed_task : ℕ → Tcb
  listed_task = update announced t (record (announced t) { event_list = some e })

  abbrev waiting_task : ℕ → Tcb
  waiting_task = update listed_task t (record (listed_task t) { in_delay_list = true })

  waiting_task-TaskInv : (a : ℕ) → TaskInv (waiting_task a)
  waiting_task-TaskInv a =
      let o = i.tasks a in
      let (out, undelayed, unwaiting) = running_unlisted k low v i t c in
      record {
        base_bound = ground (arith, o.base_bound);
        inherited_bound = ground (arith, o.inherited_bound);
        effective = ground (arith, o.effective);
        listed_ready = λ h. ground (arith, o.listed_ready);
        delayed_blocked = λ h. ground (arith, o.delayed_blocked);
        waiting_blocked = λ e h. ground (arith, o.waiting_blocked e);
      }

  waiting_task-Placed : (a : ℕ) → Placed k.current_task a (waiting_task a)
  waiting_task-Placed a =
      let o = s a in
      record {
        ready_listed = λ h. ground (arith, o.ready_listed);
        blocked_delayed = λ h. ground (arith, o.blocked_delayed);
        running_current = λ h. ground (arith, o.running_current);
      }

  waiting_task-idle : (a : ℕ) → (waiting_task a).state ≢ running
  waiting_task-idle a h = ground (arith, (s a).running_current, c.current)

  waiting_task-state :
      (a : ℕ) → (waiting_task a).state ≡ (if a == t then blocked else (k.task a).state)
  waiting_task-state a = ground arith

  waiting_task-event_list : (waiting_task t).event_list ≡ some e
  waiting_task-event_list = ground arith

  waiting_task-ready :
      (a : ℕ)
      → ((waiting_task a).in_ready_list ≡ (k.task a).in_ready_list)
        × ((k.task a).in_ready_list ≡ true → (waiting_task a).priority ≡ (k.task a).priority)
  waiting_task-ready a = (ground arith, λ h. ground arith)

  waiting_task-listed :
      (a : ℕ)
      → ((waiting_task a).event_list ≡ (listed_task a).event_list)
        × ((e : EventList)
            → (listed_task a).event_list ≡ some e
            → (waiting_task a).priority ≡ (listed_task a).priority)
  waiting_task-listed a = (ground arith, λ e h. ground arith)

  waiting_task-remaining : n < max_delay → remaining_of waiting_task k.tick_count t ≡ n
  waiting_task-remaining short = ground (arith, i.delayed.now)

  start_waiting-Blocked :
      0 < n
      → n < max_delay
      → low ≤ n
      → (next : Kernel) × (start_waiting e wait_object wait_reason n t k ≡ done tt next)
        × Blocked k low v e n t next
  unfolding start_waiting
  start_waiting-Blocked pos short long =
      let (out, undelayed, unwaiting) = running_unlisted k low v i t c in
      let k1 = waiting_for wait_object wait_reason n t k in
      let w0 =
        EventParts-frame k.task k1.task (λ a. (ground arith, λ e h. ground arith)) i.waiting in
      let bound = priority_bound (k.task t) (i.tasks t) in
      let (d, run1, w1) =
        event_list_insert-insert_by_priority k1 t v.waiting w0 e (ground arith) (ground arith) in
      let k2 = event_inserted e t d k1 in
      let d0 = DelayParts-frame k.task k2.task (λ a. (ground arith, λ h. ground arith)) i.delayed in
      let ahead : remaining k2 t ≡ n = ground (arith, i.delayed.now) in
      let (d', run2, d2) =
        delay_list_insert-insert_due k2 t low v.delayed d0 (ground arith) (ground arith)
          (rw ahead (omega arith)) (rw ahead long) in
      let k3 =
        with_event task_blocked (some t) none wait_object (wait_reason_value wait_reason)
          (delay_inserted t d' k2) in
      (
        k3,
        and_then-done _ run1
            ∙ and_then-done _ run2
            ∙ trace_record_lem task_blocked (some t) none wait_object _ _,
        record {
          view = record v { waiting = _; delayed = _ };
          inv = record {
            ready = ReadyFamily-frame k.task k3.task waiting_task-ready i.ready;
            delayed = d2;
            waiting = EventParts-frame k2.task k3.task waiting_task-listed w1;
            tasks = waiting_task-TaskInv;
          };
          settled = waiting_task-Placed;
          idle = waiting_task-idle;
          waiting =
              update_event_self v.waiting e _
              ∙ insert_by-congr (λ a. not (leb (k1.task t).priority (k1.task a).priority))
                  (λ a. not (leb (k.task t).priority (k.task a).priority)) t (v.waiting e)
                  (λ a m. ground arith);
          listed = waiting_task-event_list;
          state = waiting_task-state;
          deadline = waiting_task-remaining short;
        },
      )

  -- From a state with the invariant in which the scheduler runs, no task is lost and `t` is the
  -- running task, `vTaskBlockCurrent` with a timeout in range returns, with `t` waiting in the
  -- event list, by priority, and in the delayed list; nobody runs, no task is lost and the
  -- invariant holds.
  pub block_current-Blocked :
      k.scheduler_running ≡ true
      → 0 < n
      → n < max_delay
      → low ≤ n
      → (next : Kernel) × (block_current e wait_object wait_reason n k ≡ done tt next)
        × Blocked k low v e n t next
  unfolding block_current
  block_current-Blocked on pos short long =
      let (out, undelayed, unwaiting) = running_unlisted k low v i t c in
      let (next, run, b) = start_waiting-Blocked pos short long in
      (
        next,
        and_then-done _ (config_assert-true k on)
            ∙ and_then-done _ (ap (λ o. assert_task o k) c.current)
            ∙ and_then-done _
                (config_assert-true {b = is_running (k.task t).state} k (ground (arith, c.runs)))
            ∙ and_then-done _
                (config_assert-true {b = is_none (k.task t).event_list} k (ground arith))
            ∙ and_then-done _
                (config_assert-true {b = not (k.task t).in_delay_list} k (ground arith))
            ∙ and_then-done _ (config_assert-true {b = ltb 0 n} k (ground arith))
            ∙ and_then-done _ (config_assert-true {b = ltb n max_delay} k (ground arith))
            ∙ run,
        b,
      )
