-- ===== src/Tasks/Schedule.antt =====
-- Selection, yielding, delaying and the tick of kernel/tasks.c. `yield_task t` stands for
-- `vPortYieldTask(t)`: it gives the processor away and returns when the task `t` runs again; what
-- the other tasks do meanwhile is its effect on the state. It rests on swapcontext of the C library.
use mini_free_rtos.Common.{
  ℕ, zero, suc, Option, none, some, Bool, true, false, not, ltb, ◌==◌, if◌then◌else◌, ◌&&◌, ◌||◌,
  List, [], ◌∷◌,
}
use mini_free_rtos.Word.{add32, sub32, tick_before}
use mini_free_rtos.Trace.{task_blocked, task_switch, task_deleted}
use mini_free_rtos.Kernel.{
  Kernel, TaskState, ready, blocked, running, deleted, invalid, wait_none, max_priorities,
}
use mini_free_rtos.Kernel.Outcome.{M, pure, kernel, modify, set_task, config_assert, ◌>>=◌, ◌>>◌}
use mini_free_rtos.Port.{trace_record, enter_critical, exit_critical}
use mini_free_rtos.Tasks.Lists.{
  ready_list_insert, ready_list_remove, delay_list_insert, delay_list_remove,
}
use mini_free_rtos.Tasks.Priority.{owns_mutex, is_task}
use mini_free_rtos.Tasks.Wait.{
  is_running, is_blocked, max_delay, assert_task, clear_wait_state, leave_event_list, make_ready,
  preempts, wake_expired_tasks, wait_reason_value,
}

-- The loop of `prvSelectNextReadyTask` over the priorities below `n`, the highest first.
unfoldable pub select_below : ℕ → M (Option ℕ)
select_below zero k = pure none k
select_below (suc p) k = elim (k.ready_lists p).head [
  | none ↦ select_below p k
  | some t ↦ (ready_list_remove t >> pure (some t)) k
]

-- `prvSelectNextReadyTask`
unfoldable pub select_next_ready_task : M (Option ℕ)
unfolding select_below
select_next_ready_task = select_below max_priorities

unfoldable pub run_selected : Option ℕ → Option ℕ → M (Unit {0})
run_selected previous none =
    modify λ k. record k { current_task = none; task_context_active = false }
run_selected previous (some t) = do
  modify λ k. record k { current_task = some t }
  set_task t (λ c. record c { state = running })
  k ← kernel
  trace_record task_switch (some t) previous none (k.task t).priority

-- `vTaskSwitchContext`
unfoldable pub switch_context : M (Unit {0})
unfolding run_selected
switch_context = do k ← kernel; next ← select_next_ready_task; run_selected k.current_task next

-- `vTaskSetContextActive`
unfoldable pub set_context_active : Bool → M (Unit {0})
set_context_active active = modify λ k. record k { task_context_active = active }

-- The current task becomes ready, behind the others of its priority.
unfoldable pub make_current_ready : ℕ → M (Unit {0})
make_current_ready t = do set_task t (λ c. record c { state = ready }); ready_list_insert t

-- What `vTaskDelay` does between the critical section's ends.
unfoldable pub start_delay : ℕ → ℕ → M (Unit {0})
start_delay ticks t = do
  k ← kernel
  set_task t (λ c. record c {
    wake_tick = add32 k.tick_count ticks;
    wait_object = none;
    wait_reason = wait_none;
    wait_result = false;
    wait_has_timeout = false;
    state = blocked;
  })
  delay_list_insert t
  trace_record task_blocked (some t) none none (wait_reason_value wait_none)

module _ (yield_task : ℕ → M (Unit {0})) where
  -- `vTaskYield`
  unfoldable pub task_yield : M (Unit {0})
  task_yield = do
    k ← kernel
    config_assert k.scheduler_running
    t ← assert_task k.current_task
    make_current_ready t
    yield_task t

  -- `vTaskDelay`
  unfoldable pub task_delay : ℕ → M (Unit {0})
  task_delay ticks = do
    k ← kernel
    config_assert k.scheduler_running
    t ← assert_task k.current_task
    if ticks == 0 then task_yield else (do
      config_assert (ltb ticks max_delay)
      enter_critical
      start_delay ticks t
      exit_critical
      yield_task t
      clear_wait_state t)

  -- `vTaskDelayUntil`: the value is what goes into `*previous_wake_time`, which is written before
  -- the task waits.
  unfoldable pub task_delay_until : ℕ → ℕ → M ℕ
  task_delay_until previous_wake_time time_increment = do
    config_assert (ltb time_increment max_delay)
    let next_wake_time = add32 previous_wake_time time_increment
    k ← kernel
    if tick_before k.tick_count next_wake_time
        then task_delay (sub32 next_wake_time k.tick_count)
        else task_yield
    pure next_wake_time

  -- `xTaskAbortDelay`
  unfoldable pub abort_delay : Option ℕ → M Bool
  abort_delay none = pure false
  abort_delay (some t) = do
    enter_critical
    k ← kernel
    if not (is_blocked (k.task t).state) || not (k.task t).in_delay_list
        then (do exit_critical; pure false)
        else (do
          delay_list_remove t
          leave_event_list t
          make_ready false t
          k' ← kernel
          let should_yield = k'.scheduler_running && preempts t k'
          exit_critical
          if should_yield then task_yield else pure tt
          pure true)

  -- `vTaskRunEntry`: `task_code` is the task's own function. Nothing runs a deleted task again, so
  -- the function does not come back from its last yield.
  unfoldable pub run_entry : (task_code : ℕ → ℕ → M (Unit {0})) → ℕ → M (Unit {0})
  run_entry task_code t = do
    k ← kernel
    config_assert (is_task t k.current_task)
    task_code (k.task t).task_code (k.task t).parameters
    k ← kernel
    config_assert (not (owns_mutex t k))
    set_task t (λ c. record c { state = deleted })
    trace_record task_deleted (some t) none none 0
    yield_task t
    config_assert false

  -- `vTaskEndScheduler`, with `vPortEndScheduler` of portable/posix/port.c at its end.
  unfoldable pub end_scheduler : M (Unit {0})
  end_scheduler = do
    modify λ k. record k { scheduler_running = false }
    k ← kernel
    elim k.current_task [ none ↦ pure tt | some t ↦ (do make_current_ready t; yield_task t) ]

  -- `vPortYieldFromISR` of portable/posix/port.c
  unfoldable pub yield_from_isr : ℕ → M (Unit {0})
  yield_from_isr t = do
    modify λ k. record k { inside_isr = false }
    yield_task t
    modify λ k. record k { inside_isr = true }

  -- The end of `vTaskTickISR`: a running task is preempted.
  unfoldable pub preempt_running : Option ℕ → M (Unit {0})
  preempt_running none = pure tt
  preempt_running (some t) = do
    k ← kernel
    if is_running (k.task t).state then (do make_current_ready t; yield_from_isr t) else pure tt

  -- `vTaskTickISR` (configTRACE_INCLUDE_TICKS is off).
  unfoldable pub tick_isr : M (Unit {0})
  unfolding preempt_running yield_from_isr
  tick_isr = do
    modify λ k. record k { tick_count = add32 k.tick_count 1 }
    wake_expired_tasks
    k ← kernel
    if not k.scheduler_running || not k.task_context_active
        then pure tt
        else preempt_running k.current_task

  -- `prvTickSignalHandler` of portable/posix/port.c
  unfoldable pub tick_signal_handler : M (Unit {0})
  tick_signal_handler = do
    modify λ k. record k { inside_isr = true }
    tick_isr
    modify λ k. record k { inside_isr = false }

-- One round of the loop of `vPortStartScheduler` (portable/posix/port.c), up to `vPortRunTask`: the
-- task that runs next, or NULL, which ends the loop.
unfoldable pub dispatch : M (Option ℕ)
dispatch = do
  set_context_active false
  enter_critical
  switch_context
  exit_critical
  k ← kernel
  elim k.current_task [ none ↦ pure none | some t ↦ (do set_context_active true; pure (some t)) ]

abbrev is_deleted : TaskState → Bool
is_deleted deleted = true
is_deleted _ = false

all_deleted : Kernel → List ℕ → Bool
all_deleted k [] = true
all_deleted k (t ∷ ts) =
    let rest = all_deleted k ts in
    if not (k.task t).is_idle && not (k.task t).is_system && not (is_deleted (k.task t).state)
    then false
    else rest

-- `prvAllApplicationTasksDeleted`
unfoldable pub all_application_tasks_deleted : Kernel → Bool
unfolding all_deleted
all_application_tasks_deleted k = all_deleted k k.task_table

-- `eTaskGetState`
unfoldable pub get_state : Option ℕ → Kernel → TaskState
get_state none k = invalid
get_state (some t) k = (k.task t).state
