-- ===== src/Tasks/Wait.antt =====
-- Blocking and waking of kernel/tasks.c.
use mini_free_rtos.Common.{
  ℕ, zero, suc, Option, none, some, Bool, true, false, not, ltb, if◌then◌else◌, ◌&&◌, ◌||◌,
}
use mini_free_rtos.Word.{add32, sub32, tick_before, tick_reached}
use mini_free_rtos.Trace.{task_blocked, task_wake}
use mini_free_rtos.Kernel.{
  Kernel, EventList, TaskState, WaitReason, ready, blocked, running, wait_none, wait_queue_send,
  wait_queue_receive, wait_semaphore_take, wait_mutex_take,
}
use mini_free_rtos.Kernel.Outcome.{
  M, pure, kernel, set_task, config_assert, halted, assertion_failed, out_of_fuel, ◌>>=◌, ◌>>◌,
}
use mini_free_rtos.Port.{trace_record}
use mini_free_rtos.Tasks.Lists.{
  ready_list_insert, delay_list_insert, delay_list_remove, event_list_insert, event_list_remove,
  event_header, is_none,
}
use mini_free_rtos.Tasks.Priority.{wait_ended}

abbrev pub is_running : TaskState → Bool
is_running running = true
is_running _ = false

abbrev pub is_blocked : TaskState → Bool
is_blocked blocked = true
is_blocked _ = false

-- INT32_MAX as a tick count: every timeout is below it.
abbrev pub max_delay : ℕ
max_delay = 2147483647

-- The number of an enumerator, which the trace records.
abbrev pub wait_reason_value : WaitReason → ℕ
wait_reason_value wait_none = 0
wait_reason_value wait_queue_send = 1
wait_reason_value wait_queue_receive = 2
wait_reason_value wait_semaphore_take = 3
wait_reason_value wait_mutex_take = 4

-- A task that must not be NULL.
abbrev pub assert_task : Option ℕ → M ℕ
assert_task none k = halted assertion_failed
assert_task (some t) k = pure t k

-- What `vTaskBlockCurrent` does after its assertions.
unfoldable pub start_waiting : EventList → Option ℕ → WaitReason → ℕ → ℕ → M (Unit {0})
start_waiting e wait_object wait_reason ticks_to_wait t = do
  k ← kernel
  set_task t (λ c. record c {
    state = blocked;
    wait_object = wait_object;
    wait_reason = wait_reason;
    wait_result = false;
    wait_has_timeout = true;
    wake_tick = add32 k.tick_count ticks_to_wait;
  })
  event_list_insert e t
  delay_list_insert t
  trace_record task_blocked (some t) none wait_object (wait_reason_value wait_reason)

-- `vTaskBlockCurrent`
unfoldable pub block_current : EventList → Option ℕ → WaitReason → ℕ → M (Unit {0})
block_current e wait_object wait_reason ticks_to_wait = do
  k ← kernel
  config_assert k.scheduler_running
  t ← assert_task k.current_task
  config_assert (is_running (k.task t).state)
  config_assert (is_none (k.task t).event_list)
  config_assert (not (k.task t).in_delay_list)
  config_assert (ltb 0 ticks_to_wait)
  config_assert (ltb ticks_to_wait max_delay)
  start_waiting e wait_object wait_reason ticks_to_wait t

-- The last part of every wake-up.
unfoldable pub make_ready : Bool → ℕ → M (Unit {0})
make_ready result t = do
  set_task t (λ c. record c { wait_result = result; state = ready })
  ready_list_insert t
  k ← kernel
  trace_record task_wake (some t) none (k.task t).wait_object
      (wait_reason_value (k.task t).wait_reason)

-- Whether the current task is running at a lower priority than the task `t`.
unfoldable pub preempts : ℕ → Kernel → Bool
preempts t k = elim k.current_task [
  | none ↦ false
  | some c ↦ is_running (k.task c).state && ltb (k.task c).priority (k.task t).priority
]

-- A task may wait without a deadline.
unfoldable pub leave_delay_list : ℕ → M (Unit {0})
leave_delay_list t = do
  k ← kernel
  if (k.task t).in_delay_list then delay_list_remove t else pure tt

-- The rest of `xTaskUnblockOne`, by the head of the list.
unfoldable pub unblock_first : EventList → Option ℕ → M Bool
unblock_first e none = pure false
unblock_first e (some t) = do
  k ← kernel
  config_assert (is_blocked (k.task t).state)
  event_list_remove t
  leave_delay_list t
  make_ready true t
  k ← kernel
  pure (preempts t k)

-- `xTaskUnblockOne`
unfoldable pub unblock_one : EventList → M Bool
unfolding unblock_first
unblock_one e = do k ← kernel; unblock_first e (event_header e k).head

-- `xTaskGetWaitRemaining`
unfoldable pub get_wait_remaining : ℕ → Kernel → ℕ
get_wait_remaining t k =
    if not (k.task t).wait_has_timeout || not (tick_before k.tick_count (k.task t).wake_tick)
    then 0
    else sub32 (k.task t).wake_tick k.tick_count

-- `vTaskClearWaitState`
unfoldable pub clear_wait_state : ℕ → M (Unit {0})
clear_wait_state t = do
  k ← kernel
  config_assert (is_none (k.task t).event_list)
  config_assert (not (k.task t).in_delay_list)
  set_task t (λ c. record c {
    wake_tick = 0;
    wait_object = none;
    wait_reason = wait_none;
    wait_result = false;
    wait_has_timeout = false;
  })

-- Leaving an event list before the wait has succeeded.
unfoldable pub leave_event_list : ℕ → M (Unit {0})
leave_event_list t = do
  k ← kernel
  if is_none (k.task t).event_list then pure tt else (do event_list_remove t; wait_ended t)

-- One round of `prvWakeExpiredTasks`.
unfoldable pub wake_expired_task : ℕ → M (Unit {0})
wake_expired_task t = do
  k ← kernel
  config_assert (is_blocked (k.task t).state)
  delay_list_remove t
  leave_event_list t
  make_ready false t

-- The test of the loop of `prvWakeExpiredTasks`, and what follows it.
unfoldable pub wake_from : Option ℕ → M (Unit {0}) → M (Unit {0})
wake_from none rest = pure tt
wake_from (some t) rest = do
  k ← kernel
  if tick_reached k.tick_count (k.task t).wake_tick then (do wake_expired_task t; rest) else pure tt

-- The loop of `prvWakeExpiredTasks`, with fuel.
unfoldable pub wake_loop : ℕ → M (Unit {0})
unfolding wake_from
wake_loop zero = λ _. halted out_of_fuel
wake_loop (suc fuel) = do k ← kernel; wake_from k.delayed_list.head (wake_loop fuel)

-- `prvWakeExpiredTasks`: each round takes a task off the delayed list, so its length bounds them.
unfoldable pub wake_expired_tasks : M (Unit {0})
unfolding wake_loop
wake_expired_tasks = do k ← kernel; wake_loop (suc k.delayed_list.length)
