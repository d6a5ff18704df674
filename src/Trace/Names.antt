-- ===== src/Trace/Names.antt =====
-- kernel/trace.c: the names of event types, and recording from the tick interrupt.
use Prim.Native.String.{String}
use mini_free_rtos.Common.{ℕ, Option}
use mini_free_rtos.Trace.{
  Trace, TraceEventType, task_switch, task_ready, task_blocked, task_wake, task_deleted, tick_event,
  queue_send, queue_receive, semaphore_take, semaphore_give, mutex_inherit, mutex_release,
  timer_command_queued, timer_command_applied, timer_callback, record_event,
}

-- `pcTraceEventTypeName` of an enumerator.
unfoldable pub event_type_name : TraceEventType → String
event_type_name task_switch = "task-switch"
event_type_name task_ready = "task-ready"
event_type_name task_blocked = "task-blocked"
event_type_name task_wake = "task-wake"
event_type_name task_deleted = "task-deleted"
event_type_name tick_event = "tick"
event_type_name queue_send = "queue-send"
event_type_name queue_receive = "queue-receive"
event_type_name semaphore_take = "semaphore-take"
event_type_name semaphore_give = "semaphore-give"
event_type_name mutex_inherit = "mutex-inherit"
event_type_name mutex_release = "mutex-release"
event_type_name timer_command_queued = "timer-command-queued"
event_type_name timer_command_applied = "timer-command-applied"
event_type_name timer_callback = "timer-callback"

-- `vTraceRecordEventFromISR`
unfoldable pub record_event_from_isr :
    TraceEventType → Option ℕ → Option ℕ → Option ℕ → ℕ → ℕ → Trace → Trace
record_event_from_isr type task related_task object value tick =
    record_event type task related_task object value tick
