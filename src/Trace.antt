-- ===== src/Trace.antt =====
-- kernel/trace.c: the ring of trace events, and include/trace.h: its event type.
pub mod Ring
pub mod Refine
pub mod Names
use mini_free_rtos.Common.{
  ℕ, ◌+◌, ◌-◌, ◌%◌, Option, none, some, Bool, ltb, ◌==◌, if◌then◌else◌, update,
}
use mini_free_rtos.Word.{add32}

-- `TraceEventType_t`
pub data TraceEventType : Type 0 where
  task_switch task_ready task_blocked task_wake task_deleted tick_event : TraceEventType
  queue_send queue_receive semaphore_take semaphore_give : TraceEventType
  mutex_inherit mutex_release : TraceEventType
  timer_command_queued timer_command_applied timer_callback : TraceEventType

-- `TraceEvent_t`. A task handle or an object is an address, NULL is `none`.
pub record TraceEvent : Type 0 where
  pub sequence : ℕ
  pub tick : ℕ
  pub type : TraceEventType
  pub task : Option ℕ
  pub related_task : Option ℕ
  pub object : Option ℕ
  pub value : ℕ

-- configTRACE_BUFFER_LENGTH
abbrev pub buffer_length : ℕ
buffer_length = 256

-- The static variables of trace.c.
pub record Trace : Type 0 where
  pub trace_buffer : ℕ → TraceEvent
  pub trace_write_index : ℕ
  pub trace_count : ℕ
  pub trace_dropped : ℕ
  pub trace_next_sequence : ℕ

-- What memset leaves in a slot.
abbrev pub zero_event : TraceEvent
zero_event = record {
  sequence = 0;
  tick = 0;
  type = task_switch;
  task = none;
  related_task = none;
  object = none;
  value = 0;
}

-- The state before the first event: static storage is zero.
abbrev pub initial : Trace
initial = record {
  trace_buffer = λ _. zero_event;
  trace_write_index = 0;
  trace_count = 0;
  trace_dropped = 0;
  trace_next_sequence = 0;
}

abbrev pub event : TraceEventType → Option ℕ → Option ℕ → Option ℕ → ℕ → ℕ → ℕ → TraceEvent
event type task related_task object value tick sequence = record {
  sequence = sequence;
  tick = tick;
  type = type;
  task = task;
  related_task = related_task;
  object = object;
  value = value;
}

-- `prvRecordEvent`
unfoldable pub record_event :
    TraceEventType → Option ℕ → Option ℕ → Option ℕ → ℕ → ℕ → Trace → Trace
record_event type task related_task object value tick t = record {
  trace_buffer =
      update t.trace_buffer t.trace_write_index
        (event type task related_task object value tick t.trace_next_sequence);
  trace_write_index = (t.trace_write_index + 1) % buffer_length;
  trace_count = if full then t.trace_count else t.trace_count + 1;
  trace_dropped = if full then add32 t.trace_dropped 1 else t.trace_dropped;
  trace_next_sequence = add32 t.trace_next_sequence 1;
}
  where
    full : Bool
    full = if ltb t.trace_count buffer_length then Bool.false else Bool.true

-- `vTraceReset`
unfoldable pub reset : Trace → Trace
reset t = initial

-- `xTraceRead`: the event that goes through the pointer, if there is one, and the new state.
unfoldable pub read : Trace → Option TraceEvent × Trace
read t =
    if t.trace_count == 0
    then (none, t)
    else (some (t.trace_buffer oldest), record t { trace_count = t.trace_count - 1 })
  where
    oldest : ℕ
    oldest = (t.trace_write_index + buffer_length - t.trace_count) % buffer_length

-- `uxTraceGetCount`
unfoldable pub get_count : Trace → ℕ
get_count t = t.trace_count

-- `ulTraceGetDroppedCount`
unfoldable pub get_dropped_count : Trace → ℕ
get_dropped_count t = t.trace_dropped
