-- ===== src/Port.antt =====
-- The port's critical sections (portable/posix/port.c) and the recording of a trace event under
-- them (`vTraceRecordEvent` of kernel/trace.c). SIGALRM is blocked exactly while the nesting is
-- positive; that sigprocmask succeeds is what the port asserts of the operating system.
use mini_free_rtos.Common.{ℕ, ◌+◌, ◌-◌, ◌≡◌, Option, ltb, if◌then◌else◌, arith}
use mini_free_rtos.Trace.{TraceEventType, record_event}
use mini_free_rtos.Kernel.{Kernel}
use mini_free_rtos.Kernel.Outcome.{M, done, kernel, modify, config_assert, ◌>>=◌, ◌>>◌}

-- `vPortEnterCritical`
unfoldable pub enter_critical : M (Unit {0})
enter_critical = modify λ k. record k { critical_nesting = k.critical_nesting + 1 }

-- `vPortExitCritical`
unfoldable pub exit_critical : M (Unit {0})
exit_critical = do
  k ← kernel
  config_assert (ltb 0 k.critical_nesting)
  modify λ k. record k { critical_nesting = k.critical_nesting - 1 }

-- `prvRecordEvent` on the kernel's state, with the tick count of the moment.
abbrev pub with_event : TraceEventType → Option ℕ → Option ℕ → Option ℕ → ℕ → Kernel → Kernel
with_event type task related object value k = record k {
  trace = record_event type task related object value k.tick_count k.trace;
}

-- `vTraceRecordEvent`; TRACE_RECORD with configTRACE_ENABLED.
unfoldable pub trace_record : TraceEventType → Option ℕ → Option ℕ → Option ℕ → ℕ → M (Unit {0})
unfolding enter_critical exit_critical
trace_record type task related object value = do
  k ← kernel
  if k.inside_isr
      then modify (with_event type task related object value)
      else (do enter_critical; modify (with_event type task related object value); exit_critical)

-- On both paths the event is recorded and nothing else changes.
pub trace_record_lem :
    (type : TraceEventType) (task related object : Option ℕ) (value : ℕ) (k : Kernel)
    → trace_record type task related object value k
      ≡ done tt (with_event type task related object value k)
unfolding trace_record
trace_record_lem type task related object value k = ground arith

-- Leaving the critical section that was entered restores the nesting.
pub exit_critical-enter :
    (n : ℕ) (k : Kernel)
    → k.critical_nesting ≡ n + 1
    → exit_critical k ≡ done tt (record k { critical_nesting = n })
unfolding exit_critical
exit_critical-enter n k e = ground arith
