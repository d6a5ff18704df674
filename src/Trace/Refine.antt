-- ===== src/Trace/Refine.antt =====
-- The functions of kernel/trace.c against the queue that the ring stands for.
use mini_free_rtos.Common.{
  ℕ, ◌+◌, ◌-◌, ◌%◌, ◌≡◌, refl, ap, ◌∙◌, sym, subst, Option, List, [], ◌∷◌, ◌++◌, arith, ltb, length,
  Bool-cases, inl, inr,
}
use mini_free_rtos.Word.{add32}
use mini_free_rtos.Trace.{
  TraceEventType, TraceEvent, Trace, buffer_length, initial, event, record_event, reset, read,
}
use mini_free_rtos.Trace.Ring.{
  oldest, IsValid, Log, tail, log_record, log_read, log, window-push, window-full, length-window,
  window-pop,
}

pub initial-IsValid : IsValid initial
initial-IsValid = record { index_in = omega arith; count_in = omega arith }

module _ (type : TraceEventType) (task related object : Option ℕ) (value tick : ℕ) where
  -- Recording keeps the indices inside the buffer.
  pub record_event-IsValid :
      (t : Trace) → IsValid t → IsValid (record_event type task related object value tick t)
  unfolding record_event
  record_event-IsValid t v = ground arith

  -- `prvRecordEvent` appends the event with the next sequence number; when the ring is full it
  -- forgets the oldest event and counts it as dropped.
  pub record_event-log :
      (t : Trace)
      → IsValid t
      → log (record_event type task related object value tick t)
        ≡ log_record type task related object value tick (log t)
  unfolding record_event log_record
  record_event-log t v =
      let n = t.trace_count in
      let w = t.trace_write_index in
      let e = event type task related object value tick t.trace_next_sequence in
      ground (
        arith,
        length-window t.trace_buffer (oldest t) n,
        window-push t.trace_buffer (oldest t) n w
            (((w + 1) % buffer_length + buffer_length - (n + 1)) % buffer_length) (n + 1) e,
        window-full t.trace_buffer (oldest t) n
            (((w + 1) % buffer_length + buffer_length - n) % buffer_length) e,
      )

-- Reading keeps the indices inside the buffer.
pub read-IsValid : (t : Trace) → IsValid t → IsValid (read t).1
unfolding read
read-IsValid t v = ground arith

-- `xTraceRead` returns the oldest event and removes it; on an empty ring it fails and changes
-- nothing.
read-log : (t : Trace) → IsValid t → let (e, t') = read t in (e, log t') ≡ log_read (log t)
unfolding read log_read
read-log t v =
    let n = t.trace_count in
    ground (
      arith,
      window-pop t.trace_buffer (oldest t) n
          ((t.trace_write_index + buffer_length - (n - 1)) % buffer_length) (n - 1),
    )

-- What a program does with the ring: the kernel records, a reader drains, a reset starts anew.
pub data Call : Type 0 where
  records : TraceEventType → Option ℕ → Option ℕ → Option ℕ → ℕ → ℕ → Call
  reads resets : Call

-- The ring after a history of calls, and what each read returned.
unfoldable pub run : Trace → List Call → List (Option TraceEvent) × Trace
run t [] = ([], t)
run t (records type task related object value tick ∷ cs) =
    run (record_event type task related object value tick t) cs
run t (reads ∷ cs) = let (e, t') = read t in let (es, u) = run t' cs in (e ∷ es, u)
run t (resets ∷ cs) = run (reset t) cs

unfoldable pub log_run : Log → List Call → List (Option TraceEvent) × Log
log_run l [] = ([], l)
log_run l (records type task related object value tick ∷ cs) =
    log_run (log_record type task related object value tick l) cs
log_run l (reads ∷ cs) = let (e, l') = log_read l in let (es, m) = log_run l' cs in (e ∷ es, m)
log_run l (resets ∷ cs) = log_run (log initial) cs

-- From a valid ring no history of calls tells the ring from the queue: every read returns the
-- same event, and the events left, the number dropped and the next sequence number agree.
pub run-log :
    (cs : List Call) (t : Trace)
    → IsValid t
    → let (es, u) = run t cs in (es, log u) ≡ log_run (log t) cs
unfolding run log_run reset
run-log [] t v = refl
run-log (records type task related object value tick ∷ cs) t v =
    rw (← record_event-log type task related object value tick t v)
      (run-log cs _ (record_event-IsValid type task related object value tick t v))
run-log (reads ∷ cs) t v = rw (← read-log t v) (
    ap (λ (p : List (Option TraceEvent) × Log). ((read t).0 ∷ p.0, p.1))
      (run-log cs _ (read-IsValid t v)))
run-log (resets ∷ cs) t v = run-log cs initial initial-IsValid

-- The events of a log are numbered one after the other, round the 32-bit counter, from `first` up
-- to the number that the next event gets.
abbrev pub Numbered : ℕ → List TraceEvent → ℕ → Type 0
Numbered from [] next = from ≡ next
Numbered from (e ∷ es) next = (e.sequence ≡ from) × Numbered (add32 from 1) es next

Numbered-snoc :
    (from : ℕ) (es : List TraceEvent) (next : ℕ) (e : TraceEvent)
    → Numbered from es next
    → e.sequence ≡ next
    → Numbered from (es ++ e ∷ []) (add32 next 1)
Numbered-snoc from [] next e h k = (k ∙ sym h, ap (λ n. add32 n 1) h)
Numbered-snoc from (x ∷ es) next e h k = (h.0, Numbered-snoc (add32 from 1) es next e h.1 k)

abbrev pub IsNumbered : Log → Type 0
IsNumbered l = (from : ℕ) × Numbered from l.events l.next_sequence

IsNumbered-tail :
    (es : List TraceEvent) (from next : ℕ)
    → Numbered from es next
    → (m : ℕ) × Numbered m (tail es) next
IsNumbered-tail [] from next h = (from, h)
IsNumbered-tail (e ∷ es) from next h = (add32 from 1, h.1)

log_record-IsNumbered :
    (type : TraceEventType) (task related object : Option ℕ) (value tick : ℕ) (l : Log)
    → IsNumbered l
    → IsNumbered (log_record type task related object value tick l)
unfolding log_record
log_record-IsNumbered type task related object value tick l (from, h) =
    let e = event type task related object value tick l.next_sequence in
    let more = Numbered-snoc from l.events l.next_sequence e h refl in
    elim (Bool-cases (ltb (length l.events) buffer_length)) [
      | inl fits ↦ rw fits (from, more)
      | inr full ↦ rw full (IsNumbered-tail (l.events ++ e ∷ []) from _ more)
    ]

log_run-IsNumbered : (cs : List Call) (l : Log) → IsNumbered l → IsNumbered (log_run l cs).1
unfolding log_run log_read
log_run-IsNumbered [] l h = h
log_run-IsNumbered (records type task related object value tick ∷ cs) l h =
    log_run-IsNumbered cs _ (log_record-IsNumbered type task related object value tick l h)
log_run-IsNumbered (reads ∷ cs) l (from, h) =
    log_run-IsNumbered cs _ (IsNumbered-tail l.events from _ h)
log_run-IsNumbered (resets ∷ cs) l h = log_run-IsNumbered cs (log initial) (0, refl)

-- After any history from the initial ring the events that it holds bear consecutive sequence
-- numbers, the last one just before the number that the next event gets.
pub run-IsNumbered : (cs : List Call) → IsNumbered (log (run initial cs).1)
run-IsNumbered cs =
    subst IsNumbered (sym (ap (λ p. p.1) (run-log cs initial initial-IsValid)))
      (log_run-IsNumbered cs (log initial) (0, refl))
