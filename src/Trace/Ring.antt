-- ===== src/Trace/Ring.antt =====
-- The ring of kernel/trace.c seen as the queue of the events that it holds, oldest first.
use mini_free_rtos.Common.{
  ℕ, zero, suc, ◌+◌, ◌-◌, ◌%◌, ◌≤◌, ◌<◌, ◌≡◌, refl, ap, ap₂, ◌∙◌, Option, none, some, List, [], ◌∷◌,
  ◌++◌, arith, ltb, if◌then◌else◌, update, length,
}
use mini_free_rtos.Word.{add32}
use mini_free_rtos.Trace.{TraceEventType, TraceEvent, Trace, buffer_length, event}

abbrev pub tail : List TraceEvent → List TraceEvent
tail [] = []
tail (_ ∷ es) = es

abbrev pub first : List TraceEvent → Option TraceEvent
first [] = none
first (e ∷ _) = some e

-- The `n` events from slot `start` on, going round at the end of the buffer.
abbrev pub window : (ℕ → TraceEvent) → ℕ → ℕ → List TraceEvent
window buffer start zero = []
window buffer start (suc n) = buffer start ∷ window buffer ((start + 1) % buffer_length) n

pub length-window : (buffer : ℕ → TraceEvent) (start n : ℕ) → length (window buffer start n) ≡ n
length-window buffer start zero = refl
length-window buffer start (suc n) = ap suc (length-window buffer ((start + 1) % buffer_length) n)

-- A write outside the window does not show in it.
window-update :
    (buffer : ℕ → TraceEvent) (start n i : ℕ) (v : TraceEvent)
    → start < buffer_length
    → i < buffer_length
    → n ≤ (i + buffer_length - start) % buffer_length
    → window (update buffer i v) start n ≡ window buffer start n
window-update buffer start zero i v hs hi h = refl
window-update buffer start (suc n) i v hs hi h = ground (
  arith,
  window-update buffer ((start + 1) % buffer_length) n i v (omega arith) (omega arith)
      (omega arith),
)

window-snoc :
    (buffer : ℕ → TraceEvent) (start n : ℕ)
    → start < buffer_length
    → window buffer start (suc n)
      ≡ window buffer start n ++ buffer ((start + n) % buffer_length) ∷ []
window-snoc buffer start zero h = ap (λ k. buffer k ∷ []) (omega arith)
window-snoc buffer start (suc n) h =
    ap (λ es. buffer start ∷ es)
      (window-snoc buffer ((start + 1) % buffer_length) n (omega arith)
        ∙ ap (λ k. window buffer ((start + 1) % buffer_length) n ++ buffer k ∷ []) (omega arith))

-- Writing the slot just behind a window extends it by the new event.
pub window-push :
    (buffer : ℕ → TraceEvent) (start n i start' m : ℕ) (e : TraceEvent)
    → start < buffer_length
    → n < buffer_length
    → i ≡ (start + n) % buffer_length
    → start' ≡ start
    → m ≡ suc n
    → window (update buffer i e) start' m ≡ window buffer start n ++ e ∷ []
window-push buffer start n i start' m e hs hn hi hs' hm =
    rw (hs', hm)
      (window-snoc (update buffer i e) start n hs
        ∙ ap₂ (λ es x. es ++ x ∷ [])
            (window-update buffer start n i e hs (omega arith) (omega arith)) (ground arith))

-- In a full ring that slot is the oldest event's, which is lost.
pub window-full :
    (buffer : ℕ → TraceEvent) (start n start' : ℕ) (e : TraceEvent)
    → start < buffer_length
    → n ≡ buffer_length
    → start' ≡ (start + 1) % buffer_length
    → window (update buffer start e) start' n ≡ tail (window buffer start n ++ e ∷ [])
window-full buffer start zero start' e hs hn h = absurd (omega arith)
window-full buffer start (suc m) start' e hs hn h = rw h (
    window-push buffer ((start + 1) % buffer_length) m start _ _ e (omega arith) (omega arith)
      (omega arith) refl refl)

-- The slot of the oldest event, as `xTraceRead` computes it.
abbrev pub oldest : Trace → ℕ
oldest t = (t.trace_write_index + buffer_length - t.trace_count) % buffer_length

abbrev pub contents : Trace → List TraceEvent
contents t = window t.trace_buffer (oldest t) t.trace_count

-- Indices stay inside the buffer.
pub record IsValid (t : Trace) : Type 0 where
  pub index_in : t.trace_write_index < buffer_length
  pub count_in : t.trace_count ≤ buffer_length

-- What the ring promises: a queue that forgets its oldest event when a new one finds it full.
pub record Log : Type 0 where
  pub events : List TraceEvent
  pub dropped : ℕ
  pub next_sequence : ℕ

unfoldable pub log_record : TraceEventType → Option ℕ → Option ℕ → Option ℕ → ℕ → ℕ → Log → Log
log_record type task related object value tick l =
    if ltb (length l.events) buffer_length
    then record l { events = l.events ++ e ∷ []; next_sequence = add32 l.next_sequence 1 }
    else record l {
      events = tail (l.events ++ e ∷ []);
      dropped = add32 l.dropped 1;
      next_sequence = add32 l.next_sequence 1;
    }
  where
    e : TraceEvent
    e = event type task related object value tick l.next_sequence

unfoldable pub log_read : Log → Option TraceEvent × Log
log_read l = (first l.events, record l { events = tail l.events })

abbrev pub log : Trace → Log
log t = record {
  events = contents t;
  dropped = t.trace_dropped;
  next_sequence = t.trace_next_sequence;
}

pub window-pop :
    (buffer : ℕ → TraceEvent) (start n start' m : ℕ)
    → n ≡ suc m
    → start' ≡ (start + 1) % buffer_length
    → window buffer start n ≡ buffer start ∷ window buffer start' m
window-pop buffer start n start' m hn hs = rw (hn, hs)
