-- ===== src/Queues/Finish.antt =====
-- kernel/queue.c: the end of xQueueSend and xQueueReceive when nobody waits.
use mini_free_rtos.Common.{ℕ, ◌+◌, ◌≡◌, refl, ap, ◌∙◌, none, some, Bool, false, update}
use mini_free_rtos.Trace.{TraceEventType, queue_send, queue_receive}
use mini_free_rtos.Kernel.{Kernel, Queue, EventList, send_waiters, receive_waiters}
use mini_free_rtos.Kernel.Outcome.{M, done, pure, kernel, and_then-done, ◌>>=◌, ◌>>◌}
use mini_free_rtos.Port.{
  with_event, exit_critical, exit_critical-enter, trace_record, trace_record_lem,
}
use mini_free_rtos.Tasks.Wait.{unblock_one, unblock_first}
use mini_free_rtos.Tasks.Lists.{event_header}
use mini_free_rtos.Queues.{yield_if}
use mini_free_rtos.Queues.Messages.{put_message, drop_message}

-- Nobody waits, nobody is woken.
unblock_one-alone :
    (e : EventList) (k : Kernel) → (event_header e k).head ≡ none → unblock_one e k ≡ done false k
unfolding unblock_one unblock_first
unblock_one-alone e k alone = ap (λ o. unblock_first e o k) alone

abbrev pub queue_changed : ℕ → (Queue → Queue) → Kernel → Kernel
queue_changed q f k = record k { queue = update k.queue q (f (k.queue q)) }

-- What both operations do when the message has been copied.
module _ {A : Type 0} (yield_task : ℕ → M (Unit {0})) (q : ℕ) (type : TraceEventType)
    (e : EventList) (count : ℕ) (a : A) where
  abbrev pub give_up : Bool → M A
  give_up should_yield = do yield_if yield_task should_yield; pure a

  abbrev pub report : Bool → M A
  report should_yield = do
    k' ← kernel
    trace_record type k'.current_task none (some q) count
    give_up should_yield

  abbrev pub leave : Bool → M A
  leave should_yield = do exit_critical; report should_yield

  abbrev pub finish : M A
  finish = do should_yield ← unblock_one e; leave should_yield

  pub finish-alone :
      (k : Kernel)
      → (event_header e k).head ≡ none
      → finish (record k { critical_nesting = k.critical_nesting + 1 })
        ≡ done a (with_event type k.current_task none (some q) count k)
  unfolding yield_if
  finish-alone k alone =
      let inside : Kernel = record k { critical_nesting = k.critical_nesting + 1 } in
      let same : event_header e inside ≡ event_header e k = headers e k in
      and_then-done leave (unblock_one-alone e inside (ap (λ h. h.head) same ∙ alone))
      ∙ and_then-done (λ _. report false) (exit_critical-enter k.critical_nesting inside refl)
      ∙ and_then-done (λ _. give_up false)
          (trace_record_lem type k.current_task none (some q) count k)
    where
      headers :
          (e : EventList) (k : Kernel)
          → event_header e (record k { critical_nesting = k.critical_nesting + 1 })
            ≡ event_header e k
      headers (send_waiters q) k = refl
      headers (receive_waiters q) k = refl

-- The states after a message has been sent and received.
abbrev pub after_send : ℕ → (ℕ → ℕ) → Kernel → Kernel
after_send q item k =
    let k' = queue_changed q (put_message item) k in
    with_event queue_send k.current_task none (some q) (k'.queue q).count k'

abbrev pub after_receive : ℕ → Kernel → Kernel
after_receive q k =
    let k' = queue_changed q drop_message k in
    with_event queue_receive k.current_task none (some q) (k'.queue q).count k'
