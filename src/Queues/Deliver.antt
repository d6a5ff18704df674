-- ===== src/Queues/Deliver.antt =====
-- kernel/queue.c: xQueueSend and xQueueReceive when nobody waits.
use mini_free_rtos.Common.{
  ℕ, suc, ◌+◌, ◌≤◌, ◌<◌, ◌≡◌, refl, sym, subst, inl, inr, ◌⊎◌, Option, none, some, Bool, true,
  false, List, [], ◌∷◌, ◌++◌, arith, Bool-cases, ◌==◌, ltb,
}
use mini_free_rtos.Trace.{queue_send, queue_receive}
use mini_free_rtos.Kernel.{Kernel, send_waiters, receive_waiters}
use mini_free_rtos.Kernel.Outcome.{M, Outcome, done, pure, and_then-done}
use mini_free_rtos.Port.{enter_critical, exit_critical-enter}
use mini_free_rtos.Tasks.Wait.{max_delay}
use mini_free_rtos.Queues.{is_data, assert_timeout_is_valid}
use mini_free_rtos.Queues.Messages.{
  put_message, drop_message, first_message, send_now, send_loop, queue_send_item, receive_now,
  receive_loop, queue_receive_item,
}
use mini_free_rtos.Queues.Fifo.{Holds, put_message-Holds, drop_message-Holds}
use mini_free_rtos.Queues.Finish.{queue_changed, finish-alone, after_send, after_receive}

-- What comes of a call that need not wait: the message stands behind the others, or the queue is full.
pub data Sent (q : ℕ) (k : Kernel) (ms : List (ℕ → ℕ)) (item : ℕ → ℕ) : Outcome Bool → Type 0 where
  accepted :
      (k.queue q).count < (k.queue q).length
      → Holds ((after_send q item k).queue q) (ms ++ item ∷ [])
      → Sent q k ms item (done true (after_send q item k))
  full : (k.queue q).count ≡ (k.queue q).length → Sent q k ms item (done false k)

-- The oldest message, byte by byte, or the queue is empty.
pub data Received (q : ℕ) (k : Kernel) : List (ℕ → ℕ) → Outcome (Option (ℕ → ℕ)) → Type 0 where
  got :
      (m bytes : ℕ → ℕ) (ms : List (ℕ → ℕ))
      → ((b : ℕ) → b < (k.queue q).item_size → bytes b ≡ m b)
      → Holds ((after_receive q k).queue q) ms
      → Received q k (m ∷ ms) (done (some bytes) (after_receive q k))
  nothing : Received q k [] (done none k)

module _ (yield_task : ℕ → M (Unit {0})) (fuel q ticks_to_wait : ℕ) (k : Kernel)
    (data_queue : is_data (k.queue q).kind ≡ true) (short : ticks_to_wait < max_delay) where
  abbrev entered : Kernel
  entered = record k { critical_nesting = k.critical_nesting + 1 }

  valid : ltb ticks_to_wait max_delay ≡ true
  valid = ground arith

  pub queue_send_item-room :
      (item : ℕ → ℕ)
      → (k.queue q).receive_waiters.head ≡ none
      → (k.queue q).count < (k.queue q).length
      → queue_send_item yield_task (suc fuel) q item ticks_to_wait k
        ≡ done true (after_send q item k)
  unfolding queue_send_item send_loop send_now assert_timeout_is_valid enter_critical
  queue_send_item-room item alone room =
      let not_full : ltb (k.queue q).count (k.queue q).length ≡ true = ground arith in
      rw (data_queue, valid, not_full)
        (finish-alone yield_task q queue_send (receive_waiters q) _ true
          (queue_changed q (put_message item) k) (ground (arith, alone)))

  queue_send_item-full :
      (item : ℕ → ℕ)
      → ticks_to_wait ≡ 0
      → (k.queue q).length ≤ (k.queue q).count
      → queue_send_item yield_task (suc fuel) q item ticks_to_wait k ≡ done false k
  unfolding queue_send_item send_loop assert_timeout_is_valid enter_critical
  queue_send_item-full item now no_room =
      let not_free : ltb (k.queue q).count (k.queue q).length ≡ false = ground arith in
      let at_once : (ticks_to_wait == 0) ≡ true = ground arith in
      rw (data_queue, valid, not_free, at_once)
        (and_then-done (λ _. pure false) (exit_critical-enter k.critical_nesting entered refl))

  -- When a queue for messages holds some, no receiver waits on it, the timeout is a valid one, and
  -- there is room or the timeout is zero, `xQueueSend` returns without waiting: the message stands
  -- behind the others, or the queue is full, the value is pdFAIL and nothing has changed.
  pub queue_send_item-Sent :
      (ms : List (ℕ → ℕ)) (item : ℕ → ℕ)
      → Holds (k.queue q) ms
      → (k.queue q).receive_waiters.head ≡ none
      → ((k.queue q).count < (k.queue q).length) ⊎ (ticks_to_wait ≡ 0)
      → Sent q k ms item (queue_send_item yield_task (suc fuel) q item ticks_to_wait k)
  queue_send_item-Sent ms item holds alone ready =
      elim (Bool-cases (ltb (k.queue q).count (k.queue q).length)) [
        | inl free ↦
            (let room : (k.queue q).count < (k.queue q).length = ground arith in
              subst (Sent q k ms item) (sym (queue_send_item-room item alone room)) (
                accepted room (
                  subst (λ c. Holds c (ms ++ item ∷ [])) (ground arith)
                    (put_message-Holds item (k.queue q) ms holds room))))
        | inr taken ↦
            (let now : ticks_to_wait ≡ 0 = ground (arith, ready) in
              let bound = holds.fits_in in
              subst (Sent q k ms item) (sym (queue_send_item-full item now (ground arith)))
                (full (ground arith)))
      ]

  pub queue_receive_item-some :
      (k.queue q).send_waiters.head ≡ none
      → 0 < (k.queue q).count
      → queue_receive_item yield_task (suc fuel) q ticks_to_wait k
        ≡ done (some (first_message (k.queue q))) (after_receive q k)
  unfolding queue_receive_item receive_loop receive_now assert_timeout_is_valid enter_critical
  queue_receive_item-some alone held =
      let not_empty : ltb 0 (k.queue q).count ≡ true = ground arith in
      rw (data_queue, valid, not_empty)
        (finish-alone yield_task q queue_receive (send_waiters q) _
          (some (first_message (k.queue q))) (queue_changed q drop_message k)
          (ground (arith, alone)))

  queue_receive_item-none :
      ticks_to_wait ≡ 0
      → (k.queue q).count ≡ 0
      → queue_receive_item yield_task (suc fuel) q ticks_to_wait k ≡ done none k
  unfolding queue_receive_item receive_loop assert_timeout_is_valid enter_critical
  queue_receive_item-none now nobody =
      let empty : ltb 0 (k.queue q).count ≡ false = ground arith in
      let at_once : (ticks_to_wait == 0) ≡ true = ground arith in
      rw (data_queue, valid, empty, at_once)
        (and_then-done (λ _. pure none) (exit_critical-enter k.critical_nesting entered refl))

  -- When a queue for messages holds some or none, no sender waits on it, the timeout is a valid
  -- one, and there is a message or the timeout is zero, `xQueueReceive` returns without waiting:
  -- with the oldest message, which leaves the others, or the queue is empty, the value is pdFAIL
  -- and nothing has changed.
  pub queue_receive_item-Received :
      (ms : List (ℕ → ℕ))
      → Holds (k.queue q) ms
      → (k.queue q).send_waiters.head ≡ none
      → (0 < (k.queue q).count) ⊎ (ticks_to_wait ≡ 0)
      → Received q k ms (queue_receive_item yield_task (suc fuel) q ticks_to_wait k)
  queue_receive_item-Received [] holds alone ready =
      let none_held = holds.counted in
      subst (Received q k []) (sym (queue_receive_item-none (ground (arith, ready)) none_held))
        nothing
  queue_receive_item-Received (m ∷ ms) holds alone ready =
      let held = holds.counted in
      let (bytes, rest) = drop_message-Holds (k.queue q) m ms holds in
      subst (Received q k (m ∷ ms)) (sym (queue_receive_item-some alone (omega arith)))
        (got m (first_message (k.queue q)) ms bytes (subst (λ c. Holds c ms) (ground arith) rest))

-- With a valid timeout, a message that is sent to an empty queue for messages on which nobody waits is
-- received next, byte by byte, and the queue is empty again.
pub queue_send-receive :
    (yield_task : ℕ → M (Unit {0})) (fuel q ticks_to_wait : ℕ) (k : Kernel) (item : ℕ → ℕ)
    → is_data (k.queue q).kind ≡ true
    → ticks_to_wait < max_delay
    → Holds (k.queue q) []
    → (k.queue q).receive_waiters.head ≡ none
    → (k.queue q).send_waiters.head ≡ none
    → (k1 : Kernel) × (k2 : Kernel) × (bytes : ℕ → ℕ) × (queue_send_item yield_task
          (suc fuel)
          q
          item
          ticks_to_wait
          k
        ≡ done true k1)
      × (queue_receive_item yield_task (suc fuel) q ticks_to_wait k1 ≡ done (some bytes) k2)
      × ((b : ℕ) → b < (k.queue q).item_size → bytes b ≡ item b)
      × Holds (k2.queue q) []
queue_send-receive yield_task fuel q ticks_to_wait k item data_queue short holds no_receivers
      no_senders =
    let empty = holds.counted in
    let wide = holds.tail_bound in
    let k1 = after_send q item k in
    let room : (k.queue q).count < (k.queue q).length = omega arith in
    let holds1 : Holds (k1.queue q) (item ∷ []) =
      subst (λ c. Holds c (item ∷ [])) (ground arith)
        (put_message-Holds item (k.queue q) [] holds room) in
    let one = holds1.counted in
    let (bytes, rest) = drop_message-Holds (k1.queue q) item [] holds1 in
    (
      k1,
      after_receive q k1,
      first_message (k1.queue q),
      queue_send_item-room yield_task fuel q ticks_to_wait k data_queue short item no_receivers
          room,
      queue_receive_item-some yield_task fuel q ticks_to_wait k1 (ground (arith, data_queue)) short
          (ground (arith, no_senders)) (omega arith),
      λ b lt. bytes b (ground arith),
      subst (λ c. Holds c []) (ground arith) rest,
    )
