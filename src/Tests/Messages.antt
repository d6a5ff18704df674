-- ===== src/Tests/Messages.antt =====
-- The theorems on xQueueSend and xQueueReceive, on a queue of two items of one byte.
use mini_free_rtos.Common.{ℕ, ◌<◌, ◌≡◌, refl, inl, inr, none, some, true, false, [], ◌∷◌, arith}
use mini_free_rtos.Dll.{empty}
use mini_free_rtos.Kernel.{Kernel, Queue, queue_data}
use mini_free_rtos.Kernel.Outcome.{M, done, pure}
use mini_free_rtos.Queues.Messages.{put_message, queue_send_item, queue_receive_item}
use mini_free_rtos.Queues.Fifo.{Holds, put_message-Holds}
use mini_free_rtos.Queues.Deliver.{
  Sent, queue_send_item-Sent, Received, queue_receive_item-Received, queue_send-receive,
}
use mini_free_rtos.Scenario.{starting}

abbrev idle_queue : Queue
idle_queue = record {
  kind = queue_data;
  storage = λ _. 0;
  storage_size = 2;
  length = 2;
  item_size = 1;
  head = 1;
  tail = 1;
  count = 0;
  max_count = 2;
  send_waiters = empty;
  receive_waiters = empty;
  owner = none;
}

idle-Holds : Holds idle_queue []
idle-Holds = record {
  counted = refl;
  fits_in = omega arith;
  word_sized = omega arith;
  tail_bound = omega arith;
  head_bound = omega arith;
  head_place = inl refl;
  slots = tt;
}

abbrev letter : ℕ → ℕ
letter b = 97

abbrev one_message : Queue
one_message = put_message letter idle_queue

one-Holds : Holds one_message (letter ∷ [])
one-Holds = put_message-Holds letter idle_queue [] idle-Holds (omega arith)

abbrev with_queue : Queue → Kernel
with_queue c = record (starting false) { queue = λ _. c }

abbrev returning : ℕ → M (Unit {0})
returning t = pure tt

queue_send_item-Sent_example :
    Sent 9
      (with_queue one_message)
      (letter ∷ [])
      letter
      (queue_send_item returning 1 9 letter 0 (with_queue one_message))
queue_send_item-Sent_example =
    queue_send_item-Sent returning 0 9 0 (with_queue one_message) refl (omega arith) (letter ∷ [])
      letter one-Holds refl (inr refl)

queue_receive_item-Received_example :
    Received 9
      (with_queue one_message)
      (letter ∷ [])
      (queue_receive_item returning 1 9 0 (with_queue one_message))
queue_receive_item-Received_example =
    queue_receive_item-Received returning 0 9 0 (with_queue one_message) refl (omega arith)
      (letter ∷ []) one-Holds refl (inr refl)

queue_send-receive_example :
    (k1 : Kernel) × (k2 : Kernel) × (bytes : ℕ → ℕ) × (queue_send_item returning 1 9 letter 0
        (with_queue idle_queue)
      ≡ done true k1)
    × (queue_receive_item returning 1 9 0 k1 ≡ done (some bytes) k2)
    × ((b : ℕ) → b < 1 → bytes b ≡ letter b)
    × Holds (k2.queue 9) []
queue_send-receive_example =
    queue_send-receive returning 0 9 0 (with_queue idle_queue) letter refl (omega arith) idle-Holds
      refl refl
