-- ===== src/Queues/Messages.antt =====
-- kernel/queue.c: `xQueueSend` and `xQueueReceive`. An item is its bytes. The loops of both run on
-- fuel, one unit for each wait.
use mini_free_rtos.Common.{
  ℕ, zero, suc, ◌+◌, ◌-◌, ◌*◌, ◌%◌, Option, none, some, Bool, true, false, not, ltb, leb, ◌==◌,
  ◌&&◌, if◌then◌else◌,
}
use mini_free_rtos.Word.{add32}
use mini_free_rtos.Trace.{queue_send, queue_receive}
use mini_free_rtos.Kernel.{
  Kernel, Queue, send_waiters, receive_waiters, wait_queue_send, wait_queue_receive,
}
use mini_free_rtos.Kernel.Outcome.{M, pure, kernel, halted, out_of_fuel, ◌>>=◌, ◌>>◌}
use mini_free_rtos.Port.{enter_critical, exit_critical, trace_record}
use mini_free_rtos.Tasks.Wait.{unblock_one, block_current}
use mini_free_rtos.Queues.{
  set_queue, is_data, assert_timeout_is_valid, running_task, retry, yield_if, await,
}

-- memcpy of `size` bytes to and from an offset of an array.
abbrev pub copy_to : ℕ → ℕ → (ℕ → ℕ) → (ℕ → ℕ) → ℕ → ℕ
copy_to offset size item storage a =
    if leb offset a && ltb a (offset + size) then item (a - offset) else storage a

abbrev pub copy_from : ℕ → (ℕ → ℕ) → ℕ → ℕ
copy_from offset storage a = storage (offset + a)

-- A message goes into the slot at the head.
abbrev pub put_message : (ℕ → ℕ) → Queue → Queue
put_message item c = record c {
  storage = copy_to (c.head * c.item_size) c.item_size item c.storage;
  head = add32 c.head 1 % c.length;
  count = add32 c.count 1;
}

-- The slot at the tail is left.
abbrev pub drop_message : Queue → Queue
drop_message c = record c { tail = add32 c.tail 1 % c.length; count = c.count - 1 }

-- The message in the slot at the tail.
abbrev pub first_message : Queue → ℕ → ℕ
first_message c = copy_from (c.tail * c.item_size) c.storage

module _ (yield_task : ℕ → M (Unit {0})) where
  -- There is room: the message is stored and one receiver is woken.
  unfoldable pub send_now : ℕ → (ℕ → ℕ) → M Bool
  send_now q item = do
    set_queue q (put_message item)
    k ← kernel
    should_yield ← unblock_one (receive_waiters q)
    exit_critical
    k' ← kernel
    trace_record queue_send k'.current_task none (some q) (k.queue q).count
    yield_if yield_task should_yield
    pure true

  -- The queue is full.
  unfoldable pub send_later : ℕ → ℕ → M (Option ℕ)
  send_later q ticks_to_wait = do
    t ← running_task
    block_current (send_waiters q) (some q) wait_queue_send ticks_to_wait
    await yield_task t

  unfoldable pub send_loop : ℕ → ℕ → (ℕ → ℕ) → ℕ → M Bool
  unfolding send_now send_later
  send_loop zero q item ticks_to_wait = λ _. halted out_of_fuel
  send_loop (suc fuel) q item ticks_to_wait = do
    enter_critical
    k ← kernel
    if ltb (k.queue q).count (k.queue q).length
        then send_now q item
        else if ticks_to_wait == 0
        then (do exit_critical; pure false)
        else (do remaining ← send_later q ticks_to_wait; retry remaining (send_loop fuel q item))

  -- `xQueueSend` of a queue and an item that are not NULL.
  unfoldable pub queue_send_item : ℕ → ℕ → (ℕ → ℕ) → ℕ → M Bool
  unfolding send_loop
  queue_send_item fuel q item ticks_to_wait = do
    k ← kernel
    if not (is_data (k.queue q).kind)
        then pure false
        else (do assert_timeout_is_valid ticks_to_wait; send_loop fuel q item ticks_to_wait)

  -- There is a message: it is taken and one sender is woken.
  unfoldable pub receive_now : ℕ → M (Option (ℕ → ℕ))
  receive_now q = do
    k0 ← kernel
    set_queue q drop_message
    k ← kernel
    should_yield ← unblock_one (send_waiters q)
    exit_critical
    k' ← kernel
    trace_record queue_receive k'.current_task none (some q) (k.queue q).count
    yield_if yield_task should_yield
    pure (some (first_message (k0.queue q)))

  -- The queue is empty.
  unfoldable pub receive_later : ℕ → ℕ → M (Option ℕ)
  receive_later q ticks_to_wait = do
    t ← running_task
    block_current (receive_waiters q) (some q) wait_queue_receive ticks_to_wait
    await yield_task t

  unfoldable pub retry_receive : Option ℕ → (ℕ → M (Option (ℕ → ℕ))) → M (Option (ℕ → ℕ))
  retry_receive none again = pure none
  retry_receive (some ticks) again = again ticks

  unfoldable pub receive_loop : ℕ → ℕ → ℕ → M (Option (ℕ → ℕ))
  unfolding receive_now receive_later retry_receive
  receive_loop zero q ticks_to_wait = λ _. halted out_of_fuel
  receive_loop (suc fuel) q ticks_to_wait = do
    enter_critical
    k ← kernel
    if ltb 0 (k.queue q).count
        then receive_now q
        else if ticks_to_wait == 0
        then (do exit_critical; pure none)
        else (do
          remaining ← receive_later q ticks_to_wait
          retry_receive remaining (receive_loop fuel q))

  -- `xQueueReceive` of a queue and a buffer that are not NULL: the value is what the buffer holds
  -- after pdPASS, or nothing after pdFAIL.
  unfoldable pub queue_receive_item : ℕ → ℕ → ℕ → M (Option (ℕ → ℕ))
  unfolding receive_loop
  queue_receive_item fuel q ticks_to_wait = do
    k ← kernel
    if not (is_data (k.queue q).kind)
        then pure none
        else (do assert_timeout_is_valid ticks_to_wait; receive_loop fuel q ticks_to_wait)

-- `uxQueueMessagesWaiting` of a queue that is not NULL.
unfoldable pub messages_waiting : ℕ → Kernel → ℕ
messages_waiting q k = if is_data (k.queue q).kind then (k.queue q).count else 0
