-- ===== src/Queues.antt =====
-- kernel/queue.c: waiting for a queue, which all its blocking operations share; messages and
-- semaphores are the children.
pub mod Messages
pub mod Fifo
pub mod Finish
pub mod Deliver
pub mod Semaphores
pub mod Create
use mini_free_rtos.Common.{ℕ, Option, none, some, Bool, true, false, ltb, if◌then◌else◌, update}
use mini_free_rtos.Kernel.{
  Kernel, Queue, QueueKind, EventList, WaitReason, queue_data, binary_semaphore, counting_semaphore,
  mutex,
}
use mini_free_rtos.Kernel.Outcome.{M, pure, kernel, modify, config_assert, ◌>>=◌, ◌>>◌}
use mini_free_rtos.Port.{exit_critical}
use mini_free_rtos.Tasks.Wait.{
  is_running, max_delay, assert_task, block_current, get_wait_remaining, clear_wait_state,
}
use mini_free_rtos.Tasks.Schedule.{task_yield}

-- Assignments to fields of the queue at an address.
abbrev pub set_queue : ℕ → (Queue → Queue) → M (Unit {0})
set_queue q f = modify λ k. record k { queue = update k.queue q (f (k.queue q)) }

abbrev pub is_data : QueueKind → Bool
is_data queue_data = true
is_data _ = false

-- `prvAssertTimeoutIsValid`
unfoldable pub assert_timeout_is_valid : ℕ → M (Unit {0})
assert_timeout_is_valid ticks_to_wait = config_assert (ltb ticks_to_wait max_delay)

-- `prvCurrentTask`
unfoldable pub running_task : M ℕ
running_task = do
  k ← kernel
  t ← assert_task k.current_task
  config_assert (is_running (k.task t).state)
  pure t

-- What follows a wait: a failed one ends the operation, another one is tried again with the ticks
-- that remain.
unfoldable pub retry : Option ℕ → (ℕ → M Bool) → M Bool
retry none again = pure false
retry (some ticks) again = again ticks

module _ (yield_task : ℕ → M (Unit {0})) where
  unfoldable pub yield_if : Bool → M (Unit {0})
  yield_if true = task_yield yield_task
  yield_if false = pure tt

  -- From the end of the critical section on: the current task gives the processor away and, when it
  -- runs again, clears its wait state. The value is what remains of its ticks if the wait succeeded.
  unfoldable pub await : ℕ → M (Option ℕ)
  await t = do
    exit_critical
    yield_task t
    k ← kernel
    clear_wait_state t
    pure (if (k.task t).wait_result then some (get_wait_remaining t k) else none)
