-- ===== src/Queues/Semaphores.antt =====
-- kernel/queue.c: semaphores and mutexes. The loop of `xSemaphoreTake` runs on fuel, one unit for
-- each wait.
use mini_free_rtos.Common.{
  ℕ, zero, suc, ◌-◌, Option, none, some, Bool, true, false, not, ltb, leb, ◌==◌, ◌&&◌, ◌||◌,
  if◌then◌else◌,
}
use mini_free_rtos.Word.{add32}
use mini_free_rtos.Trace.{semaphore_take, semaphore_give, mutex_release}
use mini_free_rtos.Kernel.{
  Kernel, Queue, QueueKind, receive_waiters, wait_mutex_take, wait_semaphore_take,
}
use mini_free_rtos.Kernel.Outcome.{M, pure, kernel, config_assert, halted, out_of_fuel, ◌>>=◌, ◌>>◌}
use mini_free_rtos.Port.{enter_critical, exit_critical, trace_record}
use mini_free_rtos.Tasks.Priority.{is_mutex, is_task, recompute_inherited_priority, recompute_owner}
use mini_free_rtos.Tasks.Wait.{is_running, unblock_one, block_current}
use mini_free_rtos.Queues.{
  set_queue, is_data, assert_timeout_is_valid, running_task, retry, yield_if, await,
}

abbrev pub is_free : Option ℕ → Bool
is_free none = true
is_free (some _) = false

-- What a mutex asserts of itself: taken with an owner, or free without one.
abbrev pub mutex_consistent : Queue → Bool
mutex_consistent c = (c.count == 0 && not (is_free c.owner)) || (c.count == 1 && is_free c.owner)

-- Whether two task pointers are equal, NULL included.
abbrev pub same_task : Option ℕ → Option ℕ → Bool
same_task none none = true
same_task (some a) (some b) = a == b
same_task _ _ = false

-- `current` of `xSemaphoreTake` before the loop: only a mutex sets it.
unfoldable pub take_current : QueueKind → M (Option ℕ)
take_current QueueKind.mutex = do t ← running_task; pure (some t)
take_current _ = pure none

unfoldable pub current_or_running : Option ℕ → M ℕ
current_or_running (some t) = pure t
current_or_running none = running_task

-- `(current != NULL) ? current : xTaskGetCurrentTaskHandle()`
abbrev pub current_or : Option ℕ → Option ℕ → Option ℕ
current_or (some t) other = some t
current_or none other = other

module _ (yield_task : ℕ → M (Unit {0})) where
  -- The count is positive.
  unfoldable pub take_now : ℕ → Option ℕ → M Bool
  take_now q current = do
    set_queue q (λ c. record c {
      owner = if is_mutex c.kind then current else c.owner;
      count = c.count - 1;
    })
    k ← kernel
    exit_critical
    trace_record semaphore_take (current_or current k.current_task) none (some q) (k.queue q).count
    pure true

  -- The count is zero: the task waits, and the owner of a mutex inherits its priority.
  unfoldable pub take_later : ℕ → ℕ → ℕ → M (Option ℕ)
  take_later q t ticks_to_wait = do
    k ← kernel
    let mutex = is_mutex (k.queue q).kind
    let owner = (k.queue q).owner
    block_current (receive_waiters q) (some q)
        (if mutex then wait_mutex_take else wait_semaphore_take) ticks_to_wait
    if mutex then recompute_owner owner else pure tt
    await yield_task t

  take_loop : ℕ → ℕ → Option ℕ → ℕ → M Bool
  unfolding take_now take_later
  take_loop zero q current ticks_to_wait = λ _. halted out_of_fuel
  take_loop (suc fuel) q current ticks_to_wait = do
    enter_critical
    k ← kernel
    let mutex = is_mutex (k.queue q).kind
    config_assert (if mutex then mutex_consistent (k.queue q) else true)
    if mutex && same_task (k.queue q).owner current
        then (do exit_critical; pure false)
        else if ltb 0 (k.queue q).count
        then take_now q current
        else if ticks_to_wait == 0
        then (do exit_critical; pure false)
        else (do
          t ← current_or_running current
          remaining ← take_later q t ticks_to_wait
          retry remaining (take_loop fuel q (some t)))

  -- `xSemaphoreTake` of a semaphore that is not NULL.
  unfoldable pub take : ℕ → ℕ → ℕ → M Bool
  unfolding take_loop
  take fuel q ticks_to_wait = do
    k ← kernel
    if is_data (k.queue q).kind then pure false else (do
      assert_timeout_is_valid ticks_to_wait
      current ← take_current (k.queue q).kind
      take_loop fuel q current ticks_to_wait)

  unfoldable pub unblock_waiter : ℕ → Option ℕ → M (Unit {0})
  unblock_waiter q none = pure tt
  unblock_waiter q (some w) = do unblocked ← unblock_one (receive_waiters q); pure tt

  abbrev pub outranks : Kernel → Option ℕ → ℕ → Bool
  outranks k none t = false
  outranks k (some w) t = ltb (k.task t).priority (k.task w).priority

  -- `xSemaphoreGive` of a mutex by the running task `t`, from the critical section on.
  unfoldable pub give_mutex : ℕ → ℕ → M Bool
  unfolding unblock_waiter
  give_mutex q t = do
    enter_critical
    k ← kernel
    config_assert (mutex_consistent (k.queue q))
    if not (is_task t (k.queue q).owner) then (do exit_critical; pure false) else (do
      let waiter = (k.queue q).receive_waiters.head
      set_queue q (λ c. record c { owner = none; count = 1 })
      unblock_waiter q waiter
      recompute_inherited_priority t
      k' ← kernel
      exit_critical
      trace_record mutex_release (some t) waiter (some q) (k'.task t).priority
      yield_if yield_task (outranks k' waiter t)
      pure true)

  unfoldable pub give_owned : ℕ → Option ℕ → M Bool
  unfolding give_mutex
  give_owned q none = pure false
  give_owned q (some t) = do
    k ← kernel
    if is_running (k.task t).state then give_mutex q t else pure false

  -- `xSemaphoreGive` of a semaphore that is no mutex.
  unfoldable pub give_count : ℕ → M Bool
  give_count q = do
    enter_critical
    k ← kernel
    if leb (k.queue q).max_count (k.queue q).count then (do exit_critical; pure false) else (do
      set_queue q (λ c. record c { count = add32 c.count 1 })
      k' ← kernel
      should_yield ← unblock_one (receive_waiters q)
      exit_critical
      k'' ← kernel
      trace_record semaphore_give k''.current_task none (some q) (k'.queue q).count
      yield_if yield_task should_yield
      pure true)

  -- `xSemaphoreGive` of a semaphore that is not NULL.
  unfoldable pub give : ℕ → M Bool
  unfolding give_owned give_count
  give q = do
    k ← kernel
    if is_data (k.queue q).kind
        then pure false
        else if is_mutex (k.queue q).kind
        then give_owned q k.current_task
        else give_count q
