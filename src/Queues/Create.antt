-- ===== src/Queues/Create.antt =====
-- kernel/queue.c: creating queues, semaphores and mutexes. configHEAP_SCHEME picks the heap, so
-- `malloc` and `free` are parameters; `queue_size` is sizeof of the structure.
use mini_free_rtos.Common.{ℕ, ◌*◌, ◌/◌, Option, none, some, ◌∷◌, ltb, ◌==◌, ◌||◌, if◌then◌else◌}
use mini_free_rtos.Dll.{empty}
use mini_free_rtos.Kernel.{
  Queue, QueueKind, queue_data, binary_semaphore, counting_semaphore, mutex, send_waiters,
  receive_waiters,
}
use mini_free_rtos.Kernel.Outcome.{M, pure, modify, ◌>>=◌, ◌>>◌}
use mini_free_rtos.Tasks.Lists.{event_list_init}
use mini_free_rtos.Queues.{set_queue}
use mini_free_rtos.Heap.{size_max}

-- What memset leaves of a queue; eQueueData is the first enumerator.
abbrev pub zero_queue : Queue
zero_queue = record {
  kind = queue_data;
  storage = λ _. 0;
  storage_size = 0;
  length = 0;
  item_size = 0;
  head = 0;
  tail = 0;
  count = 0;
  max_count = 0;
  send_waiters = empty;
  receive_waiters = empty;
  owner = none;
}

module _ (malloc : ℕ → M (Option ℕ)) (free : ℕ → M (Unit {0})) (queue_size : ℕ) where
  unfoldable pub initialise_semaphore : QueueKind → ℕ → ℕ → Option ℕ → M (Option ℕ)
  initialise_semaphore kind max_count initial_count none = pure none
  initialise_semaphore kind max_count initial_count (some q) = do
    set_queue q
        (λ _. record zero_queue { kind = kind; count = initial_count; max_count = max_count })
    event_list_init (receive_waiters q)
    event_list_init (send_waiters q)
    pure (some q)

  -- `prvAllocateSemaphore`
  unfoldable pub allocate_semaphore : QueueKind → ℕ → ℕ → M (Option ℕ)
  unfolding initialise_semaphore
  allocate_semaphore kind max_count initial_count = do
    q ← malloc queue_size
    initialise_semaphore kind max_count initial_count q

  -- `xSemaphoreCreateBinary`
  unfoldable pub create_binary : M (Option ℕ)
  create_binary = allocate_semaphore binary_semaphore 1 0

  -- `xSemaphoreCreateCounting`
  unfoldable pub create_counting : ℕ → ℕ → M (Option ℕ)
  create_counting max_count initial_count =
      if max_count == 0 || ltb max_count initial_count
      then pure none
      else allocate_semaphore counting_semaphore max_count initial_count

  unfoldable pub register_mutex : Option ℕ → M (Option ℕ)
  register_mutex none = pure none
  register_mutex (some q) = do
    modify λ k. record k { mutex_registry = q ∷ k.mutex_registry }
    pure (some q)

  -- `xSemaphoreCreateMutex`
  unfoldable pub create_mutex : M (Option ℕ)
  unfolding register_mutex
  create_mutex = do q ← allocate_semaphore mutex 1 1; register_mutex q

  -- The storage of a queue; its contents are whatever the heap holds there.
  unfoldable pub attach_storage : ℕ → ℕ → ℕ → Option ℕ → (ℕ → ℕ) → M (Option ℕ)
  attach_storage q queue_length item_size none bytes = do free q; pure none
  attach_storage q queue_length item_size (some storage) bytes = do
    set_queue q (λ c. record c {
      storage = bytes;
      kind = queue_data;
      length = queue_length;
      item_size = item_size;
      max_count = queue_length;
    })
    event_list_init (send_waiters q)
    event_list_init (receive_waiters q)
    pure (some q)

  unfoldable pub create_queue_at : ℕ → ℕ → (ℕ → ℕ) → Option ℕ → M (Option ℕ)
  unfolding attach_storage
  create_queue_at queue_length item_size bytes none = pure none
  create_queue_at queue_length item_size bytes (some q) = do
    set_queue q (λ _. record zero_queue { storage_size = queue_length * item_size })
    storage ← malloc (queue_length * item_size)
    attach_storage q queue_length item_size storage bytes

  -- `xQueueCreate`; `bytes` is what its storage holds at first.
  unfoldable pub create_queue : (bytes : ℕ → ℕ) → ℕ → ℕ → M (Option ℕ)
  unfolding create_queue_at
  create_queue bytes queue_length item_size =
      if queue_length == 0 || item_size == 0 || ltb (size_max / queue_length) item_size
      then pure none
      else (do q ← malloc queue_size; create_queue_at queue_length item_size bytes q)
