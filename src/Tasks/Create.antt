-- ===== src/Tasks/Create.antt =====
-- kernel/tasks.c: creating tasks, the idle task, and starting the scheduler. configHEAP_SCHEME picks
-- the heap, so `malloc` and `free` are parameters, as are the calls of the port: `initialise_task` for
-- vPortInitialiseTask, `start_tick`, `stop_tick`, and `start_port` for the loop of
-- vPortStartScheduler, which returns when no task is ready.
use mini_free_rtos.Common.{
  ℕ, ◌+◌, ◌-◌, Option, none, some, Bool, true, false, not, [], ◌∷◌, ◌++◌, ltb, leb, ◌&&◌, ◌||◌,
  if◌then◌else◌, length, update,
}
use mini_free_rtos.Word.{add32}
use mini_free_rtos.Dll.{Links}
use mini_free_rtos.Kernel.{
  Kernel, Tcb, ready, running, wait_none, max_priorities, max_tasks, max_system_tasks,
  minimal_stack_size, max_task_name_len, idle_priority,
}
use mini_free_rtos.Kernel.Outcome.{M, pure, kernel, modify, set_task, config_assert, ◌>>=◌, ◌>>◌}
use mini_free_rtos.Tasks.Lists.{ready_list_insert}
use mini_free_rtos.Tasks.Name.{copy_name}

-- What memset leaves of a task control block.
abbrev pub zero_task : Tcb
zero_task = record {
  task_code = 0;
  parameters = 0;
  stack = 0;
  stack_size = 0;
  name = λ _. 0;
  priority = 0;
  base_priority = 0;
  inherited_priority = 0;
  state = running;
  creation_number = 0;
  is_idle = false;
  is_system = false;
  in_ready_list = false;
  wake_tick = 0;
  in_delay_list = false;
  event_list = none;
  wait_object = none;
  wait_reason = wait_none;
  wait_result = false;
  wait_has_timeout = false;
}

-- What it leaves of a pair of list pointers of the task.
abbrev pub zero_links : ℕ → Links → Links
zero_links t links = record links {
  previous = update links.previous t none;
  next = update links.next t none;
}

abbrev pub is_null {ℓ} : {A : Type ℓ} → Option A → Bool
is_null none = true
is_null (some _) = false

abbrev or_zero {ℓ} : {A : Type ℓ} → A → Option A → A
or_zero z none = z
or_zero z (some a) = a

-- The arguments of `prvCreateTask`.
pub record Request : Type 0 where
  pub task_code : Option ℕ
  pub name : Option (ℕ → ℕ)
  pub stack_depth : ℕ
  pub parameters : ℕ
  pub priority : ℕ
  pub is_system : Bool
  pub is_idle : Bool

-- The first test of `prvCreateTask`.
unfoldable pub is_refused : Request → Kernel → Bool
is_refused r k =
    is_null r.task_code
    || is_null r.name
    || ltb r.stack_depth minimal_stack_size
    || leb max_priorities r.priority
    || leb (max_tasks + max_system_tasks) (length k.task_table)
    || (not r.is_system && leb max_tasks k.application_task_count)
    || (r.is_system && leb max_system_tasks (length k.task_table - k.application_task_count))

module _ (malloc : ℕ → M (Option ℕ)) (free : ℕ → M (Unit {0})) (initialise_task : ℕ → M (Unit {0}))
    (tcb_size : ℕ) where
  -- Both blocks are there.
  unfoldable pub enter_task : Request → ℕ → Option ℕ → M (Option ℕ)
  enter_task r t none = do free t; pure none
  enter_task r t (some stack) = do
    k ← kernel
    set_task t (λ c. record c {
      stack = stack;
      task_code = or_zero 0 r.task_code;
      parameters = r.parameters;
      stack_size = r.stack_depth;
      priority = r.priority;
      base_priority = r.priority;
      inherited_priority = idle_priority;
      state = ready;
      creation_number = k.application_task_count;
      is_idle = r.is_idle;
      is_system = r.is_system;
      name = copy_name c.name max_task_name_len (or_zero (λ _. 0) r.name);
    })
    initialise_task t
    modify λ k. record k {
      task_table = k.task_table ++ t ∷ [];
      application_task_count =
          if r.is_system then k.application_task_count else add32 k.application_task_count 1;
    }
    ready_list_insert t
    pure (some t)

  unfoldable pub create_at : Request → Option ℕ → M (Option ℕ)
  unfolding enter_task
  create_at r none = pure none
  create_at r (some t) = do
    set_task t (λ _. zero_task)
    modify λ k. record k {
      ready_links = zero_links t k.ready_links;
      delay_links = zero_links t k.delay_links;
      event_links = zero_links t k.event_links;
    }
    stack ← malloc r.stack_depth
    enter_task r t stack

  -- `prvCreateTask`: the value is the new task, or nothing for pdFAIL.
  unfoldable pub create_task : Request → M (Option ℕ)
  unfolding create_at
  create_task r = do
    k ← kernel
    if is_refused r k then pure none else (do t ← malloc tcb_size; create_at r t)

  -- `prvCreateIdleTask`, given the address of `prvIdleTask` and the string "IDLE".
  unfoldable pub create_idle_task : ℕ → (ℕ → ℕ) → M Bool
  create_idle_task idle_code idle_name = do
    k ← kernel
    if not (is_null k.idle_task) then pure true else (do
      created_task ← create_task (record {
        task_code = some idle_code;
        name = some idle_name;
        stack_depth = minimal_stack_size;
        parameters = 0;
        priority = idle_priority;
        is_system = true;
        is_idle = true;
      })
      if is_null created_task
          then pure false
          else (do modify λ k. record k { idle_task = created_task }; pure true))

  -- `vTaskStartScheduler` once the idle task is there.
  unfoldable pub run_scheduler : M Bool → M (Unit {0}) → M (Unit {0}) → M (Unit {0})
  run_scheduler start_tick start_port stop_tick = do
    modify λ k. record k { scheduler_running = true; task_context_active = false }
    started ← start_tick
    config_assert started
    start_port
    stop_tick
    modify λ k. record k { scheduler_running = false; task_context_active = false }

  -- `vTaskStartScheduler`
  unfoldable pub start_scheduler : ℕ → (ℕ → ℕ) → M Bool → M (Unit {0}) → M (Unit {0}) → M (Unit {0})
  unfolding run_scheduler
  start_scheduler idle_code idle_name start_tick start_port stop_tick = do
    k ← kernel
    if k.scheduler_running then pure tt else (do
      created ← create_idle_task idle_code idle_name
      if created then run_scheduler start_tick start_port stop_tick else pure tt)
