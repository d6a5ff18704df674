-- ===== src/Kernel.antt =====
-- The state that kernel/tasks.c, kernel/queue.c and kernel/timers.c share: the task control blocks
-- and queues in memory, the static variables, and the outcome of a kernel function.
pub mod Outcome
use mini_free_rtos.Common.{ℕ, Option, none, Bool, List}
use mini_free_rtos.Dll.{Links, Header}
use mini_free_rtos.Trace.{Trace}
use mini_free_rtos.Timers.{Timers}

-- configMAX_PRIORITIES, configMAX_TASKS, configMAX_SYSTEM_TASKS, configMINIMAL_STACK_SIZE,
-- configMAX_TASK_NAME_LEN
abbrev pub max_priorities : ℕ
max_priorities = 8

abbrev pub max_tasks : ℕ
max_tasks = 16

abbrev pub max_system_tasks : ℕ
max_system_tasks = 2

abbrev pub minimal_stack_size : ℕ
minimal_stack_size = 32768

abbrev pub max_task_name_len : ℕ
max_task_name_len = 16

-- tskIDLE_PRIORITY
abbrev pub idle_priority : ℕ
idle_priority = 0

-- `eTaskState`
pub data TaskState : Type 0 where
  running ready blocked suspended deleted invalid : TaskState

-- `TaskWaitReason_t`
pub data WaitReason : Type 0 where
  wait_none wait_queue_send wait_queue_receive wait_semaphore_take wait_mutex_take : WaitReason

-- A pointer to a `TaskEventList_t`: such lists are the two fields of a queue.
pub data EventList : Type 0 where
  send_waiters receive_waiters : ℕ → EventList

-- `struct tskTaskControlBlock`, but for its three pairs of list pointers and the port's context.
pub record Tcb : Type 0 where
  pub task_code : ℕ
  pub parameters : ℕ
  pub stack : ℕ
  pub stack_size : ℕ
  pub name : ℕ → ℕ
  pub priority : ℕ
  pub base_priority : ℕ
  pub inherited_priority : ℕ
  pub state : TaskState
  pub creation_number : ℕ
  pub is_idle : Bool
  pub is_system : Bool
  pub in_ready_list : Bool
  pub wake_tick : ℕ
  pub in_delay_list : Bool
  pub event_list : Option EventList
  pub wait_object : Option ℕ
  pub wait_reason : WaitReason
  pub wait_result : Bool
  pub wait_has_timeout : Bool

-- `QueueKind_t`
pub data QueueKind : Type 0 where
  queue_data binary_semaphore counting_semaphore mutex : QueueKind

-- `struct mini_queue`. The storage is the array of its bytes.
pub record Queue : Type 0 where
  pub kind : QueueKind
  pub storage : ℕ → ℕ
  pub storage_size : ℕ
  pub length : ℕ
  pub item_size : ℕ
  pub head : ℕ
  pub tail : ℕ
  pub count : ℕ
  pub max_count : ℕ
  pub send_waiters : Header
  pub receive_waiters : Header
  pub owner : Option ℕ

-- Memory and static variables. `task` and `queue` give what stands at an address; the three pairs
-- of list pointers of the tasks are the three `links`. `task_table` holds its first `task_count`
-- entries. `mutex_registry` is the chain of `registry_next` pointers, newest first.
-- `critical_nesting` and `inside_isr` (tick_handler_active) are the port's.
pub record Kernel : Type 0 where
  pub task : ℕ → Tcb
  pub ready_links : Links
  pub delay_links : Links
  pub event_links : Links
  pub queue : ℕ → Queue
  pub task_table : List ℕ
  pub application_task_count : ℕ
  pub ready_lists : ℕ → Header
  pub delayed_list : Header
  pub current_task : Option ℕ
  pub idle_task : Option ℕ
  pub scheduler_running : Bool
  pub task_context_active : Bool
  pub tick_count : ℕ
  pub mutex_registry : List ℕ
  pub critical_nesting : ℕ
  pub inside_isr : Bool
  pub trace : Trace
  pub timers : Timers
