-- ===== src/Tasks/Accessors.antt =====
-- kernel/tasks.c: the functions that read and write single variables, and the idle task.
use mini_free_rtos.Common.{ℕ, zero, suc, Option, none, some, Bool, not, if◌then◌else◌, length}
use mini_free_rtos.Kernel.{Kernel}
use mini_free_rtos.Kernel.Outcome.{
  M, pure, kernel, modify, halted, out_of_fuel, config_assert, ◌>>=◌, ◌>>◌,
}
use mini_free_rtos.Tasks.Schedule.{end_scheduler, all_application_tasks_deleted}

-- `pxTaskGetCurrent` and `xTaskGetCurrentTaskHandle`
unfoldable pub get_current : Kernel → Option ℕ
get_current k = k.current_task

-- `xTaskIsSchedulerRunning`
unfoldable pub is_scheduler_running : Kernel → Bool
is_scheduler_running k = k.scheduler_running

-- `pcTaskGetName`
unfoldable pub get_name : Option ℕ → Kernel → Option (ℕ → ℕ)
get_name (some t) k = some (k.task t).name
get_name none k = elim k.current_task [ none ↦ none | some t ↦ some (k.task t).name ]

-- `uxTaskGetNumberOfTasks`
unfoldable pub get_number_of_tasks : Kernel → ℕ
get_number_of_tasks k = length k.task_table

-- `xTaskGetTickCount`
unfoldable pub get_tick_count : Kernel → ℕ
get_tick_count k = k.tick_count

-- `vTaskSetTickCountForTest`
unfoldable pub set_tick_count_for_test : ℕ → M (Unit {0})
set_tick_count_for_test tick = do
  k ← kernel
  config_assert (not k.scheduler_running)
  modify λ k. record k { tick_count = tick }

-- `prvIdleTask` with configUSE_PREEMPTION; `wait_for_tick` is vPortWaitForTick, and a unit of fuel goes
-- with each round.
module _ (yield_task : ℕ → M (Unit {0})) (wait_for_tick : M (Unit {0})) where
  unfoldable pub idle_task : ℕ → M (Unit {0})
  idle_task zero = λ _. halted out_of_fuel
  idle_task (suc fuel) = do
    k ← kernel
    if not k.scheduler_running
        then pure tt
        else if all_application_tasks_deleted k
        then end_scheduler yield_task
        else (do wait_for_tick; idle_task fuel)
