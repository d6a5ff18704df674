-- ===== src/Timers/Commands.antt =====
-- kernel/timers.c: creating timers and sending commands to the service task. The heap and the port are
-- parameters as they are for tasks and queues; `service_code` is the address of vTimerServiceTask,
-- `service_name` the string "TIMER", and a size is sizeof of a structure.
use mini_free_rtos.Common.{
  ℕ, ◌-◌, Option, none, some, Bool, true, false, not, ◌∷◌, leb, ◌==◌, ◌&&◌, ◌||◌, if◌then◌else◌,
  update,
}
use mini_free_rtos.Trace.{timer_command_queued}
use mini_free_rtos.Timers.{
  Timer, TimerCommand, command_start, command_stop, command_reset, command_change_period,
  command_value,
}
use mini_free_rtos.Timers.Active.{is_registered, period_is_valid, set_timers, set_timer}
use mini_free_rtos.Kernel.{minimal_stack_size, max_priorities}
use mini_free_rtos.Kernel.Outcome.{M, pure, kernel, ◌>>=◌, ◌>>◌}
use mini_free_rtos.Port.{enter_critical, exit_critical, trace_record}
use mini_free_rtos.Tasks.Wait.{max_delay}
use mini_free_rtos.Tasks.Name.{copy_name}
use mini_free_rtos.Tasks.Create.{create_task, is_null}
use mini_free_rtos.Queues.Semaphores.{same_task}
use mini_free_rtos.Queues.Create.{create_queue}
use mini_free_rtos.Queues.Messages.{queue_send_item}

-- configTIMER_QUEUE_LENGTH, configMAX_TIMER_NAME_LEN
abbrev pub timer_queue_length : ℕ
timer_queue_length = 8

abbrev pub max_timer_name_len : ℕ
max_timer_name_len = 16

-- What memset leaves of a timer.
abbrev pub zero_timer : Timer
zero_timer = record {
  name = λ _. 0;
  period = 0;
  expiry_tick = 0;
  auto_reload = 0;
  active = false;
  timer_id = 0;
  callback = 0;
}

module _ (malloc : ℕ → M (Option ℕ)) (free : ℕ → M (Unit {0})) (initialise_task : ℕ → M (Unit {0}))
    (tcb_size queue_size command_size timer_size : ℕ) (bytes : ℕ → ℕ) (service_code : ℕ)
    (service_name : ℕ → ℕ) where
  -- The service task is created, or not.
  unfoldable pub service_created : ℕ → Option ℕ → M Bool
  service_created queue none = do exit_critical; pure false
  service_created queue (some t) = do
    set_timers (λ s. record s {
      timer_command_queue = some queue;
      timer_service_task = some t;
      timer_service_initialized = true;
    })
    exit_critical
    pure true

  -- The queue is created, or not.
  unfoldable pub queue_created : Option ℕ → M Bool
  unfolding service_created
  queue_created none = do exit_critical; pure false
  queue_created (some queue) = do
    service_task ← create_task malloc free initialise_task tcb_size (record {
      task_code = some service_code;
      name = some service_name;
      stack_depth = minimal_stack_size;
      parameters = 0;
      priority = max_priorities - 1;
      is_system = true;
      is_idle = false;
    })
    service_created queue service_task

  -- `prvEnsureTimerService`
  unfoldable pub ensure_service : M Bool
  unfolding queue_created
  ensure_service = do
    enter_critical
    k ← kernel
    if k.timers.timer_service_initialized then (do exit_critical; pure true) else (do
      queue ← create_queue malloc free queue_size bytes timer_queue_length command_size
      queue_created queue)

  unfoldable pub create_timer_at : (ℕ → ℕ) → ℕ → ℕ → ℕ → ℕ → Option ℕ → M (Option ℕ)
  create_timer_at name period auto_reload timer_id callback none = pure none
  create_timer_at name period auto_reload timer_id callback (some t) = do
    set_timers (λ s. record s { next_active = update s.next_active t none })
    set_timer t (λ _. record zero_timer {
      name = copy_name (λ _. 0) max_timer_name_len name;
      period = period;
      auto_reload = auto_reload;
      timer_id = timer_id;
      callback = callback;
    })
    enter_critical
    set_timers (λ s. record s { timer_registry = t ∷ s.timer_registry })
    exit_critical
    pure (some t)

  -- `xTimerCreate` of a name and a callback that are not NULL.
  unfoldable pub timer_create : (ℕ → ℕ) → ℕ → ℕ → ℕ → ℕ → M (Option ℕ)
  unfolding create_timer_at
  timer_create name period auto_reload timer_id callback =
      if not (period_is_valid period) || not (auto_reload == 0 || auto_reload == 1)
      then pure none
      else (do
        ready ← ensure_service
        if not ready then pure none else (do
          t ← malloc timer_size
          create_timer_at name period auto_reload timer_id callback t))

module _ (yield_task : ℕ → M (Unit {0})) (encode : TimerCommand → ℕ → ℕ) (fuel : ℕ) where
  -- The command goes into the queue, if the timer is registered.
  unfoldable pub enqueue_command : Option ℕ → TimerCommand → ℕ → ℕ → M Bool
  enqueue_command current_task command queue ticks_to_wait = do
    enter_critical
    k ← kernel
    exit_critical
    if not (is_registered command.timer k.timers) then pure false else (do
      sent ← queue_send_item yield_task fuel queue (encode command) ticks_to_wait
      if not sent then pure false else (do
        trace_record timer_command_queued current_task none command.timer
            (command_value command.kind)
        pure true))

  unfoldable pub send_to : Option ℕ → TimerCommand → ℕ → M Bool
  unfolding enqueue_command
  send_to none command ticks_to_wait = pure false
  send_to (some queue) command ticks_to_wait = do
    k ← kernel
    if is_null k.current_task && not (ticks_to_wait == 0)
        then pure false
        else if same_task k.current_task k.timers.timer_service_task && not (ticks_to_wait == 0)
        then pure false
        else enqueue_command k.current_task command queue ticks_to_wait

  -- `prvSendTimerCommand`
  unfoldable pub send_command : TimerCommand → ℕ → M Bool
  unfolding send_to
  send_command command ticks_to_wait = do
    k ← kernel
    if leb max_delay ticks_to_wait
        then pure false
        else send_to k.timers.timer_command_queue command ticks_to_wait

  -- `xTimerStart`, `xTimerStop`, `xTimerReset` and `xTimerChangePeriod`
  unfoldable pub timer_start : Option ℕ → ℕ → M Bool
  timer_start timer = send_command (record { kind = command_start; timer = timer; period = 0 })

  unfoldable pub timer_stop : Option ℕ → ℕ → M Bool
  timer_stop timer = send_command (record { kind = command_stop; timer = timer; period = 0 })

  unfoldable pub timer_reset : Option ℕ → ℕ → M Bool
  timer_reset timer = send_command (record { kind = command_reset; timer = timer; period = 0 })

  unfoldable pub timer_change_period : Option ℕ → ℕ → ℕ → M Bool
  timer_change_period timer new_period ticks_to_wait =
      if not (period_is_valid new_period)
      then pure false
      else send_command
          (record { kind = command_change_period; timer = timer; period = new_period })
          ticks_to_wait

-- `xTimerIsTimerActive`
unfoldable pub is_timer_active : Option ℕ → M Bool
is_timer_active none = pure false
is_timer_active (some t) = do
  enter_critical
  k ← kernel
  exit_critical
  pure (if is_registered (some t) k.timers then (k.timers.timer t).active else false)

-- `pvTimerGetTimerID`; NULL is 0.
unfoldable pub get_timer_id : Option ℕ → M ℕ
get_timer_id none = pure 0
get_timer_id (some t) = do
  enter_critical
  k ← kernel
  exit_critical
  pure (if is_registered (some t) k.timers then (k.timers.timer t).timer_id else 0)

-- `vTimerSetTimerID`
unfoldable pub set_timer_id : Option ℕ → ℕ → M (Unit {0})
set_timer_id none timer_id = pure tt
set_timer_id (some t) timer_id = do
  enter_critical
  k ← kernel
  if is_registered (some t) k.timers
      then set_timer t (λ c. record c { timer_id = timer_id })
      else pure tt
  exit_critical
