-- ===== src/Timers/Service.antt =====
-- kernel/timers.c: the service task. A callback is a parameter, given the function and the timer; the
-- layout of a command in a queue is one too. The loop over due timers runs on fuel.
use mini_free_rtos.Common.{ℕ, zero, suc, Option, none, some, not, ◌==◌, ◌&&◌, if◌then◌else◌}
use mini_free_rtos.Word.{add32}
use mini_free_rtos.Trace.{timer_command_applied, timer_callback}
use mini_free_rtos.Timers.{
  Timer, TimerCommand, TimerCommandKind, command_start, command_stop, command_reset,
  command_change_period, command_value,
}
use mini_free_rtos.Timers.Active.{
  is_registered, period_is_valid, set_timer, active_timer_insert, active_timer_remove,
  find_due_timer, timer_wait_ticks,
}
use mini_free_rtos.Kernel.Outcome.{M, pure, kernel, halted, out_of_fuel, config_assert, ◌>>=◌, ◌>>◌}
use mini_free_rtos.Port.{enter_critical, exit_critical, trace_record}
use mini_free_rtos.Tasks.Wait.{assert_task}
use mini_free_rtos.Queues.Messages.{queue_receive_item}

unfoldable pub remove_if_active : ℕ → M (Unit {0})
remove_if_active t = do
  k ← kernel
  if (k.timers.timer t).active then active_timer_remove t else pure tt

-- The timer runs from `now` on.
unfoldable pub restart : ℕ → ℕ → M (Unit {0})
restart t now = do
  set_timer t (λ c. record c { expiry_tick = add32 now c.period })
  active_timer_insert t

-- The cases of `prvApplyTimerCommand`.
unfoldable pub apply_kind : TimerCommandKind → ℕ → ℕ → ℕ → M (Unit {0})
unfolding remove_if_active restart
apply_kind command_start t period now = do remove_if_active t; restart t now
apply_kind command_reset t period now = do remove_if_active t; restart t now
apply_kind command_stop t period now = remove_if_active t
apply_kind command_change_period t period now = do
  config_assert (period_is_valid period)
  remove_if_active t
  set_timer t (λ c. record c { period = period })
  restart t now

-- `prvApplyTimerCommand`
unfoldable pub apply_command : TimerCommand → M (Unit {0})
unfolding apply_kind
apply_command command = do
  k ← kernel
  t ← assert_task command.timer
  config_assert (is_registered command.timer k.timers)
  apply_kind command.kind t command.period k.tick_count
  k' ← kernel
  trace_record timer_command_applied k'.current_task none command.timer (command_value command.kind)

-- The second critical section of a round; `before` is what the first one read of the timer.
unfoldable pub rearm : ℕ → Timer → M (Unit {0})
rearm t before = do
  enter_critical
  k ← kernel
  if before.auto_reload == 1 && not (k.timers.timer t).active
      then (do
        set_timer t (λ c. record c { expiry_tick = add32 before.expiry_tick c.period })
        active_timer_insert t)
      else pure tt
  exit_critical

module _ (call : ℕ → ℕ → M (Unit {0})) where
  -- The callback, between the two critical sections.
  unfoldable pub notify : ℕ → Timer → M (Unit {0})
  notify t before = do
    k ← kernel
    trace_record timer_callback k.current_task none (some t) before.auto_reload
    call before.callback t

  -- A round, once a timer that is due has been found in the first critical section.
  unfoldable pub expire_timer : ℕ → M (Unit {0})
  unfolding rearm notify
  expire_timer t = do
    k ← kernel
    active_timer_remove t
    exit_critical
    notify t (k.timers.timer t)
    rearm t (k.timers.timer t)

  unfoldable pub expire_found : Option (Option ℕ) → M (Unit {0}) → M (Unit {0})
  unfolding expire_timer
  expire_found none again = λ _. halted out_of_fuel
  expire_found (some none) again = exit_critical
  expire_found (some (some t)) again = do expire_timer t; again

  -- `prvExpireDueTimers`
  unfoldable pub expire_due_timers : ℕ → M (Unit {0})
  unfolding expire_found
  expire_due_timers zero = λ _. halted out_of_fuel
  expire_due_timers (suc fuel) = do
    enter_critical
    k ← kernel
    expire_found (find_due_timer k.tick_count k.timers) (expire_due_timers fuel)

  module _ (yield_task : ℕ → M (Unit {0})) (decode : (ℕ → ℕ) → TimerCommand) (fuel : ℕ) where
    -- What the service task does with the outcome of xQueueReceive.
    unfoldable pub serve : Option (ℕ → ℕ) → M (Unit {0})
    serve none = expire_due_timers fuel
    serve (some bytes) = do enter_critical; apply_command (decode bytes); exit_critical

    unfoldable pub wait_for_command : Option ℕ → M (Unit {0})
    unfolding serve
    wait_for_command none = λ _. halted out_of_fuel
    wait_for_command (some wait_ticks) = do
      exit_critical
      k ← kernel
      queue ← assert_task k.timers.timer_command_queue
      received ← queue_receive_item yield_task fuel queue wait_ticks
      serve received

    -- A round of the loop of `vTimerServiceTask`.
    unfoldable pub service_round : M (Unit {0})
    unfolding wait_for_command
    service_round = do
      enter_critical
      k ← kernel
      wait_for_command (timer_wait_ticks k.tick_count k.timers)
