-- ===== src/Timers/Delivered.antt =====
-- kernel/timers.c and kernel/queue.c together: a command on its way to the service task.
use mini_free_rtos.Common.{
  ℕ, suc, ◌+◌, ◌<◌, ◌≡◌, refl, ap, ap₂, subst, ◌∙◌, Option, none, some, Bool, true, false, not,
  List, [], ◌∷◌, arith, ◌∈◌, update, ◌&&◌, if◌then◌else◌,
}
use mini_free_rtos.Trace.{timer_command_queued, timer_command_applied}
use mini_free_rtos.Timers.{
  Timers, TimerCommand, TimerCommandKind, command_change_period, command_value,
}
use mini_free_rtos.Timers.Active.{is_registered, period_is_valid, longest_wait}
use mini_free_rtos.Timers.Service.{apply_command, serve, wait_for_command, service_round}
use mini_free_rtos.Timers.Commands.{send_command, send_to, enqueue_command}
use mini_free_rtos.Timers.Listed.{Listed}
use mini_free_rtos.Timers.Due.{Waits, at_once, waits, timer_wait_ticks-Waits}
use mini_free_rtos.Timers.Leaves.{applied, listed_after}
use mini_free_rtos.Timers.Applied.{apply_command-applied}
use mini_free_rtos.Kernel.{Kernel}
use mini_free_rtos.Kernel.Outcome.{
  M, Outcome, done, pure, kernel, and_then, and_then-done, ◌>>=◌, ◌>>◌,
}
use mini_free_rtos.Port.{
  with_event, enter_critical, exit_critical, exit_critical-enter, trace_record, trace_record_lem,
}
use mini_free_rtos.Tasks.Wait.{max_delay, assert_task}
use mini_free_rtos.Tasks.Create.{is_null}
use mini_free_rtos.Queues.Semaphores.{same_task}
use mini_free_rtos.Queues.{is_data}
use mini_free_rtos.Queues.Messages.{first_message, queue_send_item, queue_receive_item}
use mini_free_rtos.Queues.Fifo.{Holds, put_message-Holds, drop_message-Holds}
use mini_free_rtos.Queues.Finish.{after_send, after_receive}
use mini_free_rtos.Queues.Deliver.{queue_send_item-room, queue_receive_item-some}

and-false : (b : Bool) → (b && false) ≡ false
and-false true = refl
and-false false = refl

-- The wait of the service task is one that a queue accepts.
wait_bound :
    (now : ℕ) (s : Timers) (xs : List ℕ) (r : Option ℕ)
    → Waits now s xs longest_wait r
    → (w : ℕ) × (r ≡ some w) × (w < max_delay)
wait_bound now s xs r (at_once t i late) = (0, refl, omega arith)
wait_bound now s xs r (waits w all below least reached) = (w, refl, omega (arith, below))

module _ (yield_task : ℕ → M (Unit {0})) (encode : TimerCommand → ℕ → ℕ) (fuel q : ℕ) (k : Kernel)
    (command : TimerCommand) (attached : k.timers.timer_command_queue ≡ some q)
    (data_queue : is_data (k.queue q).kind ≡ true) where
  -- The state after the command has been sent.
  abbrev pub after_command : Kernel
  after_command =
      with_event timer_command_queued k.current_task none command.timer (command_value command.kind)
        (after_send q (encode command) k)

  -- The end of enqueue_command.
  abbrev report : Bool → M Bool
  report sent = if not sent then pure false else (do
    trace_record timer_command_queued k.current_task none command.timer (command_value command.kind)
    pure true)

  abbrev send_known : Bool → M Bool
  send_known known =
      if not known
      then pure false
      else (do sent ← queue_send_item yield_task (suc fuel) q (encode command) 0; report sent)

  abbrev send_allowed : Bool → Bool → Outcome Bool
  send_allowed a b =
      (if a
          then pure false
          else if b
          then pure false
          else enqueue_command yield_task encode (suc fuel) k.current_task command q 0)
        k

  enqueue_command-room :
      (k.queue q).count < (k.queue q).length
      → (k.queue q).receive_waiters.head ≡ none
      → is_registered command.timer k.timers ≡ true
      → enqueue_command yield_task encode (suc fuel) k.current_task command q 0 k
        ≡ done true after_command
  unfolding enqueue_command enter_critical
  enqueue_command-room room alone known =
      and_then-done (λ _. send_known (is_registered command.timer k.timers))
        (exit_critical-enter k.critical_nesting
          (record k { critical_nesting = k.critical_nesting + 1 }) refl)
      ∙ ap (λ b. send_known b k) known
      ∙ and_then-done report (
          queue_send_item-room yield_task fuel q 0 k data_queue (omega arith) (encode command) alone
            room)
      ∙ and_then-done (λ _. pure true)
          (trace_record_lem timer_command_queued k.current_task none command.timer
            (command_value command.kind) (after_send q (encode command) k))

  -- A command for a registered timer is accepted while there is room.
  send_command-room :
      (k.queue q).count < (k.queue q).length
      → (k.queue q).receive_waiters.head ≡ none
      → is_registered command.timer k.timers ≡ true
      → send_command yield_task encode (suc fuel) command 0 k ≡ done true after_command
  unfolding send_command send_to
  send_command-room room alone known =
      ap (λ o. send_to yield_task encode (suc fuel) o command 0 k) attached
      ∙ ap₂ send_allowed (and-false (is_null k.current_task))
          (and-false (same_task k.current_task k.timers.timer_service_task))
      ∙ enqueue_command-room room alone known

module _ (call : ℕ → ℕ → M (Unit {0})) (yield_task : ℕ → M (Unit {0}))
    (decode : (ℕ → ℕ) → TimerCommand) (fuel q : ℕ) (k : Kernel) (xs : List ℕ)
    (attached : k.timers.timer_command_queue ≡ some q)
    (data_queue : is_data (k.queue q).kind ≡ true) (listed : Listed k.timers xs) where
  abbrev entered : Kernel → Kernel
  entered k = record k { critical_nesting = k.critical_nesting + 1 }

  abbrev serve_from : ℕ → Option ℕ → M (Unit {0})
  serve_from wait_ticks attached_queue = do
    queue ← assert_task attached_queue
    received ← queue_receive_item yield_task (suc fuel) queue wait_ticks
    serve call yield_task decode (suc fuel) received

  abbrev serve_now : ℕ → M (Unit {0})
  serve_now wait_ticks = do k' ← kernel; serve_from wait_ticks k'.timers.timer_command_queue

  -- A round of the service task takes the command that stands first in the queue, and applies it.
  service_round-some :
      (kind : TimerCommandKind) (t period : ℕ)
      → 0 < (k.queue q).count
      → (k.queue q).send_waiters.head ≡ none
      → decode (first_message (k.queue q)) ≡ record { kind = kind; timer = some t; period = period }
      → t ∈ k.timers.timer_registry
      → (kind ≡ command_change_period → period_is_valid period ≡ true)
      → (k' : Kernel) × (service_round call yield_task decode (suc fuel) k ≡ done tt k')
        × Listed k'.timers (listed_after kind t xs)
        × ((u : ℕ)
            → k'.timers.timer u
              ≡ update k.timers.timer t (applied kind period k.tick_count (k.timers.timer t)) u)
  unfolding service_round wait_for_command serve enter_critical
  service_round-some kind t period held alone decoded known valid =
      let (w, wait, short) =
        wait_bound k.tick_count k.timers xs _
          (timer_wait_ticks-Waits k.tick_count k.timers xs listed) in
      let received = queue_receive_item-some yield_task fuel q w k data_queue short alone held in
      let k1 = after_receive q k in
      let (s', run, l, timers, registry) =
        apply_command-applied kind t period (entered k1) xs listed known valid in
      let k2 =
        with_event timer_command_applied k.current_task none (some t) (command_value kind)
          (record k1 { timers = s' }) in
      (
        k2,
        ap (λ o. wait_for_command call yield_task decode (suc fuel) o (entered k)) wait
            ∙ and_then-done (λ _. serve_now w)
                (exit_critical-enter k.critical_nesting (entered k) refl)
            ∙ ap (λ o. serve_from w o k) attached
            ∙ and_then-done (serve call yield_task decode (suc fuel)) received
            ∙ ap (λ c. and_then (apply_command c (entered k1)) (λ _. exit_critical)) decoded
            ∙ and_then-done (λ _. exit_critical) run
            ∙ exit_critical-enter k.critical_nesting (entered k2) refl,
        l,
        timers,
      )

-- When the layout of a command in a queue can be read back from the bytes of an item, the timers'
-- queue is empty, nobody waits on it, and the active timers are listed: a command without a timeout
-- for a registered timer, with a valid period where it changes the period, is accepted, and the
-- next round of the service task applies it.
pub send_command-service_round :
    (call : ℕ → ℕ → M (Unit {0})) (yield_task : ℕ → M (Unit {0})) (encode : TimerCommand → ℕ → ℕ)
    (decode : (ℕ → ℕ) → TimerCommand) (fuel q : ℕ) (k : Kernel) (xs : List ℕ)
    (kind : TimerCommandKind) (t period : ℕ)
    → ((c : TimerCommand) (bytes : ℕ → ℕ)
        → ((b : ℕ) → b < (k.queue q).item_size → bytes b ≡ encode c b)
        → decode bytes ≡ c)
    → k.timers.timer_command_queue ≡ some q
    → is_data (k.queue q).kind ≡ true
    → Holds (k.queue q) []
    → (k.queue q).receive_waiters.head ≡ none
    → (k.queue q).send_waiters.head ≡ none
    → Listed k.timers xs
    → t ∈ k.timers.timer_registry
    → (kind ≡ command_change_period → period_is_valid period ≡ true)
    → let command : TimerCommand = record { kind = kind; timer = some t; period = period } in
      (k1 : Kernel) × (k2 : Kernel) × (send_command yield_task encode (suc fuel) command 0 k
        ≡ done true k1)
      × (service_round call yield_task decode (suc fuel) k1 ≡ done tt k2)
      × Listed k2.timers (listed_after kind t xs)
      × ((u : ℕ)
          → k2.timers.timer u
            ≡ update k.timers.timer t (applied kind period k.tick_count (k.timers.timer t)) u)
send_command-service_round call yield_task encode decode fuel q k xs kind t period faithful attached
      data_queue holds no_receivers no_senders listed known valid =
    let command : TimerCommand = record { kind = kind; timer = some t; period = period } in
    let empty = holds.counted in
    let wide = holds.tail_bound in
    let room : (k.queue q).count < (k.queue q).length = omega arith in
    let k1 = after_command yield_task encode fuel q k command attached data_queue in
    let holds1 : Holds (k1.queue q) (encode command ∷ []) =
      subst (λ c. Holds c (encode command ∷ [])) (ground arith)
        (put_message-Holds (encode command) (k.queue q) [] holds room) in
    let one = holds1.counted in
    let (bytes, rest) = drop_message-Holds (k1.queue q) (encode command) [] holds1 in
    let (k2, run, l, timers) =
      service_round-some call yield_task decode fuel q k1 xs attached (ground (arith, data_queue))
        listed kind t period (omega arith) (ground (arith, no_senders))
        (faithful command (first_message (k1.queue q)) (λ b lt. bytes b (ground arith))) known
        valid in
    (
      k1,
      k2,
      send_command-room yield_task encode fuel q k command attached data_queue room no_receivers
          known,
      run,
      l,
      timers,
    )
