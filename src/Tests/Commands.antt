-- ===== src/Tests/Commands.antt =====
-- A command for a timer on its way through the queue, laid out as three numbers.
use mini_free_rtos.Common.{
  ℕ, zero, suc, ◌+◌, ◌<◌, ◌≡◌, refl, ap, ◌∙◌, inl, Option, none, some, true, false, [], ◌∷◌, arith,
  update, ◌==◌, if◌then◌else◌,
}
use mini_free_rtos.Dll.{empty}
use mini_free_rtos.Timers.{
  Timers, TimerCommand, TimerCommandKind, command_start, command_stop, command_reset,
  command_change_period, command_value,
}
use mini_free_rtos.Timers.Service.{service_round}
use mini_free_rtos.Timers.Commands.{send_command}
use mini_free_rtos.Timers.Listed.{Listed}
use mini_free_rtos.Timers.Leaves.{applied}
use mini_free_rtos.Timers.Delivered.{send_command-service_round}
use mini_free_rtos.Kernel.{Kernel, Queue, queue_data}
use mini_free_rtos.Kernel.Outcome.{M, done, pure}
use mini_free_rtos.Queues.Fifo.{Holds}
use mini_free_rtos.Scenario.{starting, two_timers}

abbrev code : Option ℕ → ℕ
code none = 0
code (some t) = t + 1

abbrev encode : TimerCommand → ℕ → ℕ
encode c = update (update (λ _. c.period) 0 (command_value c.kind)) 1 (code c.timer)

abbrev kind_of : ℕ → TimerCommandKind
kind_of n =
    if n == 0
    then command_start
    else if n == 1
    then command_stop
    else if n == 2
    then command_reset
    else command_change_period

abbrev timer_of : ℕ → Option ℕ
timer_of zero = none
timer_of (suc t) = some t

abbrev decode : (ℕ → ℕ) → TimerCommand
decode bytes = record { kind = kind_of (bytes 0); timer = timer_of (bytes 1); period = bytes 2 }

kind_of-command_value : (k : TimerCommandKind) → kind_of (command_value k) ≡ k
kind_of-command_value command_start = refl
kind_of-command_value command_stop = refl
kind_of-command_value command_reset = refl
kind_of-command_value command_change_period = refl

timer_of-code : (o : Option ℕ) → timer_of (code o) ≡ o
timer_of-code none = refl
timer_of-code (some t) = ap timer_of (let e : t + 1 ≡ suc t = omega arith in e)

faithful :
    (c : TimerCommand) (bytes : ℕ → ℕ) → ((b : ℕ) → b < 3 → bytes b ≡ encode c b) → decode bytes ≡ c
faithful c bytes same =
    let kind = ap kind_of (same 0 (omega arith)) ∙ kind_of-command_value c.kind in
    let timer = ap timer_of (same 1 (omega arith)) ∙ timer_of-code c.timer in
    let period = same 2 (omega arith) in
    ap (λ k. record { kind = k; timer = timer_of (bytes 1); period = bytes 2 }) kind
    ∙ ap (λ t. record { kind = c.kind; timer = t; period = bytes 2 }) timer
    ∙ ap (λ p. record { kind = c.kind; timer = c.timer; period = p }) period

abbrev command_queue : Queue
command_queue = record {
  kind = queue_data;
  storage = λ _. 0;
  storage_size = 24;
  length = 8;
  item_size = 3;
  head = 7;
  tail = 7;
  count = 0;
  max_count = 8;
  send_waiters = empty;
  receive_waiters = empty;
  owner = none;
}

command-Holds : Holds command_queue []
command-Holds = record {
  counted = refl;
  fits_in = omega arith;
  word_sized = omega arith;
  tail_bound = omega arith;
  head_bound = omega arith;
  head_place = inl refl;
  slots = tt;
}

abbrev attached_timers : Timers
attached_timers = record two_timers { timer_command_queue = some 30 }

attached-Listed : Listed attached_timers (20 ∷ [])
attached-Listed = record {
  chain = (refl, refl);
  distinct = (refl, tt);
  marked = λ t. ground arith;
  known = λ t i. ground arith;
}

abbrev service_system : Kernel
service_system = record (starting false) { queue = λ _. command_queue; timers = attached_timers }

abbrev nothing : ℕ → ℕ → M (Unit {0})
nothing f t = pure tt

abbrev returning : ℕ → M (Unit {0})
returning t = pure tt

send_command-service_round_example :
    (k1 : Kernel) × (k2 : Kernel) × (send_command returning encode 1
        (record { kind = command_start; timer = some 21; period = 0 })
        0
        service_system
      ≡ done true k1)
    × (service_round nothing returning decode 1 k1 ≡ done tt k2)
    × Listed k2.timers (21 ∷ 20 ∷ [])
    × ((u : ℕ)
        → k2.timers.timer u
          ≡ update two_timers.timer 21 (applied command_start 0 4294967294 (two_timers.timer 21)) u)
send_command-service_round_example =
    send_command-service_round nothing returning encode decode 0 30 service_system (20 ∷ [])
      command_start 21 0 faithful refl refl command-Holds refl refl attached-Listed refl (λ e. cc)
