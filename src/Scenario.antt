-- ===== src/Scenario.antt =====
-- A small system to try the kernel on: task 1 runs, and task 2, which is suspended, holds the mutex 7.
use mini_free_rtos.Common.{ℕ, refl, none, some, Bool, true, false, [], ◌∷◌, arith, update}
use mini_free_rtos.Dll.{Links, empty}
use mini_free_rtos.Dll.Segment.{IsDll}
use mini_free_rtos.Trace.{initial}
use mini_free_rtos.Timers.{Timers}
use mini_free_rtos.Timers.Commands.{zero_timer}
use mini_free_rtos.Tasks.Lists.{waiters_of}
use mini_free_rtos.Kernel.{
  Kernel, Tcb, Queue, EventList, send_waiters, receive_waiters, running, suspended, wait_none,
  mutex,
}
use mini_free_rtos.Tasks.Invariant.{Inv, View, Settled}
use mini_free_rtos.Tasks.Yield.{IsCurrent}

abbrev unused_task : Tcb
unused_task = record {
  task_code = 0;
  parameters = 0;
  stack = 0;
  stack_size = 0;
  name = λ _. 0;
  priority = 0;
  base_priority = 0;
  inherited_priority = 0;
  state = suspended;
  creation_number = 0;
  is_idle = false;
  is_system = false;
  in_ready_list = false;
  wake_tick = 0;
  in_delay_list = false;
  event_list = none;
  wait_object = none;
  wait_reason = wait_none;
  wait_result = false;
  wait_has_timeout = false;
}

abbrev held_mutex : Queue
held_mutex = record {
  kind = mutex;
  storage = λ _. 0;
  storage_size = 0;
  length = 0;
  item_size = 0;
  head = 0;
  tail = 0;
  count = 0;
  max_count = 1;
  send_waiters = empty;
  receive_waiters = empty;
  owner = some 2;
}

abbrev no_links : Links
no_links = record { previous = λ _. none; next = λ _. none }

-- Two timers, of which one is active. It will expire when the tick count has wrapped round.
abbrev pub two_timers : Timers
two_timers = record {
  timer =
      update (λ _. zero_timer) 20
        (record zero_timer { period = 5; expiry_tick = 3; auto_reload = 1; active = true });
  next_active = λ _. none;
  timer_command_queue = none;
  timer_service_task = none;
  timer_service_initialized = false;
  timer_registry = 21 ∷ 20 ∷ [];
  active_timers = some 20;
}

-- `active` says whether the tick may preempt. The tick count is about to wrap round.
abbrev pub starting : Bool → Kernel
starting active = record {
  task =
      update (λ _. unused_task) 1
        (record unused_task { state = running; priority = 2; base_priority = 2 });
  ready_links = no_links;
  delay_links = no_links;
  event_links = no_links;
  queue = λ _. held_mutex;
  task_table = 1 ∷ [];
  application_task_count = 1;
  ready_lists = λ _. empty;
  delayed_list = empty;
  current_task = some 1;
  idle_task = none;
  scheduler_running = true;
  task_context_active = active;
  tick_count = 4294967294;
  mutex_registry = 7 ∷ [];
  critical_nesting = 0;
  inside_isr = false;
  trace = initial;
  timers = two_timers;
}

abbrev pub nobody : View
nobody = record { ready = λ _. []; delayed = []; waiting = λ _. [] }

empty_lists : (e : EventList) → IsDll no_links (waiters_of e (λ _. held_mutex)) []
empty_lists (send_waiters q) = record { chain = (refl, refl); count = refl; distinct = tt }
empty_lists (receive_waiters q) = record { chain = (refl, refl); count = refl; distinct = tt }

pub starting-Inv : (active : Bool) (low : ℕ) → Inv (starting active) low nobody
starting-Inv active low = record {
  ready = record {
    lists_of = λ κ. record { chain = (refl, refl); count = refl; distinct = tt };
    member = λ κ a i. ground arith;
    listed = λ κ a e. ground arith;
  };
  delayed = record {
    family = record {
      lists_of = λ κ. record { chain = (refl, refl); count = refl; distinct = tt };
      member = λ κ a i. ground arith;
      listed = λ κ a e. ground arith;
    };
    now = omega arith;
    near = λ a i. ground arith;
    rising = tt;
  };
  waiting = record {
    family = record {
      lists_of = λ e. empty_lists e;
      member = λ κ a i. ground arith;
      listed = λ κ a e. ground arith;
    };
    falling = λ e. tt;
  };
  tasks = λ a. record {
    base_bound = ground arith;
    inherited_bound = ground arith;
    effective = ground arith;
    listed_ready = λ h. ground arith;
    delayed_blocked = λ h. ground arith;
    waiting_blocked = λ e h. ground arith;
  };
}

pub starting-Settled : (active : Bool) → Settled (starting active)
starting-Settled active a = record {
  ready_listed = λ h. ground arith;
  blocked_delayed = λ h. ground arith;
  running_current = λ h. ground arith;
}

pub starting-IsCurrent : (active : Bool) → IsCurrent (starting active) 1
starting-IsCurrent active = record { current = refl; runs = refl }
