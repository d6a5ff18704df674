-- ===== src/Tasks/Reweighs.antt =====
-- What priority inheritance in kernel/tasks.c and kernel/queue.c may change: priorities, and the
-- places in lists that follow from them.
use mini_free_rtos.Common.{ℕ, ◌≡◌, ◌==◌, refl, false, List, arith, if◌then◌else◌, update}
use mini_free_rtos.Kernel.{Kernel, Tcb, EventList}
use mini_free_rtos.Kernel.Outcome.{Outcome, done}
use mini_free_rtos.Tasks.Invariant.{Inv, View}
use mini_free_rtos.Tasks.Delta.{Delta, apply, SameQueue}

-- A task control block but for its priorities.
pub record Reweighted (c c' : Tcb) : Type 0 where
  pub base_priority : c'.base_priority ≡ c.base_priority
  pub state : c'.state ≡ c.state
  pub in_ready_list : c'.in_ready_list ≡ c.in_ready_list
  pub in_delay_list : c'.in_delay_list ≡ c.in_delay_list
  pub event_list : c'.event_list ≡ c.event_list
  pub wake_tick : c'.wake_tick ≡ c.wake_tick
  pub wait_object : c'.wait_object ≡ c.wait_object
  pub wait_reason : c'.wait_reason ≡ c.wait_reason

pub Reweighted-refl : (c : Tcb) → Reweighted c c
Reweighted-refl c = record {
  base_priority = refl;
  state = refl;
  in_ready_list = refl;
  in_delay_list = refl;
  event_list = refl;
  wake_tick = refl;
  wait_object = refl;
  wait_reason = refl;
}

-- The function returns, only priorities and the places that follow from them change, and the
-- invariant holds; the delayed list is untouched.
pub record Reweighs (k : Kernel) (low : ℕ) (v : View) (r : Outcome (Unit {0})) : Type 0 where
  pub result : Delta
  pub ready : ℕ → List ℕ
  pub waiting : EventList → List ℕ
  pub returns : r ≡ done tt (apply result k)
  pub inv : Inv (apply result k) low (record v { ready = ready; waiting = waiting })
  pub tasks_same : (a : ℕ) → Reweighted (k.task a) (result.task a)
  pub queue_same : (q : ℕ) → SameQueue (k.queue q) (result.queue q)

-- Only the task `t` gets another inherited priority, and only it can get another priority.
pub record Gives (t p : ℕ) (task task' : ℕ → Tcb) : Type 0 where
  pub given : (task' t).inherited_priority ≡ p
  pub kept : (a : ℕ) → (a == t) ≡ false → (task' a).inherited_priority ≡ (task a).inherited_priority
  pub steady : (a : ℕ) → (a == t) ≡ false → (task' a).priority ≡ (task a).priority

-- A task control block when the task `t` has got the inherited priority `p` and the priority `e`.
abbrev pub changed : (ℕ → Tcb) → ℕ → ℕ → ℕ → ℕ → Tcb
changed task t p e a =
    if a == t
    then record (update task t (record (task t) { inherited_priority = p }) t) { priority = e }
    else update task t (record (task t) { inherited_priority = p }) a

pub changed-Reweighted :
    (task task' : ℕ → Tcb) (t p e a : ℕ)
    → task' a ≡ changed task t p e a
    → Reweighted (task a) (task' a)
changed-Reweighted task task' t p e a same = record {
  base_priority = ground (arith, same);
  state = ground (arith, same);
  in_ready_list = ground (arith, same);
  in_delay_list = ground (arith, same);
  event_list = ground (arith, same);
  wake_tick = ground (arith, same);
  wait_object = ground (arith, same);
  wait_reason = ground (arith, same);
}

pub changed-Gives :
    (task task' : ℕ → Tcb) (t p e : ℕ)
    → ((a : ℕ) → task' a ≡ changed task t p e a)
    → Gives t p task task'
changed-Gives task task' t p e same = record {
  given = ground (arith, same t);
  kept = λ a other. ground (arith, same a);
  steady = λ a other. ground (arith, same a);
}

-- As above, and what changes is that the task `t` inherits the priority `p`.
abbrev pub Inherits : Kernel → ℕ → View → ℕ → ℕ → Outcome (Unit {0}) → Type 0
Inherits k low v t p r = (w : Reweighs k low v r) × Gives t p k.task w.result.task
