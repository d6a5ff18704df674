-- ===== src/Tasks/Invariant.antt =====
-- The invariant of the scheduler state of kernel/tasks.c.
use mini_free_rtos.Common.{ℕ, ◌<◌, ◌≡◌, Option, some, true, List, arith}
use mini_free_rtos.Kernel.{
  Kernel, Tcb, EventList, TaskState, running, ready, blocked, max_priorities,
}
use mini_free_rtos.Tasks.Priority.{effective_priority}
use mini_free_rtos.Tasks.Ready.{ReadyFamily}
use mini_free_rtos.Tasks.Delayed.{DelayInv}
use mini_free_rtos.Tasks.Waiting.{EventInv}

-- The lists that the pointers stand for: the ready tasks of each priority, the delayed tasks, and
-- the tasks that wait for each event.
pub record View : Type 0 where
  pub ready : ℕ → List ℕ
  pub delayed : List ℕ
  pub waiting : EventList → List ℕ

-- What holds of each task control block by itself.
pub record TaskInv (c : Tcb) : Type 0 where
  pub base_bound : c.base_priority < max_priorities
  pub inherited_bound : c.inherited_priority < max_priorities
  pub effective : c.priority ≡ effective_priority c
  pub listed_ready : c.in_ready_list ≡ true → c.state ≡ ready
  pub delayed_blocked : c.in_delay_list ≡ true → c.state ≡ blocked
  pub waiting_blocked : (e : EventList) → c.event_list ≡ some e → c.state ≡ blocked

pub record Inv (k : Kernel) (low : ℕ) (v : View) : Type 0 where
  pub ready : ReadyFamily k v.ready
  pub delayed : DelayInv k low v.delayed
  pub waiting : EventInv k v.waiting
  pub tasks : (a : ℕ) → TaskInv (k.task a)

-- No task is lost: a ready task is in its ready list, a blocked task has a deadline in the delayed
-- list, and only the current task runs.
pub record Placed (current : Option ℕ) (a : ℕ) (c : Tcb) : Type 0 where
  pub ready_listed : c.state ≡ TaskState.ready → c.in_ready_list ≡ true
  pub blocked_delayed : c.state ≡ blocked → c.in_delay_list ≡ true
  pub running_current : c.state ≡ running → current ≡ some a

abbrev pub Settled : Kernel → Type 0
Settled k = (a : ℕ) → Placed k.current_task a (k.task a)

-- Every ready task stands in a ready list.
abbrev pub Listed : Kernel → Type 0
Listed k = (a : ℕ) → (k.task a).state ≡ TaskState.ready → (k.task a).in_ready_list ≡ true

-- Priorities stay in the range of `ready_lists`.
pub priority_bound : (c : Tcb) → TaskInv c → c.priority < max_priorities
priority_bound c i = ground (arith, i.effective, i.base_bound, i.inherited_bound)
