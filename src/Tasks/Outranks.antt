-- ===== src/Tasks/Outranks.antt =====
-- The test of kernel/tasks.c whether a task that became ready should run before the current one.
use mini_free_rtos.Common.{ℕ, ◌<◌, ◌≡◌, refl, inl, inr, some, Bool, true, arith, Option-cases}
use mini_free_rtos.Kernel.{Kernel, TaskState, running, ready, blocked, suspended, deleted, invalid}
use mini_free_rtos.Tasks.Wait.{preempts, is_running}

-- The current task `c` runs, at a lower priority than the task `t`.
pub record Outranks (k : Kernel) (t c : ℕ) : Type 0 where
  pub current : k.current_task ≡ some c
  pub runs : (k.task c).state ≡ running
  pub lower : (k.task c).priority < (k.task t).priority

-- The answer `b` is true just when the task `t` outranks the current one.
pub record Answers (k : Kernel) (t : ℕ) (b : Bool) : Type 0 where
  pub sound : b ≡ true → (c : ℕ) × Outranks k t c
  pub complete : (c : ℕ) → Outranks k t c → b ≡ true

running_lem : (c : TaskState) → is_running c ≡ true → c ≡ running
running_lem running e = refl
running_lem ready e = cc
running_lem blocked e = cc
running_lem suspended e = cc
running_lem deleted e = cc
running_lem invalid e = cc

pub preempts-Answers : (t : ℕ) (k : Kernel) → Answers k t (preempts t k)
unfolding preempts
preempts-Answers t k = elim (Option-cases k.current_task) [
  | inl e ↦ record { sound = λ h. ground arith; complete = λ c o. (let f = o.current in cc) }
  | inr (d, e) ↦ record {
    sound = λ h. (
      d,
      record {
        current = e;
        runs = running_lem (k.task d).state (ground arith);
        lower = ground arith;
      },
    );
    complete = λ c o. (let f = o.current in let g = o.runs in let l = o.lower in ground arith);
  }
]
