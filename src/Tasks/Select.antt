-- ===== src/Tasks/Select.antt =====
-- `prvSelectNextReadyTask` and `vTaskSwitchContext` of kernel/tasks.c choose by priority.
use mini_free_rtos.Common.{
  ℕ, zero, suc, ◌<◌, ◌≤◌, ◌≡◌, ◌≢◌, refl, ap, Option, none, some, true, List, [], ◌∷◌, arith,
  update, ◌∈◌, delete-cons_self,
}
use native.Mathlib.Decide.{ℕ_discrete}
use mini_free_rtos.Trace.{task_switch}
use mini_free_rtos.Kernel.{Kernel, running, ready, max_priorities}
use mini_free_rtos.Kernel.Outcome.{Outcome, done, and_then}
use mini_free_rtos.Port.{with_event, trace_record_lem}
use mini_free_rtos.Tasks.Ready.{
  ReadyFamily, ready_removed, ready_deleted, ready_list_remove-delete, ReadyFamily-frame,
}
use mini_free_rtos.Tasks.Delayed.{DelayParts-frame}
use mini_free_rtos.Tasks.Waiting.{EventParts-frame}
use mini_free_rtos.Tasks.Schedule.{
  select_below, select_next_ready_task, switch_context, run_selected,
}
use mini_free_rtos.Tasks.Invariant.{Inv, View, TaskInv, Settled, priority_bound}

-- Below `n` there is no ready task, and the search finds none; or it takes the first task of the
-- highest list that is not empty.
pub data Selection (k : Kernel) (R : ℕ → List ℕ) (n : ℕ) : Outcome (Option ℕ) → Type 0 where
  nothing : ((q : ℕ) → q < n → R q ≡ []) → Selection k R n (done none k)
  chosen :
      (t : ℕ) (xs : List ℕ)
      → (k.task t).priority < n
      → (k.task t).in_ready_list ≡ true
      → R (k.task t).priority ≡ t ∷ xs
      → ((q : ℕ) → (k.task t).priority < q → q < n → R q ≡ [])
      → ReadyFamily (ready_removed t k) (ready_deleted t k R)
      → Selection k R n (done (some t) (ready_removed t k))

Selection-suc :
    (k : Kernel) (R : ℕ → List ℕ) (n : ℕ) {r : Outcome (Option ℕ)}
    → R n ≡ []
    → Selection k R n r
    → Selection k R (suc n) r
Selection-suc k R n e (nothing none_below) =
    nothing (λ q h. elim (ℕ_discrete q n) [ yes i ↦ rw i e | no ne ↦ none_below q (omega arith) ])
Selection-suc k R n e (chosen t xs below l first others f) =
    chosen t xs (omega arith) l first
      (λ q above h. elim (ℕ_discrete q n) [ yes i ↦ rw i e | no ne ↦ others q above (omega arith) ])
      f

select_at-Selection :
    (k : Kernel) (R : ℕ → List ℕ) (p : ℕ) (xs : List ℕ)
    → ReadyFamily k R
    → R p ≡ xs
    → Selection k R p (select_below p k)
    → Selection k R (suc p) (select_below (suc p) k)
unfolding select_below
select_at-Selection k R p [] f e rest =
    rw ((rw e at ((f.lists_of p).chain)).0, select_below) (Selection-suc k R p e rest)
select_at-Selection k R p (t ∷ xs) f e rest =
    let place = f.member p t (rw e (ground arith)) in
    let listed : (k.task t).in_ready_list ≡ true = ground arith in
    let prio : (k.task t).priority ≡ p = ground arith in
    let (run, f') = ready_list_remove-delete k t R f listed in
    rw ((rw e at ((f.lists_of p).chain)).0, select_below)
      (rw run (chosen t xs (omega arith) listed (rw prio e) (λ q above h. absurd (omega arith)) f'))

pub select_below-Selection :
    (k : Kernel) (R : ℕ → List ℕ) (n : ℕ) → ReadyFamily k R → Selection k R n (select_below n k)
unfolding select_below
select_below-Selection k R zero f = nothing (λ q h. absurd (omega arith))
select_below-Selection k R (suc p) f =
    select_at-Selection k R p (R p) f refl (select_below-Selection k R p f)

-- Nobody runs: the state between a task's yield and the switch to the next.
abbrev pub Idle : Kernel → Type 0
Idle k = (a : ℕ) → (k.task a).state ≢ running

-- The state after a switch, given the task chosen.
abbrev switched : ℕ → Kernel → Kernel
switched t k =
    let k1 = ready_removed t k in
    let k2 : Kernel = record k1 {
      current_task = some t;
      task = update k1.task t (record (k1.task t) { state = running });
    } in
    with_event task_switch (some t) k.current_task none (k2.task t).priority k2

-- What a switch promises: without a ready task there is no current task; otherwise the current task
-- runs, was the first of its ready list, and no ready task has a higher priority.
pub data Switched (k : Kernel) (low : ℕ) (v : View) : Outcome (Unit {0}) → Type 0 where
  halts :
      {k' : Kernel}
      → ((a : ℕ) → (k.task a).state ≢ ready)
      → k'.current_task ≡ none
      → Inv k' low v
      → Settled k'
      → Switched k low v (done tt k')
  runs :
      {k' : Kernel} (t : ℕ) (xs : List ℕ)
      → k'.current_task ≡ some t
      → (k'.task t).state ≡ running
      → v.ready (k.task t).priority ≡ t ∷ xs
      → ((a : ℕ) → (k.task a).state ≡ ready → (k.task a).priority ≤ (k.task t).priority)
      → Inv k' low (record v { ready = update v.ready (k.task t).priority xs })
      → Settled k'
      → Switched k low v (done tt k')

module _ (k : Kernel) (low : ℕ) (v : View) (i : Inv k low v) (s : Settled k) (idle : Idle k) where
  -- A ready task stands in the list of its priority.
  ready_mem : (a : ℕ) → (k.task a).state ≡ ready → a ∈ v.ready (k.task a).priority
  ready_mem a r = i.ready.listed (k.task a).priority a (rw ((s a).ready_listed r))

  switched-TaskInv : (t a : ℕ) → (k.task t).in_ready_list ≡ true → TaskInv ((switched t k).task a)
  switched-TaskInv t a l =
      let o = i.tasks a in
      let r = (i.tasks t).listed_ready l in
      record {
        base_bound = ground (arith, o.base_bound);
        inherited_bound = ground (arith, o.inherited_bound);
        effective = ground (arith, o.effective);
        listed_ready = λ h. ground (arith, o.listed_ready);
        delayed_blocked = λ h. ground (arith, o.delayed_blocked);
        waiting_blocked = λ e h. ground (arith, o.waiting_blocked e);
      }

  switched-Settled : (t : ℕ) → (k.task t).in_ready_list ≡ true → Settled (switched t k)
  switched-Settled t l a =
      let o = s a in
      let r = (i.tasks t).listed_ready l in
      record {
        ready_listed = λ h. ground (arith, o.ready_listed);
        blocked_delayed = λ h. ground (arith, o.blocked_delayed);
        running_current = λ h. ground (arith, idle a);
      }

  switched-runs :
      (t : ℕ) (xs : List ℕ)
      → (k.task t).in_ready_list ≡ true
      → v.ready (k.task t).priority ≡ t ∷ xs
      → ((q : ℕ) → (k.task t).priority < q → q < max_priorities → v.ready q ≡ [])
      → ReadyFamily (ready_removed t k) (ready_deleted t k v.ready)
      → Switched k low v (done tt (switched t k))
  switched-runs t xs l first above f =
      let k' = switched t k in
      let was_ready = (i.tasks t).listed_ready l in
      let p = (k.task t).priority in
      let lists : ready_deleted t k v.ready ≡ update v.ready p xs =
        ap (update v.ready p) (rw first (delete-cons_self t xs)) in
      runs t xs refl (ground arith) first
        (λ a r.
          ground (
            arith,
            ready_mem a r,
            above (k.task a).priority,
            priority_bound (k.task a) (i.tasks a),
          ))
        (record {
          ready =
              ReadyFamily-frame (ready_removed t k).task k'.task
                (λ a. (ground arith, λ h. ground arith)) (rw lists at f);
          delayed =
              DelayParts-frame k.task k'.task (λ a. (ground arith, λ h. ground arith)) i.delayed;
          waiting =
              EventParts-frame k.task k'.task (λ a. (ground arith, λ e h. ground arith)) i.waiting;
          tasks = λ a. switched-TaskInv t a l;
        })
        (switched-Settled t l)

  -- From a state with the invariant in which no task runs and none is lost, `vTaskSwitchContext`
  -- makes the first task of the highest non-empty ready list the current and running one, keeps
  -- the invariant, and loses no task; without a ready task it leaves none current.
  pub switch_context-Switched : Switched k low v (switch_context k)
  unfolding switch_context select_next_ready_task run_selected
  switch_context-Switched = from_selection (select_below-Selection k v.ready max_priorities i.ready)
    where
      from_selection :
          {r : Outcome (Option ℕ)}
          → Selection k v.ready max_priorities r
          → Switched k low v (and_then r (run_selected k.current_task))
      from_selection (nothing none_below) =
          halts
            (λ a r. ground (
              arith,
              ready_mem a r,
              none_below (k.task a).priority,
              priority_bound (k.task a) (i.tasks a),
            ))
            refl
            (record { ready = i.ready; delayed = i.delayed; waiting = i.waiting; tasks = i.tasks })
            (λ a. record {
              ready_listed = (s a).ready_listed;
              blocked_delayed = (s a).blocked_delayed;
              running_current = λ h. absurd (idle a h);
            })
      from_selection (chosen t xs below l first above f) =
          rw (trace_record_lem task_switch (some t) k.current_task none _ _)
            (switched-runs t xs l first above f)
