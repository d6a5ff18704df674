-- ===== src/Tasks/Inherit.antt =====
-- Priority inheritance keeps the invariant: `vTaskSetInheritedPriority` of kernel/tasks.c and
-- `prvRecomputeInheritedPriority` of kernel/queue.c.
use mini_free_rtos.Common.{
  ℕ, ◌<◌, ◌≡◌, inl, inr, refl, ◌∙◌, Option, some, Bool, true, false, List, [], ◌∷◌, arith,
  if◌then◌else◌, ltb, update, Option-cases,
}
use mini_free_rtos.Trace.{Trace, TraceEventType, mutex_inherit}
use mini_free_rtos.Kernel.{Kernel, Tcb, TaskState, max_priorities}
use mini_free_rtos.Kernel.Outcome.{Outcome, done, pure, and_then-done, config_assert-true}
use mini_free_rtos.Port.{trace_record, trace_record_lem}
use mini_free_rtos.Tasks.Priority.{
  set_inherited_priority, effective_priority, Source, no_source, scan_mutexes, inherit_from,
  inherit_from_waiter, recompute_inherited_priority,
}
use mini_free_rtos.Tasks.Reweighs.{
  Reweighted-refl, Reweighs, Inherits, changed-Reweighted, changed-Gives,
}
use mini_free_rtos.Tasks.Ready.{ReadyFamily-frame}
use mini_free_rtos.Tasks.Delayed.{DelayParts-frame}
use mini_free_rtos.Tasks.Waiting.{EventParts-frame}
use mini_free_rtos.Tasks.Invariant.{Inv, View, TaskInv, Listed, priority_bound}
use mini_free_rtos.Tasks.Delta.{Delta, apply, delta, SameQueue-refl}
use mini_free_rtos.Tasks.Reprioritise.{Moved, Marked, set_effective_priority-Moved}

-- The marks of a task whose readiness shows in a list.
pub marked : (c : Tcb) → TaskInv c → (c.state ≡ TaskState.ready → c.in_ready_list ≡ true) → Marked c
marked c i s = record {
  ready_listed = s;
  listed_ready = i.listed_ready;
  waiting_blocked = i.waiting_blocked;
}

-- Recording an event or not leaves all but the trace.
traced_if :
    (b : Bool) (type : TraceEventType) (task related object : Option ℕ) (value : ℕ) (k : Kernel)
    → (events : Trace) × ((if b then trace_record type task related object value else pure tt) k
        ≡ done tt (record k { trace = events }))
traced_if true type task related object value k =
    (_, trace_record_lem type task related object value k)
traced_if false type task related object value k = (k.trace, refl)

module _ (k : Kernel) (low : ℕ) (v : View) (i : Inv k low v) (s : Listed k) where
  -- Nothing happens.
  pub kept-Reweighs : Reweighs k low v (done tt k)
  kept-Reweighs = record {
    result = delta k;
    ready = v.ready;
    waiting = v.waiting;
    returns = refl;
    inv = record { ready = i.ready; delayed = i.delayed; waiting = i.waiting; tasks = i.tasks };
    tasks_same = λ a. Reweighted-refl (k.task a);
    queue_same = λ q. SameQueue-refl (k.queue q);
  }

  module _ (t p : ℕ) (bound : p < max_priorities) where
    abbrev inheriting : Kernel
    inheriting = record k { task = update k.task t (record (k.task t) { inherited_priority = p }) }

    effective_bound : effective_priority (inheriting.task t) < max_priorities
    effective_bound = ground (arith, (i.tasks t).base_bound)

    Moved-TaskInv :
        (d : Delta)
        → Moved t (effective_priority (inheriting.task t)) inheriting d
        → (a : ℕ) → TaskInv (d.task a)
    Moved-TaskInv d moved a =
        let o = i.tasks a in
        record {
          base_bound = ground (arith, moved.task_same a, o.base_bound);
          inherited_bound = ground (arith, moved.task_same a, o.inherited_bound);
          effective = ground (arith, moved.task_same a, o.effective);
          listed_ready = λ h. ground (arith, moved.task_same a, o.listed_ready);
          delayed_blocked = λ h. ground (arith, moved.task_same a, o.delayed_blocked);
          waiting_blocked = λ e h. ground (arith, moved.task_same a, o.waiting_blocked e);
        }

    -- A new inherited priority takes effect at once.
    set_inherited_priority-Inherits : Inherits k low v t p (set_inherited_priority t p k)
    unfolding set_inherited_priority
    set_inherited_priority-Inherits =
        let k1 = inheriting in
        let f1 =
          ReadyFamily-frame k.task k1.task (λ a. (ground arith, λ h. ground arith)) i.ready in
        let w1 =
          EventParts-frame k.task k1.task (λ a. (ground arith, λ e h. ground arith)) i.waiting in
        let o = marked (k.task t) (i.tasks t) (s t) in
        let m : Marked (k1.task t) = record {
          ready_listed = λ h. ground (arith, o.ready_listed);
          listed_ready = λ h. ground (arith, o.listed_ready);
          waiting_blocked = λ e h. ground (arith, o.waiting_blocked e);
        } in
        let e = effective_priority (k1.task t) in
        let (d, run, moved) =
          set_effective_priority-Moved k1 t e v.ready v.waiting f1 w1 m effective_bound in
        (
          record {
            result = d;
            ready = moved.ready_tasks;
            waiting = moved.waiting_tasks;
            returns =
                and_then-done _ (config_assert-true {b = ltb p max_priorities} k (ground arith))
                ∙ run;
            inv = record {
              ready = moved.ready;
              delayed =
                  DelayParts-frame k.task d.task
                    (λ a.
                      (ground (arith, moved.task_same a), λ h. ground (arith, moved.task_same a)))
                    i.delayed;
              waiting = moved.waiting;
              tasks = Moved-TaskInv d moved;
            };
            tasks_same = λ a. changed-Reweighted k.task d.task t p e a (moved.task_same a);
            queue_same = moved.queue_same;
          },
          changed-Gives k.task d.task t p e moved.task_same,
        )

  inherit_bound :
      (t m : ℕ) (s : Source)
      → s.inherited_priority < max_priorities
      → (inherit_from k t m s).inherited_priority < max_priorities
  unfolding inherit_from inherit_from_waiter
  inherit_bound t m s bound = elim (Option-cases (k.queue m).receive_waiters.head) [
    | inl e ↦ ground arith
    | inr (w, e) ↦ (let p = priority_bound (k.task w) (i.tasks w) in ground arith)
  ]

  scan_bound :
      (t : ℕ) (ms : List ℕ) (s : Source)
      → s.inherited_priority < max_priorities
      → (scan_mutexes k t ms s).inherited_priority < max_priorities
  unfolding scan_mutexes
  scan_bound t [] s bound = bound
  scan_bound t (m ∷ ms) s bound = scan_bound t ms (inherit_from k t m s) (inherit_bound t m s bound)

  -- An event more in the trace changes nothing else.
  Inherits-traced :
      {t p : ℕ} {n m : Outcome (Unit {0})} (r : Inherits k low v t p n) (events : Trace)
      → m ≡ done tt (record (apply r.0.result k) { trace = events })
      → Inherits k low v t p m
  Inherits-traced (r, g) events e = (
    record {
      result = record r.result { trace = events };
      ready = r.ready;
      waiting = r.waiting;
      returns = e;
      inv = record {
        ready = r.inv.ready;
        delayed = r.inv.delayed;
        waiting = r.inv.waiting;
        tasks = r.inv.tasks;
      };
      tasks_same = r.tasks_same;
      queue_same = r.queue_same;
    },
    g,
  )

  -- `prvRecomputeInheritedPriority`
  pub recompute_inherited_priority-Inherits :
      (t : ℕ)
      → Inherits k low v t
          (scan_mutexes k t k.mutex_registry no_source).inherited_priority
          (recompute_inherited_priority t k)
  unfolding recompute_inherited_priority
  recompute_inherited_priority-Inherits t =
      let s = scan_mutexes k t k.mutex_registry no_source in
      let r =
        set_inherited_priority-Inherits t s.inherited_priority
          (scan_bound t k.mutex_registry no_source (ground arith)) in
      let k' = apply r.0.result k in
      let (events, e) =
        traced_if (ltb (k.task t).priority (k'.task t).priority) mutex_inherit (some t)
          s.source_waiter s.source_mutex (k'.task t).priority k' in
      Inherits-traced r events (and_then-done _ r.0.returns ∙ e)
