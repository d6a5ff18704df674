-- ===== src/Tasks/Wake.antt =====
-- The common end of all wake-ups in kernel/tasks.c: a blocked task leaves its event list and becomes
-- ready.
use mini_free_rtos.Common.{
  ℕ, ◌≡◌, inl, inr, refl, ◌∙◌, subst, ap, none, some, Bool, false, List, [], ◌∷◌, ◌++◌, arith,
  if◌then◌else◌, update, ◌==◌, Option-cases,
}
use mini_free_rtos.Trace.{task_wake}
use mini_free_rtos.Kernel.{Kernel, EventList, ready}
use mini_free_rtos.Kernel.Outcome.{Outcome, done, and_then-done, ◌>>◌}
use mini_free_rtos.Port.{with_event, trace_record_lem}
use mini_free_rtos.Tasks.Lists.{event_list_remove}
use mini_free_rtos.Tasks.Priority.{wait_ended}
use mini_free_rtos.Tasks.Wait.{make_ready, leave_event_list, wait_reason_value}
use mini_free_rtos.Tasks.Ready.{
  ReadyFamily, ReadyFamily-frame, ready_inserted, ready_appended, ready_list_insert-append,
}
use mini_free_rtos.Tasks.Delayed.{DelayParts-frame}
use mini_free_rtos.Tasks.Waiting.{
  EventInv, EventParts-frame, event_removed, event_list_remove-delete,
}
use mini_free_rtos.Tasks.Invariant.{Inv, View, Listed}
use mini_free_rtos.Tasks.Delta.{Delta, apply, delta}
use mini_free_rtos.Tasks.Reweighs.{Reweighted}
use mini_free_rtos.Tasks.Ended.{wait_ended-Reweighs}

-- What `make_ready` leaves.
abbrev readied : Bool → ℕ → Kernel → Kernel
readied result t k = ready_inserted t (record k {
  task = update k.task t (record (k.task t) { wait_result = result; state = ready });
})

abbrev pub made_ready : Bool → ℕ → Kernel → Kernel
made_ready result t k =
    let r = readied result t k in
    with_event task_wake (some t) none (r.task t).wait_object
      (wait_reason_value (r.task t).wait_reason) r

module _ (k : Kernel) (low : ℕ) (v : View) (i : Inv k low v) (t : ℕ) where
  -- A task that stands in no list becomes ready.
  pub make_ready-made_ready :
      (result : Bool)
      → (k.task t).in_ready_list ≡ false
      → (k.task t).in_delay_list ≡ false
      → (k.task t).event_list ≡ none
      → (make_ready result t k ≡ done tt (made_ready result t k))
        × Inv (made_ready result t k) low (record v { ready = ready_appended t k v.ready })
  unfolding make_ready
  make_ready-made_ready result out undelayed unwaiting =
      let k1 : Kernel = record k {
        task = update k.task t (record (k.task t) { wait_result = result; state = ready });
      } in
      let k' = made_ready result t k in
      let f1 = ReadyFamily-frame k.task k1.task (λ a. (ground arith, λ h. ground arith)) i.ready in
      let (run, f) = ready_list_insert-append k1 t v.ready f1 (ground arith) in
      let same_list : ready_appended t k1 v.ready ≡ ready_appended t k v.ready =
        ap (λ p. update v.ready p (v.ready p ++ t ∷ [])) (ground arith) in
      (
        and_then-done _ run ∙ trace_record_lem task_wake (some t) none _ _ _,
        record {
          ready = subst (λ R. ReadyFamily k' R) same_list f;
          delayed =
              DelayParts-frame k.task k'.task (λ a. (ground arith, λ h. ground arith)) i.delayed;
          waiting =
              EventParts-frame k.task k'.task (λ a. (ground arith, λ e h. ground arith)) i.waiting;
          tasks = λ a.
              (let o = i.tasks a in
                record {
                  base_bound = ground (arith, o.base_bound);
                  inherited_bound = ground (arith, o.inherited_bound);
                  effective = ground (arith, o.effective);
                  listed_ready = λ h. ground (arith, o.listed_ready);
                  delayed_blocked = λ h. ground (arith, o.delayed_blocked);
                  waiting_blocked = λ e h. ground (arith, o.waiting_blocked e);
                });
        },
      )

-- The task has left the event list that it stood in, and priorities have followed.
pub record Left (k : Kernel) (low : ℕ) (v : View) (t : ℕ) (r : Outcome (Unit {0})) : Type 0 where
  pub result : Delta
  pub ready : ℕ → List ℕ
  pub waiting : EventList → List ℕ
  pub returns : r ≡ done tt (apply result k)
  pub inv : Inv (apply result k) low (record v { ready = ready; waiting = waiting })
  pub tasks_same :
      (a : ℕ)
      → Reweighted
          (if a == t then record (k.task t) { event_list = none } else k.task a)
          (result.task a)

module _ (k : Kernel) (low : ℕ) (v : View) (i : Inv k low v) (s : Listed k) (t : ℕ) where
  pub unlinked-Inv :
      (e : EventList)
      → (k.task t).event_list ≡ some e
      → (E : EventList → List ℕ) → EventInv (event_removed e t k) E
      → Inv (event_removed e t k) low (record v { waiting = E })
  unlinked-Inv e at_e E w =
      let k1 = event_removed e t k in
      record {
        ready = ReadyFamily-frame k.task k1.task (λ a. (ground arith, λ h. ground arith)) i.ready;
        delayed =
            DelayParts-frame k.task k1.task (λ a. (ground arith, λ h. ground arith)) i.delayed;
        waiting = w;
        tasks = λ a.
            (let o = i.tasks a in
              record {
                base_bound = ground (arith, o.base_bound);
                inherited_bound = ground (arith, o.inherited_bound);
                effective = ground (arith, o.effective);
                listed_ready = λ h. ground (arith, o.listed_ready);
                delayed_blocked = λ h. ground (arith, o.delayed_blocked);
                waiting_blocked = λ e h. ground (arith, o.waiting_blocked e);
              });
      }

  unlinked-Left :
      (e : EventList)
      → (k.task t).event_list ≡ some e
      → Left k low v t ((event_list_remove t >> wait_ended t) k)
  unlinked-Left e at_e =
      let (run, w) = event_list_remove-delete k t v.waiting i.waiting e at_e in
      let k1 = event_removed e t k in
      let r =
        wait_ended-Reweighs k1 low _ (unlinked-Inv e at_e _ w) (λ a h. let o = s a in ground arith)
          t in
      record {
        result = r.result;
        ready = r.ready;
        waiting = r.waiting;
        returns = and_then-done (λ _. wait_ended t) run ∙ r.returns;
        inv = r.inv;
        tasks_same = r.tasks_same;
      }

  -- A task that waits in no event list is left alone.
  unwaiting-Left : (k.task t).event_list ≡ none → Left k low v t (done tt k)
  unwaiting-Left out = record {
    result = delta k;
    ready = v.ready;
    waiting = v.waiting;
    returns = refl;
    inv = record { ready = i.ready; delayed = i.delayed; waiting = i.waiting; tasks = i.tasks };
    tasks_same = λ a. record {
      base_priority = ground arith;
      state = ground arith;
      in_ready_list = ground arith;
      in_delay_list = ground arith;
      event_list = ground arith;
      wake_tick = ground arith;
      wait_object = ground arith;
      wait_reason = ground arith;
    };
  }

  pub leave_event_list-Left : Left k low v t (leave_event_list t k)
  unfolding leave_event_list
  leave_event_list-Left = elim (Option-cases (k.task t).event_list) [
    | inl out ↦ rw out (unwaiting-Left out)
    | inr (e, at_e) ↦ rw at_e (unlinked-Left e at_e)
  ]
