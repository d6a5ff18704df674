-- ===== src/Tasks/Reprioritise.antt =====
-- `vTaskSetEffectivePriority` of kernel/tasks.c moves a task to the place that its new priority
-- wants, in the list where it stands.
use mini_free_rtos.Common.{
  ℕ, ◌<◌, ◌≡◌, ◌≢◌, inl, inr, refl, ◌∙◌, Option, none, some, true, false, List, arith,
  if◌then◌else◌, ltb, update, ◌==◌, Bool-cases,
}
use mini_free_rtos.Kernel.{
  Kernel, Tcb, EventList, TaskState, running, ready, blocked, suspended, deleted, invalid,
  max_priorities,
}
use mini_free_rtos.Kernel.Outcome.{done, and_then-done, config_assert-true, ◌>>◌}
use mini_free_rtos.Tasks.Lists.{
  ready_list_insert, ready_list_remove, event_list_insert, event_list_remove,
}
use mini_free_rtos.Tasks.Priority.{
  set_effective_priority, set_blocked_priority, set_priority, move_to_priority,
}
use mini_free_rtos.Tasks.Ready.{
  ReadyFamily, ready_removed, ready_deleted, ready_inserted, ready_appended,
  ready_list_insert-append, ready_list_remove-delete, ReadyFamily-frame,
}
use mini_free_rtos.Tasks.Waiting.{
  EventInv, EventParts-frame, event_list_remove-delete, event_list_insert-insert_by_priority,
  event_removed, event_inserted,
}
use mini_free_rtos.Tasks.Delta.{
  Delta, apply, delta, SameQueue, SameQueue-refl, SameQueue-trans, set_waiters-SameQueue,
}

-- Task `t` has priority `p`, no other task changes, and the lists stand for lists of tasks again.
pub record Moved (t p : ℕ) (k : Kernel) (d : Delta) : Type 0 where
  pub ready_tasks : ℕ → List ℕ
  pub waiting_tasks : EventList → List ℕ
  pub ready : ReadyFamily (apply d k) ready_tasks
  pub waiting : EventInv (apply d k) waiting_tasks
  pub task_same :
      (a : ℕ) → d.task a ≡ (if a == t then record (k.task t) { priority = p } else k.task a)
  pub queue_same : (q : ℕ) → SameQueue (k.queue q) (d.queue q)

-- The task's marks agree with its state.
pub record Marked (c : Tcb) : Type 0 where
  pub ready_listed : c.state ≡ TaskState.ready → c.in_ready_list ≡ true
  pub listed_ready : c.in_ready_list ≡ true → c.state ≡ TaskState.ready
  pub waiting_blocked : (e : EventList) → c.event_list ≡ some e → c.state ≡ blocked

module _ (k : Kernel) (t p : ℕ) (R : ℕ → List ℕ) (E : EventList → List ℕ) (f : ReadyFamily k R)
    (w : EventInv k E) (m : Marked (k.task t)) (bound : p < max_priorities) where
  -- A task that stands in no ready and no event list only changes its number.
  set_priority-Moved :
      (k.task t).in_ready_list ≡ false
      → (k.task t).event_list ≡ none
      → (d : Delta) × (set_priority t p k ≡ done tt (apply d k)) × Moved t p k d
  set_priority-Moved out free =
      let task' = update k.task t (record (k.task t) { priority = p }) in
      (
        record (delta k) { task = task' },
        refl,
        record {
          ready_tasks = R;
          waiting_tasks = E;
          ready = ReadyFamily-frame k.task task' (λ a. (ground arith, λ h. ground arith)) f;
          waiting = EventParts-frame k.task task' (λ a. (ground arith, λ e h. ground arith)) w;
          task_same = λ a. refl;
          queue_same = λ q. SameQueue-refl (k.queue q);
        },
      )

  ready-Moved :
      (k.task t).in_ready_list ≡ true
      → (d : Delta) × ((ready_list_remove t >> (set_priority t p >> ready_list_insert t)) k
          ≡ done tt (apply d k))
        × Moved t p k d
  ready-Moved l =
      let k1 = ready_removed t k in
      let k2 : Kernel = record k1 {
        task = update k1.task t (record (k1.task t) { priority = p });
      } in
      let k3 = ready_inserted t k2 in
      let (run1, f1) = ready_list_remove-delete k t R f l in
      let f2 = ReadyFamily-frame k1.task k2.task (λ a. (ground arith, λ h. ground arith)) f1 in
      let (run3, f3) = ready_list_insert-append k2 t (ready_deleted t k R) f2 (ground arith) in
      (
        delta k3,
        and_then-done (λ _. set_priority t p >> ready_list_insert t) run1 ∙ run3,
        record {
          ready_tasks = ready_appended t k2 (ready_deleted t k R);
          waiting_tasks = E;
          ready = f3;
          waiting =
              EventParts-frame k.task k3.task
                (λ a. (ground arith, λ e h. ground (arith, m.listed_ready, m.waiting_blocked e))) w;
          task_same = λ a. ground arith;
          queue_same = λ q. SameQueue-refl (k.queue q);
        },
      )

  waiting-Moved :
      (e : EventList)
      → (k.task t).event_list ≡ some e
      → (d : Delta) × ((event_list_remove t >> (set_priority t p >> event_list_insert e t)) k
          ≡ done tt (apply d k))
        × Moved t p k d
  waiting-Moved e at_e =
      let k1 = event_removed e t k in
      let k2 : Kernel = record k1 {
        task = update k1.task t (record (k1.task t) { priority = p });
      } in
      let (run1, w1) = event_list_remove-delete k t E w e at_e in
      let w2 = EventParts-frame k1.task k2.task (λ a. (ground arith, λ e h. ground arith)) w1 in
      let (d, run3, w3) =
        event_list_insert-insert_by_priority k2 t _ w2 e (ground arith) (ground arith) in
      let k3 = event_inserted e t d k2 in
      (
        delta k3,
        and_then-done (λ _. set_priority t p >> event_list_insert e t) run1 ∙ run3,
        record {
          ready_tasks = R;
          waiting_tasks = _;
          ready =
              ReadyFamily-frame k.task k3.task
                (λ a. (ground arith, λ h. ground (arith, m.listed_ready, m.waiting_blocked e))) f;
          waiting = w3;
          task_same = λ a. ground arith;
          queue_same = λ q.
              SameQueue-trans (set_waiters-SameQueue e _ k.queue q)
                (set_waiters-SameQueue e d.1 k1.queue q);
        },
      )

  -- A task that has the priority already is left alone.
  kept-Moved : (k.task t).priority ≡ p → Moved t p k (delta k)
  kept-Moved e = record {
    ready_tasks = R;
    waiting_tasks = E;
    ready = f;
    waiting = w;
    task_same = λ a. ground arith;
    queue_same = λ q. SameQueue-refl (k.queue q);
  }

  -- Neither ready nor waiting: no list to move in.
  free-Moved :
      (e : Option EventList)
      → (k.task t).event_list ≡ e
      → (k.task t).state ≢ ready
      → ((e' : EventList) → (k.task t).event_list ≢ some e')
      → (d : Delta) × (set_priority t p k ≡ done tt (apply d k)) × Moved t p k d
  free-Moved none h not_ready free =
      set_priority-Moved
        (elim (Bool-cases (k.task t).in_ready_list) [
          | inl l ↦ absurd (not_ready (m.listed_ready l))
          | inr o ↦ o
        ])
        h
  free-Moved (some e) h not_ready free = absurd (free e h)

  blocked-Moved :
      (e : Option EventList)
      → (k.task t).event_list ≡ e
      → (k.task t).state ≡ blocked
      → (d : Delta) × (set_blocked_priority t p e k ≡ done tt (apply d k)) × Moved t p k d
  unfolding set_blocked_priority
  blocked-Moved none h b = free-Moved none h (λ r. ground arith) (λ e' h'. cc)
  blocked-Moved (some e) h b = waiting-Moved e h

  move_to_priority-Moved :
      (state : TaskState)
      → (k.task t).state ≡ state
      → (d : Delta) × (move_to_priority t p state (k.task t).event_list k ≡ done tt (apply d k))
        × Moved t p k d
  unfolding move_to_priority
  move_to_priority-Moved ready s = ready-Moved (m.ready_listed s)
  move_to_priority-Moved blocked s = blocked-Moved (k.task t).event_list refl s
  move_to_priority-Moved running s =
      free-Moved _ refl (λ r. ground arith) (λ e h. let b = m.waiting_blocked e h in ground arith)
  move_to_priority-Moved suspended s =
      free-Moved _ refl (λ r. ground arith) (λ e h. let b = m.waiting_blocked e h in ground arith)
  move_to_priority-Moved deleted s =
      free-Moved _ refl (λ r. ground arith) (λ e h. let b = m.waiting_blocked e h in ground arith)
  move_to_priority-Moved invalid s =
      free-Moved _ refl (λ r. ground arith) (λ e h. let b = m.waiting_blocked e h in ground arith)

  -- When the ready and event lists stand for lists of tasks, the task's marks agree with its
  -- state and the priority is in range, `vTaskSetEffectivePriority` returns; it changes nothing
  -- but the priority of the task, the ready and event lists, which stand for lists of tasks in
  -- order again, and the trace.
  pub set_effective_priority-Moved :
      (d : Delta) × (set_effective_priority t p k ≡ done tt (apply d k)) × Moved t p k d
  unfolding set_effective_priority
  set_effective_priority-Moved = elim (Bool-cases ((k.task t).priority == p)) [
    | inl same ↦ (
      delta k,
      and_then-done _ (config_assert-true {b = ltb p max_priorities} k (ground arith))
          ∙ rw same refl,
      kept-Moved (ground arith),
    )
    | inr other ↦
        let (d, run, moved) = move_to_priority-Moved (k.task t).state refl in
        (
          d,
          and_then-done _ (config_assert-true {b = ltb p max_priorities} k (ground arith))
              ∙ rw other run,
          moved,
        )
  ]
