-- ===== src/Tasks/Unblock.antt =====
-- Waking the first waiter of an event list: `xTaskUnblockOne` of kernel/tasks.c.
use mini_free_rtos.Common.{
  ℕ, ◌≤◌, ◌≡◌, refl, subst, ap, ◌∙◌, some, true, false, List, [], ◌∷◌, arith, if◌then◌else◌, ◌==◌,
  ◌∈◌, delete,
}
use mini_free_rtos.Dll.Segment.{IsDll}
use mini_free_rtos.Dll.Falling.{Falling, Falling-mem}
use mini_free_rtos.Kernel.{Kernel, EventList, ready, max_priorities}
use mini_free_rtos.Kernel.Outcome.{done, pure, and_then-done, config_assert-true}
use mini_free_rtos.Tasks.Lists.{delay_list_remove, event_header}
use mini_free_rtos.Tasks.Wait.{leave_delay_list, unblock_one, unblock_first, preempts, is_blocked}
use mini_free_rtos.Tasks.Delayed.{delay_removed}
use mini_free_rtos.Tasks.Waiting.{event_removed, event_list_remove-delete, update_event_self}
use mini_free_rtos.Tasks.Invariant.{Inv, View, Settled}
use mini_free_rtos.Tasks.Wake.{unlinked-Inv, made_ready, make_ready-made_ready}
use mini_free_rtos.Tasks.Outranks.{Answers, preempts-Answers}
use mini_free_rtos.Tasks.Expire.{undelayed-Inv}

-- The first waiter `t` has been made ready with success; nobody else changes state.
pub record Unblocked (k : Kernel) (low : ℕ) (v : View) (e : EventList) (t : ℕ) : Type 0 where
  pub next : Kernel
  pub view : View
  pub returns : unblock_one e k ≡ done (preempts t next) next
  pub outranks : Answers next t (preempts t next)
  pub inv : Inv next low view
  pub settled : Settled next
  pub waiting : view.waiting e ≡ delete t (v.waiting e)
  pub delayed : view.delayed ≡ delete t v.delayed
  pub state : (a : ℕ) → (next.task a).state ≡ (if a == t then ready else (k.task a).state)
  pub succeeded : (next.task t).wait_result ≡ true
  pub current_same : next.current_task ≡ k.current_task

leave_delay_list-remove :
    (k : Kernel) (t : ℕ)
    → (k.task t).in_delay_list ≡ true
    → leave_delay_list t k ≡ delay_list_remove t k
unfolding leave_delay_list
leave_delay_list-remove k t l = ap (λ b. (if b then delay_list_remove t else pure tt) k) l

module _ (k : Kernel) (low : ℕ) (v : View) (i : Inv k low v) (s : Settled k) (e : EventList) where
  waiters : (xs : List ℕ) → v.waiting e ≡ xs → IsDll k.event_links (event_header e k) xs
  waiters xs h = subst (IsDll k.event_links (event_header e k)) h (i.waiting.family.lists_of e)

  -- Nobody waits: nothing happens.
  pub unblock_one-empty : v.waiting e ≡ [] → unblock_one e k ≡ done false k
  unfolding unblock_one unblock_first
  unblock_one-empty h = ap (λ o. unblock_first e o k) (waiters [] h).chain.0

  unblock_first-Unblocked :
      (t : ℕ)
      → (k.task t).event_list ≡ some e
      → unblock_one e k ≡ unblock_first e (some t) k
      → Unblocked k low v e t
  unfolding unblock_first
  unblock_first-Unblocked t at_e starts =
      let was = (i.tasks t).waiting_blocked e at_e in
      let (run1, w1) = event_list_remove-delete k t v.waiting i.waiting e at_e in
      let k1 = event_removed e t k in
      let i1 = unlinked-Inv k low v i (λ a. (s a).ready_listed) t e at_e _ w1 in
      let s1 : Settled k1 = λ a.
        (let o = s a in
          record {
            ready_listed = λ h. ground (arith, o.ready_listed);
            blocked_delayed = λ h. ground (arith, o.blocked_delayed);
            running_current = λ h. ground (arith, o.running_current);
          }) in
      let l : (k1.task t).in_delay_list ≡ true = ground (arith, (s t).blocked_delayed was) in
      let (run2, i2) = undelayed-Inv k1 low _ i1 s1 t l in
      let k2 = delay_removed t k1 in
      let (run3, i3) =
        make_ready-made_ready k2 low _ i2 t true (ground (arith, (i.tasks t).listed_ready))
          (ground arith) (ground arith) in
      let k3 = made_ready true t k2 in
      record {
        next = k3;
        view = _;
        returns =
            starts
            ∙ and_then-done _
                (config_assert-true {b = is_blocked (k.task t).state} k (ground arith))
            ∙ and_then-done _ run1
            ∙ and_then-done _ (leave_delay_list-remove k1 t l ∙ run2)
            ∙ and_then-done _ run3;
        outranks = preempts-Answers t k3;
        inv = i3;
        settled = λ a.
            (let o = s a in
              record {
                ready_listed = λ h. ground (arith, o.ready_listed);
                blocked_delayed = λ h. ground (arith, o.blocked_delayed);
                running_current = λ h. ground (arith, o.running_current);
              });
        waiting = update_event_self v.waiting e _;
        delayed = refl;
        state = λ a. ground arith;
        succeeded = ground arith;
        current_same = refl;
      }

  -- From a state with the invariant in which no task is lost, `xTaskUnblockOne` of an event list
  -- with waiters makes the first of them ready, its wait a success, takes it off both lists, and
  -- returns whether the current task runs at a lower priority; no waiter has a higher priority than
  -- it, no task is lost, and the invariant holds.
  pub unblock_one-Unblocked :
      (t : ℕ) (ts : List ℕ)
      → v.waiting e ≡ t ∷ ts
      → Unblocked k low v e t
        × ((a : ℕ) → a ∈ v.waiting e → (k.task a).priority ≤ (k.task t).priority)
  unfolding unblock_one
  unblock_one-Unblocked t ts h =
      let here : t ∈ v.waiting e = rw h (ground arith) in
      let order =
        subst (Falling (λ a. (k.task a).priority) max_priorities) h (i.waiting.falling e) in
      (
        unblock_first-Unblocked t (i.waiting.family.member e t here)
            (ap (λ o. unblock_first e o k) (waiters (t ∷ ts) h).chain.0),
        λ a m. ground (
          arith,
          Falling-mem (λ a. (k.task a).priority) (k.task t).priority a ts order.1,
          subst (λ xs. a ∈ xs) h m,
        ),
      )
