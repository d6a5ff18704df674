-- ===== src/Tasks/Ended.antt =====
-- `vTaskWaitEnded` of kernel/queue.c: whose inherited priority it recomputes, and to what.
use mathlib.Core.Bool.{false≢true}
use mini_free_rtos.Common.{
  ℕ, ◌≤◌, ◌≡◌, ◌⊎◌, inl, inr, refl, ap, sym, subst, ◌∙◌, Option, none, some, true, List, [], ◌∷◌,
  arith, ◌∈◌, Bool-cases, Option-cases,
}
use mini_free_rtos.Dll.Segment.{IsDll}
use mini_free_rtos.Kernel.{
  Kernel, QueueKind, WaitReason, idle_priority, receive_waiters, wait_mutex_take, wait_none,
  wait_queue_send, wait_queue_receive, wait_semaphore_take, mutex, queue_data, binary_semaphore,
  counting_semaphore,
}
use mini_free_rtos.Kernel.Outcome.{Outcome, done}
use mini_free_rtos.Tasks.Priority.{
  no_source, scan_mutexes, recompute_owner, wait_on_mutex_ended, wait_for_ended, wait_ended,
  is_mutex,
}
use mini_free_rtos.Tasks.Lists.{event_header}
use mini_free_rtos.Tasks.Invariant.{Inv, View, Listed}
use mini_free_rtos.Tasks.Greatest.{scan_mutexes-Greatest}
use mini_free_rtos.Tasks.Reweighs.{Reweighs, Inherits}
use mini_free_rtos.Tasks.Inherit.{kept-Reweighs, recompute_inherited_priority-Inherits}

-- The task `a` waits for the mutex `m`, which the task `o` owns.
pub record WaitsFor (k : Kernel) (v : View) (o m a : ℕ) : Type 0 where
  pub known : m ∈ k.mutex_registry
  pub owned : (k.queue m).owner ≡ some o
  pub waits : a ∈ v.waiting (receive_waiters m)

-- The greatest priority of the tasks that wait for a mutex of `o`, or the idle priority if none does.
pub record Lent (k : Kernel) (v : View) (o p : ℕ) : Type 0 where
  pub upper : (m a : ℕ) → WaitsFor k v o m a → (k.task a).priority ≤ p
  pub attained :
      (p ≡ idle_priority) ⊎ ((m : ℕ) × (a : ℕ) × WaitsFor k v o m a × ((k.task a).priority ≡ p))

-- The wait of the task `t` was for the mutex `m`, which the task `o` owns.
pub record Concerns (k : Kernel) (t m o : ℕ) : Type 0 where
  pub reason : (k.task t).wait_reason ≡ wait_mutex_take
  pub object : (k.task t).wait_object ≡ some m
  pub kind : (k.queue m).kind ≡ mutex
  pub owned : (k.queue m).owner ≡ some o

-- What the end of a wait of the task `t` does: the owner of the mutex inherits anew, or nothing
-- happens.
pub data WaitOver (k : Kernel) (low : ℕ) (v : View) (t : ℕ) (r : Outcome (Unit {0})) : Type 0 where
  concerned :
      (m o p : ℕ) → Concerns k t m o → Lent k v o p → Inherits k low v o p r → WaitOver k low v t r
  unconcerned : ((m o : ℕ) → ¬ Concerns k t m o) → r ≡ done tt k → WaitOver k low v t r

mutex_kind : (c : QueueKind) → is_mutex c ≡ true → c ≡ mutex
mutex_kind queue_data e = cc
mutex_kind binary_semaphore e = cc
mutex_kind counting_semaphore e = cc
mutex_kind mutex e = refl

module _ (k : Kernel) (low : ℕ) (v : View) (i : Inv k low v) where
  first-WaitsFor :
      (xs : List ℕ) (m w : ℕ)
      → IsDll k.event_links (event_header (receive_waiters m) k) xs
      → (k.queue m).receive_waiters.head ≡ some w
      → w ∈ xs
  first-WaitsFor [] m w d e = cc
  first-WaitsFor (x ∷ xs) m w d e = let top = d.chain.0 in ground arith

  scan_mutexes-Lent :
      (o : ℕ) → Lent k v o (scan_mutexes k o k.mutex_registry no_source).inherited_priority
  scan_mutexes-Lent o =
      let (g, all) = scan_mutexes-Greatest k low v i o in
      record {
        upper = λ m a w. all m a w.known w.owned w.waits;
        attained = elim g.attained [
          | inl e ↦ inl e
          | inr (m, w, here, lends, e) ↦ inr (
            m,
            w,
            record {
              known = here;
              owned = lends.owned;
              waits =
                  first-WaitsFor (v.waiting (receive_waiters m)) m w
                    (i.waiting.family.lists_of (receive_waiters m)) lends.first;
            },
            e,
          )
        ];
      }

  module _ (s : Listed k) (t : ℕ) where
    wait_on_mutex_ended-WaitOver :
        (object : Option ℕ)
        → (k.task t).wait_reason ≡ wait_mutex_take
        → (k.task t).wait_object ≡ object
        → WaitOver k low v t (wait_on_mutex_ended object k)
    unfolding wait_on_mutex_ended recompute_owner
    wait_on_mutex_ended-WaitOver none e h = unconcerned (λ m o c. (let f = c.object in cc)) refl
    wait_on_mutex_ended-WaitOver (some m) e h = elim (Bool-cases (is_mutex (k.queue m).kind)) [
      | inl is ↦ elim (Option-cases (k.queue m).owner) [
        | inl free ↦
            rw (is, free)
              (unconcerned
                (λ n o c.
                  (let f = c.object in
                    let g = c.owned in
                    let same : n ≡ m = ground arith in
                    let owned : (k.queue m).owner ≡ some o = rw (sym same) g in cc))
                refl)
        | inr (o, owned) ↦
            rw (is, owned)
              (concerned m o (scan_mutexes k o k.mutex_registry no_source).inherited_priority
                (record {
                  reason = e;
                  object = h;
                  kind = mutex_kind (k.queue m).kind is;
                  owned = owned;
                })
                (scan_mutexes-Lent o) (recompute_inherited_priority-Inherits k low v i s o))
      ]
      | inr other ↦ rw other (
          unconcerned
            (λ n o c.
              (let f = c.object in
                let g = c.kind in
                let same : n ≡ m = ground arith in
                let kind : (k.queue m).kind ≡ mutex = rw (sym same) g in
                false≢true (sym other ∙ ap is_mutex kind)))
            refl)
    ]

    wait_for_ended-WaitOver :
        (reason : WaitReason)
        → (k.task t).wait_reason ≡ reason
        → WaitOver k low v t (wait_for_ended reason (k.task t).wait_object k)
    unfolding wait_for_ended
    wait_for_ended-WaitOver wait_mutex_take e =
        wait_on_mutex_ended-WaitOver (k.task t).wait_object e refl
    wait_for_ended-WaitOver wait_none e = unconcerned (λ m o c. (let f = c.reason in cc)) refl
    wait_for_ended-WaitOver wait_queue_send e = unconcerned (λ m o c. (let f = c.reason in cc)) refl
    wait_for_ended-WaitOver wait_queue_receive e =
        unconcerned (λ m o c. (let f = c.reason in cc)) refl
    wait_for_ended-WaitOver wait_semaphore_take e =
        unconcerned (λ m o c. (let f = c.reason in cc)) refl

    -- From a state with the invariant in which every ready task is listed, `vTaskWaitEnded`
    -- returns. If the wait of the task was for a mutex that has an owner, the owner's inherited
    -- priority becomes the greatest priority of all tasks that wait for a mutex of that owner, or
    -- the idle priority if none does, and the invariant holds, by which its priority is the larger
    -- of that and its own. Then no other task's priority or inherited priority changes; no task's
    -- own priority, state, list marks, event list, deadline and reason to wait change; the queues
    -- change only in the headers of their event lists; and of the other variables only the ready
    -- lists, the links of the event lists, and the trace may change. If the wait was for something
    -- else, or the mutex has no owner, nothing changes.
    pub wait_ended-WaitOver : WaitOver k low v t (wait_ended t k)
    unfolding wait_ended
    wait_ended-WaitOver = wait_for_ended-WaitOver (k.task t).wait_reason refl

    WaitOver-Reweighs : (r : Outcome (Unit {0})) → WaitOver k low v t r → Reweighs k low v r
    WaitOver-Reweighs r (concerned m o p c l w) = w.0
    WaitOver-Reweighs r (unconcerned none_owns e) =
        subst (Reweighs k low v) (sym e) (kept-Reweighs k low v i s)

    pub wait_ended-Reweighs : Reweighs k low v (wait_ended t k)
    wait_ended-Reweighs = WaitOver-Reweighs (wait_ended t k) wait_ended-WaitOver
