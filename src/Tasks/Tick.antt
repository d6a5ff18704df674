-- ===== src/Tasks/Tick.antt =====
-- The wake-up of `prvWakeExpiredTasks` of kernel/tasks.c: which tasks a tick makes ready.
use mini_free_rtos.Common.{
  ℕ, zero, suc, ◌<◌, ◌≡◌, inl, inr, refl, ◌∙◌, sym, subst, ap, Bool, true, false, List, [], ◌∷◌,
  arith, if◌then◌else◌, ◌==◌, delete, Bool-cases, ◌&&◌, length, delete-cons_self, ◌∈◌,
}
use mini_free_rtos.Word.{tick_reached}
use mini_free_rtos.Word.Order.{tick_reached_lem}
use mini_free_rtos.Dll.Segment.{IsDll}
use mini_free_rtos.Dll.Sorted.{Rising, Rising-mem}
use mini_free_rtos.Kernel.{Kernel, ready}
use mini_free_rtos.Kernel.Outcome.{M, Outcome, done, and_then-done, ◌>>◌}
use mini_free_rtos.Tasks.Wait.{wake_expired_task, wake_from, wake_loop, wake_expired_tasks}
use mini_free_rtos.Tasks.Delayed.{remaining}
use mini_free_rtos.Tasks.Invariant.{Inv, View, Settled}
use mini_free_rtos.Tasks.Expire.{Awake, wake_expired_task-Awake}

-- The tasks whose deadline is now.
abbrev pub due : Kernel → ℕ → Bool
due k a = (k.task a).in_delay_list && remaining k a == 0

-- The due tasks have become ready, and every other deadline is still ahead.
pub record Woken (k : Kernel) (r : Outcome (Unit {0})) : Type 0 where
  pub next : Kernel
  pub view : View
  pub returns : r ≡ done tt next
  pub inv : Inv next 1 view
  pub settled : Settled next
  pub tick_same : next.tick_count ≡ k.tick_count
  pub current_same : next.current_task ≡ k.current_task
  pub running_same : next.scheduler_running ≡ k.scheduler_running
  pub active_same : next.task_context_active ≡ k.task_context_active
  pub state : (a : ℕ) → (next.task a).state ≡ (if due k a then ready else (k.task a).state)
  pub in_delay :
      (a : ℕ) → (next.task a).in_delay_list ≡ (if due k a then false else (k.task a).in_delay_list)

-- When no task is due the loop has ended.
none_due-Woken :
    (k : Kernel) (low : ℕ) (v : View) → Inv k low v → Inv k 1 v → Settled k → Woken k (done tt k)
none_due-Woken k low v i above s =
    let d = above.delayed in
    let none_due : (a : ℕ) → due k a ≡ false = λ a. elim (Bool-cases (k.task a).in_delay_list) [
      | inl l ↦
          (let m = Rising-mem (remaining k) 1 a v.delayed d.rising (d.family.listed tt a (rw l)) in
            ground arith)
      | inr l ↦ rw l
    ] in
    record {
      next = k;
      view = v;
      returns = refl;
      inv = above;
      settled = s;
      tick_same = refl;
      current_same = refl;
      running_same = refl;
      active_same = refl;
      state = λ a. rw (none_due a);
      in_delay = λ a. rw (none_due a);
    }

-- The deadlines may all be ahead.
later-Inv : (k : Kernel) (v : View) → Rising (remaining k) 1 v.delayed → Inv k 0 v → Inv k 1 v
later-Inv k v r i = record {
  ready = i.ready;
  delayed = record {
    family = i.delayed.family;
    now = i.delayed.now;
    near = i.delayed.near;
    rising = r;
  };
  waiting = i.waiting;
  tasks = i.tasks;
}

-- The first round made `t` ready and the rest of the loop the others.
again-Woken :
    (k : Kernel) (v : View) (t : ℕ) (rest : M (Unit {0}))
    → due k t ≡ true
    → (w : Awake k 0 v t (wake_expired_task t k)) → Woken w.next (rest w.next)
    → Woken k ((wake_expired_task t >> rest) k)
again-Woken k v t rest is_due w r = record {
  next = r.next;
  view = r.view;
  returns = and_then-done (λ _. rest) w.returns ∙ r.returns;
  inv = r.inv;
  settled = r.settled;
  tick_same = r.tick_same ∙ w.tick_same;
  current_same = r.current_same ∙ w.current_same;
  running_same = r.running_same ∙ w.running_same;
  active_same = r.active_same ∙ w.active_same;
  state = λ a. ground (arith, r.state a, w.state a, w.in_delay a, w.wake_same a, w.tick_same);
  in_delay = λ a. ground (arith, r.in_delay a, w.in_delay a, w.wake_same a, w.tick_same);
}

-- The head of a list.
first :
    (k : Kernel) (v : View) (xs : List ℕ)
    → v.delayed ≡ xs
    → Inv k 0 v
    → IsDll k.delay_links k.delayed_list xs
first k v xs e i = subst (IsDll k.delay_links k.delayed_list) e (i.delayed.family.lists_of tt)

-- The fuel is enough when it is more than the delayed tasks.
wake_loop-Woken :
    (fuel : ℕ) (k : Kernel) (v : View) (D : List ℕ)
    → v.delayed ≡ D
    → Inv k 0 v
    → Settled k
    → length D < fuel
    → Woken k (wake_loop fuel k)
unfolding wake_loop
wake_loop-Woken zero k v D e i s enough = absurd (omega arith)
wake_loop-Woken (suc fuel) k v [] e i s enough =
    let later = later-Inv k v (subst (Rising (remaining k) 1) (sym e) tt) i in
    subst (λ h. Woken k (wake_from h (wake_loop fuel) k)) (sym (first k v [] e i).chain.0)
      (none_due-Woken k 0 v i later s)
wake_loop-Woken (suc fuel) k v (t ∷ D) e i s enough =
    let here : t ∈ v.delayed = rw e (ground arith) in
    let l : (k.task t).in_delay_list ≡ true =
      (let m = i.delayed.family.member tt t here in ground arith) in
    let (wake, near) = i.delayed.near t here in
    let (to, from) = tick_reached_lem k.tick_count (k.task t).wake_tick i.delayed.now wake near in
    let w = wake_expired_task-Awake k 0 v i s t l in
    let rest =
      wake_loop-Woken fuel w.next w.view D (w.delayed ∙ ap (delete t) e ∙ delete-cons_self t D)
        w.inv w.settled (omega arith) in
    subst (λ h. Woken k (wake_from h (wake_loop fuel) k)) (sym (first k v (t ∷ D) e i).chain.0)
      (elim (Bool-cases (tick_reached k.tick_count (k.task t).wake_tick)) [
        | inl reached ↦ rw reached (
            again-Woken k v t (wake_loop fuel)
              (let same = to reached in ground (arith, i.delayed.now, l)) w rest)
        | inr ahead ↦
            (let rising = subst (Rising (remaining k) 0) e i.delayed.rising in
              let later : Rising (remaining k) 1 (t ∷ D) =
                ((ground (arith, i.delayed.now, from)), rising.1) in
              rw ahead (
                none_due-Woken k 0 v i
                  (later-Inv k v (subst (Rising (remaining k) 1) (sym e) later) i) s))
      ])

-- From a state with the invariant in which no task is lost, `prvWakeExpiredTasks` returns, with
-- every delayed task whose deadline is the current tick ready and every other state of a task as
-- it was; the invariant holds, no task is lost, and the deadlines left are ahead.
pub wake_expired_tasks-Woken :
    (k : Kernel) (v : View) → Inv k 0 v → Settled k → Woken k (wake_expired_tasks k)
unfolding wake_expired_tasks
wake_expired_tasks-Woken k v i s =
    let count = (i.delayed.family.lists_of tt).count in
    wake_loop-Woken (suc k.delayed_list.length) k v v.delayed refl i s (omega arith)
