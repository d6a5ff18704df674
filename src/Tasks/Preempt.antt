-- ===== src/Tasks/Preempt.antt =====
-- The tick interrupt, `vTaskTickISR` of kernel/tasks.c.
use mini_free_rtos.Common.{
  ℕ, ◌+◌, ◌≡◌, sym, subst, ap, ◌∙◌, true, false, not, List, [], ◌∷◌, arith, if◌then◌else◌, ◌==◌,
  ◌&&◌, ◌||◌, ◌∈◌, Bool-cases, inl, inr,
}
use mini_free_rtos.Word.{add32}
use mini_free_rtos.Dll.Sorted.{Rising, Rising-mem}
use mini_free_rtos.Kernel.{Kernel, ready}
use mini_free_rtos.Kernel.Outcome.{M, pure, and_then-done, ◌>>◌}
use mini_free_rtos.Tasks.Wait.{is_running, wake_expired_tasks}
use mini_free_rtos.Tasks.Schedule.{tick_isr, preempt_running, make_current_ready, yield_from_isr}
use mini_free_rtos.Tasks.Delayed.{remaining}
use mini_free_rtos.Tasks.Invariant.{Inv, View, Settled}
use mini_free_rtos.Tasks.Select.{Idle}
use mini_free_rtos.Tasks.Yield.{
  IsCurrent, running_unlisted, yielded, yielded_view, make_current_ready-yielded, yielded-Settled,
}
use mini_free_rtos.Tasks.Tick.{Woken, due, wake_expired_tasks-Woken}

-- Each deadline comes one tick nearer.
abbrev pub ticked : Kernel → Kernel
ticked k = record k { tick_count = add32 k.tick_count 1 }

ticked-remaining :
    (k : Kernel) (low : ℕ) (v : View)
    → Inv k (low + 1) v
    → (a : ℕ) → a ∈ v.delayed
    → remaining (ticked k) a + 1 ≡ remaining k a
ticked-remaining k low v i a m =
    let (wake, near) = i.delayed.near a m in
    let above = Rising-mem (remaining k) (low + 1) a v.delayed i.delayed.rising m in
    ground (arith, i.delayed.now)

-- An order by a number is one by the number less one.
Rising-pred :
    (key key' : ℕ → ℕ) (low : ℕ) (xs : List ℕ)
    → ((a : ℕ) → a ∈ xs → key' a + 1 ≡ key a)
    → Rising key (low + 1) xs
    → Rising key' low xs
Rising-pred key key' low [] same r = tt
Rising-pred key key' low (x ∷ xs) same r =
    let here = same x (ground arith) in
    (
      omega arith,
      Rising-pred key key' (key' x) xs (λ a i. same a (ground arith))
          (subst (λ n. Rising key n xs) (sym here) r.1),
    )

pub ticked-Inv : (k : Kernel) (v : View) → Inv k 1 v → Inv (ticked k) 0 v
ticked-Inv k v i = record {
  ready = i.ready;
  delayed = record {
    family = i.delayed.family;
    now = ground (arith, i.delayed.now);
    near = λ a m.
        (let same = ticked-remaining k 0 v i a m in
          let o = i.delayed.near a m in (o.0, omega arith));
    rising =
        Rising-pred (remaining k) (remaining (ticked k)) 0 v.delayed (ticked-remaining k 0 v i)
          i.delayed.rising;
  };
  waiting = i.waiting;
  tasks = i.tasks;
}

module _ (yield_task : ℕ → M (Unit {0})) (k : Kernel) (v : View) (i : Inv k 1 v)
    (s : Settled k) where
  woken : Woken (ticked k) (wake_expired_tasks (ticked k))
  woken = wake_expired_tasks-Woken (ticked k) v (ticked-Inv k v i) s

  -- A tick that ends a delay: the task had one tick left.
  due_one : (a : ℕ) → due (ticked k) a ≡ ((k.task a).in_delay_list && remaining k a == 1)
  due_one a = elim (Bool-cases (k.task a).in_delay_list) [
    | inl l ↦
        (let e = ticked-remaining k 0 v i a (i.delayed.family.listed tt a (rw l)) in ground arith)
    | inr l ↦ rw l
  ]

  -- From a state with the invariant, every deadline ahead and no task lost, while the scheduler
  -- does not run or no task's context is active, `vTaskTickISR` returns: it counts the tick and
  -- makes ready the tasks that had one tick left; no task is lost and the invariant holds.
  pub tick_isr-Woken :
      (not k.scheduler_running || not k.task_context_active) ≡ true
      → Woken (ticked k) (tick_isr yield_task k)
  unfolding tick_isr
  tick_isr-Woken quiet =
      let w = woken in
      let n = w.next in
      let stays : (not n.scheduler_running || not n.task_context_active) ≡ true =
        ground (arith, w.running_same, w.active_same) in
      record {
        next = n;
        view = w.view;
        returns =
            and_then-done _ w.returns
            ∙ ap (λ b. (if b then pure tt else preempt_running yield_task n.current_task) n) stays;
        inv = w.inv;
        settled = w.settled;
        tick_same = w.tick_same;
        current_same = w.current_same;
        running_same = w.running_same;
        active_same = w.active_same;
        state = w.state;
        in_delay = w.in_delay;
      }

  -- From a state with the invariant, every deadline ahead, no task lost, and a current task that
  -- runs in an active context, `vTaskTickISR` counts the tick, makes ready the tasks that had
  -- one tick left and the running task, changes no other state of a task, and gives the
  -- processor away; then no task runs, none is lost, the invariant holds, and every deadline
  -- left is ahead.
  pub tick_isr-preempts :
      (t : ℕ)
      → IsCurrent k t
      → k.scheduler_running ≡ true
      → k.task_context_active ≡ true
      → (k' : Kernel) × (v' : View) × (tick_isr yield_task k ≡ yield_from_isr yield_task t k')
        × Inv k' 1 v'
        × Settled k'
        × Idle k'
        × (k'.tick_count ≡ add32 k.tick_count 1)
        × ((a : ℕ)
            → (k'.task a).state ≡ (
                if a == t || ((k.task a).in_delay_list && remaining k a == 1)
                then ready
                else (k.task a).state))
  unfolding tick_isr preempt_running
  tick_isr-preempts t c on active =
      let w = woken in
      let n = w.next in
      let (_, undelayed, _) = running_unlisted k 1 v i t c in
      let c' : IsCurrent n t = record {
        current = w.current_same ∙ c.current;
        runs = ground (arith, w.state t, c.runs, undelayed);
      } in
      let goes : (not n.scheduler_running || not n.task_context_active) ≡ false =
        ground (arith, w.running_same, w.active_same) in
      let still : is_running (n.task t).state ≡ true = ground (arith, c'.runs) in
      let (run, i') = make_current_ready-yielded n 1 w.view w.inv t c' in
      let (s', idle) = yielded-Settled n 1 w.view w.inv t c' w.settled in
      (
        yielded n 1 w.view w.inv t c',
        yielded_view n 1 w.view w.inv t c',
        and_then-done _ w.returns
            ∙ ap (λ b. (if b then pure tt else preempt_running yield_task n.current_task) n) goes
            ∙ ap (λ o. preempt_running yield_task o n) c'.current
            ∙ ap
                (λ b.
                  (if b then (make_current_ready t >> yield_from_isr yield_task t) else pure tt) n)
                still
            ∙ and_then-done (λ _. yield_from_isr yield_task t) run,
        i',
        s',
        idle,
        w.tick_same,
        λ a. ground (arith, w.state a, due_one a),
      )
