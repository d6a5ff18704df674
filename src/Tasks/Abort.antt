-- ===== src/Tasks/Abort.antt =====
-- `xTaskAbortDelay` of kernel/tasks.c.
use mini_free_rtos.Common.{
  ℕ, ◌+◌, ◌≡◌, refl, ap, sym, subst, ◌∙◌, inl, inr, some, Bool, true, false, not, arith,
  if◌then◌else◌, ◌==◌, ◌&&◌, ◌||◌, delete, Bool-cases,
}
use mini_free_rtos.Kernel.{Kernel, ready, blocked}
use mini_free_rtos.Kernel.Outcome.{
  M, Outcome, done, halted, pure, kernel, and_then, and_then-done, config_assert-true, ◌>>=◌, ◌>>◌,
}
use mini_free_rtos.Port.{enter_critical, exit_critical, exit_critical-enter}
use mini_free_rtos.Tasks.Outranks.{Answers, preempts-Answers}
use mini_free_rtos.Tasks.Lists.{delay_list_remove}
use mini_free_rtos.Tasks.Wait.{
  is_blocked, make_ready, leave_event_list, wake_expired_task, preempts,
}
use mini_free_rtos.Tasks.Schedule.{task_yield, abort_delay}
use mini_free_rtos.Tasks.Invariant.{Inv, View, Settled}
use mini_free_rtos.Tasks.Expire.{wake_expired_task-Awake}

-- Three steps and what follows them.
three_steps :
    {A : Type 0} (a b c : M (Unit {0})) (rest : M A) (k : Kernel)
    → (a >> (b >> (c >> rest))) k ≡ and_then ((a >> (b >> c)) k) (λ _. rest)
three_steps a b c rest k = first (a k)
  where
    second :
        (r : Outcome (Unit {0}))
        → and_then r (λ _. c >> rest) ≡ and_then (and_then r (λ _. c)) (λ _. rest)
    second (done tt k) = refl
    second (halted e) = refl

    first :
        (r : Outcome (Unit {0}))
        → and_then r (λ _. b >> (c >> rest)) ≡ and_then (and_then r (λ _. b >> c)) (λ _. rest)
    first (done tt k) = second (b k)
    first (halted e) = refl

module _ (yield_task : ℕ → M (Unit {0})) (k : Kernel) (low : ℕ) (v : View) (i : Inv k low v)
    (s : Settled k) (t : ℕ) where
  -- The task `t` is ready and its wait has failed; it has left its lists, and nobody else has
  -- changed state. Then the processor is given away if `t` outranks the running task.
  pub record Aborted (r : Outcome Bool) : Type 0 where
    pub next : Kernel
    pub view : View
    pub returns :
        r
        ≡ and_then
            ((if next.scheduler_running && preempts t next then task_yield yield_task else pure tt)
              next)
            (λ _. pure true)
    pub outranks : Answers next t (preempts t next)
    pub inv : Inv next low view
    pub settled : Settled next
    pub delayed : view.delayed ≡ delete t v.delayed
    pub state : (a : ℕ) → (next.task a).state ≡ (if a == t then ready else (k.task a).state)
    pub failed : (next.task t).wait_result ≡ false
    pub nesting_same : next.critical_nesting ≡ k.critical_nesting

  -- What comes of xTaskAbortDelay.
  pub data Abort : Outcome Bool → Type 0 where
    not_delayed : (k.task t).in_delay_list ≡ false → Abort (done false k)
    aborted : {r : Outcome Bool} → (k.task t).in_delay_list ≡ true → Aborted r → Abort r

  abbrev entered : Kernel
  entered = record k { critical_nesting = k.critical_nesting + 1 }

  abbrev give_away : Bool → M Bool
  give_away should_yield = do if should_yield then task_yield yield_task else pure tt; pure true

  abbrev finish : M Bool
  finish = do
    k' ← kernel
    let should_yield = k'.scheduler_running && preempts t k'
    exit_critical
    if should_yield then task_yield yield_task else pure tt
    pure true

  abbrev chosen : Bool → Outcome Bool
  chosen refused =
      (if refused
          then (do exit_critical; pure false)
          else delay_list_remove t >> (leave_event_list t >> (make_ready false t >> finish)))
        entered

  refused_lem : (k.task t).in_delay_list ≡ false → abort_delay yield_task (some t) k ≡ done false k
  unfolding abort_delay enter_critical
  refused_lem out =
      let refused : (not (is_blocked (k.task t).state) || not (k.task t).in_delay_list) ≡ true =
        ground arith in
      ap chosen refused
      ∙ and_then-done (λ _. pure false) (exit_critical-enter k.critical_nesting entered refl)

  delayed-Aborted : (k.task t).in_delay_list ≡ true → Aborted (abort_delay yield_task (some t) k)
  unfolding abort_delay enter_critical wake_expired_task preempts
  delayed-Aborted l =
      let was : (k.task t).state ≡ blocked = (i.tasks t).delayed_blocked l in
      let i1 : Inv entered low v = record {
        ready = i.ready;
        delayed = i.delayed;
        waiting = i.waiting;
        tasks = i.tasks;
      } in
      let s1 : Settled entered = s in
      let awake = wake_expired_task-Awake entered low v i1 s1 t l in
      let taken : (not (is_blocked (k.task t).state) || not (k.task t).in_delay_list) ≡ false =
        ground arith in
      let steps =
        sym (
          and_then-done (λ _. delay_list_remove t >> (leave_event_list t >> make_ready false t))
            (config_assert-true {b = is_blocked (k.task t).state} entered (ground arith)))
        ∙ awake.returns in
      let n = awake.next in
      let j = awake.inv in
      record {
        next = record n { critical_nesting = k.critical_nesting };
        view = awake.view;
        returns =
            ap chosen taken
            ∙ three_steps (delay_list_remove t) (leave_event_list t) (make_ready false t) finish
                entered
            ∙ ap (λ r. and_then r (λ _. finish)) steps
            ∙ and_then-done (λ _. give_away (n.scheduler_running && preempts t n))
                (exit_critical-enter k.critical_nesting n awake.critical_same);
        outranks = preempts-Answers t (record n { critical_nesting = k.critical_nesting });
        inv = record { ready = j.ready; delayed = j.delayed; waiting = j.waiting; tasks = j.tasks };
        settled = awake.settled;
        delayed = awake.delayed;
        state = awake.state;
        failed = awake.failed;
        nesting_same = refl;
      }

  -- When the invariant holds and no task is lost, `xTaskAbortDelay` of a task that is not in the
  -- delayed list returns pdFAIL and changes nothing. A task that is there leaves its lists, becomes
  -- ready, and is told that its wait failed; the invariant holds, no task is lost, and only then is
  -- the processor given away, if the scheduler runs and the current task runs at a lower priority.
  pub abort_delay-Abort : Abort (abort_delay yield_task (some t) k)
  abort_delay-Abort = elim (Bool-cases (k.task t).in_delay_list) [
    | inl l ↦ aborted l (delayed-Aborted l)
    | inr out ↦ subst Abort (sym (refused_lem out)) (not_delayed out)
  ]
