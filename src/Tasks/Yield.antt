-- ===== src/Tasks/Yield.antt =====
-- `vTaskYield` of kernel/tasks.c, up to the moment when the processor is given away. The theorems
-- hold for every `yield_task`.
use mini_free_rtos.Common.{
  ℕ, ◌≡◌, refl, ap, ◌∙◌, Option, none, some, true, false, [], ◌∷◌, ◌++◌, arith, update, subst,
}
use mini_free_rtos.Kernel.{Kernel, EventList, running, ready}
use mini_free_rtos.Kernel.Outcome.{M, done, and_then-done, config_assert-true}
use mini_free_rtos.Tasks.Ready.{
  ReadyFamily, ready_inserted, ready_appended, ready_list_insert-append, ReadyFamily-frame,
}
use mini_free_rtos.Tasks.Delayed.{DelayParts-frame}
use mini_free_rtos.Tasks.Waiting.{EventParts-frame}
use mini_free_rtos.Tasks.Wait.{assert_task}
use mini_free_rtos.Tasks.Schedule.{make_current_ready, task_yield}
use mini_free_rtos.Tasks.Invariant.{Inv, View, Settled}
use mini_free_rtos.Tasks.Select.{Idle}

-- The running task stands in no list.
pub record IsCurrent (k : Kernel) (t : ℕ) : Type 0 where
  pub current : k.current_task ≡ some t
  pub runs : (k.task t).state ≡ running

module _ (k : Kernel) (low : ℕ) (v : View) (i : Inv k low v) (t : ℕ) (c : IsCurrent k t) where
  pub running_unlisted :
      ((k.task t).in_ready_list ≡ false)
      × ((k.task t).in_delay_list ≡ false)
      × ((k.task t).event_list ≡ none)
  running_unlisted =
      let o = i.tasks t in
      (
        ground (arith, o.listed_ready, c.runs),
        ground (arith, o.delayed_blocked, c.runs),
        waits_nowhere (k.task t).event_list refl,
      )
    where
      waits_nowhere : (e : Option EventList) → (k.task t).event_list ≡ e → e ≡ none
      waits_nowhere none h = refl
      waits_nowhere (some e) h =
          let b = (i.tasks t).waiting_blocked e h in absurd (ground (arith, c.runs))

  -- The state of `vTaskYield` when it calls the port.
  abbrev pub yielded : Kernel
  yielded =
      ready_inserted t (record k { task = update k.task t (record (k.task t) { state = ready }) })

  abbrev pub yielded_view : View
  yielded_view = record v { ready = ready_appended t k v.ready }

  pub make_current_ready-yielded :
      (make_current_ready t k ≡ done tt yielded) × Inv yielded low yielded_view
  unfolding make_current_ready
  make_current_ready-yielded =
      let (out, undelayed, unwaiting) = running_unlisted in
      let k1 : Kernel = record k { task = update k.task t (record (k.task t) { state = ready }) } in
      let f1 = ReadyFamily-frame k.task k1.task (λ a. (ground arith, λ h. ground arith)) i.ready in
      let (run, f) = ready_list_insert-append k1 t v.ready f1 (ground arith) in
      let same_list : ready_appended t k1 v.ready ≡ ready_appended t k v.ready =
        ap (λ p. update v.ready p (v.ready p ++ t ∷ [])) (ground arith) in
      (
        run,
        record {
          ready = subst (λ R. ReadyFamily yielded R) same_list f;
          delayed =
              DelayParts-frame k.task yielded.task (λ a. (ground arith, λ h. ground arith))
                i.delayed;
          waiting =
              EventParts-frame k.task yielded.task (λ a. (ground arith, λ e h. ground arith))
                i.waiting;
          tasks = λ a.
              (let o = i.tasks a in
                record {
                  base_bound = ground (arith, o.base_bound);
                  inherited_bound = ground (arith, o.inherited_bound);
                  effective = ground (arith, o.effective);
                  listed_ready = λ h. ground (arith, o.listed_ready);
                  delayed_blocked = λ h. ground (arith, o.delayed_blocked);
                  waiting_blocked = λ e h. ground (arith, o.waiting_blocked e);
                });
        },
      )

  pub yielded-Settled : Settled k → Settled yielded × Idle yielded
  yielded-Settled s = (
    λ a.
        (let o = s a in
          record {
            ready_listed = λ h. ground (arith, o.ready_listed);
            blocked_delayed = λ h. ground (arith, o.blocked_delayed);
            running_current = λ h. ground (arith, o.running_current);
          }),
    λ a h. ground (arith, (s a).running_current, c.current),
  )

  -- From a state with the invariant in which the scheduler runs, no task is lost and `t` is the
  -- running task, `vTaskYield` puts `t` behind the other ready tasks of its priority and gives
  -- the processor away; at that moment nobody runs, no task is lost, and the invariant holds.
  pub task_yield-yielded :
      (yield_task : ℕ → M (Unit {0}))
      → k.scheduler_running ≡ true
      → Settled k
      → (k' : Kernel) × (task_yield yield_task k ≡ yield_task t k')
        × Inv k' low yielded_view
        × Settled k'
        × Idle k'
  unfolding task_yield
  task_yield-yielded yield_task on s =
      let (run, i') = make_current_ready-yielded in
      let (s', idle) = yielded-Settled s in
      (
        yielded,
        and_then-done _ (config_assert-true k on)
            ∙ and_then-done _ (ap (λ o. assert_task o k) c.current)
            ∙ and_then-done _ run,
        i',
        s',
        idle,
      )
