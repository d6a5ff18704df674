-- ===== src/Tasks/Priority.antt =====
-- Effective and inherited priorities: `vTaskSetEffectivePriority` and its callers in kernel/tasks.c,
-- and the recomputation over the held mutexes in kernel/queue.c.
use mini_free_rtos.Common.{
  ℕ, Option, none, some, Bool, true, false, ltb, ◌==◌, if◌then◌else◌, List, [], ◌∷◌,
}
use mini_free_rtos.Trace.{mutex_inherit}
use mini_free_rtos.Kernel.{
  Kernel, Tcb, EventList, QueueKind, TaskState, WaitReason, max_priorities, idle_priority, ready,
  blocked, wait_mutex_take, mutex,
}
use mini_free_rtos.Kernel.Outcome.{
  M, pure, kernel, set_task, config_assert, halted, assertion_failed, ◌>>=◌, ◌>>◌,
}
use mini_free_rtos.Port.{trace_record, enter_critical, exit_critical}
use mini_free_rtos.Tasks.Lists.{
  ready_list_insert, ready_list_remove, event_list_insert, event_list_remove,
}

-- `task->priority = priority`
abbrev pub set_priority : ℕ → ℕ → M (Unit {0})
set_priority t p = set_task t (λ c. record c { priority = p })

-- A blocked task waits in an event list or in none.
unfoldable pub set_blocked_priority : ℕ → ℕ → Option EventList → M (Unit {0})
set_blocked_priority t p none = set_priority t p
set_blocked_priority t p (some e) = do event_list_remove t; set_priority t p; event_list_insert e t

-- The rest of `vTaskSetEffectivePriority`, by the task's state and event list.
unfoldable pub move_to_priority : ℕ → ℕ → TaskState → Option EventList → M (Unit {0})
unfolding set_blocked_priority
move_to_priority t p ready e = do ready_list_remove t; set_priority t p; ready_list_insert t
move_to_priority t p blocked e = set_blocked_priority t p e
move_to_priority t p _ e = set_priority t p

-- `vTaskSetEffectivePriority`
unfoldable pub set_effective_priority : ℕ → ℕ → M (Unit {0})
unfolding move_to_priority
set_effective_priority t p = do
  config_assert (ltb p max_priorities)
  k ← kernel
  if (k.task t).priority == p
      then pure tt
      else move_to_priority t p (k.task t).state (k.task t).event_list

-- The larger of a task's own and its inherited priority.
abbrev pub effective_priority : Tcb → ℕ
effective_priority c =
    if ltb c.base_priority c.inherited_priority then c.inherited_priority else c.base_priority

-- `vTaskSetInheritedPriority`
unfoldable pub set_inherited_priority : ℕ → ℕ → M (Unit {0})
set_inherited_priority t p = do
  config_assert (ltb p max_priorities)
  set_task t (λ c. record c { inherited_priority = p })
  k ← kernel
  set_effective_priority t (effective_priority (k.task t))

-- The local variables of `prvRecomputeInheritedPriority`.
pub record Source : Type 0 where
  pub inherited_priority : ℕ
  pub source_mutex : Option ℕ
  pub source_waiter : Option ℕ

abbrev pub no_source : Source
no_source = record { inherited_priority = idle_priority; source_mutex = none; source_waiter = none }

abbrev pub is_task : ℕ → Option ℕ → Bool
is_task t none = false
is_task t (some o) = o == t

unfoldable pub inherit_from_waiter : Kernel → ℕ → Option ℕ → Source → Source
inherit_from_waiter k m none s = s
inherit_from_waiter k m (some w) s =
    if ltb s.inherited_priority (k.task w).priority
    then record {
      inherited_priority = (k.task w).priority;
      source_mutex = some m;
      source_waiter = some w;
    }
    else s

-- One round of the loop over the mutexes.
unfoldable pub inherit_from : Kernel → ℕ → ℕ → Source → Source
unfolding inherit_from_waiter
inherit_from k t m s =
    if is_task t (k.queue m).owner
    then inherit_from_waiter k m (k.queue m).receive_waiters.head s
    else s

unfoldable pub scan_mutexes : Kernel → ℕ → List ℕ → Source → Source
unfolding inherit_from
scan_mutexes k t [] s = s
scan_mutexes k t (m ∷ ms) s = scan_mutexes k t ms (inherit_from k t m s)

-- `prvRecomputeInheritedPriority` of a task that is not NULL.
unfoldable pub recompute_inherited_priority : ℕ → M (Unit {0})
recompute_inherited_priority t = do
  k ← kernel
  let previous_priority = (k.task t).priority
  let s = scan_mutexes k t k.mutex_registry no_source
  set_inherited_priority t s.inherited_priority
  k' ← kernel
  if ltb previous_priority (k'.task t).priority
      then trace_record mutex_inherit (some t) s.source_waiter s.source_mutex (k'.task t).priority
      else pure tt

owns : Kernel → ℕ → List ℕ → Bool
owns k t [] = false
owns k t (m ∷ ms) = let rest = owns k t ms in if is_task t (k.queue m).owner then true else rest

-- `xTaskOwnsMutex` of a task that is not NULL.
unfoldable pub owns_mutex : ℕ → Kernel → Bool
unfolding owns
owns_mutex t k = owns k t k.mutex_registry

abbrev pub is_mutex : QueueKind → Bool
is_mutex mutex = true
is_mutex _ = false

unfoldable pub recompute_owner : Option ℕ → M (Unit {0})
recompute_owner none = pure tt
recompute_owner (some o) = recompute_inherited_priority o

unfoldable pub wait_on_mutex_ended : Option ℕ → M (Unit {0})
unfolding recompute_owner
wait_on_mutex_ended none = pure tt
wait_on_mutex_ended (some m) = do
  k ← kernel
  if is_mutex (k.queue m).kind then recompute_owner (k.queue m).owner else pure tt

-- Only the end of a wait for a mutex concerns its owner.
unfoldable pub wait_for_ended : WaitReason → Option ℕ → M (Unit {0})
unfolding wait_on_mutex_ended
wait_for_ended wait_mutex_take wait_object = wait_on_mutex_ended wait_object
wait_for_ended _ wait_object = pure tt

-- `vTaskWaitEnded`
unfoldable pub wait_ended : ℕ → M (Unit {0})
unfolding wait_for_ended
wait_ended t = do k ← kernel; wait_for_ended (k.task t).wait_reason (k.task t).wait_object

-- `(task != NULL) ? task : current_task`
abbrev pub selected : Option ℕ → Kernel → Option ℕ
selected none k = k.current_task
selected (some t) k = some t

-- `vTaskPrioritySet` of the task that the handle selects.
unfoldable pub priority_set : Option ℕ → ℕ → M (Unit {0})
priority_set handle p = do
  k ← kernel
  elim (selected handle k) [
    | none ↦ (λ _. halted assertion_failed)
    | some t ↦ (do
      config_assert (ltb p max_priorities)
      enter_critical
      set_task t (λ c. record c { base_priority = p })
      k' ← kernel
      set_effective_priority t (effective_priority (k'.task t))
      exit_critical)
  ]

-- `uxTaskPriorityGet`
unfoldable pub priority_get : Option ℕ → M ℕ
priority_get handle k = elim (selected handle k) [
  | none ↦ halted assertion_failed
  | some t ↦ pure (k.task t).priority k
]
