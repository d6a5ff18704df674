-- ===== src/Tasks/Lists.antt =====
-- The list functions of kernel/tasks.c: ready lists by priority, the delayed list by wake tick, the
-- event lists of queues by priority.
use mini_free_rtos.Common.{ℕ, Option, none, some, Bool, true, false, not, ltb, leb, update}
use mini_free_rtos.Word.{tick_before}
use mini_free_rtos.Dll
use mini_free_rtos.Dll.{Header, Links, insert_tail, insert_sorted}
use mini_free_rtos.Trace.{task_ready}
use mini_free_rtos.Kernel.{Kernel, EventList, send_waiters, receive_waiters, Queue}
use mini_free_rtos.Kernel.Outcome.{
  M, done, halted, out_of_fuel, assertion_failed, kernel, modify, set_task, config_assert, ◌>>=◌,
  ◌>>◌,
}
use mini_free_rtos.Port.{trace_record}

-- `prvReadyListInsert`
unfoldable pub ready_list_insert : ℕ → M (Unit {0})
ready_list_insert t = do
  k ← kernel
  config_assert (not (k.task t).in_ready_list)
  let p = (k.task t).priority
  let d = insert_tail t (k.ready_links, k.ready_lists p)
  modify λ k. record k { ready_links = d.0; ready_lists = update k.ready_lists p d.1 }
  set_task t (λ c. record c { in_ready_list = true })
  trace_record task_ready (some t) none none p

-- `prvReadyListRemove`
unfoldable pub ready_list_remove : ℕ → M (Unit {0})
ready_list_remove t = do
  k ← kernel
  config_assert (k.task t).in_ready_list
  let p = (k.task t).priority
  let d = Dll.remove t (k.ready_links, k.ready_lists p)
  config_assert (ltb 0 (k.ready_lists p).length)
  modify λ k. record k { ready_links = d.0; ready_lists = update k.ready_lists p d.1 }
  set_task t (λ c. record c { in_ready_list = false })

-- What the search of an ordered insertion found, or a fault if its fuel ran out.
abbrev pub found : Option (Links × Header) → M (Links × Header)
found none k = halted out_of_fuel
found (some d) k = done d k

-- `prvDelayListInsert`
unfoldable pub delay_list_insert : ℕ → M (Unit {0})
delay_list_insert t = do
  k ← kernel
  config_assert (not (k.task t).in_delay_list)
  d ← found (
      insert_sorted (λ c. tick_before (k.task t).wake_tick (k.task c).wake_tick) t
        (k.delay_links, k.delayed_list))
  modify λ k. record k { delay_links = d.0; delayed_list = d.1 }
  set_task t (λ c. record c { in_delay_list = true })

-- `prvDelayListRemove`
unfoldable pub delay_list_remove : ℕ → M (Unit {0})
delay_list_remove t = do
  k ← kernel
  config_assert (k.task t).in_delay_list
  let d = Dll.remove t (k.delay_links, k.delayed_list)
  config_assert (ltb 0 k.delayed_list.length)
  modify λ k. record k { delay_links = d.0; delayed_list = d.1 }
  set_task t (λ c. record c { in_delay_list = false })

-- The header that a `TaskEventList_t *` points at, and a write to it.
abbrev pub waiters_of : EventList → (ℕ → Queue) → Header
waiters_of (send_waiters q) queue = (queue q).send_waiters
waiters_of (receive_waiters q) queue = (queue q).receive_waiters

abbrev pub event_header : EventList → Kernel → Header
event_header e k = waiters_of e k.queue

abbrev pub set_waiters : EventList → Header → (ℕ → Queue) → ℕ → Queue
set_waiters (send_waiters q) h queue = update queue q (record (queue q) { send_waiters = h })
set_waiters (receive_waiters q) h queue = update queue q (record (queue q) { receive_waiters = h })

abbrev pub set_event_header : EventList → Header → Kernel → Kernel
set_event_header e h k = record k { queue = set_waiters e h k.queue }

abbrev pub is_none : Option EventList → Bool
is_none none = true
is_none (some _) = false

-- `prvEventListInsert`
unfoldable pub event_list_insert : EventList → ℕ → M (Unit {0})
event_list_insert e t = do
  k ← kernel
  config_assert (is_none (k.task t).event_list)
  d ← found (
      insert_sorted (λ c. not (leb (k.task t).priority (k.task c).priority)) t
        (k.event_links, event_header e k))
  modify λ k. set_event_header e d.1 (record k { event_links = d.0 })
  set_task t (λ c. record c { event_list = some e })

event_list_unlink : EventList → ℕ → M (Unit {0})
event_list_unlink e t = do
  k ← kernel
  let d = Dll.remove t (k.event_links, event_header e k)
  config_assert (ltb 0 (event_header e k).length)
  modify λ k. set_event_header e d.1 (record k { event_links = d.0 })
  set_task t (λ c. record c { event_list = none })

-- `prvEventListRemove`
unfoldable pub event_list_remove : ℕ → M (Unit {0})
unfolding event_list_unlink
event_list_remove t = do
  k ← kernel
  elim (k.task t).event_list [
    | none ↦ (λ _. halted assertion_failed)
    | some e ↦ event_list_unlink e t
  ]

-- `vTaskEventListInit`
unfoldable pub event_list_init : EventList → M (Unit {0})
event_list_init e = modify (set_event_header e Dll.empty)
