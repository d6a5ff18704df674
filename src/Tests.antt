-- ===== src/Tests.antt =====
-- The theorems on concrete states of the kernel.
pub mod Heaps
pub mod Timing
pub mod Messages
pub mod Commands
pub mod Ports
use mini_free_rtos.Common.{
  ℕ, ◌+◌, ◌<◌, ◌≤◌, ◌≡◌, refl, none, some, true, false, not, List, [], ◌∷◌, arith, update, ◌∈◌,
  ◌&&◌, ◌||◌, ◌==◌, if◌then◌else◌, ltb, ◌%◌,
}
use mini_free_rtos.Word.{sub32, tick_before, tick_reached}
use mini_free_rtos.Word.Order.{tick_before_lem, tick_reached_lem}
use mini_free_rtos.Dll.{Links, Header, insert_sorted}
use mini_free_rtos.Trace.{task_ready, task_switch, initial}
use mini_free_rtos.Trace.Ring.{log}
use mini_free_rtos.Trace.Refine.{
  Call, run, log_run, run-log, records, reads, IsNumbered, run-IsNumbered, initial-IsValid,
}
use mini_free_rtos.Dll
use mini_free_rtos.Dll.Segment.{IsDll}
use mini_free_rtos.Dll.Refine.{Untouched, remove-delete}
use mini_free_rtos.Dll.Sorted.{insert_sorted-insert_by}
use mini_free_rtos.Kernel.{Kernel, receive_waiters, ready, wait_mutex_take}
use mini_free_rtos.Kernel.Outcome.{M, done, pure, and_then}
use mini_free_rtos.Tasks.Priority.{wait_ended, set_effective_priority}
use mini_free_rtos.Tasks.Wait.{clear_wait_state, block_current, wake_expired_tasks}
use mini_free_rtos.Tasks.Schedule.{
  abort_delay, switch_context, task_yield, task_delay, tick_isr, yield_from_isr,
}
use mini_free_rtos.Tasks.Delayed.{remaining}
use mini_free_rtos.Tasks.Invariant.{Inv, View, Settled}
use mini_free_rtos.Tasks.Select.{Idle, Switched, switch_context-Switched}
use mini_free_rtos.Tasks.Yield.{task_yield-yielded, yielded_view}
use mini_free_rtos.Tasks.Delay.{task_delay-delayed}
use mini_free_rtos.Tasks.Delta.{Delta, apply}
use mini_free_rtos.Tasks.Reprioritise.{Moved, Marked, set_effective_priority-Moved}
use mini_free_rtos.Tasks.Inherit.{marked}
use mini_free_rtos.Tasks.Ended.{WaitOver, wait_ended-WaitOver}
use mini_free_rtos.Tasks.Tick.{Woken, wake_expired_tasks-Woken}
use mini_free_rtos.Tasks.Preempt.{ticked, ticked-Inv, tick_isr-Woken, tick_isr-preempts}
use mini_free_rtos.Tasks.Unblock.{Unblocked, unblock_one-Unblocked}
use mini_free_rtos.Tasks.Block.{Blocked, block_current-Blocked}
use mini_free_rtos.Tasks.Abort.{Abort, abort_delay-Abort}
use mini_free_rtos.Tasks.Name.{copy_name, Copied, copy_name-Copied}
use mini_free_rtos.Heap.{
  align_up, align_up_lem, byte_alignment, Apart, requests, requests-Apart, fresh, fresh-IsValid,
}
use mini_free_rtos.Tasks.Greatest.{Greatest, scan_mutexes-Greatest}
use mini_free_rtos.Tasks.Priority.{scan_mutexes, no_source}
use mini_free_rtos.Scenario.{starting, starting-Inv, starting-Settled, starting-IsCurrent, nobody}

-- A port whose other tasks do nothing.
abbrev returning : ℕ → M (Unit {0})
returning t = pure tt

abbrev system : Kernel
system = starting false

abbrev after_yield : View
after_yield = yielded_view system 1 nobody (starting-Inv false 1) 1 (starting-IsCurrent false)

task_yield-yielded_example :
    (k' : Kernel) × (task_yield returning system ≡ returning 1 k')
    × Inv k' 1 after_yield
    × Settled k'
    × Idle k'
task_yield-yielded_example =
    task_yield-yielded system 1 nobody (starting-Inv false 1) 1 (starting-IsCurrent false) returning
      refl (starting-Settled false)

-- The only task has yielded.
waiting_system :
    (k' : Kernel) × (task_yield returning system ≡ returning 1 k')
    × Inv k' 1 after_yield
    × Settled k'
    × Idle k'
waiting_system =
    task_yield-yielded system 1 nobody (starting-Inv false 1) 1 (starting-IsCurrent false) returning
      refl (starting-Settled false)

switch_context-Switched_example :
    Switched waiting_system.0 1 after_yield (switch_context waiting_system.0)
switch_context-Switched_example =
    switch_context-Switched waiting_system.0 1 after_yield waiting_system.2 waiting_system.3
      waiting_system.4

-- The view when task 1 has gone to sleep.
abbrev asleep : View
asleep = record nobody { delayed = 1 ∷ [] }

task_delay-delayed_example :
    (k' : Kernel) × (task_delay returning 1 system
      ≡ and_then (returning 1 k') (λ _. clear_wait_state 1))
    × Inv k' 1 asleep
    × Settled k'
    × Idle k'
    × (remaining k' 1 ≡ 1)
    × (k'.critical_nesting ≡ 0)
    × (k'.task_context_active ≡ false)
task_delay-delayed_example =
    task_delay-delayed system 1 nobody (starting-Inv false 1) 1 (starting-IsCurrent false) 1
      (omega arith) (omega arith) returning refl (starting-Settled false) (omega arith)

-- Task 1 has called vTaskDelay(1).
sleeping_system :
    (k' : Kernel) × (task_delay returning 1 system
      ≡ and_then (returning 1 k') (λ _. clear_wait_state 1))
    × Inv k' 1 asleep
    × Settled k'
    × Idle k'
    × (remaining k' 1 ≡ 1)
    × (k'.critical_nesting ≡ 0)
    × (k'.task_context_active ≡ false)
sleeping_system =
    task_delay-delayed system 1 nobody (starting-Inv false 1) 1 (starting-IsCurrent false) 1
      (omega arith) (omega arith) returning refl (starting-Settled false) (omega arith)

wake_expired_tasks-Woken_example :
    Woken (ticked sleeping_system.0) (wake_expired_tasks (ticked sleeping_system.0))
wake_expired_tasks-Woken_example =
    wake_expired_tasks-Woken (ticked sleeping_system.0) asleep
      (ticked-Inv sleeping_system.0 asleep sleeping_system.2) sleeping_system.3

no_context :
    (not sleeping_system.0.scheduler_running || not sleeping_system.0.task_context_active) ≡ true
no_context = let e = sleeping_system.7 in ground arith

tick_isr-Woken_example : Woken (ticked sleeping_system.0) (tick_isr returning sleeping_system.0)
tick_isr-Woken_example =
    tick_isr-Woken returning sleeping_system.0 asleep sleeping_system.2 sleeping_system.3 no_context

tick_isr-preempts_example :
    (k' : Kernel) × (v' : View) × (tick_isr returning (starting true)
      ≡ yield_from_isr returning 1 k')
    × Inv k' 1 v'
    × Settled k'
    × Idle k'
    × (k'.tick_count ≡ 4294967295)
    × ((a : ℕ)
        → (k'.task a).state ≡ (
            if a == 1
              || (((starting true).task a).in_delay_list && remaining (starting true) a == 1)
            then ready
            else ((starting true).task a).state))
tick_isr-preempts_example =
    tick_isr-preempts returning (starting true) nobody (starting-Inv true 1) (starting-Settled true)
      1 (starting-IsCurrent true) refl refl

block_current-Blocked_example :
    (next : Kernel) × (block_current (receive_waiters 7) (some 7) wait_mutex_take 5 system
      ≡ done tt next)
    × Blocked system 1 nobody (receive_waiters 7) 5 1 next
block_current-Blocked_example =
    block_current-Blocked system 1 nobody (starting-Inv false 1) (starting-Settled false) 1
      (starting-IsCurrent false) (receive_waiters 7) (some 7) wait_mutex_take 5 refl (omega arith)
      (omega arith) (omega arith)

-- Task 1 waits for the mutex.
blocked_system :
    (next : Kernel) × (block_current (receive_waiters 7) (some 7) wait_mutex_take 5 system
      ≡ done tt next)
    × Blocked system 1 nobody (receive_waiters 7) 5 1 next
blocked_system =
    block_current-Blocked system 1 nobody (starting-Inv false 1) (starting-Settled false) 1
      (starting-IsCurrent false) (receive_waiters 7) (some 7) wait_mutex_take 5 refl (omega arith)
      (omega arith) (omega arith)

abbrev after_block : View
after_block = blocked_system.2.view

unblock_one-Unblocked_example :
    Unblocked blocked_system.0 1 after_block (receive_waiters 7) 1
    × ((a : ℕ)
        → a ∈ after_block.waiting (receive_waiters 7)
        → (blocked_system.0.task a).priority ≤ (blocked_system.0.task 1).priority)
unblock_one-Unblocked_example =
    unblock_one-Unblocked blocked_system.0 1 after_block blocked_system.2.inv
      blocked_system.2.settled (receive_waiters 7) 1 [] blocked_system.2.waiting

wait_ended-WaitOver_example :
    WaitOver blocked_system.0 1 after_block 1 (wait_ended 1 blocked_system.0)
wait_ended-WaitOver_example =
    wait_ended-WaitOver blocked_system.0 1 after_block blocked_system.2.inv
      (λ a. (blocked_system.2.settled a).ready_listed) 1

-- The marks of the task that waits.
waiting_marks : Marked (blocked_system.0.task 1)
waiting_marks =
    marked (blocked_system.0.task 1) (blocked_system.2.inv.tasks 1)
      (blocked_system.2.settled 1).ready_listed

set_effective_priority-Moved_example :
    (d : Delta) × (set_effective_priority 1 5 blocked_system.0 ≡ done tt (apply d blocked_system.0))
    × Moved 1 5 blocked_system.0 d
set_effective_priority-Moved_example =
    set_effective_priority-Moved blocked_system.0 1 5 after_block.ready after_block.waiting
      blocked_system.2.inv.ready blocked_system.2.inv.waiting waiting_marks (omega arith)

-- A history that reads more than it records.
abbrev history : List Call
history =
    records task_ready (some 1) none none 2 0
    ∷ reads
    ∷ reads
    ∷ records task_switch (some 1) none none 2 1
    ∷ []

run-log_example : (let (es, u) = run initial history in (es, log u)) ≡ log_run (log initial) history
run-log_example = run-log history initial initial-IsValid

run-IsNumbered_example : IsNumbered (log (run initial history).1)
run-IsNumbered_example = run-IsNumbered history

tick_before_lem_example :
    tick_before 4294967295 1 ≡ ltb (sub32 4294967295 4294967290) (sub32 1 4294967290)
tick_before_lem_example =
    tick_before_lem 4294967290 4294967295 1 (omega arith) (omega arith) (omega arith) (omega arith)
      (omega arith)

tick_reached_lem_example :
    (tick_reached 1 1 ≡ true → ◌≡◌ {A = ℕ} 1 1) × (◌≡◌ {A = ℕ} 1 1 → tick_reached 1 1 ≡ true)
tick_reached_lem_example = tick_reached_lem 1 1 (omega arith) (omega arith) (omega arith)

-- A list of one task.
abbrev lone_list : Header
lone_list = record { head = some 5; tail = some 5; length = 1 }

abbrev lone_links : Links
lone_links = record { previous = λ _. none; next = λ _. none }

lone-IsDll : IsDll lone_links lone_list (5 ∷ [])
lone-IsDll = record { chain = (refl, refl, (refl, refl)); count = refl; distinct = (refl, tt) }

insert_sorted-insert_by_example :
    (d : Links × Header) × (insert_sorted (λ c. ltb 4 c) 4 (lone_links, lone_list) ≡ some d)
    × IsDll d.0 d.1 (4 ∷ 5 ∷ [])
    × Untouched 4 (5 ∷ []) lone_links d.0
insert_sorted-insert_by_example =
    insert_sorted-insert_by (λ c. ltb 4 c) lone_links lone_list 4 (5 ∷ []) lone-IsDll refl

remove-delete_example :
    let (l', h') = Dll.remove 5 (lone_links, lone_list) in
    IsDll l' h' [] × Untouched 5 [] lone_links l'
remove-delete_example = remove-delete lone_links lone_list 5 [] [] lone-IsDll

requests-Apart_example : Apart 0 (requests fresh (5 ∷ 0 ∷ 2000000 ∷ 16 ∷ []))
requests-Apart_example = requests-Apart (5 ∷ 0 ∷ 2000000 ∷ 16 ∷ []) fresh fresh-IsValid

align_up_lem_example :
    (align_up 13 % byte_alignment ≡ 0) × (13 ≤ align_up 13) × (align_up 13 < 13 + byte_alignment)
align_up_lem_example = align_up_lem 13 (omega arith)

-- "ab", in an array of 77s with room for three bytes.
abbrev two_letters : ℕ → ℕ
two_letters = update (update (λ _. 0) 0 97) 1 98

copy_name-Copied_example : Copied 0 3 two_letters (λ _. 77) (copy_name (λ _. 77) 3 two_letters)
copy_name-Copied_example = copy_name-Copied 2 two_letters (λ _. 77)

scan_mutexes-Greatest_example :
    let r = scan_mutexes blocked_system.0 2 blocked_system.0.mutex_registry no_source in
    Greatest blocked_system.0 2 blocked_system.0.mutex_registry no_source r
    × ((m a : ℕ)
        → m ∈ blocked_system.0.mutex_registry
        → (blocked_system.0.queue m).owner ≡ some 2
        → a ∈ after_block.waiting (receive_waiters m)
        → (blocked_system.0.task a).priority ≤ r.inherited_priority)
scan_mutexes-Greatest_example =
    scan_mutexes-Greatest blocked_system.0 1 after_block blocked_system.2.inv 2

abort_delay-Abort_example :
    Abort returning sleeping_system.0 1 asleep sleeping_system.2 sleeping_system.3 1
      (abort_delay returning (some 1) sleeping_system.0)
abort_delay-Abort_example =
    abort_delay-Abort returning sleeping_system.0 1 asleep sleeping_system.2 sleeping_system.3 1
