-- ===== src/Tasks.antt =====
-- kernel/tasks.c, and the priority inheritance of kernel/queue.c that it calls.
pub mod Lists
pub mod Priority
pub mod Wait
pub mod Schedule
pub mod Ready
pub mod Delayed
pub mod Waiting
pub mod Invariant
pub mod Select
pub mod Yield
pub mod Delay
pub mod Reprioritise
pub mod Reweighs
pub mod Inherit
pub mod Wake
pub mod Tick
pub mod Preempt
pub mod Unblock
pub mod Block
pub mod Delta
pub mod Create
pub mod Name
pub mod Expire
pub mod Greatest
pub mod Outranks
pub mod Ended
pub mod Accessors
pub mod Abort
