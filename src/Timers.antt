-- ===== src/Timers.antt =====
-- The timers of kernel/timers.c in memory and its static variables; its functions are the children.
pub mod Active
pub mod Service
pub mod Commands
pub mod Listed
pub mod Due
pub mod Clock
pub mod Leaves
pub mod Applied
pub mod Round
pub mod Lateness
pub mod Served
pub mod Expire
pub mod Delivered
use mini_free_rtos.Common.{ℕ, Option, Bool, List}

-- `struct mini_timer`, but for its two list pointers. A flag, a callback and an id are numbers.
pub record Timer : Type 0 where
  pub name : ℕ → ℕ
  pub period : ℕ
  pub expiry_tick : ℕ
  pub auto_reload : ℕ
  pub active : Bool
  pub timer_id : ℕ
  pub callback : ℕ

-- `timer` and `next_active` give what stands at an address. `timer_registry` is the chain of
-- `next_registry` pointers, newest first.
pub record Timers : Type 0 where
  pub timer : ℕ → Timer
  pub next_active : ℕ → Option ℕ
  pub timer_command_queue : Option ℕ
  pub timer_service_task : Option ℕ
  pub timer_service_initialized : Bool
  pub timer_registry : List ℕ
  pub active_timers : Option ℕ

-- `TimerCommandKind_t`
pub data TimerCommandKind : Type 0 where
  command_start command_stop command_reset command_change_period : TimerCommandKind

-- `TimerCommand_t`
pub record TimerCommand : Type 0 where
  pub kind : TimerCommandKind
  pub timer : Option ℕ
  pub period : ℕ

-- An enumerator as a number.
abbrev pub command_value : TimerCommandKind → ℕ
command_value command_start = 0
command_value command_stop = 1
command_value command_reset = 2
command_value command_change_period = 3
