-- ===== src/CortexM.antt =====
-- portable/cortex_m: the port for Cortex-M. The registers that its C code reads and writes, its static
-- variables and its functions that the assembly code does not replace; the children are
-- portable/cortex_m/port_frame.c and portable/cortex_m/freestanding.c.
pub mod Frame
pub mod Memory
pub mod Moves
pub mod Critical
pub mod Stored
pub mod Framed
use mini_free_rtos.Common.{
  ℕ, ◌+◌, ◌-◌, ◌*◌, ◌/◌, ◌%◌, Option, none, some, Bool, true, false, ltb, ◌==◌, ◌||◌, if◌then◌else◌,
}
use mini_free_rtos.Word.{add32}

-- PRIMASK, whose bit 0 disables interrupts, IPSR, SysTick's registers and two of the system control
-- block, and the static variables.
pub record Cpu : Type 0 where
  pub primask : ℕ
  pub ipsr : ℕ
  pub systick_csr : ℕ
  pub systick_rvr : ℕ
  pub systick_cvr : ℕ
  pub scb_icsr : ℕ
  pub scb_shpr3 : ℕ
  pub critical_nesting : ℕ
  pub critical_saved_primask : ℕ

-- `vPortEnterCritical`
unfoldable pub enter : Cpu → Cpu
enter c = record c {
  critical_saved_primask = if c.critical_nesting == 0 then c.primask else c.critical_saved_primask;
  primask = 1;
  critical_nesting = add32 c.critical_nesting 1;
}

-- What vPortExitCritical does after the assertion.
abbrev pub left : Cpu → Cpu
left c = record c {
  critical_nesting = c.critical_nesting - 1;
  primask =
      if c.critical_nesting - 1 == 0
      then if c.critical_saved_primask % 2 == 0 then 0 else 1
      else c.primask;
}

-- `vPortExitCritical`; nothing when the assertion fails.
unfoldable pub exit : Cpu → Option Cpu
exit c = if ltb 0 c.critical_nesting then some (left c) else none

-- `prvConfigureExceptionPriorities`, given configKERNEL_INTERRUPT_PRIORITY.
unfoldable pub configure_exception_priorities : ℕ → Cpu → Cpu
configure_exception_priorities kernel_priority c =
    let priority = kernel_priority % 256 in
    record c { scb_shpr3 = priority * 65536 + priority * 16777216 }

-- `xPortStartTick`, given configSYSTICK_CLOCK_HZ and configTICK_RATE_HZ too.
unfoldable pub start_tick : ℕ → ℕ → ℕ → Cpu → Bool × Cpu
unfolding configure_exception_priorities
start_tick kernel_priority clock_hz tick_rate_hz c =
    let reload = clock_hz / tick_rate_hz in
    if tick_rate_hz == 0 || ltb clock_hz tick_rate_hz
    then (false, c)
    else if reload == 0 || ltb 16777215 (reload - 1)
    then (false, c)
    else (
      true,
      record (configure_exception_priorities kernel_priority c) {
        systick_rvr = reload - 1;
        systick_cvr = 0;
        systick_csr = 7;
      },
    )

-- `vPortStopTick`
unfoldable pub stop_tick : Cpu → Cpu
stop_tick c = record c { systick_csr = 0; systick_rvr = 0; systick_cvr = 0 }

-- `vPortYieldTask`: PendSV is made pending.
unfoldable pub yield_task : Cpu → Cpu
yield_task c = record c { scb_icsr = 268435456 }

-- `xPortIsInsideISR`
unfoldable pub is_inside_isr : Cpu → Bool
is_inside_isr c = ltb 0 c.ipsr
