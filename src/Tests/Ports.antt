-- ===== src/Tests/Ports.antt =====
-- The theorems on portable/cortex_m.
use mini_free_rtos.Common.{ℕ, ◌≡◌, inr, some, arith}
use mini_free_rtos.CortexM.{Cpu}
use mini_free_rtos.CortexM.Critical.{quiet, section, perform, Restored, perform-Restored}
use mini_free_rtos.CortexM.Frame.{build_frame, initialise_task}
use mini_free_rtos.CortexM.Framed.{Framed, Built, build_frame-Built, initialise_task-Framed}
use mini_free_rtos.CortexM.Memory.{memmove, memcpy}
use mini_free_rtos.CortexM.Moves.{moved, memmove-moved, memcpy-memmove}

-- Interrupts are enabled, and no section has been entered.
abbrev reset_cpu : Cpu
reset_cpu = record {
  primask = 0;
  ipsr = 0;
  systick_csr = 0;
  systick_rvr = 0;
  systick_cvr = 0;
  scb_icsr = 0;
  scb_shpr3 = 0;
  critical_nesting = 0;
  critical_saved_primask = 0;
}

perform-Restored_example :
    (c' : Cpu) × (perform (section (section quiet quiet) quiet) reset_cpu ≡ some c')
    × Restored reset_cpu c'
perform-Restored_example =
    perform-Restored (section (section quiet quiet) quiet) reset_cpu
      (omega arith, λ h. absurd (omega arith)) (ground arith)

build_frame-Built_example :
    Built 536870916 20 7 100 200 (λ _. 0) (build_frame 536870916 20 7 100 200 (λ _. 0))
build_frame-Built_example = build_frame-Built 536870916 20 7 100 200 (λ _. 0) (omega arith)

memmove-moved_example : memmove (λ a. a) 12 10 5 14 ≡ moved (λ a. a) 12 10 0 5 14
memmove-moved_example = memmove-moved (λ a. a) 12 10 5 14

memcpy-memmove_example : memcpy (λ a. a) 20 10 5 22 ≡ memmove (λ a. a) 20 10 5 22
memcpy-memmove_example = memcpy-memmove (λ a. a) 20 10 5 (inr (omega arith)) 22

initialise_task-Framed_example :
    (psp : ℕ) × (memory' : ℕ → ℕ) × (initialise_task 100 200 (some 536870916) 80 7 (λ _. 0)
      ≡ some (psp, memory'))
    × Framed 536870916 20 7 100 200 (λ _. 0) psp memory'
initialise_task-Framed_example =
    initialise_task-Framed 100 200 536870916 80 7 (λ _. 0) (omega arith) (omega arith)
