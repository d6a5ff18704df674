-- ===== src/CortexM/Frame.antt =====
-- portable/cortex_m/port_frame.c and its caller: the first stack frame of a task, on a memory of
-- words; `uintptr_t` has 32 bits. The context is not NULL.
use mini_free_rtos.Common.{
  ℕ, ◌+◌, ◌-◌, ◌*◌, ◌/◌, ◌%◌, Option, none, some, List, [], ◌∷◌, ltb, ◌||◌, if◌then◌else◌, update,
}
use mini_free_rtos.Word.{word}

-- MINI_CORTEX_M_STACK_FRAME_WORDS and MINI_CORTEX_M_INITIAL_XPSR
abbrev pub frame_words : ℕ
frame_words = 16

abbrev pub initial_xpsr : ℕ
initial_xpsr = 16777216

-- Words are written to consecutive addresses.
unfoldable pub store_words : ℕ → List ℕ → (ℕ → ℕ) → ℕ → ℕ
store_words address [] memory = memory
store_words address (w ∷ ws) memory = store_words (address + 4) ws (update memory address w)

-- `(uint32_t)x | 1U`
abbrev pub odd : ℕ → ℕ
odd x = let low = x % word in low - low % 2 + 1

-- The hardware frame, R0 first, and the software frame before it.
abbrev pub hardware_words : ℕ → ℕ → ℕ → List ℕ
hardware_words task_argument task_entry task_exit =
    task_argument % word ∷ 0 ∷ 0 ∷ 0 ∷ 0 ∷ odd task_exit ∷ odd task_entry ∷ initial_xpsr ∷ []

abbrev pub software_words : List ℕ
software_words = 0 ∷ 0 ∷ 0 ∷ 0 ∷ 0 ∷ 0 ∷ 0 ∷ 0 ∷ []

-- The end of the stack, down to a multiple of eight bytes.
abbrev pub stack_end : ℕ → ℕ → ℕ
stack_end stack stack_words = let end = stack + stack_words * 4 in end - end % 8

-- `vPortBuildInitialStackFrame` from the first test on, of a stack that is not NULL: `saved_psp`
-- and the memory afterwards.
unfoldable pub build_frame : ℕ → ℕ → ℕ → ℕ → ℕ → (ℕ → ℕ) → Option ℕ × (ℕ → ℕ)
unfolding store_words
build_frame stack stack_words task_argument task_entry task_exit memory =
    let end = stack_end stack stack_words in
    let hardware_frame = end - 32 in
    let software_frame = hardware_frame - 32 in
    if ltb stack_words frame_words
    then (none, memory)
    else if ltb ((word - 1 - stack) / 4) stack_words
    then (none, memory)
    else if ltb end stack || ltb (end - stack) (frame_words * 4)
    then (none, memory)
    else (
      some software_frame,
      store_words software_frame software_words
          (store_words hardware_frame (hardware_words task_argument task_entry task_exit) memory),
    )

-- `vPortBuildInitialStackFrame`
unfoldable pub build_initial_stack_frame : Option ℕ → ℕ → ℕ → ℕ → ℕ → (ℕ → ℕ) → Option ℕ × (ℕ → ℕ)
unfolding build_frame
build_initial_stack_frame none stack_words task_argument task_entry task_exit memory =
    (none, memory)
build_initial_stack_frame (some stack) stack_words task_argument task_entry task_exit memory =
    build_frame stack stack_words task_argument task_entry task_exit memory

-- The last assertion of `vPortInitialiseTask`; nothing when it fails.
unfoldable pub with_frame : Option ℕ × (ℕ → ℕ) → Option (ℕ × (ℕ → ℕ))
with_frame (none, memory) = none
with_frame (some psp, memory) = some (psp, memory)

-- `vPortInitialiseTask` of portable/cortex_m/port.c for the task control block at `task`:
-- `saved_psp` and the memory afterwards, or nothing when an assertion fails. `trampoline` and
-- `exit_error` are the addresses of prvPortTaskTrampoline and vPortTaskExitError.
unfoldable pub initialise_task : ℕ → ℕ → Option ℕ → ℕ → ℕ → (ℕ → ℕ) → Option (ℕ × (ℕ → ℕ))
unfolding with_frame
initialise_task trampoline exit_error none stack_size task memory = none
initialise_task trampoline exit_error (some stack) stack_size task memory =
    let frame =
      build_initial_stack_frame (some stack) (stack_size / 4) task trampoline exit_error memory in
    if ltb (stack_size / 4) frame_words then none else with_frame frame
