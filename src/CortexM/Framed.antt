-- ===== src/CortexM/Framed.antt =====
-- portable/cortex_m/port_frame.c: what the first stack frame of a task holds.
use mathlib.Core.Bool.{false≢true}
use mini_free_rtos.Common.{
  ℕ, ◌+◌, ◌-◌, ◌*◌, ◌/◌, ◌%◌, ◌^◌, ◌≤◌, ◌<◌, ◌≡◌, refl, ap, sym, subst, ◌∙◌, ◌⊎◌, inl, inr, Option,
  none, some, Bool, true, false, List, arith, Bool-cases, ltb, leb, ◌&&◌, ◌||◌, if◌then◌else◌,
}
use mini_free_rtos.Word.{word}
use mini_free_rtos.CortexM.Stored.{word_at, store_words-outside, store_words-at}
use mini_free_rtos.CortexM.Frame.{
  frame_words, odd, store_words, hardware_words, software_words, stack_end, build_frame,
  build_initial_stack_frame, with_frame, initialise_task,
}

-- A frame at `psp`, on a multiple of eight bytes inside the stack. R4 to R11, which the software
-- restores, are zero. Behind them stand the words that the processor loads: R0 is the argument, R1,
-- R2, R3 and R12 are zero, the link register is the return address and the program counter the
-- entry, both with the lowest bit set, as Thumb code wants it, and of the status register only bit
-- 24, the Thumb state, is set. No other word changes.
pub record Framed (stack stack_words argument entry exit : ℕ) (memory : ℕ → ℕ) (psp : ℕ)
    (memory' : ℕ → ℕ) : Type 0 where
  pub aligned : psp % 8 ≡ 0
  pub above : stack ≤ psp
  pub below : psp + 64 ≤ stack + stack_words * 4
  pub highest : stack + stack_words * 4 < psp + 72
  pub saved : (i : ℕ) → i < 8 → memory' (psp + 4 * i) ≡ 0
  pub r0 : memory' (psp + 32) ≡ argument % word
  pub r1 : memory' (psp + 36) ≡ 0
  pub r2 : memory' (psp + 40) ≡ 0
  pub r3 : memory' (psp + 44) ≡ 0
  pub r12 : memory' (psp + 48) ≡ 0
  pub link_thumb : memory' (psp + 52) % 2 ≡ 1
  pub link_register : memory' (psp + 52) / 2 ≡ exit % word / 2
  pub counter_thumb : memory' (psp + 56) % 2 ≡ 1
  pub program_counter : memory' (psp + 56) / 2 ≡ entry % word / 2
  pub status : memory' (psp + 60) ≡ 2 ^ 24
  pub outside : (a : ℕ) → (a < psp) ⊎ (psp + 64 ≤ a) → memory' a ≡ memory a

zero_at : (i : ℕ) → i < 8 → word_at software_words i ≡ 0
zero_at i h = ground arith

-- One of three tests holds.
first_test :
    (a b c : Bool) (refused built : Option ℕ × (ℕ → ℕ))
    → (a || (b || c)) ≡ true
    → (if a then refused else if b then refused else if c then refused else built) ≡ refused
first_test true b c refused built h = refl
first_test false true c refused built h = refl
first_test false false true refused built h = refl
first_test false false false refused built h = cc

-- The stack has room for a frame below the last multiple of eight in it, and ends in the address space.
abbrev pub has_room : ℕ → ℕ → Bool
has_room stack stack_words =
    leb (stack + 64) ((stack + stack_words * 4) / 8 * 8) && ltb (stack + stack_words * 4) word

-- What comes of it: the frame, if the stack has room for one, or nothing.
pub data Built (stack stack_words argument entry exit : ℕ) (memory : ℕ → ℕ)
    : Option ℕ × (ℕ → ℕ) → Type 0 where
  built :
      (psp : ℕ) (memory' : ℕ → ℕ)
      → has_room stack stack_words ≡ true
      → Framed stack stack_words argument entry exit memory psp memory'
      → Built stack stack_words argument entry exit memory (some psp, memory')
  refused :
      has_room stack stack_words ≡ false
      → Built stack stack_words argument entry exit memory (none, memory)

odd_lem : (x : ℕ) → (odd x % 2 ≡ 1) × (odd x / 2 ≡ x % word / 2)
odd_lem x = (ground arith, ground arith)

module _ (stack stack_words argument entry exit : ℕ) (memory : ℕ → ℕ)
    (room : has_room stack stack_words ≡ true) where
  abbrev end : ℕ
  end = stack_end stack stack_words

  abbrev psp : ℕ
  psp = end - 32 - 32

  abbrev loaded : List ℕ
  loaded = hardware_words argument entry exit

  abbrev filled : ℕ → ℕ
  filled = store_words (end - 32) loaded memory

  abbrev framed : ℕ → ℕ
  framed = store_words psp software_words filled

  -- A word that the processor loads.
  framed-hardware : (i : ℕ) → i < 8 → framed (psp + 32 + 4 * i) ≡ word_at loaded i
  framed-hardware i h =
      let place : psp + 32 ≡ end - 32 = ground arith in
      store_words-outside psp software_words filled (psp + 32 + 4 * i) (inr (omega arith))
      ∙ ap (λ p. filled (p + 4 * i)) place
      ∙ store_words-at (end - 32) loaded memory i (omega arith)

  -- The word at an offset.
  framed_at : (o i : ℕ) → o ≡ 32 + 4 * i → i < 8 → framed (psp + o) ≡ word_at loaded i
  framed_at o i e h =
      ap framed {x = psp + o} {y = psp + 32 + 4 * i} (omega arith) ∙ framed-hardware i h

  -- The frame itself.
  framed-Framed : Framed stack stack_words argument entry exit memory psp framed
  framed-Framed =
      let place : psp + 32 ≡ end - 32 = ground arith in
      let (link_thumb, link_register) = odd_lem exit in
      let (counter_thumb, program_counter) = odd_lem entry in
      let link = framed_at 52 5 refl (omega arith) in
      let counter = framed_at 56 6 refl (omega arith) in
      record {
        aligned = ground arith;
        above = ground arith;
        below = ground arith;
        highest = ground arith;
        saved = λ i h. store_words-at psp software_words filled i h ∙ zero_at i h;
        r0 = framed_at 32 0 refl (omega arith);
        r1 = framed_at 36 1 refl (omega arith);
        r2 = framed_at 40 2 refl (omega arith);
        r3 = framed_at 44 3 refl (omega arith);
        r12 = framed_at 48 4 refl (omega arith);
        link_thumb = ap (λ w. w % 2) link ∙ link_thumb;
        link_register = ap (λ w. w / 2) link ∙ link_register;
        counter_thumb = ap (λ w. w % 2) counter ∙ counter_thumb;
        program_counter = ap (λ w. w / 2) counter ∙ program_counter;
        status = framed_at 60 7 refl (omega arith);
        outside = λ a out.
            store_words-outside psp software_words filled a (ground (arith, place))
            ∙ store_words-outside (end - 32) loaded memory a (ground (arith, place));
      }

-- For a stack that begins in the address space, the frame is built, at the highest place for it on a
-- multiple of eight bytes, if the stack has room for it there and does not reach over the end of the
-- address space. Otherwise nothing is written, and there is no stack pointer.
pub build_frame-Built :
    (stack stack_words task_argument task_entry task_exit : ℕ) (memory : ℕ → ℕ)
    → stack < word
    → Built stack stack_words task_argument task_entry task_exit memory
        (build_frame stack stack_words task_argument task_entry task_exit memory)
unfolding build_frame
build_frame-Built stack stack_words task_argument task_entry task_exit memory small =
    let end = stack_end stack stack_words in
    let loaded = hardware_words task_argument task_entry task_exit in
    let psp = end - 32 - 32 in
    let filled = store_words (end - 32) loaded memory in
    let memory' = store_words psp software_words filled in
    elim (Bool-cases (has_room stack stack_words)) [
      | inl room ↦
          (let enough : ltb stack_words frame_words ≡ false = ground arith in
            let in_range : ltb ((word - 1 - stack) / 4) stack_words ≡ false = ground arith in
            let long : (ltb end stack || ltb (end - stack) (frame_words * 4)) ≡ false =
              ground arith in
            rw (enough, in_range, long)
              (built psp memory' room
                (framed-Framed stack stack_words task_argument task_entry task_exit memory room)))
      | inr full ↦
          (let run =
              first_test (ltb stack_words frame_words) (ltb ((word - 1 - stack) / 4) stack_words)
                (ltb end stack || ltb (end - stack) (frame_words * 4)) (none, memory)
                (some psp, memory') (ground arith) in
            subst (Built stack stack_words task_argument task_entry task_exit memory) (sym run)
              (refused full))
    ]

Framed-Built :
    (stack stack_words argument entry exit : ℕ) (memory : ℕ → ℕ) (result : Option ℕ × (ℕ → ℕ))
    → has_room stack stack_words ≡ true
    → Built stack stack_words argument entry exit memory result
    → (psp : ℕ) × (memory' : ℕ → ℕ) × (result ≡ (some psp, memory'))
      × Framed stack stack_words argument entry exit memory psp memory'
Framed-Built stack stack_words argument entry exit memory result room (built psp memory' _ framed) =
    (psp, memory', refl, framed)
Framed-Built stack stack_words argument entry exit memory result room (refused full) =
    absurd (false≢true (sym full ∙ room))

-- A stack of at least 72 bytes that does not reach over the end of the address space is enough for
-- vPortInitialiseTask: no assertion fails, and the frame is that of the task, with its control block as
-- argument, the trampoline as entry, and the error function as return address.
pub initialise_task-Framed :
    (trampoline exit_error stack stack_size task : ℕ) (memory : ℕ → ℕ)
    → stack + stack_size < word
    → 72 ≤ stack_size
    → (psp : ℕ) × (memory' : ℕ → ℕ) × (initialise_task trampoline exit_error
          (some stack)
          stack_size
          task
          memory
        ≡ some (psp, memory'))
      × Framed stack (stack_size / 4) task trampoline exit_error memory psp memory'
unfolding initialise_task with_frame build_initial_stack_frame
initialise_task-Framed trampoline exit_error stack stack_size task memory fits enough =
    let words : ltb (stack_size / 4) frame_words ≡ false = ground arith in
    let room : has_room stack (stack_size / 4) ≡ true = ground arith in
    let (psp, memory', run, framed) =
      Framed-Built stack (stack_size / 4) task trampoline exit_error memory
        (build_frame stack (stack_size / 4) task trampoline exit_error memory) room
        (build_frame-Built stack (stack_size / 4) task trampoline exit_error memory
          (omega arith)) in
    (
      psp,
      memory',
      ap
            (λ b.
              if b
              then none
              else with_frame (
                  build_initial_stack_frame (some stack) (stack_size / 4) task trampoline exit_error
                    memory))
            words
          ∙ ap with_frame run,
      framed,
    )
