-- ===== src/Word.antt =====
-- `TickType_t` of include/FreeRTOS.h (uint32_t), and the comparisons of kernel/tasks.c that read a
-- difference of ticks as a signed number.
pub mod Order
use mini_free_rtos.Common.{ℕ, ◌+◌, ◌-◌, ◌%◌, ◌^◌, Bool, ltb, leb}

-- 2 ^ 32, and 2 ^ 31 = INT32_MAX + 1.
abbrev pub word : ℕ
word = 4294967296

abbrev pub half_word : ℕ
half_word = 2147483648

-- Addition and subtraction of uint32_t.
abbrev pub add32 : ℕ → ℕ → ℕ
add32 a b = (a + b) % word

abbrev pub sub32 : ℕ → ℕ → ℕ
sub32 a b = (a + word - b) % word

-- (int32_t)(lhs - rhs) < 0: the sign bit of the difference is set.
unfoldable pub tick_before : ℕ → ℕ → Bool
tick_before lhs rhs = leb half_word (sub32 lhs rhs)

-- (int32_t)(now - deadline) >= 0
unfoldable pub tick_reached : ℕ → ℕ → Bool
tick_reached now deadline = ltb (sub32 now deadline) half_word
