-- ===== src/CortexM/Memory.antt =====
-- portable/cortex_m/freestanding.c on a memory of bytes.
use mini_free_rtos.Common.{ℕ, zero, suc, ◌+◌, ◌%◌, ltb, ◌==◌, if◌then◌else◌, update}

-- The loop of `memset`, from `index` on.
unfoldable pub set_from : (ℕ → ℕ) → ℕ → ℕ → ℕ → ℕ → ℕ → ℕ
set_from memory destination byte index zero = memory
set_from memory destination byte index (suc length) =
    set_from (update memory (destination + index) byte) destination byte (index + 1) length

-- `memset`; the byte is the value's lowest.
unfoldable pub memset : (ℕ → ℕ) → ℕ → ℕ → ℕ → ℕ → ℕ
unfolding set_from
memset memory destination value length = set_from memory destination (value % 256) 0 length

-- The loop of `memcpy`, and the first one of `memmove`, from `index` on.
unfoldable pub copy_up : (ℕ → ℕ) → ℕ → ℕ → ℕ → ℕ → ℕ → ℕ
copy_up memory destination source index zero = memory
copy_up memory destination source index (suc length) =
    copy_up (update memory (destination + index) (memory (source + index))) destination source
      (index + 1) length

-- `memcpy`
unfoldable pub memcpy : (ℕ → ℕ) → ℕ → ℕ → ℕ → ℕ → ℕ
unfolding copy_up
memcpy memory destination source length = copy_up memory destination source 0 length

-- The second loop of `memmove`.
unfoldable pub copy_down : (ℕ → ℕ) → ℕ → ℕ → ℕ → ℕ → ℕ
copy_down memory destination source zero = memory
copy_down memory destination source (suc index) =
    copy_down (update memory (destination + index) (memory (source + index))) destination source
      index

-- `memmove`
unfoldable pub memmove : (ℕ → ℕ) → ℕ → ℕ → ℕ → ℕ → ℕ
unfolding copy_up copy_down
memmove memory destination source length =
    if ltb destination source
    then copy_up memory destination source 0 length
    else if ltb source destination
    then copy_down memory destination source length
    else memory

-- The results -1, 0 and 1 of `memcmp`.
pub data Comparison : Type 0 where
  is_less is_equal is_greater : Comparison

unfoldable pub compare_from : (ℕ → ℕ) → ℕ → ℕ → ℕ → ℕ → Comparison
compare_from memory left right index zero = is_equal
compare_from memory left right index (suc length) =
    let rest = compare_from memory left right (index + 1) length in
    let l = memory (left + index) in
    let r = memory (right + index) in
    if l == r then rest else if ltb l r then is_less else is_greater

-- `memcmp`
unfoldable pub memcmp : (ℕ → ℕ) → ℕ → ℕ → ℕ → Comparison
unfolding compare_from
memcmp memory left right length = compare_from memory left right 0 length
