-- ===== src/Sll.antt =====
-- Singly linked lists, as the free lists of kernel/heap_2.c and kernel/heap_4.c and the active timers
-- of kernel/timers.c are: a head and one `next` pointer for each element. All three search with a
-- pointer to the element before, and change the list behind that element or at the head.
pub mod Chain
pub mod Search
use mini_free_rtos.Common.{ℕ, zero, suc, Option, none, some, Bool, update, if◌then◌else◌}

-- `while ((cursor != NULL) && !stop(cursor)) { previous = cursor; cursor = cursor->next; }`: the two
-- pointers at its end. The outer `none` says that the fuel ran out.
unfoldable pub find_place :
    ℕ → (ℕ → Bool) → (ℕ → Option ℕ) → Option ℕ → Option ℕ → Option (Option ℕ × Option ℕ)
find_place zero stop next previous cursor = none
find_place (suc fuel) stop next previous none = some (previous, none)
find_place (suc fuel) stop next previous (some c) =
    let rest = find_place fuel stop next (some c) (next c) in
    if stop c then some (previous, some c) else rest

-- `if (previous == NULL) { head = v; } else { previous->next = v; }`
abbrev pub link : Option ℕ → Option ℕ → Option ℕ × (ℕ → Option ℕ) → Option ℕ × (ℕ → Option ℕ)
link none v (head, next) = (v, next)
link (some p) v (head, next) = (head, update next p v)
