-- ===== src/Dll.antt =====
-- The intrusive doubly linked lists of kernel/tasks.c. The ready lists, the delayed list and the
-- event lists each thread two pointers through every task control block; kernel/tasks.c writes the
-- same pointer code once for each of the three, and this module states it once. The `links` of one
-- kind are the two pointer fields of all tasks: `l.next t` is, say, `t->ready_next`.
pub mod Segment
pub mod Update
pub mod Refine
pub mod Sorted
pub mod Family
pub mod Falling
use mini_free_rtos.Common.{ℕ, zero, suc, ◌+◌, ◌-◌, Option, none, some, Bool, true, false, update}

-- `ReadyList_t`, `DelayList_t`, `TaskEventList_t`
pub record Header : Type 0 where
  pub head : Option ℕ
  pub tail : Option ℕ
  pub length : ℕ

pub record Links : Type 0 where
  pub previous : ℕ → Option ℕ
  pub next : ℕ → Option ℕ

abbrev pub empty : Header
empty = record { head = none; tail = none; length = 0 }

-- A write through a pointer that the code has compared with NULL.
abbrev pub write_if : (ℕ → Option ℕ) → Option ℕ → Option ℕ → ℕ → Option ℕ
write_if f none v = f
write_if f (some i) v = update f i v

-- `if (pointer != NULL) … else field = v`: what the list's own field holds afterwards.
abbrev pub field_unless : Option ℕ → Option ℕ → Option ℕ → Option ℕ
field_unless none v old = v
field_unless (some _) v old = old

-- The task goes behind the last one.
unfoldable pub insert_tail : ℕ → Links × Header → Links × Header
insert_tail t (l, h) =
    let previous = update l.previous t h.tail in
    let next = update l.next t none in
    (
      record { previous = previous; next = write_if next h.tail (some t) },
      record { head = field_unless h.tail (some t) h.head; tail = some t; length = h.length + 1 },
    )

-- The task goes in front of the task `c` of the list.
unfoldable pub insert_before : ℕ → ℕ → Links × Header → Links × Header
insert_before c t (l, h) =
    let before = l.previous c in
    let previous = update l.previous t before in
    let next = update l.next t (some c) in
    (
      record { previous = update previous c (some t); next = write_if next before (some t) },
      record { head = field_unless before (some t) h.head; tail = h.tail; length = h.length + 1 },
    )

-- The task's neighbours are linked with one another, and its own pointers are cleared.
unfoldable pub remove : ℕ → Links × Header → Links × Header
remove t (l, h) =
    let next = write_if l.next (l.previous t) (l.next t) in
    let previous = write_if l.previous (next t) (l.previous t) in
    (
      record { previous = update previous t none; next = update next t none },
      record {
        head = field_unless (l.previous t) (l.next t) h.head;
        tail = field_unless (next t) (previous t) h.tail;
        length = h.length - 1;
      },
    )

-- `while ((cursor != NULL) && !stop(cursor)) cursor = cursor->next;`. The outer `none` says that
-- the fuel ran out.
unfoldable pub seek : ℕ → (ℕ → Bool) → Links → Option ℕ → Option (Option ℕ)
seek zero stop l cursor = none
seek (suc fuel) stop l none = some none
seek (suc fuel) stop l (some c) = elim (stop c) [
  | true ↦ some (some c)
  | false ↦ seek fuel stop l (l.next c)
]

insert_at : Option ℕ → ℕ → Links × Header → Links × Header
unfolding insert_tail insert_before
insert_at none t d = insert_tail t d
insert_at (some c) t d = insert_before c t d

-- The task goes in front of the first task that `stop` holds of, or behind all. As many rounds are
-- allowed as the list has tasks, and one more.
unfoldable pub insert_sorted : (ℕ → Bool) → ℕ → Links × Header → Option (Links × Header)
unfolding seek insert_at
insert_sorted stop t (l, h) = elim (seek (suc h.length) stop l h.head) [
  | none ↦ none
  | some cursor ↦ some (insert_at cursor t (l, h))
]
