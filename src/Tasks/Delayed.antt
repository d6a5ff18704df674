-- ===== src/Tasks/Delayed.antt =====
-- The delayed list of kernel/tasks.c: it holds the tasks with a deadline, by what remains of it.
use mini_free_rtos.Common.{
  ℕ, ◌<◌, ◌≤◌, ◌≡◌, refl, Option, none, some, true, false, List, [], ◌∷◌, arith, ◌∈◌, ◌∉◌, has,
  if◌then◌else◌, Bool-cases, ltb, update, delete, has-delete, has-delete_ne, not-has-delete, inl,
  inr,
}
use mini_free_rtos.Word.{word, half_word, sub32, tick_before}
use mini_free_rtos.Word.Order.{tick_before_lem}
use mini_free_rtos.Dll
use mini_free_rtos.Dll.{Links, Header, insert_sorted}
use mini_free_rtos.Dll.Sorted.{
  insert_by, insert_by-congr, insert_sorted-insert_by, has-insert_by, Rising, Rising-insert,
  Rising-delete,
}
use mini_free_rtos.Dll.Family.{Family, Change-Family}
use mini_free_rtos.Kernel.{Kernel, Tcb}
use mini_free_rtos.Kernel.Outcome.{done}
use mini_free_rtos.Tasks.Lists.{delay_list_insert, delay_list_remove}
use mini_free_rtos.Tasks.Ready.{remove-IsDll}

abbrev pub delay_place : (ℕ → Tcb) → ℕ → Option (Unit {0})
delay_place task a = if (task a).in_delay_list then some tt else none

-- The ticks until a task's deadline.
abbrev pub remaining_of : (ℕ → Tcb) → ℕ → ℕ → ℕ
remaining_of task now a = sub32 (task a).wake_tick now

abbrev pub remaining : Kernel → ℕ → ℕ
remaining k = remaining_of k.task k.tick_count

-- The deadlines are less than half the counter's range ahead, so that wrap-around comparisons are
-- right, and the list is ordered by what remains, which is at least `low`.
pub record DelayParts (task : ℕ → Tcb) (links : Links) (header : Header) (tick_count : ℕ) (low : ℕ)
    (D : List ℕ) : Type 0 where
  pub family : Family links (λ (_ : Unit {0}). header) (delay_place task) (λ _. D)
  pub now : tick_count < word
  pub near :
      (a : ℕ) → a ∈ D → ((task a).wake_tick < word) × (remaining_of task tick_count a < half_word)
  pub rising : Rising (remaining_of task tick_count) low D

abbrev pub DelayInv : Kernel → ℕ → List ℕ → Type 0
DelayInv k low D = DelayParts k.task k.delay_links k.delayed_list k.tick_count low D

abbrev pub delay_inserted : ℕ → Links × Header → Kernel → Kernel
delay_inserted t d k = record k {
  delay_links = d.0;
  delayed_list = d.1;
  task = update k.task t (record (k.task t) { in_delay_list = true });
}

abbrev pub delay_removed : ℕ → Kernel → Kernel
delay_removed t k =
    let d = Dll.remove t (k.delay_links, k.delayed_list) in
    record k {
      delay_links = d.0;
      delayed_list = d.1;
      task = update k.task t (record (k.task t) { in_delay_list = false });
    }

-- The task goes behind all whose deadlines come no later.
abbrev pub insert_due : Kernel → ℕ → List ℕ → List ℕ
insert_due k t D = insert_by (λ c. ltb (remaining k t) (remaining k c)) t D

-- What remains depends on the deadline alone.
pub Rising-congr :
    (key key' : ℕ → ℕ) (low : ℕ) (xs : List ℕ)
    → ((a : ℕ) → a ∈ xs → key' a ≡ key a)
    → Rising key low xs
    → Rising key' low xs
Rising-congr key key' low [] same r = tt
Rising-congr key key' low (x ∷ xs) same r =
    let here = same x (ground arith) in
    (rw here r.0, rw here (Rising-congr key key' (key x) xs (λ a i. same a (ground arith)) r.1))

-- The list is read through the marks and the deadlines of the tasks.
pub DelayParts-frame :
    (task task' : ℕ → Tcb) {links : Links} {header : Header} {now low : ℕ} {D : List ℕ}
    → ((a : ℕ)
        → ((task' a).in_delay_list ≡ (task a).in_delay_list)
          × ((task' a).in_delay_list ≡ true → (task' a).wake_tick ≡ (task a).wake_tick))
    → DelayParts task links header now low D
    → DelayParts task' links header now low D
DelayParts-frame task task' {now} {low} {D} same v =
    let wake : (a : ℕ) → a ∈ D → (task' a).wake_tick ≡ (task a).wake_tick =
      λ a i. (let e = v.family.member tt a i in (same a).1 (ground (arith, same a))) in
    record {
      family = record {
        lists_of = v.family.lists_of;
        member = λ κ a i. ground (arith, same a, v.family.member κ a i);
        listed = λ κ a e. v.family.listed κ a (ground (arith, same a));
      };
      now = v.now;
      near = λ a i. rw (wake a i) (v.near a i);
      rising =
          Rising-congr (remaining_of task now) (remaining_of task' now) low D (λ a i. rw (wake a i))
            v.rising;
    }

module _ (k : Kernel) (t low : ℕ) (D : List ℕ) (v : DelayInv k low D) where
  delay_unlisted : (k.task t).in_delay_list ≡ false → t ∉ D
  delay_unlisted out = elim (Bool-cases (has t D)) [
    | inl i ↦ (let e = v.family.member tt t i in absurd (ground arith))
    | inr o ↦ o
  ]

  -- A task with a deadline ahead is put where the order wants it, and the search ends.
  pub delay_list_insert-insert_due :
      (k.task t).in_delay_list ≡ false
      → (k.task t).wake_tick < word
      → remaining k t < half_word
      → low ≤ remaining k t
      → (d : Links × Header) × (delay_list_insert t k ≡ done tt (delay_inserted t d k))
        × DelayInv (delay_inserted t d k) low (insert_due k t D)
  unfolding delay_list_insert
  delay_list_insert-insert_due out wake soon above =
      let unlisted = delay_unlisted out in
      let stop = λ (c : ℕ). tick_before (k.task t).wake_tick (k.task c).wake_tick in
      let stop' = λ (c : ℕ). ltb (remaining k t) (remaining k c) in
      let same_order = insert_by-congr stop stop' t D (λ c i.
        let (w, r) = v.near c i in
        tick_before_lem k.tick_count (k.task t).wake_tick (k.task c).wake_tick v.now wake w soon
          r) in
      let (d, e, is, same) =
        insert_sorted-insert_by stop k.delay_links k.delayed_list t D (v.family.lists_of tt)
          unlisted in
      let k' = delay_inserted t d k in
      let rem_same : (a : ℕ) → remaining k' a ≡ remaining k a = λ a. ground arith in
      (
        d,
        rw (out, e),
        record {
          family =
              Change-Family
                (record {
                  here = rw (← same_order) is;
                  same = same;
                  others = λ κ ne. absurd (ne refl);
                  place_ne = λ a ne. ground arith;
                  kept = λ a ne. (
                    λ i. ground (arith, has-insert_by stop' a t D),
                    λ i. ground (arith, has-insert_by stop' a t D),
                  );
                  before = λ κ ne. absurd (ne refl);
                  after = λ κ.
                      (λ e. (refl, ground (arith, has-insert_by stop' t t D)), λ e. ground arith);
                })
                v.family (λ κ. yes refl);
          now = v.now;
          near = λ a i. ground (arith, has-insert_by stop' a t D, v.near a);
          rising =
              Rising-congr (remaining k) (remaining k') low _ (λ a i. rem_same a)
                (Rising-insert (remaining k) low t D v.rising above);
        },
      )

  -- A delayed task is taken off the list.
  pub delay_list_remove-delete :
      (k.task t).in_delay_list ≡ true
      → (delay_list_remove t k ≡ done tt (delay_removed t k))
        × DelayInv (delay_removed t k) low (delete t D)
  unfolding delay_list_remove
  delay_list_remove-delete l =
      let i : t ∈ D = v.family.listed tt t (rw l) in
      let (d, same, pos) = remove-IsDll k.delay_links k.delayed_list t D (v.family.lists_of tt) i in
      let k' = delay_removed t k in
      let rem_same : (a : ℕ) → remaining k' a ≡ remaining k a = λ a. ground arith in
      (
        ground arith,
        record {
          family =
              Change-Family
                (record {
                  here = d;
                  same = same;
                  others = λ κ ne. absurd (ne refl);
                  place_ne = λ a ne. ground arith;
                  kept = λ a ne. (λ i. has-delete a t D i, λ i. has-delete_ne a t D ne i);
                  before = λ κ ne. absurd (ne refl);
                  after = λ κ. (
                    λ e. absurd (ground arith),
                    λ e.
                        absurd
                          (ground (arith, not-has-delete t D ((v.family.lists_of tt).distinct))),
                  );
                })
                v.family (λ κ. yes refl);
          now = v.now;
          near = λ a i. ground (arith, v.near a (has-delete a t D i));
          rising =
              Rising-congr (remaining k) (remaining k') low _ (λ a i. rem_same a)
                (Rising-delete (remaining k) low t D v.rising);
        },
      )
