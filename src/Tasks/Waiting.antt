-- ===== src/Tasks/Waiting.antt =====
-- The event lists of kernel/tasks.c: each holds the tasks that wait for one event of a queue, by
-- priority.
use mini_free_rtos.Common.{
  ℕ, ◌≤◌, ◌≡◌, ◌≢◌, refl, sym, ◌∙◌, Option, none, some, not, List, arith, ◌∈◌, ◌∉◌, has, Bool-cases,
  leb, update, delete, has-delete, has-delete_ne, not-has-delete, inl, inr, subst,
}
use mathlib.Core.Logic.{ite, if_pos, if_neg}
use native.Mathlib.Decide.{ℕ_discrete}
use mini_free_rtos.Dll
use mini_free_rtos.Dll.{Links, Header, insert_sorted}
use mini_free_rtos.Dll.Sorted.{insert_by, insert_sorted-insert_by, has-insert_by}
use mini_free_rtos.Dll.Falling.{Falling, Falling-insert, Falling-delete, Falling-congr}
use mini_free_rtos.Dll.Family.{Family, Change-Family}
use mini_free_rtos.Kernel.{
  Kernel, Tcb, Queue, EventList, send_waiters, receive_waiters, max_priorities,
}
use mini_free_rtos.Kernel.Outcome.{done}
use mini_free_rtos.Tasks.Lists.{
  event_list_insert, event_list_remove, event_header, waiters_of, set_waiters,
}
use mini_free_rtos.Tasks.Ready.{remove-IsDll}

pub EventList-discrete : Discrete EventList
EventList-discrete = hlevel ℕ_discrete

-- One event list's header is written, the others stay.
pub waiters_of-set_self :
    (e : EventList) (h : Header) (queue : ℕ → Queue) → waiters_of e (set_waiters e h queue) ≡ h
waiters_of-set_self (send_waiters q) h queue = ground arith
waiters_of-set_self (receive_waiters q) h queue = ground arith

pub waiters_of-set_ne :
    (e e' : EventList) (h : Header) (queue : ℕ → Queue)
    → e' ≢ e
    → waiters_of e' (set_waiters e h queue) ≡ waiters_of e' queue
waiters_of-set_ne (send_waiters q) (send_waiters r) h queue ne = ground arith
waiters_of-set_ne (send_waiters q) (receive_waiters r) h queue ne = ground arith
waiters_of-set_ne (receive_waiters q) (send_waiters r) h queue ne = ground arith
waiters_of-set_ne (receive_waiters q) (receive_waiters r) h queue ne = ground arith

abbrev pub event_place : (ℕ → Tcb) → ℕ → Option EventList
event_place task a = (task a).event_list

-- The lists hold just the tasks whose `event_list` points at them, by falling priority.
pub record EventParts (task : ℕ → Tcb) (links : Links) (queue : ℕ → Queue) (E : EventList → List ℕ)
    : Type 0 where
  pub family : Family links (λ e. waiters_of e queue) (event_place task) E
  pub falling : (e : EventList) → Falling (λ a. (task a).priority) max_priorities (E e)

abbrev pub EventInv : Kernel → (EventList → List ℕ) → Type 0
EventInv k E = EventParts k.task k.event_links k.queue E

-- The lists are read through the tasks' `event_list` fields and, of those that wait, priorities.
pub EventParts-frame :
    (task task' : ℕ → Tcb) {links : Links} {queue : ℕ → Queue} {E : EventList → List ℕ}
    → ((a : ℕ)
        → ((task' a).event_list ≡ (task a).event_list)
          × ((e : EventList)
              → (task a).event_list ≡ some e
              → (task' a).priority ≡ (task a).priority))
    → EventParts task links queue E
    → EventParts task' links queue E
EventParts-frame task task' {E} same v = record {
  family = record {
    lists_of = v.family.lists_of;
    member = λ e a i. (same a).0 ∙ v.family.member e a i;
    listed = λ e a p. v.family.listed e a (sym ((same a).0) ∙ p);
  };
  falling = λ e.
      Falling-congr (λ a. (task a).priority) (λ a. (task' a).priority) max_priorities (E e)
        (λ a i. (same a).1 e (v.family.member e a i)) (v.falling e);
}

abbrev pub event_inserted : EventList → ℕ → Links × Header → Kernel → Kernel
event_inserted e t d k = record k {
  queue = set_waiters e d.1 k.queue;
  event_links = d.0;
  task = update k.task t (record (k.task t) { event_list = some e });
}

abbrev pub event_removed : EventList → ℕ → Kernel → Kernel
event_removed e t k =
    let d = Dll.remove t (k.event_links, event_header e k) in
    record k {
      queue = set_waiters e d.1 k.queue;
      event_links = d.0;
      task = update k.task t (record (k.task t) { event_list = none });
    }

-- A change of one of the lists.
abbrev pub update_event : (EventList → List ℕ) → EventList → List ℕ → EventList → List ℕ
update_event E e xs e' = ite (EventList-discrete e' e) xs (E e')

pub update_event_self :
    (E : EventList → List ℕ) (e : EventList) (xs : List ℕ) → update_event E e xs e ≡ xs
update_event_self E e xs = if_pos _ refl xs (E e)

pub update_event_ne :
    (E : EventList → List ℕ) (e e' : EventList) (xs : List ℕ)
    → e' ≢ e
    → update_event E e xs e' ≡ E e'
update_event_ne E e e' xs ne = if_neg _ ne xs (E e')

-- What holds of every list after a change holds of the changed one and of the others.
update_event_all :
    (P : EventList → List ℕ → Type 0) (E : EventList → List ℕ) (e : EventList) (xs : List ℕ)
    → P e xs
    → ((e' : EventList) → e' ≢ e → P e' (E e'))
    → (e' : EventList) → P e' (update_event E e xs e')
update_event_all P E e xs here other e' = elim (EventList-discrete e' e) [
  | yes i ↦ rw (if_pos _ i) (subst (λ e'. P e' xs) (sym i) here)
  | no ne ↦ rw (if_neg _ ne) (other e' ne)
]

-- The order in which `prvEventListInsert` puts a task: behind all of at least its priority.
abbrev pub insert_by_priority : Kernel → ℕ → List ℕ → List ℕ
insert_by_priority k t xs = insert_by (λ c. not (leb (k.task t).priority (k.task c).priority)) t xs

module _ (k : Kernel) (t : ℕ) (E : EventList → List ℕ) (v : EventInv k E) where
  event_unlisted : (k.task t).event_list ≡ none → (e : EventList) → t ∉ E e
  event_unlisted out e = elim (Bool-cases (has t (E e))) [
    | inl i ↦ (let m = v.family.member e t i in cc)
    | inr o ↦ o
  ]

  -- A task that waits nowhere is put into an event list where its priority wants it, and the search
  -- ends.
  pub event_list_insert-insert_by_priority :
      (e : EventList)
      → (k.task t).event_list ≡ none
      → (k.task t).priority ≤ max_priorities
      → (d : Links × Header) × (event_list_insert e t k ≡ done tt (event_inserted e t d k))
        × EventInv (event_inserted e t d k) (update_event E e (insert_by_priority k t (E e)))
  unfolding event_list_insert
  event_list_insert-insert_by_priority e out prio =
      let stop = λ (c : ℕ). not (leb (k.task t).priority (k.task c).priority) in
      let xs = insert_by_priority k t (E e) in
      let (d, eq, is, same) =
        insert_sorted-insert_by stop k.event_links (event_header e k) t (E e) (v.family.lists_of e)
          (event_unlisted out e) in
      let k' = event_inserted e t d k in
      (
        d,
        rw (out, eq),
        record {
          family =
              Change-Family
                (record {
                  here = rw (waiters_of-set_self e d.1 k.queue, update_event_self E e xs) is;
                  same = same;
                  others =
                      λ κ ne. (waiters_of-set_ne e κ d.1 k.queue ne, update_event_ne E e κ xs ne);
                  place_ne = λ a ne. ground arith;
                  kept = λ a ne. rw (update_event_self E e xs) (
                    λ i. ground (arith, has-insert_by stop a t (E e)),
                    λ i. ground (arith, has-insert_by stop a t (E e)),
                  );
                  before = λ κ ne p. cc;
                  after = λ κ. rw (update_event_self E e xs) (
                    λ p. (ground arith, ground (arith, has-insert_by stop t t (E e))),
                    λ p. ground arith,
                  );
                })
                v.family (λ κ. EventList-discrete κ e);
          falling =
              update_event_all (λ e' ys. Falling (λ a. (k'.task a).priority) max_priorities ys) E e
                xs
                (Falling-congr (λ a. (k.task a).priority) (λ a. (k'.task a).priority) max_priorities
                  xs (λ a i. ground arith)
                  (Falling-insert (λ a. (k.task a).priority) max_priorities t (E e) (v.falling e)
                    prio))
                (λ e' ne.
                  Falling-congr (λ a. (k.task a).priority) (λ a. (k'.task a).priority)
                    max_priorities (E e') (λ a i. ground arith) (v.falling e'));
        },
      )

  -- A waiting task leaves its event list.
  pub event_list_remove-delete :
      (e : EventList)
      → (k.task t).event_list ≡ some e
      → (event_list_remove t k ≡ done tt (event_removed e t k))
        × EventInv (event_removed e t k) (update_event E e (delete t (E e)))
  unfolding event_list_remove
  event_list_remove-delete e at_e =
      let i : t ∈ E e = v.family.listed e t at_e in
      let xs = delete t (E e) in
      let (d, same, pos) =
        remove-IsDll k.event_links (event_header e k) t (E e) (v.family.lists_of e) i in
      let k' = event_removed e t k in
      (
        rw at_e (ground arith),
        record {
          family =
              Change-Family
                (record {
                  here = rw (waiters_of-set_self e _ k.queue, update_event_self E e xs) d;
                  same = same;
                  others =
                      λ κ ne. (waiters_of-set_ne e κ _ k.queue ne, update_event_ne E e κ xs ne);
                  place_ne = λ a ne. ground arith;
                  kept = λ a ne.
                      rw (update_event_self E e xs)
                        (λ i. has-delete a t (E e) i, λ i. has-delete_ne a t (E e) ne i);
                  before = λ κ ne p. ne (ground arith);
                  after = λ κ. rw (update_event_self E e xs) (
                    λ p. absurd (ground arith),
                    λ p.
                        absurd
                          (ground (arith, not-has-delete t (E e) ((v.family.lists_of e).distinct))),
                  );
                })
                v.family (λ κ. EventList-discrete κ e);
          falling =
              update_event_all (λ e' ys. Falling (λ a. (k'.task a).priority) max_priorities ys) E e
                xs
                (Falling-congr (λ a. (k.task a).priority) (λ a. (k'.task a).priority) max_priorities
                  xs (λ a i. ground arith)
                  (Falling-delete (λ a. (k.task a).priority) max_priorities t (E e) (v.falling e)))
                (λ e' ne.
                  Falling-congr (λ a. (k.task a).priority) (λ a. (k'.task a).priority)
                    max_priorities (E e') (λ a i. ground arith) (v.falling e'));
        },
      )
