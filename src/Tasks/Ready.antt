-- ===== src/Tasks/Ready.antt =====
-- The ready lists of kernel/tasks.c: what insertion and removal do to the state, and that they keep
-- the family of lists.
use mini_free_rtos.Common.{
  ℕ, ◌<◌, ◌≡◌, Option, none, some, true, false, List, [], ◌∷◌, ◌++◌, arith, ◌∈◌, ◌∉◌, has, length,
  if◌then◌else◌, Bool-cases, has-append, update, delete, mem-split, has-delete, has-delete_ne,
  not-has-delete, has-snoc, inl, inr,
}
use native.Mathlib.Decide.{ℕ_discrete}
use mini_free_rtos.Dll
use mini_free_rtos.Dll.{Links, Header, insert_tail}
use mini_free_rtos.Dll.Segment.{IsDll}
use mini_free_rtos.Dll.Refine.{Untouched, insert_tail-append, remove-delete}
use mini_free_rtos.Dll.Family.{Family, Change-Family}
use mini_free_rtos.Trace.{task_ready}
use mini_free_rtos.Kernel.{Kernel, Tcb}
use mini_free_rtos.Kernel.Outcome.{done}
use mini_free_rtos.Port.{with_event, trace_record_lem}
use mini_free_rtos.Tasks.Lists.{ready_list_insert, ready_list_remove}

-- The ready list in which a task says that it stands.
abbrev pub ready_place : (ℕ → Tcb) → ℕ → Option ℕ
ready_place task a = if (task a).in_ready_list then some (task a).priority else none

-- The ready lists stand for the lists `R`, which hold the tasks marked as listed by priority.
abbrev pub ReadyFamily : Kernel → (ℕ → List ℕ) → Type 0
ReadyFamily k R = Family k.ready_links k.ready_lists (ready_place k.task) R

-- The lists are read through the tasks' marks and, of the listed ones, priorities.
pub ReadyFamily-frame :
    (task task' : ℕ → Tcb) {links : Links} {lists : ℕ → Header} {R : ℕ → List ℕ}
    → ((a : ℕ)
        → ((task' a).in_ready_list ≡ (task a).in_ready_list)
          × ((task a).in_ready_list ≡ true → (task' a).priority ≡ (task a).priority))
    → Family links lists (ready_place task) R
    → Family links lists (ready_place task') R
ReadyFamily-frame task task' same f = record {
  lists_of = f.lists_of;
  member = λ p a i. ground (arith, same a, f.member p a i);
  listed = λ p a e. f.listed p a (ground (arith, same a));
}

-- A removal, in terms of `delete`.
pub remove-IsDll :
    (l : Links) (h : Header) (t : ℕ) (xs : List ℕ)
    → IsDll l h xs
    → t ∈ xs
    → let (l', h') = Dll.remove t (l, h) in
      IsDll l' h' (delete t xs) × Untouched t xs l l' × (0 < h.length)
remove-IsDll l h t xs v i =
    let (ys, zs, e, d) = mem-split t xs i in
    let (v', same) = remove-delete l h t ys zs (rw e at v) in
    (
      rw d v',
      λ a ne out. same a ne (
          let out' : a ∉ ys ++ t ∷ zs = rw e at out in
          ground (arith, has-append a ys (t ∷ zs), has-append a ys zs)),
      positive xs v.count i,
    )
  where
    positive : (xs : List ℕ) → h.length ≡ length xs → t ∈ xs → 0 < h.length
    positive [] e i = cc
    positive (x ∷ xs) e i = omega arith

-- The state that `prvReadyListInsert` leaves.
abbrev pub ready_inserted : ℕ → Kernel → Kernel
ready_inserted t k =
    let p = (k.task t).priority in
    let d = insert_tail t (k.ready_links, k.ready_lists p) in
    with_event task_ready (some t) none none p (record k {
      ready_links = d.0;
      ready_lists = update k.ready_lists p d.1;
      task = update k.task t (record (k.task t) { in_ready_list = true });
    })

abbrev pub ready_removed : ℕ → Kernel → Kernel
ready_removed t k =
    let p = (k.task t).priority in
    let d = Dll.remove t (k.ready_links, k.ready_lists p) in
    record k {
      ready_links = d.0;
      ready_lists = update k.ready_lists p d.1;
      task = update k.task t (record (k.task t) { in_ready_list = false });
    }

-- The lists afterwards.
abbrev pub ready_appended : ℕ → Kernel → (ℕ → List ℕ) → ℕ → List ℕ
ready_appended t k R = let p = (k.task t).priority in update R p (R p ++ t ∷ [])

abbrev pub ready_deleted : ℕ → Kernel → (ℕ → List ℕ) → ℕ → List ℕ
ready_deleted t k R = let p = (k.task t).priority in update R p (delete t (R p))

module _ (k : Kernel) (t : ℕ) (R : ℕ → List ℕ) (f : ReadyFamily k R) where
  -- A task that is not listed goes to the end of the list of its priority.
  pub ready_list_insert-append :
      (k.task t).in_ready_list ≡ false
      → (ready_list_insert t k ≡ done tt (ready_inserted t k))
        × ReadyFamily (ready_inserted t k) (ready_appended t k R)
  unfolding ready_list_insert
  ready_list_insert-append out =
      let p = (k.task t).priority in
      let unlisted : t ∉ R p = elim (Bool-cases (has t (R p))) [
        | inl i ↦ (let e = f.member p t i in absurd (ground arith))
        | inr o ↦ o
      ] in
      let (d, same) =
        insert_tail-append k.ready_links (k.ready_lists p) t (R p) (f.lists_of p) unlisted in
      (
        rw out (trace_record_lem task_ready (some t) none none p _),
        Change-Family
            (record {
              here = ground (arith, d);
              same = same;
              others = λ κ ne. (ground arith, ground arith);
              place_ne = λ a ne. ground arith;
              kept = λ a ne. (
                λ i. ground (arith, has-snoc a t (R p) ne),
                λ i. ground (arith, has-snoc a t (R p) ne),
              );
              before = λ κ ne e. ground arith;
              after = λ κ. (
                λ e. (ground arith, ground (arith, has-append t (R p) (t ∷ []))),
                λ e. ground arith,
              );
            })
            f (λ κ. ℕ_discrete κ p),
      )

  -- A listed task leaves the list of its priority.
  pub ready_list_remove-delete :
      (k.task t).in_ready_list ≡ true
      → (ready_list_remove t k ≡ done tt (ready_removed t k))
        × ReadyFamily (ready_removed t k) (ready_deleted t k R)
  unfolding ready_list_remove
  ready_list_remove-delete l =
      let p = (k.task t).priority in
      let i : t ∈ R p = f.listed p t (rw l) in
      let (d, same, pos) = remove-IsDll k.ready_links (k.ready_lists p) t (R p) (f.lists_of p) i in
      (
        ground arith,
        Change-Family
            (record {
              here = ground (arith, d);
              same = same;
              others = λ κ ne. (ground arith, ground arith);
              place_ne = λ a ne. ground arith;
              kept = λ a ne. (
                λ i. ground (arith, has-delete a t (R p)),
                λ i. ground (arith, has-delete_ne a t (R p)),
              );
              before = λ κ ne e. ground arith;
              after = λ κ. (
                λ e. absurd (ground arith),
                λ e. absurd (ground (arith, not-has-delete t (R p) ((f.lists_of p).distinct))),
              );
            })
            f (λ κ. ℕ_discrete κ p),
      )
