-- ===== src/Dll/Refine.antt =====
-- The list operations of kernel/tasks.c on the lists of tasks that the pointers stand for.
use mini_free_rtos.Common.{
  ℕ, ◌≡◌, ◌≢◌, refl, Option, none, some, List, [], ◌∷◌, ◌++◌, arith, ◌∉◌, Distinct, length-append,
  Distinct-insert, Distinct-delete,
}
use mathlib.Core.List.{append-nil}
use mini_free_rtos.Dll.{Links, Header, write_if, insert_tail, insert_before, remove, empty}
use mini_free_rtos.Dll.Segment.{Seg, IsDll, Seg-split, field_unless-first_or}
use mini_free_rtos.Dll.Update.{Seg-insert, inserted_same, Seg-remove, removed_same}

-- Outside a list of tasks and the task `t` two sets of links agree.
abbrev pub Untouched : ℕ → List ℕ → Links → Links → Type 0
Untouched t xs l m =
    (a : ℕ) → a ≢ t → a ∉ xs → (m.previous a ≡ l.previous a) × (m.next a ≡ l.next a)

pub IsDll-empty : (l : Links) → IsDll l empty []
IsDll-empty l = record { chain = (refl, refl); count = refl; distinct = tt }

-- `prvReadyListInsert`, and the other insertions where no task stops the search, append the task.
pub insert_tail-append :
    (l : Links) (h : Header) (t : ℕ) (xs : List ℕ)
    → IsDll l h xs
    → t ∉ xs
    → let (l', h') = insert_tail t (l, h) in IsDll l' h' (xs ++ t ∷ []) × Untouched t xs l l'
unfolding insert_tail
insert_tail-append l h t xs v out =
    let e = append-nil xs in
    let r : Seg l h.tail [] none h.tail none = (refl, refl) in
    let d : Distinct (xs ++ []) = rw e v.distinct in
    let o : t ∉ xs ++ [] = rw e out in
    (
      record {
        chain =
            rw (field_unless-first_or l xs h.head h.tail none (some t) v.chain)
              (Seg-insert l t xs [] h.head h.tail h.tail none v.chain r d o);
        count = omega (arith, v.count, length-append xs (t ∷ []));
        distinct = Distinct-insert t xs [] o d;
      },
      λ a ne oa. inserted_same l t xs [] h.head h.tail h.tail none v.chain r a ne (rw e oa),
    )

-- An insertion before the task `c` puts the task in front of it.
pub insert_before-insert :
    (l : Links) (h : Header) (c t : ℕ) (ys zs : List ℕ)
    → IsDll l h (ys ++ c ∷ zs)
    → t ∉ ys ++ c ∷ zs
    → let (l', h') = insert_before c t (l, h) in
      IsDll l' h' (ys ++ t ∷ c ∷ zs) × Untouched t (ys ++ c ∷ zs) l l'
unfolding insert_before
insert_before-insert l h c t ys zs v out =
    let (m, m', s, r) = Seg-split l none ys (c ∷ zs) h.head h.tail none v.chain in
    let left : Seg l none ys h.head (l.previous c) (some c) = rw (r.1, ← r.0) s in
    let right : Seg l (l.previous c) (c ∷ zs) (some c) h.tail none = (refl, refl, r.2) in
    (
      record {
        chain = rw (field_unless-first_or l ys h.head (l.previous c) (some c) (some t) left) (
            Seg-insert l t ys (c ∷ zs) h.head h.tail (l.previous c) (some c) left right v.distinct
              out);
        count = omega (arith, v.count, length-append ys (c ∷ zs), length-append ys (t ∷ c ∷ zs));
        distinct = Distinct-insert t ys (c ∷ zs) out v.distinct;
      },
      inserted_same l t ys (c ∷ zs) h.head h.tail (l.previous c) (some c) left right,
    )

write_if_self : (f : ℕ → Option ℕ) (p : Option ℕ) (a : ℕ) → write_if f p (f a) a ≡ f a
write_if_self f none a = refl
write_if_self f (some i) a = ground arith

-- When the pointers stand for a list with the task `t` in it, afterwards they stand for the list
-- without `t`; the pointers of no task outside change.
pub remove-delete :
    (l : Links) (h : Header) (t : ℕ) (ys zs : List ℕ)
    → IsDll l h (ys ++ t ∷ zs)
    → let (l', h') = remove t (l, h) in IsDll l' h' (ys ++ zs) × Untouched t (ys ++ zs) l l'
unfolding remove
remove-delete l h t ys zs v =
    let (m, m', s, r) = Seg-split l none ys (t ∷ zs) h.head h.tail none v.chain in
    let left : Seg l none ys h.head (l.previous t) (some t) = rw (r.1, ← r.0) s in
    let gone = Distinct-delete t ys zs v.distinct in
    rw (write_if_self l.next (l.previous t) t, write_if_self l.previous (l.next t) t)
      (
        record {
          chain =
              rw (field_unless-first_or l ys h.head (l.previous t) (some t) (l.next t) left) (
                Seg-remove l t ys zs h.head h.tail (l.previous t) (l.next t) left r.2 gone.1
                  gone.0);
          count = omega (arith, v.count, length-append ys (t ∷ zs), length-append ys zs);
          distinct = gone.1;
        },
        removed_same l t ys zs h.head h.tail (l.previous t) (l.next t) left r.2,
      )
