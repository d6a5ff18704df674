-- ===== src/Dll/Sorted.antt =====
-- The ordered insertions of kernel/tasks.c (`prvDelayListInsert`, `prvEventListInsert`): the search
-- ends, and the task lands in front of the first task that stops it.
use mini_free_rtos.Common.{
  ℕ, zero, suc, ◌<◌, ◌≡◌, refl, ap, inl, inr, Option, none, some, Bool, List, [], ◌∷◌, ◌++◌, arith,
  ◌∈◌, ◌∉◌, has, length, if◌then◌else◌, Bool-cases, ◌||◌, ◌==◌, ltb, ◌≤◌, delete,
}
use mathlib.Core.List.{append-nil}
use mini_free_rtos.Dll.{Links, Header, seek, insert_at, insert_sorted}
use mini_free_rtos.Dll.Segment.{Seg, IsDll}
use mini_free_rtos.Dll.Refine.{Untouched, insert_tail-append, insert_before-insert}

module _ (stop : ℕ → Bool) where
  -- The tasks that the search passes over, and those from the first that stops it on.
  abbrev pub passed : List ℕ → List ℕ
  passed [] = []
  passed (x ∷ xs) = if stop x then [] else x ∷ passed xs

  abbrev pub left : List ℕ → List ℕ
  left [] = []
  left (x ∷ xs) = if stop x then x ∷ xs else left xs

  -- The list with the task `t` in front of the first task that stops the search.
  abbrev pub insert_by : ℕ → List ℕ → List ℕ
  insert_by t xs = passed xs ++ t ∷ left xs

  pub passed-append-left : (xs : List ℕ) → passed xs ++ left xs ≡ xs
  passed-append-left [] = refl
  passed-append-left (x ∷ xs) = ground (arith, passed-append-left xs)

  abbrev pub first_of : List ℕ → Option ℕ
  first_of [] = none
  first_of (x ∷ _) = some x

  -- With more fuel than tasks the search ends at the first task that stops it.
  seek_lem :
      (fuel : ℕ) (l : Links) (before : Option ℕ) (xs : List ℕ) (first last : Option ℕ)
      → Seg l before xs first last none
      → length xs < fuel
      → seek fuel stop l first ≡ some (first_of (left xs))
  unfolding seek
  seek_lem zero l before xs first last s h = absurd (omega arith)
  seek_lem (suc fuel) l before [] first last s h = rw s.0
  seek_lem (suc fuel) l before (x ∷ xs) first last s h = rw s.0 (elim (Bool-cases (stop x)) [
    | inl e ↦ rw (e, seek)
    | inr e ↦ rw (e, seek) (seek_lem fuel l (some x) xs (l.next x) last s.2 (omega arith))
  ])

  -- The insertion returns, and the list that it leaves.
  insert_at_lem :
      (l : Links) (h : Header) (t : ℕ) (ys zs : List ℕ)
      → IsDll l h (ys ++ zs)
      → t ∉ ys ++ zs
      → let (l', h') = insert_at (first_of zs) t (l, h) in
        IsDll l' h' (ys ++ t ∷ zs) × Untouched t (ys ++ zs) l l'
  unfolding insert_at
  insert_at_lem l h t ys [] v out =
      let e = append-nil ys in rw e (insert_tail-append l h t ys (rw e at v) (rw e at out))
  insert_at_lem l h t ys (c ∷ zs) v out = insert_before-insert l h c t ys zs v out

  -- When the pointers stand for a list that lacks the task `t`, the search for the first task at
  -- which `stop` holds ends within its fuel, and afterwards they stand for the list with `t`
  -- before that task, or at the end; the pointers of no other task change.
  pub insert_sorted-insert_by :
      (l : Links) (h : Header) (t : ℕ) (xs : List ℕ)
      → IsDll l h xs
      → t ∉ xs
      → (d : Links × Header) × (insert_sorted stop t (l, h) ≡ some d)
        × IsDll d.0 d.1 (insert_by t xs)
        × Untouched t xs l d.0
  unfolding insert_sorted
  insert_sorted-insert_by l h t xs v out =
      let whole = passed-append-left xs in
      let (v', same) = insert_at_lem l h t (passed xs) (left xs) (rw whole v) (rw whole out) in
      (
        insert_at (first_of (left xs)) t (l, h),
        rw (
          seek_lem (suc h.length) l none xs h.head h.tail v.chain (omega (arith, v.count)),
          insert_sorted,
        ),
        v',
        rw whole at same,
      )

  pub has-insert_by : (a t : ℕ) (xs : List ℕ) → has a (insert_by t xs) ≡ ((a == t) || has a xs)
  has-insert_by a t [] = refl
  has-insert_by a t (x ∷ xs) = ground (arith, has-insert_by a t xs)

-- Searches that stop at the same tasks of a list insert alike.
pub insert_by-congr :
    (stop stop' : ℕ → Bool) (t : ℕ) (xs : List ℕ)
    → ((c : ℕ) → c ∈ xs → stop c ≡ stop' c)
    → insert_by stop t xs ≡ insert_by stop' t xs
insert_by-congr stop stop' t [] same = refl
insert_by-congr stop stop' t (x ∷ xs) same =
    let rest = insert_by-congr stop stop' t xs (λ c i. same c (ground arith)) in
    rw (same x (ground arith))
      (elim (Bool-cases (stop' x)) [ inl e ↦ rw e | inr e ↦ rw e (ap (λ l. x ∷ l) rest) ])

-- Numbers attached to the tasks of a list that do not fall along it, from `low` on.
abbrev pub Rising : (ℕ → ℕ) → ℕ → List ℕ → Type 0
Rising key low [] = Unit {0}
Rising key low (x ∷ xs) = (low ≤ key x) × Rising key (key x) xs

pub Rising-insert :
    (key : ℕ → ℕ) (low t : ℕ) (xs : List ℕ)
    → Rising key low xs
    → low ≤ key t
    → Rising key low (insert_by (λ c. ltb (key t) (key c)) t xs)
Rising-insert key low t [] r h = (h, tt)
Rising-insert key low t (x ∷ xs) r h = elim (Bool-cases (ltb (key t) (key x))) [
  | inl e ↦ rw e (h, (ground arith, r.1))
  | inr e ↦ rw e (r.0, Rising-insert key (key x) t xs r.1 (ground arith))
]

pub Rising-weaken :
    (key : ℕ → ℕ) (low low' : ℕ) (xs : List ℕ) → Rising key low xs → low' ≤ low → Rising key low' xs
Rising-weaken key low low' [] r h = tt
Rising-weaken key low low' (x ∷ xs) r h = (omega arith, r.1)

pub Rising-delete :
    (key : ℕ → ℕ) (low t : ℕ) (xs : List ℕ) → Rising key low xs → Rising key low (delete t xs)
Rising-delete key low t [] r = tt
Rising-delete key low t (x ∷ xs) r = elim (Bool-cases (t == x)) [
  | inl e ↦ rw e (Rising-weaken key (key x) low xs r.1 r.0)
  | inr e ↦ rw e (r.0, Rising-delete key (key x) t xs r.1)
]

-- Every number of the list is at least the first bound.
pub Rising-mem : (key : ℕ → ℕ) (low a : ℕ) (xs : List ℕ) → Rising key low xs → a ∈ xs → low ≤ key a
Rising-mem key low a [] r i = cc
Rising-mem key low a (x ∷ xs) r i = ground (arith, Rising-mem key (key x) a xs r.1)
