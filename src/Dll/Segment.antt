-- ===== src/Dll/Segment.antt =====
-- Segments of a doubly linked list: what the pointers of kernel/tasks.c stand for.
use mini_free_rtos.Common.{
  ℕ, ◌≡◌, refl, ◌∙◌, Option, none, some, List, [], ◌∷◌, ◌++◌, arith, ◌∈◌, Distinct, length,
}
use mini_free_rtos.Dll.{Links, Header, write_if, field_unless}

-- Following `next` from `first` leads through the tasks `xs`, the last of which is `last`, to
-- `after`; their `previous` pointers lead back to `before`. An empty segment has its two neighbours
-- for its ends.
abbrev pub Seg : Links → Option ℕ → List ℕ → Option ℕ → Option ℕ → Option ℕ → Type 0
Seg l before [] first last after = (first ≡ after) × (last ≡ before)
Seg l before (x ∷ xs) first last after =
    (first ≡ some x) × (l.previous x ≡ before) × Seg l (some x) xs (l.next x) last after

-- Two sets of links that agree on the tasks of a list.
abbrev pub SameOn : List ℕ → Links → Links → Type 0
SameOn xs l m = (a : ℕ) → a ∈ xs → (m.previous a ≡ l.previous a) × (m.next a ≡ l.next a)

pub Seg-frame :
    (l m : Links) (before : Option ℕ) (xs : List ℕ) (first last after : Option ℕ)
    → SameOn xs l m
    → Seg l before xs first last after
    → Seg m before xs first last after
Seg-frame l m before [] first last after same s = s
Seg-frame l m before (x ∷ xs) first last after same s =
    let here = same x (ground arith) in
    (
      s.0,
      here.0 ∙ s.1,
      rw here.1
          (Seg-frame l m (some x) xs (l.next x) last after (λ a i. same a (ground arith)) s.2),
    )

-- Two segments that meet make one, and one splits in two.
pub Seg-append :
    (l : Links) (before : Option ℕ) (xs ys : List ℕ) (first middle middle' last after : Option ℕ)
    → Seg l before xs first middle middle'
    → Seg l middle ys middle' last after
    → Seg l before (xs ++ ys) first last after
Seg-append l before [] ys first middle middle' last after s t = rw (s.0, ← s.1) t
Seg-append l before (x ∷ xs) ys first middle middle' last after s t =
    (s.0, s.1, Seg-append l (some x) xs ys (l.next x) middle middle' last after s.2 t)

pub Seg-split :
    (l : Links) (before : Option ℕ) (xs ys : List ℕ) (first last after : Option ℕ)
    → Seg l before (xs ++ ys) first last after
    → (middle : Option ℕ) × (middle' : Option ℕ) × Seg l before xs first middle middle'
      × Seg l middle ys middle' last after
Seg-split l before [] ys first last after s = (before, first, (refl, refl), s)
Seg-split l before (x ∷ xs) ys first last after s =
    let (m, m', a, b) = Seg-split l (some x) xs ys (l.next x) last after s.2 in
    (m, m', (s.0, s.1, a), b)

-- The last task of a segment that is not empty is one of its tasks.
pub last-mem :
    (l : Links) (before : Option ℕ) (x : ℕ) (xs : List ℕ) (first last after : Option ℕ)
    → Seg l before (x ∷ xs) first last after
    → (z : ℕ) × (last ≡ some z) × (z ∈ x ∷ xs)
last-mem l before x [] first last after s = (x, s.2.1, ground arith)
last-mem l before x (y ∷ xs) first last after s =
    let (z, e, i) = last-mem l (some x) y xs (l.next x) last after s.2 in (z, e, ground arith)

-- What the field `first` of a segment becomes when its neighbour on the right changes.
abbrev pub first_or : List ℕ → Option ℕ → Option ℕ → Option ℕ
first_or [] after first = after
first_or (_ ∷ _) after first = first

-- Writing the last task's `next` gives the segment another neighbour on the right.
pub Seg-set_next :
    (l : Links) (before : Option ℕ) (xs : List ℕ) (first last after after' : Option ℕ)
    → Seg l before xs first last after
    → Distinct xs
    → Seg
        (record l { next = write_if l.next last after' })
        before
        xs
        (first_or xs after' first)
        last
        after'
Seg-set_next l before [] first last after after' s d = (refl, s.1)
Seg-set_next l before (x ∷ []) first last after after' s d =
    (s.0, s.1, (rw s.2.1 (ground arith), s.2.1))
Seg-set_next l before (x ∷ y ∷ xs) first last after after' s d =
    let (z, e, i) = last-mem l (some x) y xs (l.next x) last after s.2 in
    let rest = Seg-set_next l (some x) (y ∷ xs) (l.next x) last after after' s.2 d.1 in
    let kept : write_if l.next last after' x ≡ l.next x = rw e (ground arith) in
    (s.0, s.1, rw kept rest)

-- Writing the first task's `previous` gives the segment another neighbour on the left.
pub Seg-set_previous :
    (l : Links) (before before' : Option ℕ) (xs : List ℕ) (first last : Option ℕ)
    → Seg l before xs first last none
    → Distinct xs
    → Seg
        (record l { previous = write_if l.previous first before' })
        before'
        xs
        first
        (field_unless first before' last)
        none
Seg-set_previous l before before' [] first last s d = (s.0, rw s.0)
Seg-set_previous l before before' (x ∷ xs) first last s d = (
  s.0,
  rw s.0 (ground arith),
  rw s.0 (Seg-frame l _ (some x) xs (l.next x) last none (λ a i. (ground arith, refl)) s.2),
)

-- Without a left neighbour a segment is empty exactly when it has no last task.
pub field_unless-first_or :
    (l : Links) (xs : List ℕ) (first last after v : Option ℕ)
    → Seg l none xs first last after
    → field_unless last v first ≡ first_or xs v first
field_unless-first_or l [] first last after v s = rw s.1
field_unless-first_or l (x ∷ xs) first last after v s =
    let (z, e, i) = last-mem l none x xs first last after s in rw e

-- A header and the links of its list stand for a list of tasks.
pub record IsDll (l : Links) (h : Header) (xs : List ℕ) : Type 0 where
  pub chain : Seg l none xs h.head h.tail none
  pub count : h.length ≡ length xs
  pub distinct : Distinct xs
