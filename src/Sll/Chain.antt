-- ===== src/Sll/Chain.antt =====
-- What the pointers of a singly linked list stand for.
use mini_free_rtos.Common.{
  ℕ, zero, suc, ◌<◌, ◌≡◌, ◌≢◌, refl, subst, sym, inl, inr, Option, none, some, Bool, List, [], ◌∷◌,
  ◌++◌, arith, ◌∈◌, ◌∉◌, Distinct, length, update, Bool-cases,
}
use mini_free_rtos.Dll.Sorted.{passed, left, first_of}
use mini_free_rtos.Sll.{find_place, link}

-- Following `next` from `cursor` leads through `xs` to `after`.
abbrev pub Chain : (ℕ → Option ℕ) → Option ℕ → List ℕ → Option ℕ → Type 0
Chain next cursor [] after = cursor ≡ after
Chain next cursor (x ∷ xs) after = (cursor ≡ some x) × Chain next (next x) xs after

pub Chain-frame :
    (next next' : ℕ → Option ℕ) (cursor : Option ℕ) (xs : List ℕ) (after : Option ℕ)
    → ((a : ℕ) → a ∈ xs → next' a ≡ next a)
    → Chain next cursor xs after
    → Chain next' cursor xs after
Chain-frame next next' cursor [] after same c = c
Chain-frame next next' cursor (x ∷ xs) after same c = (
  c.0,
  rw (same x (ground arith))
      (Chain-frame next next' (next x) xs after (λ a i. same a (ground arith)) c.1),
)

pub Chain-append :
    (next : ℕ → Option ℕ) (cursor middle : Option ℕ) (xs ys : List ℕ) (after : Option ℕ)
    → Chain next cursor xs middle
    → Chain next middle ys after
    → Chain next cursor (xs ++ ys) after
Chain-append next cursor middle [] ys after c d = rw c d
Chain-append next cursor middle (x ∷ xs) ys after c d =
    (c.0, Chain-append next (next x) middle xs ys after c.1 d)

pub Chain-split :
    (next : ℕ → Option ℕ) (cursor : Option ℕ) (xs ys : List ℕ) (after : Option ℕ)
    → Chain next cursor (xs ++ ys) after
    → (middle : Option ℕ) × Chain next cursor xs middle × Chain next middle ys after
Chain-split next cursor [] ys after c = (cursor, refl, c)
Chain-split next cursor (x ∷ xs) ys after c =
    let (m, d, e) = Chain-split next (next x) xs ys after c.1 in (m, (c.0, d), e)

-- The last element, or what stands before an empty list.
abbrev pub last_or : Option ℕ → List ℕ → Option ℕ
last_or previous [] = previous
last_or previous (x ∷ xs) = last_or (some x) xs

-- With more fuel than elements the search ends at the first element that stops it.
pub find_place_lem :
    (stop : ℕ → Bool) (fuel : ℕ) (next : ℕ → Option ℕ) (previous cursor : Option ℕ) (xs : List ℕ)
    → Chain next cursor xs none
    → length xs < fuel
    → find_place fuel stop next previous cursor
      ≡ some (last_or previous (passed stop xs), first_of stop (left stop xs))
unfolding find_place
find_place_lem stop zero next previous cursor xs c h = absurd (omega arith)
find_place_lem stop (suc fuel) next previous cursor [] c h = rw c
find_place_lem stop (suc fuel) next previous cursor (x ∷ xs) c h =
    rw c.0 (elim (Bool-cases (stop x)) [
      | inl e ↦ rw e
      | inr e ↦ rw e (find_place_lem stop fuel next (some x) (next x) xs c.1 (omega arith))
    ])

link_last :
    (next : ℕ → Option ℕ) (previous cursor : Option ℕ) (x : ℕ) (xs : List ℕ) (after v : Option ℕ)
    → Chain next cursor (x ∷ xs) after
    → Distinct (x ∷ xs)
    → (z : ℕ) × (last_or previous (x ∷ xs) ≡ some z)
      × (z ∈ x ∷ xs)
      × Chain (update next z v) cursor (x ∷ xs) v
link_last next previous cursor x [] after v c d = (x, refl, ground arith, (c.0, ground arith))
link_last next previous cursor x (y ∷ ys) after v c d =
    let (z, last, i, e) = link_last next (some x) (next x) y ys after v c.1 d.1 in
    let ne : x ≢ z = λ same. ground (arith, d.0) in
    let kept : update next z v x ≡ next x = ground arith in
    (z, last, ground arith, (c.0, rw kept e))

-- A write behind the last element, or to the head, ends the list elsewhere; nothing else changes.
pub link-Chain :
    (next : ℕ → Option ℕ) (head : Option ℕ) (xs : List ℕ) (after v : Option ℕ)
    → Chain next head xs after
    → Distinct xs
    → let (head', next') = link (last_or none xs) v (head, next) in
      Chain next' head' xs v × ((a : ℕ) → a ∉ xs → next' a ≡ next a)
link-Chain next head [] after v c d = (refl, λ a out. refl)
link-Chain next head (x ∷ xs) after v c d =
    let (z, last, i, e) = link_last next none head x xs after v c d in
    subst
      (λ o.
        let (head', next') = link o v (head, next) in
        Chain next' head' (x ∷ xs) v × ((a : ℕ) → a ∉ x ∷ xs → next' a ≡ next a))
      (sym last) (e, λ a out. ground arith)
