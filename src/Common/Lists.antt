-- ===== src/Common/Lists.antt =====
-- Lists measured by native numbers, lists of addresses, and arrays as functions.
use Prim.Native.Nat.{ℕ, suc, ◌+◌}
use mathlib.Core.Path.{◌≡◌, refl, ap}
use mathlib.Core.Bool.{Bool, true, false, ◌||◌}
use mathlib.Core.List.{List, [], ◌∷◌, ◌++◌}
use native.Mathlib.Omega.{arith}
use mathlib.Core.Logic.{◌≢◌, inl, inr}
use mathlib.Core.Bool.{false≢true}
use mini_free_rtos.Common.Tests.{◌==◌, if◌then◌else◌, Bool-cases, ==_iff}

module _ {ℓ} {A : Type ℓ} where
  abbrev pub length : List A → ℕ
  length [] = 0
  length (_ ∷ xs) = suc (length xs)

  pub length-append : (xs ys : List A) → length (xs ++ ys) ≡ length xs + length ys
  length-append [] ys = omega arith
  length-append (x ∷ xs) ys = omega (arith, length-append xs ys)

  -- One element of an array is written; the others stay.
  abbrev pub update : (ℕ → A) → ℕ → A → ℕ → A
  update f i v j = if j == i then v else f j

-- Whether an address occurs in a list.
abbrev pub has : ℕ → List ℕ → Bool
has a [] = false
has a (x ∷ xs) = (a == x) || has a xs

infix 40 ◌∈◌ ◌∉◌
abbrev pub ◌∈◌ : ℕ → List ℕ → Type 0
a ∈ xs = has a xs ≡ true

abbrev pub ◌∉◌ : ℕ → List ℕ → Type 0
a ∉ xs = has a xs ≡ false

-- No address occurs twice.
abbrev pub Distinct : List ℕ → Type 0
Distinct [] = Unit {0}
Distinct (x ∷ xs) = (x ∉ xs) × Distinct xs

pub has-append : (a : ℕ) (xs ys : List ℕ) → has a (xs ++ ys) ≡ (has a xs || has a ys)
has-append a [] ys = refl
has-append a (x ∷ xs) ys = ground (arith, has-append a xs ys)

pub Distinct-left : (xs ys : List ℕ) → Distinct (xs ++ ys) → Distinct xs
Distinct-left [] ys d = tt
Distinct-left (x ∷ xs) ys d = (ground (arith, d.0, has-append x xs ys), Distinct-left xs ys d.1)

pub Distinct-right : (xs ys : List ℕ) → Distinct (xs ++ ys) → Distinct ys
Distinct-right [] ys d = d
Distinct-right (x ∷ xs) ys d = Distinct-right xs ys d.1

pub Distinct-apart : (a : ℕ) (xs ys : List ℕ) → Distinct (xs ++ ys) → a ∈ xs → a ∉ ys
Distinct-apart a [] ys d i = ground arith
Distinct-apart a (x ∷ xs) ys d i =
    ground (arith, d.0, has-append a xs ys, Distinct-apart a xs ys d.1)

-- A new address may stand anywhere.
pub Distinct-insert :
    (t : ℕ) (xs ys : List ℕ) → t ∉ xs ++ ys → Distinct (xs ++ ys) → Distinct (xs ++ t ∷ ys)
Distinct-insert t [] ys out d = (out, d)
Distinct-insert t (x ∷ xs) ys out d = (
  ground (arith, d.0, out, has-append x xs ys, has-append x xs (t ∷ ys)),
  Distinct-insert t xs ys (ground arith) d.1,
)

pub Distinct-delete :
    (t : ℕ) (xs ys : List ℕ) → Distinct (xs ++ t ∷ ys) → (t ∉ xs ++ ys) × Distinct (xs ++ ys)
Distinct-delete t [] ys d = d
Distinct-delete t (x ∷ xs) ys d =
    let rest = Distinct-delete t xs ys d.1 in
    (
      ground (arith, d.0, rest.0, has-append x xs (t ∷ ys)),
      (ground (arith, d.0, has-append x xs ys, has-append x xs (t ∷ ys)), rest.1),
    )

-- The list without its first occurrence of an address.
abbrev pub delete : ℕ → List ℕ → List ℕ
delete t [] = []
delete t (x ∷ xs) = if t == x then xs else x ∷ delete t xs

-- An address of a list splits it, and `delete` closes the gap.
pub mem-split :
    (t : ℕ) (xs : List ℕ)
    → t ∈ xs
    → (ys : List ℕ) × (zs : List ℕ) × (xs ≡ ys ++ t ∷ zs) × (delete t xs ≡ ys ++ zs)
mem-split t [] i = absurd (false≢true i)
mem-split t (x ∷ xs) i = elim (Bool-cases (t == x)) [
  | inl here ↦ ([], xs, rw ((==_iff t x).0 here), rw here)
  | inr there ↦
      let (ys, zs, e, d) = mem-split t xs (ground arith) in
      (x ∷ ys, zs, ap (λ l. x ∷ l) e, rw there (ap (λ l. x ∷ l) d))
]

pub has-delete : (a t : ℕ) (xs : List ℕ) → a ∈ delete t xs → a ∈ xs
has-delete a t [] i = i
has-delete a t (x ∷ xs) i = ground (arith, has-delete a t xs)

-- Nothing else is deleted, and the address itself is gone.
pub has-delete_ne : (a t : ℕ) (xs : List ℕ) → a ≢ t → a ∈ xs → a ∈ delete t xs
has-delete_ne a t [] ne i = i
has-delete_ne a t (x ∷ xs) ne i = ground (arith, has-delete_ne a t xs)

pub not-has-delete : (t : ℕ) (xs : List ℕ) → Distinct xs → t ∉ delete t xs
not-has-delete t [] d = refl
not-has-delete t (x ∷ xs) d = ground (arith, not-has-delete t xs d.1)

pub has-snoc : (a t : ℕ) (xs : List ℕ) → a ≢ t → has a (xs ++ t ∷ []) ≡ has a xs
has-snoc a t xs ne = ground (arith, has-append a xs (t ∷ []))

pub delete-cons_self : (t : ℕ) (xs : List ℕ) → delete t (t ∷ xs) ≡ xs
delete-cons_self t xs = ground arith
