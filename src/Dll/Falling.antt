-- ===== src/Dll/Falling.antt =====
-- Lists ordered by falling numbers, as the event lists of kernel/tasks.c are by priority.
use mini_free_rtos.Common.{
  ℕ, ◌≤◌, ◌≡◌, inl, inr, not, List, [], ◌∷◌, arith, ◌∈◌, Bool-cases, ◌==◌, leb, delete,
}
use mini_free_rtos.Dll.Sorted.{insert_by}

abbrev pub Falling : (ℕ → ℕ) → ℕ → List ℕ → Type 0
Falling key high [] = Unit {0}
Falling key high (x ∷ xs) = (key x ≤ high) × Falling key (key x) xs

pub Falling-insert :
    (key : ℕ → ℕ) (high t : ℕ) (xs : List ℕ)
    → Falling key high xs
    → key t ≤ high
    → Falling key high (insert_by (λ c. not (leb (key t) (key c))) t xs)
Falling-insert key high t [] r h = (h, tt)
Falling-insert key high t (x ∷ xs) r h = elim (Bool-cases (leb (key t) (key x))) [
  | inl e ↦ rw e (r.0, Falling-insert key (key x) t xs r.1 (ground arith))
  | inr e ↦ rw e (h, (ground arith, r.1))
]

Falling-weaken :
    (key : ℕ → ℕ) (high high' : ℕ) (xs : List ℕ)
    → Falling key high xs
    → high ≤ high'
    → Falling key high' xs
Falling-weaken key high high' [] r h = tt
Falling-weaken key high high' (x ∷ xs) r h = (omega arith, r.1)

pub Falling-delete :
    (key : ℕ → ℕ) (high t : ℕ) (xs : List ℕ) → Falling key high xs → Falling key high (delete t xs)
Falling-delete key high t [] r = tt
Falling-delete key high t (x ∷ xs) r = elim (Bool-cases (t == x)) [
  | inl e ↦ rw e (Falling-weaken key (key x) high xs r.1 r.0)
  | inr e ↦ rw e (r.0, Falling-delete key (key x) t xs r.1)
]

pub Falling-congr :
    (key key' : ℕ → ℕ) (high : ℕ) (xs : List ℕ)
    → ((a : ℕ) → a ∈ xs → key' a ≡ key a)
    → Falling key high xs
    → Falling key' high xs
Falling-congr key key' high [] same r = tt
Falling-congr key key' high (x ∷ xs) same r =
    let here = same x (ground arith) in
    (rw here r.0, rw here (Falling-congr key key' (key x) xs (λ a i. same a (ground arith)) r.1))

pub Falling-mem :
    (key : ℕ → ℕ) (high a : ℕ) (xs : List ℕ) → Falling key high xs → a ∈ xs → key a ≤ high
Falling-mem key high a [] r i = cc
Falling-mem key high a (x ∷ xs) r i = ground (arith, Falling-mem key (key x) a xs r.1)
