-- ===== src/Heap/Unique.antt =====
-- A heap of kernel/heap_4.c stands for one row of tiles only.
use mini_free_rtos.Common.{
  ℕ, ◌+◌, ◌≤◌, ◌<◌, ◌≡◌, refl, ap, ap₂, sym, subst, inl, inr, Bool, true, false, List, [], ◌∷◌,
  arith, Bool-cases,
}
use mini_free_rtos.Heap.Tiles.{Tile, free_tile, used_tile, span, allocations, Tiled}
use mini_free_rtos.Heap.Fit.{Merged, starts_free}

abbrev pub Positive : List Tile → Type 0
Positive [] = Unit {0}
Positive (t ∷ ts) = (0 < t.size) × Positive ts

pub Tiled-Positive :
    (size magic : ℕ → ℕ) (a : ℕ) (ts : List Tile) (e : ℕ) → Tiled size magic a ts e → Positive ts
Tiled-Positive size magic a [] e h = tt
Tiled-Positive size magic a (t ∷ ts) e h =
    (omega (arith, h.2), Tiled-Positive size magic (a + t.size) ts e h.4)

heads :
    (a n b k : ℕ) (xs ys : List (ℕ × ℕ))
    → ◌≡◌ {A = List (ℕ × ℕ)} ((a, n) ∷ xs) ((b, k) ∷ ys)
    → (a ≡ b) × (n ≡ k) × (xs ≡ ys)
heads a n b k xs ys e =
    let p : ◌≡◌ {A = ℕ × ℕ} (a, n) (b, k) = cc in
    let t : xs ≡ ys = cc in (ap (λ p. p.0) p, ap (λ p. p.1) p, t)

-- The first used tile of a row does not begin before the row does.
first_used :
    (a : ℕ) (ts : List Tile) (b n : ℕ) (r : List (ℕ × ℕ)) → allocations a ts ≡ (b, n) ∷ r → a ≤ b
first_used a [] b n r e = cc
first_used a (t ∷ ts) b n r e = elim (Bool-cases t.used) [
  | inl u ↦
      (let (same, size, rest) = heads a t.size b n (allocations (a + t.size) ts) r (rw u at e) in
        omega arith)
  | inr u ↦ omega (arith, first_used (a + t.size) ts b n r (rw u at e))
]

-- A free tile that a used one or the end follows.
same_size :
    (a r s : ℕ) (ts us : List Tile)
    → starts_free ts ≡ false
    → starts_free us ≡ false
    → r + span ts ≡ s + span us
    → allocations (a + r) ts ≡ allocations (a + s) us
    → r ≡ s
same_size a r s [] [] f g w e = omega arith
same_size a r s [] (u ∷ us) f g w e =
    let used : u.used ≡ true = ground arith in let e' = rw used at e in cc
same_size a r s (t ∷ ts) [] f g w e =
    let used : t.used ≡ true = ground arith in let e' = rw used at e in cc
same_size a r s (t ∷ ts) (u ∷ us) f g w e =
    let used : t.used ≡ true = ground arith in
    let used' : u.used ≡ true = ground arith in
    let (same, size, rest) =
      heads (a + r) t.size (a + s) u.size (allocations (a + r + t.size) ts)
        (allocations (a + s + u.size) us) (rw (used, used') at e) in
    omega arith

abbrev Alike : ℕ → List Tile → List Tile → Type 0
Alike a ts us =
    Positive ts
    → Positive us
    → span ts ≡ span us
    → Merged ts
    → Merged us
    → allocations a ts ≡ allocations a us
    → ts ≡ us

step :
    (a r s : ℕ) (u v : Bool) (ts us : List Tile)
    → ((b : ℕ) → Alike b ts us)
    → Alike a (record { size = r; used = u } ∷ ts) (record { size = s; used = v } ∷ us)
step a r s true true ts us rest p q w m n e =
    let (begin, same, t) = heads a r a s (allocations (a + r) ts) (allocations (a + s) us) e in
    ap₂ (λ x l. used_tile x ∷ l) same
      (rest (a + s) p.1 q.1 (omega arith) m.1 n.1
        (subst (λ x. allocations (a + x) ts ≡ allocations (a + s) us) same t))
step a r s true false ts us rest p q w m n e =
    let l = first_used (a + s) us a r (allocations (a + r) ts) (sym e) in
    absurd (omega (arith, q.0))
step a r s false true ts us rest p q w m n e =
    let l = first_used (a + r) ts a s (allocations (a + s) us) e in absurd (omega (arith, p.0))
step a r s false false ts us rest p q w m n e =
    let same = same_size a r s ts us m.0 n.0 w e in
    ap₂ (λ x l. free_tile x ∷ l) same
      (rest (a + s) p.1 q.1 (omega arith) m.1 n.1
        (subst (λ x. allocations (a + x) ts ≡ allocations (a + s) us) same e))

pub Merged-unique : (a : ℕ) (ts us : List Tile) → Alike a ts us
Merged-unique a [] [] = λ p q w m n e. refl
Merged-unique a [] (u ∷ us) = λ p q w m n e. absurd (omega (arith, q.0))
Merged-unique a (t ∷ ts) [] = λ p q w m n e. absurd (omega (arith, p.0))
Merged-unique a (t ∷ ts) (u ∷ us) =
    step a t.size u.size t.used u.used ts us (λ b. Merged-unique b ts us)
