-- ===== src/Heap/Tiles.antt =====
-- The heap of kernel/heap_2.c and kernel/heap_4.c as a row of tiles, free and used, that cover it.
use mini_free_rtos.Common.{
  ℕ, ◌+◌, ◌*◌, ◌%◌, ◌≤◌, ◌<◌, ◌≡◌, ap, subst, ◌∙◌, inl, inr, ◌⊎◌, Bool, true, false, List, [], ◌∷◌,
  ◌++◌, ◌==◌, if◌then◌else◌, arith, ◌∈◌, has, Distinct, length, Bool-cases,
}
use mini_free_rtos.Heap.{byte_alignment}
use mini_free_rtos.Heap.Blocks.{free_mark, allocated_mark, least_size}

pub record Tile : Type 0 where
  pub size : ℕ
  pub used : Bool

abbrev pub free_tile : ℕ → Tile
free_tile s = record { size = s; used = false }

abbrev pub used_tile : ℕ → Tile
used_tile s = record { size = s; used = true }

abbrev pub mark : Bool → ℕ
mark b = if b then allocated_mark else free_mark

-- The bytes that tiles cover, and those of the free ones.
abbrev pub span : List Tile → ℕ
span [] = 0
span (t ∷ ts) = t.size + span ts

abbrev pub free_total : List Tile → ℕ
free_total [] = 0
free_total (t ∷ ts) = (if t.used then 0 else t.size) + free_total ts

-- Where the free tiles begin, and where the used ones do and how long they are, given where the first
-- tile begins.
abbrev pub frees : ℕ → List Tile → List ℕ
frees a [] = []
frees a (t ∷ ts) = let rest = frees (a + t.size) ts in if t.used then rest else a ∷ rest

abbrev pub allocations : ℕ → List Tile → List (ℕ × ℕ)
allocations a [] = []
allocations a (t ∷ ts) =
    let rest = allocations (a + t.size) ts in if t.used then (a, t.size) ∷ rest else rest

-- The headers of the tiles, from the address `a` on, up to `e`.
abbrev pub Tiled : (ℕ → ℕ) → (ℕ → ℕ) → ℕ → List Tile → ℕ → Type 0
Tiled size magic a [] e = a ≡ e
Tiled size magic a (t ∷ ts) e =
    (size a ≡ t.size)
    × (magic a ≡ mark t.used)
    × (least_size ≤ t.size)
    × (t.size % byte_alignment ≡ 0)
    × Tiled size magic (a + t.size) ts e

pub Tiled-end :
    (size magic : ℕ → ℕ) (a : ℕ) (ts : List Tile) (e : ℕ)
    → Tiled size magic a ts e
    → a + span ts ≡ e
Tiled-end size magic a [] e h = omega arith
Tiled-end size magic a (t ∷ ts) e h = omega (arith, Tiled-end size magic (a + t.size) ts e h.4)

-- Only the headers between the two ends matter.
pub Tiled-frame :
    (size size' magic magic' : ℕ → ℕ) (a : ℕ) (ts : List Tile) (e : ℕ)
    → ((x : ℕ) → a ≤ x → x < e → (size' x ≡ size x) × (magic' x ≡ magic x))
    → Tiled size magic a ts e
    → Tiled size' magic' a ts e
Tiled-frame size size' magic magic' a [] e same h = h
Tiled-frame size size' magic magic' a (t ∷ ts) e same h =
    let ends = Tiled-end size magic (a + t.size) ts e h.4 in
    let here = same a (omega arith) (omega arith) in
    (
      here.0 ∙ h.0,
      here.1 ∙ h.1,
      h.2,
      h.3,
      Tiled-frame size size' magic magic' (a + t.size) ts e (λ x l g. same x (omega arith) g) h.4,
    )

pub Tiled-split :
    (size magic : ℕ → ℕ) (a : ℕ) (xs ys : List Tile) (e : ℕ)
    → Tiled size magic a (xs ++ ys) e
    → Tiled size magic a xs (a + span xs) × Tiled size magic (a + span xs) ys e
Tiled-split size magic a [] ys e h =
    (omega arith, subst (λ b. Tiled size magic b ys e) (omega arith) h)
Tiled-split size magic a (t ∷ xs) ys e h =
    let (l, r) = Tiled-split size magic (a + t.size) xs ys e h.4 in
    let same : a + t.size + span xs ≡ a + (t.size + span xs) = omega arith in
    (
      (h.0, h.1, h.2, h.3, subst (λ b. Tiled size magic (a + t.size) xs b) same l),
      subst (λ b. Tiled size magic b ys e) same r,
    )

pub Tiled-append :
    (size magic : ℕ → ℕ) (a : ℕ) (xs ys : List Tile) (b e : ℕ)
    → Tiled size magic a xs b
    → Tiled size magic b ys e
    → Tiled size magic a (xs ++ ys) e
Tiled-append size magic a [] ys b e l r = rw l r
Tiled-append size magic a (t ∷ xs) ys b e l r =
    (l.0, l.1, l.2, l.3, Tiled-append size magic (a + t.size) xs ys b e l.4 r)

pub frees-append :
    (a : ℕ) (xs ys : List Tile) → frees a (xs ++ ys) ≡ frees a xs ++ frees (a + span xs) ys
frees-append a [] ys = ap (λ b. frees b ys) (omega arith)
frees-append a (t ∷ xs) ys =
    let rest =
      frees-append (a + t.size) xs ys
      ∙ ap (λ b. frees (a + t.size) xs ++ frees b ys) (omega arith) in
    elim (Bool-cases t.used) [ inl e ↦ rw e rest | inr e ↦ rw e (ap (λ l. a ∷ l) rest) ]

pub allocations-append :
    (a : ℕ) (xs ys : List Tile)
    → allocations a (xs ++ ys) ≡ allocations a xs ++ allocations (a + span xs) ys
allocations-append a [] ys = ap (λ b. allocations b ys) (omega arith)
allocations-append a (t ∷ xs) ys =
    let rest =
      allocations-append (a + t.size) xs ys
      ∙ ap (λ b. allocations (a + t.size) xs ++ allocations b ys) (omega arith) in
    elim (Bool-cases t.used) [ inl e ↦ rw e (ap (λ l. (a, t.size) ∷ l) rest) | inr e ↦ rw e rest ]

pub free_total-append : (xs ys : List Tile) → free_total (xs ++ ys) ≡ free_total xs + free_total ys
free_total-append [] ys = omega arith
free_total-append (t ∷ xs) ys = omega (arith, free_total-append xs ys)

pub span-append : (xs ys : List Tile) → span (xs ++ ys) ≡ span xs + span ys
span-append [] ys = omega arith
span-append (t ∷ xs) ys = omega (arith, span-append xs ys)

pub free_total_bound : (ts : List Tile) → free_total ts ≤ span ts
free_total_bound [] = omega arith
free_total_bound (t ∷ ts) = let rest = free_total_bound ts in ground arith

-- The free tiles begin between the ends, so none begins where another one does.
pub frees_range :
    (size magic : ℕ → ℕ) (a : ℕ) (ts : List Tile) (e x : ℕ)
    → Tiled size magic a ts e
    → x ∈ frees a ts
    → (a ≤ x) × (x < e)
frees_range size magic a [] e x h i = cc
frees_range size magic a (t ∷ ts) e x h i =
    let ends = Tiled-end size magic (a + t.size) ts e h.4 in
    let least = h.2 in
    let rest = frees_range size magic (a + t.size) ts e x h.4 in
    elim (Bool-cases t.used) [
      | inl u ↦ (let (lo, hi) = rest (rw u at i) in (omega arith, omega arith))
      | inr u ↦ elim (Bool-cases (x == a)) [
        | inl q ↦ (ground arith, ground arith)
        | inr q ↦ (let (lo, hi) = rest (ground arith) in (omega arith, omega arith))
      ]
    ]

pub frees-Distinct :
    (size magic : ℕ → ℕ) (a : ℕ) (ts : List Tile) (e : ℕ)
    → Tiled size magic a ts e
    → Distinct (frees a ts)
frees-Distinct size magic a [] e h = tt
frees-Distinct size magic a (t ∷ ts) e h =
    let rest = frees-Distinct size magic (a + t.size) ts e h.4 in
    let least = h.2 in
    elim (Bool-cases t.used) [
      | inl u ↦ rw u rest
      | inr u ↦ rw u (elim (Bool-cases (has a (frees (a + t.size) ts))) [
        | inl i ↦
            (let (lo, hi) = frees_range size magic (a + t.size) ts e a h.4 i in
              absurd (omega arith))
        | inr o ↦ (o, rest)
      ])
    ]

-- There are far fewer free tiles than bytes.
pub frees_length :
    (size magic : ℕ → ℕ) (a : ℕ) (ts : List Tile) (e : ℕ)
    → Tiled size magic a ts e
    → a + 2 * length (frees a ts) ≤ e
frees_length size magic a [] e h = omega arith
frees_length size magic a (t ∷ ts) e h =
    let rest = frees_length size magic (a + t.size) ts e h.4 in
    let least = h.2 in
    elim (Bool-cases t.used) [ inl u ↦ rw u (omega arith) | inr u ↦ rw u (omega arith) ]

-- Tiles that cover the same bytes take the place of others.
pub Tiled-replace :
    (size size' magic magic' : ℕ → ℕ) (xs middle middle' ys : List Tile) (e : ℕ)
    → Tiled size magic 0 (xs ++ (middle ++ ys)) e
    → ((x : ℕ)
        → (x < span xs) ⊎ (span xs + span middle ≤ x)
        → (size' x ≡ size x) × (magic' x ≡ magic x))
    → Tiled size' magic' (span xs) middle' (span xs + span middle)
    → Tiled size' magic' 0 (xs ++ (middle' ++ ys)) e
Tiled-replace size size' magic magic' xs middle middle' ys e h same new =
    let (l, r) = Tiled-split size magic 0 xs (middle ++ ys) e h in
    let (m, r') = Tiled-split size magic (0 + span xs) middle ys e r in
    let begin : 0 + span xs ≡ span xs = omega arith in
    Tiled-append size' magic' 0 xs (middle' ++ ys) (span xs) e
      (Tiled-frame size size' magic magic' 0 xs (span xs) (λ x l g. same x (inl g))
        (subst (λ b. Tiled size magic 0 xs b) begin l))
      (Tiled-append size' magic' (span xs) middle' ys (span xs + span middle) e new (
        Tiled-frame size size' magic magic' (span xs + span middle) ys e (λ x l g. same x (inr l))
          (subst (λ b. Tiled size magic (b + span middle) ys e) begin r')))
