-- ===== src/Heap/Fit.antt =====
-- The search of pvPortMalloc: the first free tile that is large enough, and what two free tiles side
-- by side are.
use mini_free_rtos.Common.{
  ℕ, ◌+◌, ◌≤◌, ◌<◌, ◌≡◌, refl, ap, sym, subst, inl, inr, Bool, false, not, ◌&&◌, List, [], ◌∷◌,
  ◌++◌, leb, ◌==◌, arith, ◌∈◌, Bool-cases,
}
use mini_free_rtos.Heap.Tiles.{Tile, free_tile, used_tile, frees, Tiled}

-- No free tile is large enough.
abbrev pub Small : ℕ → List Tile → Type 0
Small total [] = Unit {0}
Small total (t ∷ ts) = (t.used ≡ false → t.size < total) × Small total ts

-- No two free tiles stand side by side.
abbrev pub starts_free : List Tile → Bool
starts_free [] = false
starts_free (t ∷ _) = not t.used

abbrev pub Merged : List Tile → Type 0
Merged [] = Unit {0}
Merged (t ∷ ts) = ((not t.used && starts_free ts) ≡ false) × Merged ts

-- The tile that the search finds.
pub data Fit (total : ℕ) : List Tile → Type 0 where
  none_fits : {ts : List Tile} → Small total ts → Fit total ts
  fits :
      (xs : List Tile) (s : ℕ) (ys : List Tile)
      → Small total xs
      → total ≤ s
      → Fit total (xs ++ free_tile s ∷ ys)

pub free_eq : (t : Tile) → t.used ≡ false → t ≡ free_tile t.size
free_eq t e = ap (λ u. record { size = t.size; used = u }) e

pub first-Fit : (total : ℕ) (ts : List Tile) → Fit total ts
first-Fit total [] = none_fits tt
first-Fit total (t ∷ ts) = elim (Bool-cases (not t.used && leb total t.size)) [
  | inl e ↦
      subst (λ u. Fit total (u ∷ ts)) (sym (free_eq t (ground arith)))
        (fits [] t.size ts tt (ground arith))
  | inr e ↦ later t (λ u. ground arith) (first-Fit total ts)
]
  where
    later :
        {total : ℕ} {ts : List Tile} (t : Tile)
        → (t.used ≡ false → t.size < total)
        → Fit total ts
        → Fit total (t ∷ ts)
    later t small (none_fits all) = none_fits (small, all)
    later t small (fits xs s ys all enough) = fits (t ∷ xs) s ys (small, all) enough

-- The search passes over tiles that are too small.
pub Small-frees :
    (size magic : ℕ → ℕ) (total a : ℕ) (ts : List Tile) (e x : ℕ)
    → Tiled size magic a ts e
    → Small total ts
    → x ∈ frees a ts
    → leb total (size x) ≡ false
Small-frees size magic total a [] e x h small i = cc
Small-frees size magic total a (t ∷ ts) e x h small i =
    let rest = Small-frees size magic total (a + t.size) ts e x h.4 small.1 in
    elim (Bool-cases t.used) [
      | inl u ↦ rest (rw u at i)
      | inr u ↦ elim (Bool-cases (x == a)) [
        | inl q ↦ (let lt = small.0 u in ground (arith, h.0))
        | inr q ↦ rest (ground arith)
      ]
    ]

pub Merged-used :
    (xs : List Tile) (s total : ℕ) (ys rest : List Tile)
    → (Merged (free_tile s ∷ ys) → Merged rest)
    → Merged (xs ++ free_tile s ∷ ys)
    → Merged (xs ++ used_tile total ∷ rest)
Merged-used [] s total ys rest keep m = (refl, keep m)
Merged-used (t ∷ []) s total ys rest keep m = (ground arith, (refl, keep m.1))
Merged-used (t ∷ u ∷ xs) s total ys rest keep m =
    (m.0, Merged-used (u ∷ xs) s total ys rest keep m.1)
