-- ===== src/Sll/Search.antt =====
-- A search along a singly linked list, and a change of what is behind its first part.
use mini_free_rtos.Common.{
  ℕ, ◌<◌, ◌≡◌, refl, ap, ap₂, ◌∙◌, Option, none, some, Bool, true, false, List, [], ◌∷◌, ◌++◌,
  arith, ◌∈◌, ◌∉◌, Distinct, length,
}
use mini_free_rtos.Dll.Sorted.{passed, left, first_of}
use mini_free_rtos.Sll.{find_place, link}
use mini_free_rtos.Sll.Chain.{Chain, Chain-frame, Chain-append, link-Chain, last_or, find_place_lem}

-- The first element of a list stops a search.
abbrev pub Stops : (ℕ → Bool) → List ℕ → Type 0
Stops stop [] = Unit {0}
Stops stop (y ∷ _) = stop y ≡ true

passed_split :
    (stop : ℕ → Bool) (xs ys : List ℕ)
    → ((x : ℕ) → x ∈ xs → stop x ≡ false)
    → Stops stop ys
    → (passed stop (xs ++ ys) ≡ xs) × (left stop (xs ++ ys) ≡ ys)
passed_split stop [] [] over at_ys = (refl, refl)
passed_split stop [] (y ∷ ys) over at_ys = (rw at_ys, rw at_ys)
passed_split stop (x ∷ xs) ys over at_ys =
    let (p, l) = passed_split stop xs ys (λ x i. over x (ground arith)) at_ys in
    let e = over x (ground arith) in (rw e (ap (λ l. x ∷ l) p), rw e l)

-- A search that stops behind `xs`.
pub find_place-split :
    (stop : ℕ → Bool) (fuel : ℕ) (next : ℕ → Option ℕ) (previous cursor : Option ℕ) (xs ys : List ℕ)
    → Chain next cursor (xs ++ ys) none
    → length (xs ++ ys) < fuel
    → ((x : ℕ) → x ∈ xs → stop x ≡ false)
    → Stops stop ys
    → find_place fuel stop next previous cursor ≡ some (last_or previous xs, first_of stop ys)
find_place-split stop fuel next previous cursor xs ys c enough over at_ys =
    let (p, l) = passed_split stop xs ys over at_ys in
    find_place_lem stop fuel next previous cursor (xs ++ ys) c enough
    ∙ ap₂ (λ zs ws. some (last_or previous zs, first_of stop ws)) p l

-- A list whose first part stays gets another second part.
pub relink-Chain :
    (next next' : ℕ → Option ℕ) (head after v : Option ℕ) (xs zs : List ℕ)
    → Chain next head xs after
    → Distinct xs
    → ((a : ℕ) → a ∈ xs → next' a ≡ next a)
    → Chain next' v zs none
    → ((a : ℕ) → a ∈ zs → a ∉ xs)
    → let (head', next'') = link (last_or none xs) v (head, next') in
      Chain next'' head' (xs ++ zs) none
relink-Chain next next' head after v xs zs c d same new apart =
    let (l, others) =
      link-Chain next' head xs after v (Chain-frame next next' head xs after same c) d in
    Chain-append _ _ v xs zs none l
      (Chain-frame next' _ v zs none (λ a i. others a (apart a i)) new)

-- The chain of what stands behind the first free tiles.
pub Chain-first :
    (next : ℕ → Option ℕ) (stop : ℕ → Bool) (cursor : Option ℕ) (xs : List ℕ)
    → Chain next cursor xs none
    → cursor ≡ first_of stop xs
Chain-first next stop cursor [] c = c
Chain-first next stop cursor (x ∷ xs) c = c.0
