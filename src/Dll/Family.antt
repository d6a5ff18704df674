-- ===== src/Dll/Family.antt =====
-- Several lists threaded through the same pair of pointers, as the ready lists of all priorities
-- are: a task stands in at most one of them, and says in which.
use mini_free_rtos.Common.{
  ℕ, ◌≡◌, ◌≢◌, ◌↔◌, refl, sym, ◌∙◌, inl, inr, Option, none, some, List, ◌∈◌, ◌∉◌, has, Bool-cases,
  subst,
}
use native.Mathlib.Decide.{ℕ_discrete}
use mini_free_rtos.Dll.{Links, Header}
use mini_free_rtos.Dll.Segment.{IsDll, Seg-frame, SameOn}
use mini_free_rtos.Dll.Refine.{Untouched}

-- A list keeps its meaning when the pointers of its tasks stay.
pub IsDll-frame :
    (l m : Links) (h : Header) (xs : List ℕ) → SameOn xs l m → IsDll l h xs → IsDll m h xs
IsDll-frame l m h xs same v = record {
  chain = Seg-frame l m none xs h.head h.tail none same v.chain;
  count = v.count;
  distinct = v.distinct;
}

-- Every list stands for its tasks, and holds just the tasks that name it as their place.
pub record Family {K : Type 0} (links : Links) (header : K → Header) (place : ℕ → Option K)
    (lists : K → List ℕ) : Type 0 where
  pub lists_of : (κ : K) → IsDll links (header κ) (lists κ)
  pub member : (κ : K) (a : ℕ) → a ∈ lists κ → place a ≡ some κ
  pub listed : (κ : K) (a : ℕ) → place a ≡ some κ → a ∈ lists κ

-- What an operation on the task `t` and the list `κ₀` does to the rest.
pub record Change {K : Type 0} (t : ℕ) (κ₀ : K) (links links' : Links) (header header' : K → Header)
    (place place' : ℕ → Option K) (lists lists' : K → List ℕ) : Type 0 where
  pub here : IsDll links' (header' κ₀) (lists' κ₀)
  pub same : Untouched t (lists κ₀) links links'
  pub others : (κ : K) → κ ≢ κ₀ → (header' κ ≡ header κ) × (lists' κ ≡ lists κ)
  pub place_ne : (a : ℕ) → a ≢ t → place' a ≡ place a
  pub kept : (a : ℕ) → a ≢ t → (a ∈ lists' κ₀) ↔ (a ∈ lists κ₀)
  pub before : (κ : K) → κ ≢ κ₀ → place t ≢ some κ
  pub after : (κ : K) → (place' t ≡ some κ) ↔ ((κ ≡ κ₀) × (t ∈ lists' κ₀))

some_inj : {K : Type 0} {a b : K} → some a ≡ some b → a ≡ b
some_inj e = cc

module _ {K : Type 0} {t : ℕ} {κ₀ : K} {links links' : Links} {header header' : K → Header}
    {place place' : ℕ → Option K} {lists lists' : K → List ℕ}
    (c : Change t κ₀ links links' header header' place place' lists lists')
    (f : Family links header place lists) where
  -- Tasks of another list are neither `t` nor in the list that changes.
  ne_of_other : (κ : K) → κ ≢ κ₀ → (a : ℕ) → a ∈ lists κ → a ≢ t
  ne_of_other κ ne a i e = c.before κ ne (subst (λ b. place b ≡ some κ) e (f.member κ a i))

  not-mem_of_other : (κ : K) → κ ≢ κ₀ → (a : ℕ) → a ∈ lists κ → a ∉ lists κ₀
  not-mem_of_other κ ne a i = elim (Bool-cases (has a (lists κ₀))) [
    | inl j ↦ absurd (ne (some_inj (sym (f.member κ a i) ∙ f.member κ₀ a j)))
    | inr o ↦ o
  ]

  IsDll-other : (κ : K) → κ ≢ κ₀ → IsDll links' (header' κ) (lists' κ)
  IsDll-other κ ne =
      rw ((c.others κ ne).0, (c.others κ ne).1)
        (IsDll-frame links links' (header κ) (lists κ)
          (λ a i. c.same a (ne_of_other κ ne a i) (not-mem_of_other κ ne a i)) (f.lists_of κ))

  member-here : (a : ℕ) → a ∈ lists' κ₀ → place' a ≡ some κ₀
  member-here a i = elim (ℕ_discrete a t) [
    | yes e ↦ rw e ((c.after κ₀).1 (refl, subst (λ b. b ∈ lists' κ₀) e i))
    | no ne ↦ c.place_ne a ne ∙ f.member κ₀ a ((c.kept a ne).0 i)
  ]

  member-other : (κ : K) → κ ≢ κ₀ → (a : ℕ) → a ∈ lists' κ → place' a ≡ some κ
  member-other κ ne a i =
      let j : a ∈ lists κ = subst (λ xs. a ∈ xs) ((c.others κ ne).1) i in
      c.place_ne a (ne_of_other κ ne a j) ∙ f.member κ a j

  listed-here : (a : ℕ) → place' a ≡ some κ₀ → a ∈ lists' κ₀
  listed-here a i = elim (ℕ_discrete a t) [
    | yes e ↦ rw e (((c.after κ₀).0 (subst (λ b. place' b ≡ some κ₀) e i)).1)
    | no ne ↦ (c.kept a ne).1 (f.listed κ₀ a (sym (c.place_ne a ne) ∙ i))
  ]

  listed-other : (κ : K) → κ ≢ κ₀ → (a : ℕ) → place' a ≡ some κ → a ∈ lists' κ
  listed-other κ ne a i = elim (ℕ_discrete a t) [
    | yes e ↦ absurd (ne (((c.after κ).0 (subst (λ b. place' b ≡ some κ) e i)).0))
    | no a_ne ↦
        subst (λ xs. a ∈ xs) (sym ((c.others κ ne).1)) (f.listed κ a (sym (c.place_ne a a_ne) ∙ i))
  ]

  -- Such an operation keeps the lists of the family.
  pub Change-Family : ((κ : K) → Dec (κ ≡ κ₀)) → Family links' header' place' lists'
  Change-Family dec = record {
    lists_of = λ κ. elim (dec κ) [
      | yes e ↦ subst (λ κ. IsDll links' (header' κ) (lists' κ)) (sym e) c.here
      | no ne ↦ IsDll-other κ ne
    ];
    member = λ κ a i. elim (dec κ) [
      | yes e ↦ rw e (member-here a (subst (λ κ. a ∈ lists' κ) e i))
      | no ne ↦ member-other κ ne a i
    ];
    listed = λ κ a i. elim (dec κ) [
      | yes e ↦ rw e (listed-here a (subst (λ κ. place' a ≡ some κ) e i))
      | no ne ↦ listed-other κ ne a i
    ];
  }
