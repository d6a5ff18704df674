-- ===== src/Timers/Listed.antt =====
-- kernel/timers.c: what the list of active timers stands for, and the two functions that change it.
use mini_free_rtos.Common.{
  ℕ, ◌+◌, ◌≤◌, ◌<◌, ◌≡◌, refl, sym, subst, ◌∙◌, inl, inr, none, some, true, false, List, [], ◌∷◌,
  ◌++◌, arith, ◌∈◌, ◌∉◌, has, has-append, Distinct, Distinct-left, Distinct-apart, Distinct-delete,
  delete, mem-split, has-delete_ne, length, update, Bool-cases, ◌==◌,
}
use mini_free_rtos.Sll.{find_place}
use mini_free_rtos.Sll.Chain.{Chain, Chain-frame, Chain-split, last_or}
use mini_free_rtos.Sll.Search.{find_place-split, relink-Chain}
use mini_free_rtos.Timers.{Timers}
use mini_free_rtos.Timers.Active.{
  linked_in, linked_out, active_timer_insert, active_timer_remove, remove_found, walk_fuel, is_at,
}
use mini_free_rtos.Kernel.{Kernel}
use mini_free_rtos.Kernel.Outcome.{done}

-- The list leads through distinct registered timers; they are those marked as active.
pub record Listed (s : Timers) (xs : List ℕ) : Type 0 where
  pub chain : Chain s.next_active s.active_timers xs none
  pub distinct : Distinct xs
  pub marked : (t : ℕ) → (s.timer t).active ≡ has t xs
  pub known : (t : ℕ) → t ∈ xs → t ∈ s.timer_registry

length-delete : (t : ℕ) (xs : List ℕ) → t ∈ xs → length (delete t xs) + 1 ≡ length xs
length-delete t [] i = cc
length-delete t (x ∷ xs) i = elim (Bool-cases (t == x)) [
  | inl e ↦ rw e (omega arith)
  | inr e ↦ rw e (omega (arith, length-delete t xs (ground arith)))
]

-- Distinct elements of a list are not more than its elements.
length_bound : (xs ys : List ℕ) → Distinct xs → ((t : ℕ) → t ∈ xs → t ∈ ys) → length xs ≤ length ys
length_bound [] ys d sub = omega arith
length_bound (x ∷ xs) ys d sub =
    let rest =
      length_bound xs (delete x ys) d.1
        (λ t i. has-delete_ne t x ys (λ same. ground (arith, d.0)) (sub t (ground arith))) in
    omega (arith, rest, length-delete x ys (sub x (ground arith)))

-- A walk along the list has enough fuel.
pub walk_enough : (s : Timers) (xs : List ℕ) → Listed s xs → length xs < walk_fuel s
walk_enough s xs l = omega (arith, length_bound xs s.timer_registry l.distinct l.known)

-- A registered timer that is not active is inserted at the head.
pub linked_in-Listed :
    (t : ℕ) (s : Timers) (xs : List ℕ)
    → Listed s xs
    → t ∉ xs
    → t ∈ s.timer_registry
    → Listed (linked_in t s) (t ∷ xs)
linked_in-Listed t s xs l out known = record {
  chain = (
    refl,
    subst (λ c. Chain (linked_in t s).next_active c xs none) (ground arith)
        (Chain-frame s.next_active (linked_in t s).next_active s.active_timers xs none
          (λ a i. ground arith) l.chain),
  );
  distinct = (out, l.distinct);
  marked = λ u. ground (arith, l.marked u);
  known = λ u i. ground (arith, l.known u);
}

pub active_timer_insert-Listed :
    (t : ℕ) (k : Kernel) (xs : List ℕ)
    → Listed k.timers xs
    → t ∉ xs
    → t ∈ k.timers.timer_registry
    → (active_timer_insert t k ≡ done tt (record k { timers = linked_in t k.timers }))
      × Listed (linked_in t k.timers) (t ∷ xs)
unfolding active_timer_insert
active_timer_insert-Listed t k xs l out known =
    let inactive : (k.timers.timer t).active ≡ false = l.marked t ∙ out in
    (ground (arith, inactive), linked_in-Listed t k.timers xs l out known)

module _ (t : ℕ) (s : Timers) (ys zs : List ℕ) (l : Listed s (ys ++ t ∷ zs)) where
  search_lem :
      find_place (walk_fuel s) (λ c. c == t) s.next_active none s.active_timers
      ≡ some (last_or none ys, some t)
  search_lem =
      find_place-split (λ c. c == t) (walk_fuel s) s.next_active none s.active_timers ys (t ∷ zs)
        l.chain (walk_enough s (ys ++ t ∷ zs) l)
        (λ x i. (let apart = Distinct-apart x ys (t ∷ zs) l.distinct i in ground arith))
        (ground arith)

  linked_out-Listed : Listed (linked_out t (last_or none ys) s) (ys ++ zs)
  linked_out-Listed =
      let (out, d) = Distinct-delete t ys zs l.distinct in
      let (m, a, b) = Chain-split s.next_active s.active_timers ys (t ∷ zs) none l.chain in
      let s' = linked_out t (last_or none ys) s in
      let apart : (a : ℕ) → a ∈ zs → a ∉ ys = λ a i. elim (Bool-cases (has a ys)) [
        | inl j ↦ (let e = Distinct-apart a ys zs d j in absurd (ground arith))
        | inr o ↦ o
      ] in
      let linked =
        relink-Chain s.next_active s.next_active s.active_timers m (s.next_active t) ys zs a
          (Distinct-left ys zs d) (λ a i. refl) b.1 apart in
      record {
        chain =
            Chain-frame _ s'.next_active s'.active_timers (ys ++ zs) none
              (λ a i. ground (arith, out)) linked;
        distinct = d;
        marked = λ u. ground (arith, l.marked u, has-append u ys (t ∷ zs), has-append u ys zs, out);
        known = λ u i. l.known u (ground (arith, has-append u ys (t ∷ zs), has-append u ys zs));
      }

-- What removing a timer leaves.
pub record Removed (t : ℕ) (s s' : Timers) (xs : List ℕ) : Type 0 where
  pub listed : Listed s' (delete t xs)
  pub timer : (u : ℕ) → s'.timer u ≡ update s.timer t (record (s.timer t) { active = false }) u
  pub registry : s'.timer_registry ≡ s.timer_registry

pub active_timer_remove-Removed :
    (t : ℕ) (k : Kernel) (xs : List ℕ)
    → Listed k.timers xs
    → t ∈ xs
    → (s' : Timers) × (active_timer_remove t k ≡ done tt (record k { timers = s' }))
      × Removed t k.timers s' xs
unfolding active_timer_remove remove_found
active_timer_remove-Removed t k xs l i =
    let (ys, zs, e, d) = mem-split t xs i in
    let l' = subst (Listed k.timers) e l in
    let found = search_lem t k.timers ys zs l' in
    let active : (k.timers.timer t).active ≡ true = l.marked t ∙ i in
    let here : is_at (some t) t ≡ true = ground arith in
    (
      linked_out t (last_or none ys) k.timers,
      rw (active, found, here) refl,
      record {
        listed = subst (Listed _) (sym d) (linked_out-Listed t k.timers ys zs l');
        timer = λ u. refl;
        registry = refl;
      },
    )
