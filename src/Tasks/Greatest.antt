-- ===== src/Tasks/Greatest.antt =====
-- The search of `prvRecomputeInheritedPriority` of kernel/queue.c over the mutexes.
use mini_free_rtos.Common.{
  ℕ, ◌≤◌, ◌≡◌, ◌⊎◌, inl, inr, refl, sym, subst, ap, ◌∙◌, some, List, [], ◌∷◌, arith, ltb, ◌==◌, ◌∈◌,
  ◌&&◌, Bool-cases, Option-cases,
}
use mini_free_rtos.Dll.Segment.{IsDll}
use mini_free_rtos.Dll.Falling.{Falling, Falling-mem}
use mini_free_rtos.Kernel.{Kernel, receive_waiters, max_priorities}
use mini_free_rtos.Tasks.Priority.{
  Source, no_source, scan_mutexes, inherit_from, inherit_from_waiter,
}
use mini_free_rtos.Tasks.Lists.{event_header}
use mini_free_rtos.Tasks.Invariant.{Inv, View}

-- The task `t` owns the mutex `m`, and `w` is its first waiter.
pub record Lends (k : Kernel) (t m w : ℕ) : Type 0 where
  pub owned : (k.queue m).owner ≡ some t
  pub first : (k.queue m).receive_waiters.head ≡ some w

-- What a search of `ms` that began with `s` has found.
pub record Greatest (k : Kernel) (t : ℕ) (ms : List ℕ) (s r : Source) : Type 0 where
  pub grows : s.inherited_priority ≤ r.inherited_priority
  pub upper : (m w : ℕ) → m ∈ ms → Lends k t m w → (k.task w).priority ≤ r.inherited_priority
  pub attained :
      (r.inherited_priority ≡ s.inherited_priority)
      ⊎ ((m : ℕ) × (w : ℕ) × (m ∈ ms)
          × Lends k t m w
          × ((k.task w).priority ≡ r.inherited_priority))

module _ (k : Kernel) (t : ℕ) where
  -- One round.
  inherit_from-upper :
      (m : ℕ) (s : Source)
      → (s.inherited_priority ≤ (inherit_from k t m s).inherited_priority)
        × ((w : ℕ)
            → Lends k t m w
            → (k.task w).priority ≤ (inherit_from k t m s).inherited_priority)
  unfolding inherit_from inherit_from_waiter
  inherit_from-upper m s = elim (Option-cases (k.queue m).receive_waiters.head) [
    | inl e ↦ (ground arith, λ w l. (let f = l.first in ground arith))
    | inr (w, e) ↦ (ground arith, λ w' l. (let f = l.first in let o = l.owned in ground arith))
  ]

  inherit_from-attained :
      (m : ℕ) (s : Source)
      → ((inherit_from k t m s).inherited_priority ≡ s.inherited_priority)
        ⊎ ((w : ℕ) × Lends k t m w
            × ((k.task w).priority ≡ (inherit_from k t m s).inherited_priority))
  unfolding inherit_from inherit_from_waiter
  inherit_from-attained m s = elim (Option-cases (k.queue m).receive_waiters.head) [
    | inl e ↦ inl (ground arith)
    | inr (w, e) ↦ elim (Option-cases (k.queue m).owner) [
      | inl f ↦ inl (ground arith)
      | inr (o, f) ↦ elim (Bool-cases (o == t && ltb s.inherited_priority (k.task w).priority)) [
        | inl b ↦ inr (w, record { owned = f ∙ ap some (ground arith); first = e }, ground arith)
        | inr b ↦ inl (ground arith)
      ]
    ]
  ]

  scan_mutexes-Greatest_from :
      (ms : List ℕ) (s : Source) → Greatest k t ms s (scan_mutexes k t ms s)
  unfolding scan_mutexes
  scan_mutexes-Greatest_from [] s = record {
    grows = omega arith;
    upper = λ m w i l. cc;
    attained = inl refl;
  }
  scan_mutexes-Greatest_from (m ∷ ms) s =
      let (grows, upper) = inherit_from-upper m s in
      let here = inherit_from-attained m s in
      let r = scan_mutexes-Greatest_from ms (inherit_from k t m s) in
      record {
        grows = (let h = r.grows in omega arith);
        upper = λ m' w i l.
            (let h = r.grows in
              elim (Bool-cases (m' == m)) [
                | inl e ↦
                    (let same : m' ≡ m = ground arith in
                      let b = upper w (subst (λ m. Lends k t m w) same l) in omega arith)
                | inr e ↦ r.upper m' w (ground arith) l
              ]);
        attained = elim r.attained [
          | inl e ↦ elim here [
            | inl e' ↦ inl (e ∙ e')
            | inr (w, l, p) ↦ inr (m, w, ground arith, l, p ∙ sym e)
          ]
          | inr (m', w, i, l, p) ↦ inr (m', w, ground arith, l, p)
        ];
      }

-- In a state with the invariant, the priority that `prvRecomputeInheritedPriority` finds for a
-- task is the greatest of all tasks that wait for a mutex of its: none of them has a higher one,
-- and, unless it is the idle priority, the first waiter of one of the mutexes has just that.
pub scan_mutexes-Greatest :
    (k : Kernel) (low : ℕ) (v : View)
    → Inv k low v
    → (t : ℕ)
    → let r = scan_mutexes k t k.mutex_registry no_source in
      Greatest k t k.mutex_registry no_source r
      × ((m a : ℕ)
          → m ∈ k.mutex_registry
          → (k.queue m).owner ≡ some t
          → a ∈ v.waiting (receive_waiters m)
          → (k.task a).priority ≤ r.inherited_priority)
scan_mutexes-Greatest k low v i t =
    let g = scan_mutexes-Greatest_from k t k.mutex_registry no_source in
    (
      g,
      λ m a here owned waits.
          waiter_bound (v.waiting (receive_waiters m)) m a
            (i.waiting.family.lists_of (receive_waiters m)) (i.waiting.falling (receive_waiters m))
            waits (λ w l. g.upper m w here record { owned = owned; first = l }),
    )
  where
    waiter_bound :
        (xs : List ℕ) (m a : ℕ) {r : ℕ}
        → IsDll k.event_links (event_header (receive_waiters m) k) xs
        → Falling (λ c. (k.task c).priority) max_priorities xs
        → a ∈ xs
        → ((w : ℕ) → (k.queue m).receive_waiters.head ≡ some w → (k.task w).priority ≤ r)
        → (k.task a).priority ≤ r
    waiter_bound [] m a d f h first = cc
    waiter_bound (x ∷ xs) m a d f h first =
        let top = first x d.chain.0 in
        ground (arith, Falling-mem (λ c. (k.task c).priority) (k.task x).priority a xs f.1)
