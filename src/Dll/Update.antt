-- ===== src/Dll/Update.antt =====
-- The pointer code of kernel/tasks.c against the lists that the pointers stand for.
use mini_free_rtos.Common.{
  ℕ, ◌≡◌, ◌≢◌, refl, ◌∙◌, Option, none, some, List, [], ◌∷◌, ◌++◌, arith, update, ◌∈◌, ◌∉◌,
  Distinct, has-append, Distinct-left, Distinct-right, Distinct-apart,
}
use mini_free_rtos.Dll.{Links, write_if, field_unless}
use mini_free_rtos.Dll.Segment.{
  Seg, Seg-frame, Seg-append, last-mem, first_or, Seg-set_next, Seg-set_previous,
}

pub write_if_miss :
    (f : ℕ → Option ℕ) (p v : Option ℕ) (a : ℕ) → p ≢ some a → write_if f p v a ≡ f a
write_if_miss f none v a h = refl
write_if_miss f (some i) v a h = ground arith

-- A pointer to a task outside a list, or NULL.
abbrev pub Misses : Option ℕ → List ℕ → Type 0
Misses p xs = (a : ℕ) → a ∈ xs → p ≢ some a

-- The ends of a segment point into it.
pub last-Misses :
    (l : Links) (xs zs : List ℕ) (first last after : Option ℕ)
    → Seg l none xs first last after
    → ((a : ℕ) → a ∈ xs → a ∉ zs)
    → Misses last zs
last-Misses l [] zs first last after s apart a i e = cc
last-Misses l (x ∷ xs) zs first last after s apart a i e =
    let (z, e', j) = last-mem l none x xs first last after s in ground (arith, apart z)

pub first-Misses :
    (l : Links) (before : Option ℕ) (xs zs : List ℕ) (first last : Option ℕ)
    → Seg l before xs first last none
    → ((a : ℕ) → a ∈ zs → a ∉ xs)
    → Misses first zs
first-Misses l before [] zs first last s apart a i e = cc
first-Misses l before (x ∷ xs) zs first last s apart a i e = ground (arith, apart x)

-- A task `t` from outside goes between two segments that meet.
module _ (l : Links) (t : ℕ) (ys zs : List ℕ) (first last m m' : Option ℕ) where
  abbrev pub inserted : Links
  inserted = record {
    previous = write_if (update l.previous t m) m' (some t);
    next = write_if (update l.next t m') m (some t);
  }

  pub Seg-insert :
      Seg l none ys first m m'
      → Seg l m zs m' last none
      → Distinct (ys ++ zs)
      → t ∉ ys ++ zs
      → Seg inserted none
          (ys ++ t ∷ zs)
          (first_or ys (some t) first)
          (field_unless m' (some t) last)
          none
  Seg-insert s r d out =
      let out_ys : t ∉ ys = ground (arith, has-append t ys zs) in
      let out_zs : t ∉ zs = ground (arith, has-append t ys zs) in
      let l1 : Links = record { previous = update l.previous t m; next = update l.next t m' } in
      let s1 = Seg-frame l l1 none ys first m m' (λ a i. (ground arith, ground arith)) s in
      let r1 = Seg-frame l l1 m zs m' last none (λ a i. (ground arith, ground arith)) r in
      let apart = λ (a : ℕ) (i : a ∈ ys). Distinct-apart a ys zs d i in
      let apart' = λ (a : ℕ) (i : a ∈ zs). (let x : a ∉ ys = ground (arith, apart a) in x) in
      let m_zs = last-Misses l ys zs first m m' s apart in
      let m'_ys = first-Misses l m zs ys m' last r apart in
      let m_t = last-Misses l ys (t ∷ []) first m m' s (λ a i. ground arith) in
      let m'_t = first-Misses l m zs (t ∷ []) m' last r (λ a i. ground arith) in
      let s2 = Seg-set_next l1 none ys first m m' (some t) s1 (Distinct-left ys zs d) in
      let r2 = Seg-set_previous l1 m (some t) zs m' last r1 (Distinct-right ys zs d) in
      let s3 =
        Seg-frame _ inserted none ys (first_or ys (some t) first) m (some t)
          (λ a i. (write_if_miss _ m' (some t) a (m'_ys a i), refl)) s2 in
      let r3 =
        Seg-frame _ inserted (some t) zs m' (field_unless m' (some t) last) none
          (λ a i. (refl, write_if_miss _ m (some t) a (m_zs a i))) r2 in
      let previous_t : inserted.previous t ≡ m =
        write_if_miss _ m' (some t) t (m'_t t (ground arith)) ∙ ground arith in
      let next_t : inserted.next t ≡ m' =
        write_if_miss _ m (some t) t (m_t t (ground arith)) ∙ ground arith in
      Seg-append inserted none ys (t ∷ zs) _ m (some t) _ none s3 (refl, previous_t, rw next_t r3)

  -- No other task's pointers change.
  pub inserted_same :
      Seg l none ys first m m'
      → Seg l m zs m' last none
      → (a : ℕ) → a ≢ t
      → a ∉ ys ++ zs
      → (inserted.previous a ≡ l.previous a) × (inserted.next a ≡ l.next a)
  inserted_same s r a ne out =
      let out_ys : a ∉ ys = ground (arith, has-append a ys zs) in
      let out_zs : a ∉ zs = ground (arith, has-append a ys zs) in
      (
        write_if_miss _ m' (some t) a
              (first-Misses l m zs (a ∷ []) m' last r (λ b i. ground arith) a (ground arith))
            ∙ ground arith,
        write_if_miss _ m (some t) a
              (last-Misses l ys (a ∷ []) first m m' s (λ b i. ground arith) a (ground arith))
            ∙ ground arith,
      )

-- A task `t` leaves the list in which it stands between two segments.
module _ (l : Links) (t : ℕ) (ys zs : List ℕ) (first last m m' : Option ℕ) where
  abbrev pub removed : Links
  removed = record {
    previous = update (write_if l.previous m' m) t none;
    next = update (write_if l.next m m') t none;
  }

  pub Seg-remove :
      Seg l none ys first m (some t)
      → Seg l (some t) zs m' last none
      → Distinct (ys ++ zs)
      → t ∉ ys ++ zs
      → Seg removed none (ys ++ zs) (first_or ys m' first) (field_unless m' m last) none
  Seg-remove s r d out =
      let out_ys : t ∉ ys = ground (arith, has-append t ys zs) in
      let out_zs : t ∉ zs = ground (arith, has-append t ys zs) in
      let apart = λ (a : ℕ) (i : a ∈ ys). Distinct-apart a ys zs d i in
      let apart' = λ (a : ℕ) (i : a ∈ zs). (let x : a ∉ ys = ground (arith, apart a) in x) in
      let m_zs = last-Misses l ys zs first m (some t) s apart in
      let m'_ys = first-Misses l (some t) zs ys m' last r apart in
      let s1 = Seg-set_next l none ys first m (some t) m' s (Distinct-left ys zs d) in
      let r1 = Seg-set_previous l (some t) m zs m' last r (Distinct-right ys zs d) in
      let s2 =
        Seg-frame _ removed none ys (first_or ys m' first) m m'
          (λ a i. (ground arith ∙ write_if_miss l.previous m' m a (m'_ys a i), ground arith)) s1 in
      let r2 =
        Seg-frame _ removed m zs m' (field_unless m' m last) none
          (λ a i. (ground arith, ground arith ∙ write_if_miss l.next m m' a (m_zs a i))) r1 in
      Seg-append removed none ys zs _ m m' _ none s2 r2

  pub removed_same :
      Seg l none ys first m (some t)
      → Seg l (some t) zs m' last none
      → (a : ℕ) → a ≢ t
      → a ∉ ys ++ zs
      → (removed.previous a ≡ l.previous a) × (removed.next a ≡ l.next a)
  removed_same s r a ne out =
      let out_ys : a ∉ ys = ground (arith, has-append a ys zs) in
      let out_zs : a ∉ zs = ground (arith, has-append a ys zs) in
      (
        ground arith
            ∙ write_if_miss l.previous m' m a (
                first-Misses l (some t) zs (a ∷ []) m' last r (λ b i. ground arith) a
                  (ground arith)),
        ground arith
            ∙ write_if_miss l.next m m' a (
                last-Misses l ys (a ∷ []) first m (some t) s (λ b i. ground arith) a
                  (ground arith)),
      )
