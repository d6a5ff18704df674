-- ===== src/Timers/Served.antt =====
-- kernel/timers.c: what is left to do when one timer that was due has been served.
use mathlib.Core.Bool.{false≢true}
use mini_free_rtos.Common.{
  ℕ, ◌<◌, ◌≡◌, ◌≢◌, refl, ap, ap₂, sym, ◌∙◌, inl, inr, Bool, true, false, not, List, [], ◌∷◌, arith,
  ◌∈◌, has, delete, not-has-delete, Bool-cases, ◌==◌, ◌&&◌, ◌||◌, if◌then◌else◌,
}
use mini_free_rtos.Word.{word, half_word, add32, sub32}
use mini_free_rtos.Timers.{Timer, Timers}
use mini_free_rtos.Timers.Active.{not_positive}
use mini_free_rtos.Timers.Listed.{Listed}
use mini_free_rtos.Timers.Due.{is_due, NoneDue}
use mini_free_rtos.Timers.Leaves.{Leaves}
use mini_free_rtos.Timers.Round.{expired, listed_then}
use mini_free_rtos.Timers.Lateness.{
  lateness, total_lateness, lateness-add32, total_lateness-same, total_lateness-delete,
}

-- The active timers have expiry ticks of 32 bits and valid periods.
abbrev pub Timed : Timers → List ℕ → Type 0
Timed s xs =
    (t : ℕ)
    → t ∈ xs
    → ((s.timer t).expiry_tick < word) × (0 < (s.timer t).period) × ((s.timer t).period < half_word)

-- What is left when no timer is due any more: of the active timers, those that were not due, as they
-- were, and those that reload.
pub record Ended (now : ℕ) (s s' : Timers) (xs ys : List ℕ) : Type 0 where
  pub listed : Listed s' ys
  pub early : NoneDue now s' ys
  pub stays :
      (t : ℕ) → has t ys ≡ (has t xs && (not (is_due now s t) || ((s.timer t).auto_reload == 1)))
  pub untouched : (t : ℕ) → (is_due now s t ≡ false) → s'.timer t ≡ s.timer t
  pub reloads : (t : ℕ) → (s'.timer t).auto_reload ≡ (s.timer t).auto_reload

served :
    {ys : Bool} (xs again late reloads : Bool)
    → ys ≡ (reloads && (not again || reloads))
    → xs ≡ true
    → late ≡ true
    → ys ≡ (xs && (not late || reloads))
served xs again late reloads e i l = ground (arith, e, i, l)

pub not_due :
    (active late reloads : Bool)
    → (active ≡ true → late ≡ false)
    → active ≡ (active && (not late || reloads))
not_due false late reloads early = refl
not_due true late reloads early = rw (early refl) refl

has-delete_same : (u t : ℕ) (xs : List ℕ) → u ≢ t → has u (delete t xs) ≡ has u xs
has-delete_same u t [] ne = refl
has-delete_same u t (x ∷ xs) ne = ground (arith, has-delete_same u t xs)

expired_lem :
    (c : Timer)
    → ((expired c).auto_reload ≡ c.auto_reload)
      × ((expired c).period ≡ c.period)
      × ((expired c).expiry_tick
          ≡ (if c.auto_reload == 1 then add32 c.expiry_tick c.period else c.expiry_tick))
expired_lem c = elim (Bool-cases (c.auto_reload == 1)) [
  | inl e ↦ rw e (refl, refl, refl)
  | inr e ↦ rw e (refl, refl, refl)
]

-- The first timer that is due has been served.
module _ (now : ℕ) (small : now < word) (s s1 : Timers) (xs : List ℕ) (t : ℕ) (l : Listed s xs)
    (i : t ∈ xs) (late : is_due now s t ≡ true) (timed : Timed s xs)
    (r : Leaves s s1 t (expired (s.timer t)) (listed_then (s.timer t) t xs)) where
  -- What is active afterwards.
  active_then :
      (u : ℕ)
      → has u (listed_then (s.timer t) t xs)
        ≡ (if u == t then (s.timer t).auto_reload == 1 else has u xs)
  active_then u = elim (Bool-cases ((s.timer t).auto_reload == 1)) [
    | inl again ↦ rw again (ground (arith, has-delete_same u t xs))
    | inr once ↦ rw once (ground (arith, has-delete_same u t xs, not-has-delete t xs l.distinct))
  ]

  elsewhere : (u : ℕ) → u ≢ t → s1.timer u ≡ s.timer u
  elsewhere u ne = let e = r.timer u in ground (arith, e)

  here : s1.timer t ≡ expired (s.timer t)
  here = let e = r.timer t in ground (arith, e)

  pub Timed-then : Timed s1 (listed_then (s.timer t) t xs)
  Timed-then u j =
      let (auto, period, expiry) = expired_lem (s.timer t) in
      elim (Bool-cases (u == t)) [
        | inl e ↦
            (let same : u ≡ t = ground arith in
              let (old, pos, short) = timed t i in rw same (ground (arith, here, period, expiry)))
        | inr e ↦
            (let kept = elsewhere u (ground arith) in
              let was : u ∈ xs = ground (arith, active_then u) in rw kept (timed u was))
      ]

  pub total-then :
      total_lateness now s1.timer (listed_then (s.timer t) t xs) < total_lateness now s.timer xs
  total-then =
      let gone = total_lateness-delete now s.timer t xs i in
      let rest =
        total_lateness-same now s.timer s1.timer (delete t xs)
          (λ u j. elsewhere u (λ e. absurd (ground (arith, j, not-has-delete t xs l.distinct)))) in
      let (auto, period, expiry) = expired_lem (s.timer t) in
      let (old, pos, short) = timed t i in
      elim (Bool-cases ((s.timer t).auto_reload == 1)) [
        | inl again ↦
            (let moved : (s1.timer t).expiry_tick
                  ≡ add32 (s.timer t).expiry_tick (s.timer t).period =
                ap (λ c. c.expiry_tick) here
                ∙ expiry
                ∙ ap
                    (λ b.
                      if b
                      then add32 (s.timer t).expiry_tick (s.timer t).period
                      else (s.timer t).expiry_tick)
                    again in
              let less =
                lateness-add32 now (s.timer t).expiry_tick (s.timer t).period small old pos short
                  late in
              let first = ap (lateness now) moved in
              rw again (omega (arith, gone, rest, less, first)))
        | inr once ↦
            (let positive : 0 < lateness now (s.timer t).expiry_tick = ground (arith, late) in
              rw once (omega (arith, gone, rest, positive)))
      ]

  due_same : (u : ℕ) → u ≢ t → is_due now s1 u ≡ is_due now s u
  due_same u ne = ap (λ (c : Timer). not_positive (sub32 c.expiry_tick now)) (elsewhere u ne)

  auto_same : (u : ℕ) → (s1.timer u).auto_reload ≡ (s.timer u).auto_reload
  auto_same u = elim (Bool-cases (u == t)) [
    | inl h ↦
        (let same : u ≡ t = ground arith in
          rw same (ap (λ c. c.auto_reload) here ∙ (expired_lem (s.timer t)).0))
    | inr h ↦ ap (λ c. c.auto_reload) (elsewhere u (ground arith))
  ]

  pub Ended-then :
      (s' : Timers) (ys : List ℕ)
      → Ended now s1 s' (listed_then (s.timer t) t xs) ys
      → Ended now s s' xs ys
  Ended-then s' ys e = record {
    listed = e.listed;
    early = e.early;
    stays = λ u.
        (let auto = ap (λ a. a == 1) (auto_same u) in
          elim (Bool-cases (u == t)) [
            | inl h ↦
                (let same : u ≡ t = ground arith in
                  let active : has u (listed_then (s.timer t) t xs)
                      ≡ ((s.timer u).auto_reload == 1) =
                    active_then u
                    ∙ ap (λ b. if b then (s.timer t).auto_reload == 1 else has u xs) h
                    ∙ ap (λ v. (s.timer v).auto_reload == 1) (sym same) in
                  served (has u xs) (is_due now s1 u) (is_due now s u)
                    ((s.timer u).auto_reload == 1)
                    (e.stays u ∙ ap₂ (λ a r. a && (not (is_due now s1 u) || r)) active auto)
                    (ap (λ v. has v xs) same ∙ i) (ap (is_due now s) same ∙ late))
            | inr h ↦
                (let active : has u (listed_then (s.timer t) t xs) ≡ has u xs =
                    active_then u
                    ∙ ap (λ b. if b then (s.timer t).auto_reload == 1 else has u xs) h in
                  e.stays u
                  ∙ ap₂ (λ a r. a && (not (is_due now s1 u) || r)) active auto
                  ∙ ap (λ d. has u xs && (not d || ((s.timer u).auto_reload == 1)))
                      (due_same u (ground arith)))
          ]);
    untouched = λ u n.
        (let ne : u ≢ t = λ same. absurd (false≢true (sym n ∙ ap (is_due now s) same ∙ late)) in
          e.untouched u (due_same u ne ∙ n) ∙ elsewhere u ne);
    reloads = λ u. e.reloads u ∙ auto_same u;
  }
