-- ===== src/Timers/Lateness.antt =====
-- kernel/timers.c: how late the active timers are, which bounds the rounds of `prvExpireDueTimers`.
use mini_free_rtos.Common.{
  ℕ, ◌+◌, ◌<◌, ◌≡◌, refl, ap, inl, inr, true, List, [], ◌∷◌, arith, ◌∈◌, delete, Bool-cases, ◌==◌,
  if◌then◌else◌,
}
use mini_free_rtos.Word.{word, half_word, add32, sub32}
use mini_free_rtos.Timers.{Timer}
use mini_free_rtos.Timers.Active.{not_positive}

-- One more than the ticks since a timer expired, if it is due.
abbrev pub lateness : ℕ → ℕ → ℕ
lateness now expiry = if not_positive (sub32 expiry now) then sub32 now expiry + 1 else 0

abbrev pub total_lateness : ℕ → (ℕ → Timer) → List ℕ → ℕ
total_lateness now timer [] = 0
total_lateness now timer (t ∷ ts) = lateness now (timer t).expiry_tick + total_lateness now timer ts

-- A period brings a timer that is due forward.
pub lateness-add32 :
    (now expiry period : ℕ)
    → now < word
    → expiry < word
    → 0 < period
    → period < half_word
    → not_positive (sub32 expiry now) ≡ true
    → lateness now (add32 expiry period) < lateness now expiry
lateness-add32 now expiry period hn he pos short due = ground arith

pub total_lateness-same :
    (now : ℕ) (timer timer' : ℕ → Timer) (xs : List ℕ)
    → ((u : ℕ) → u ∈ xs → timer' u ≡ timer u)
    → total_lateness now timer' xs ≡ total_lateness now timer xs
total_lateness-same now timer timer' [] same = refl
total_lateness-same now timer timer' (x ∷ xs) same =
    let here = ap (λ c. lateness now c.expiry_tick) (same x (ground arith)) in
    let rest = total_lateness-same now timer timer' xs (λ u i. same u (ground arith)) in
    omega (arith, here, rest)

pub total_lateness-delete :
    (now : ℕ) (timer : ℕ → Timer) (t : ℕ) (xs : List ℕ)
    → t ∈ xs
    → lateness now (timer t).expiry_tick + total_lateness now timer (delete t xs)
      ≡ total_lateness now timer xs
total_lateness-delete now timer t [] i = cc
total_lateness-delete now timer t (x ∷ xs) i = elim (Bool-cases (t == x)) [
  | inl e ↦ (let same : t ≡ x = ground arith in rw (e, same) refl)
  | inr e ↦
      (let rest = total_lateness-delete now timer t xs (ground arith) in rw e (omega (arith, rest)))
]
