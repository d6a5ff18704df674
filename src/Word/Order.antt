-- ===== src/Word/Order.antt =====
-- Wrap-around comparisons agree with the order of the remaining times.
use mini_free_rtos.Common.{ℕ, ◌<◌, ◌≡◌, true, arith, ltb}
use mini_free_rtos.Word.{word, half_word, sub32, tick_before, tick_reached}

-- Two deadlines less than half the counter's range ahead of `now` are compared by what remains of
-- them, also where one of them or both have wrapped.
pub tick_before_lem :
    (now a b : ℕ)
    → now < word
    → a < word
    → b < word
    → sub32 a now < half_word
    → sub32 b now < half_word
    → tick_before a b ≡ ltb (sub32 a now) (sub32 b now)
unfolding tick_before
tick_before_lem now a b hn ha hb ra rb = ground arith

-- A deadline less than half the counter's range ahead has been reached exactly when it is now.
pub tick_reached_lem :
    (now a : ℕ)
    → now < word
    → a < word
    → sub32 a now < half_word
    → (tick_reached now a ≡ true → a ≡ now) × (a ≡ now → tick_reached now a ≡ true)
unfolding tick_reached
tick_reached_lem now a hn ha ra = (λ h. ground arith, λ h. ground arith)
