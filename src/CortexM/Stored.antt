-- ===== src/CortexM/Stored.antt =====
-- portable/cortex_m/port_frame.c: words written to consecutive addresses, as they are read back.
use mini_free_rtos.Common.{
  ℕ, ◌+◌, ◌-◌, ◌*◌, ◌≤◌, ◌<◌, ◌≡◌, refl, ◌∙◌, ◌⊎◌, inl, inr, List, [], ◌∷◌, arith, Bool-cases,
  length, ◌==◌, if◌then◌else◌, update,
}
use mini_free_rtos.CortexM.Frame.{store_words}

-- The word at a position of a list.
abbrev pub word_at : List ℕ → ℕ → ℕ
word_at [] i = 0
word_at (w ∷ ws) i = if i == 0 then w else word_at ws (i - 1)

pub store_words-outside :
    (address : ℕ) (ws : List ℕ) (memory : ℕ → ℕ) (a : ℕ)
    → (a < address) ⊎ (address + 4 * length ws ≤ a)
    → store_words address ws memory a ≡ memory a
unfolding store_words
store_words-outside address [] memory a out = refl
store_words-outside address (w ∷ ws) memory a out =
    let rest = store_words-outside (address + 4) ws (update memory address w) a (ground arith) in
    rest ∙ ground arith

pub store_words-at :
    (address : ℕ) (ws : List ℕ) (memory : ℕ → ℕ) (i : ℕ)
    → i < length ws
    → store_words address ws memory (address + 4 * i) ≡ word_at ws i
unfolding store_words
store_words-at address [] memory i lt = absurd (omega arith)
store_words-at address (w ∷ ws) memory i lt = elim (Bool-cases (i == 0)) [
  | inl e ↦
      (let first : address + 4 * i ≡ address = ground arith in
        rw (e, first)
          (store_words-outside (address + 4) ws (update memory address w) address
              (inl (omega arith))
            ∙ ground arith))
  | inr e ↦
      (let later : address + 4 * i ≡ address + 4 + 4 * (i - 1) = ground arith in
        rw (e, later)
          (store_words-at (address + 4) ws (update memory address w) (i - 1) (ground arith)))
]
