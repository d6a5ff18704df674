-- ===== src/Queues/Fifo.antt =====
-- kernel/queue.c: the storage of a queue as a ring of slots.
use native.Mathlib.Nat.{mul-le-mul_right, mod_self, mod-eq_of_lt}
use mini_free_rtos.Common.{
  ℕ, suc, ◌+◌, ◌-◌, ◌*◌, ◌%◌, ◌≤◌, ◌<◌, ◌≡◌, ◌≢◌, ap, sym, subst, ◌∙◌, inl, inr, ◌⊎◌, List, [], ◌∷◌,
  ◌++◌, arith, length, length-append, Bool-cases, ◌==◌, ltb, if◌then◌else◌,
}
use mini_free_rtos.Word.{word, add32}
use mini_free_rtos.Kernel.{Queue}
use mini_free_rtos.Queues.Messages.{copy_to, put_message, drop_message, first_message}

-- The next index of a ring.
abbrev after : ℕ → ℕ → ℕ
after len i = if i + 1 == len then 0 else i + 1

-- The slots from `t` on hold the messages.
abbrev Slots : (ℕ → ℕ) → ℕ → ℕ → ℕ → List (ℕ → ℕ) → Type 0
Slots storage len size t [] = Unit {0}
Slots storage len size t (m ∷ ms) =
    ((b : ℕ) → b < size → storage (t * size + b) ≡ m b) × Slots storage len size (after len t) ms

-- The index `h` is `n` steps behind `t`.
abbrev Ahead : ℕ → ℕ → ℕ → ℕ → Type 0
Ahead len t n h = (t + n ≡ h) ⊎ (t + n ≡ h + len)

-- The messages of a queue, oldest first.
pub record Holds (c : Queue) (ms : List (ℕ → ℕ)) : Type 0 where
  pub counted : c.count ≡ length ms
  pub fits_in : c.count ≤ c.length
  pub word_sized : c.length < word
  pub tail_bound : c.tail < c.length
  pub head_bound : c.head < c.length
  pub head_place : Ahead c.length c.tail c.count c.head
  pub slots : Slots c.storage c.length c.item_size c.tail ms

-- Different slots do not overlap.
slots_apart :
    (t h size b : ℕ)
    → t ≢ h
    → b < size
    → (t * size + b < h * size) ⊎ (h * size + size ≤ t * size + b)
slots_apart t h size b ne lt = elim (Bool-cases (ltb t h)) [
  | inl e ↦
      (let le : t + 1 ≤ h = ground arith in
        let products = mul-le-mul_right size le in inl (omega (arith, products)))
  | inr e ↦
      (let le : h + 1 ≤ t = ground (arith, ne) in
        let products = mul-le-mul_right size le in inr (omega (arith, products)))
]

next_index : (len i : ℕ) → len < word → i < len → add32 i 1 % len ≡ after len i
next_index len i small lt =
    let whole : (i + 1) % word ≡ i + 1 = omega arith in
    elim (Bool-cases (i + 1 == len)) [
      | inl e ↦
          (let top : i + 1 ≡ len = ground arith in
            rw e (ap (λ x. x % len) (whole ∙ top) ∙ mod_self len))
      | inr e ↦ rw e (ap (λ x. x % len) whole ∙ mod-eq_of_lt (ground arith))
    ]

-- A write to a slot ahead of all messages does not change them.
Slots-frame :
    (storage item : ℕ → ℕ) (len size h t n : ℕ) (ms : List (ℕ → ℕ))
    → t < len
    → h < len
    → n < len
    → length ms ≤ n
    → Ahead len t n h
    → Slots storage len size t ms
    → Slots (copy_to (h * size) size item storage) len size t ms
Slots-frame storage item len size h t n [] tl hl nl few far s = tt
Slots-frame storage item len size h t n (m ∷ ms) tl hl nl few far s =
    let ne : t ≢ h = λ e. absurd (ground arith) in
    (
      λ b lt. (let apart = slots_apart t h size b ne lt in let old = s.0 b lt in ground arith),
      Slots-frame storage item len size h (after len t) (n - 1) ms (ground arith) hl (omega arith)
          (omega arith) (ground arith) s.1,
    )

Slots-snoc :
    (storage m : ℕ → ℕ) (len size h t : ℕ) (ms : List (ℕ → ℕ))
    → t < len
    → h < len
    → length ms < len
    → Ahead len t (length ms) h
    → Slots storage len size t ms
    → ((b : ℕ) → b < size → storage (h * size + b) ≡ m b)
    → Slots storage len size t (ms ++ m ∷ [])
Slots-snoc storage m len size h t [] tl hl few far s new =
    let here : t ≡ h = ground arith in
    (subst (λ i. (b : ℕ) → b < size → storage (i * size + b) ≡ m b) (sym here) new, tt)
Slots-snoc storage m len size h t (x ∷ ms) tl hl few far s new = (
  s.0,
  Slots-snoc storage m len size h (after len t) ms (ground arith) hl (omega arith) (ground arith)
      s.1 new,
)

-- A message goes behind those that a queue holds.
pub put_message-Holds :
    (item : ℕ → ℕ) (c : Queue) (ms : List (ℕ → ℕ))
    → Holds c ms
    → c.count < c.length
    → Holds (put_message item c) (ms ++ item ∷ [])
put_message-Holds item c ms h room =
    let count : c.count ≡ length ms = h.counted in
    let small = h.word_sized in
    let next = next_index c.length c.head small h.head_bound in
    let hb = h.head_bound in
    let tb = h.tail_bound in
    let place = h.head_place in
    let one : add32 c.count 1 ≡ c.count + 1 = omega arith in
    let kept =
      Slots-frame c.storage item c.length c.item_size c.head c.tail (length ms) ms tb hb
        (omega arith) (omega arith) (subst (λ n. Ahead c.length c.tail n c.head) count place)
        h.slots in
    record {
      counted = omega (arith, one, count, length-append ms (item ∷ []));
      fits_in = omega (arith, one);
      word_sized = small;
      tail_bound = tb;
      head_bound = ground (arith, next);
      head_place = ground (arith, next, one);
      slots =
          Slots-snoc (put_message item c).storage item c.length c.item_size c.head c.tail ms tb hb
            (omega arith) (subst (λ n. Ahead c.length c.tail n c.head) count place) kept
            (λ b lt.
              (let place : c.head * c.item_size + b - c.head * c.item_size ≡ b = omega arith in
                ground (arith, place)));
    }

-- The oldest message is read, and leaves.
pub drop_message-Holds :
    (c : Queue) (m : ℕ → ℕ) (ms : List (ℕ → ℕ))
    → Holds c (m ∷ ms)
    → ((b : ℕ) → b < c.item_size → first_message c b ≡ m b) × Holds (drop_message c) ms
drop_message-Holds c m ms h =
    let count : c.count ≡ suc (length ms) = h.counted in
    let small = h.word_sized in
    let next = next_index c.length c.tail small h.tail_bound in
    let hb = h.head_bound in
    let tb = h.tail_bound in
    let place = h.head_place in
    let fit = h.fits_in in
    (
      h.slots.0,
      record {
        counted = omega (arith, count);
        fits_in = omega arith;
        word_sized = small;
        tail_bound = ground (arith, next);
        head_bound = hb;
        head_place = ground (arith, next, count);
        slots = subst (λ i. Slots c.storage c.length c.item_size i ms) (sym next) h.slots.1;
      },
    )
