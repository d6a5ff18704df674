-- ===== src/CortexM/Moves.antt =====
-- portable/cortex_m/freestanding.c: what its functions do to memory, without loops.
use mini_free_rtos.Common.{
  ℕ, zero, suc, ◌+◌, ◌-◌, ◌≤◌, ◌<◌, ◌≡◌, sym, ◌∙◌, ◌⊎◌, inl, inr, arith, Bool-cases, ltb, leb, ◌&&◌,
  if◌then◌else◌, update,
}
use mini_free_rtos.CortexM.Memory.{copy_up, memcpy, copy_down, memmove}

-- The bytes from `destination + from` on are those from `source + from` on, before the call.
abbrev pub moved : (ℕ → ℕ) → ℕ → ℕ → ℕ → ℕ → ℕ → ℕ
moved memory destination source from length a =
    if leb (destination + from) a && ltb a (destination + from + length)
    then memory (source + (a - destination))
    else memory a

copy_up-moved :
    (memory : ℕ → ℕ) (destination source index length : ℕ)
    → (destination ≤ source) ⊎ (source + (index + length) ≤ destination)
    → (a : ℕ)
    → copy_up memory destination source index length a
      ≡ moved memory destination source index length a
unfolding copy_up
copy_up-moved memory d s index zero apart a = ground arith
copy_up-moved memory d s index (suc length) apart a =
    let rest =
      copy_up-moved (update memory (d + index) (memory (s + index))) d s (index + 1) length
        (ground arith) a in
    ground (arith, rest)

copy_down-moved :
    (memory : ℕ → ℕ) (destination source length : ℕ)
    → source < destination
    → (a : ℕ)
    → copy_down memory destination source length a ≡ moved memory destination source 0 length a
unfolding copy_down
copy_down-moved memory d s zero behind a = ground arith
copy_down-moved memory d s (suc length) behind a =
    let rest =
      copy_down-moved (update memory (d + length) (memory (s + length))) d s length behind a in
    ground (arith, rest)

-- `memmove` copies the bytes as they were before the call, however the two ranges overlap, and changes
-- nothing else.
pub memmove-moved :
    (memory : ℕ → ℕ) (destination source length a : ℕ)
    → memmove memory destination source length a ≡ moved memory destination source 0 length a
unfolding memmove
memmove-moved memory d s length a = elim (Bool-cases (ltb d s)) [
  | inl below ↦ rw below (copy_up-moved memory d s 0 length (inl (ground arith)) a)
  | inr above ↦ rw above (elim (Bool-cases (ltb s d)) [
    | inl strictly ↦ rw strictly (copy_down-moved memory d s length (ground arith) a)
    | inr same ↦ (let e : s ≡ d = ground arith in rw (same, e) (ground arith))
  ])
]

-- When the two ranges do not overlap, `memcpy` does what `memmove` does.
pub memcpy-memmove :
    (memory : ℕ → ℕ) (destination source length : ℕ)
    → (destination + length ≤ source) ⊎ (source + length ≤ destination)
    → (a : ℕ)
    → memcpy memory destination source length a ≡ memmove memory destination source length a
unfolding memcpy
memcpy-memmove memory d s length apart a =
    copy_up-moved memory d s 0 length (ground arith) a ∙ sym (memmove-moved memory d s length a)
