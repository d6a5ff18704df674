-- ===== src/CortexM/Critical.antt =====
-- portable/cortex_m/port.c: critical sections, one inside another.
use mini_free_rtos.Common.{
  ℕ, ◌+◌, ◌-◌, ◌%◌, ◌≤◌, ◌<◌, ◌≡◌, refl, ap, sym, ◌∙◌, inl, inr, Option, none, some, true, false,
  arith, Bool-cases, ◌==◌, ltb, if◌then◌else◌,
}
use mini_free_rtos.Word.{word}
use mini_free_rtos.CortexM.{Cpu, enter, exit, left}

-- What code does with critical sections: nothing, or one with other code inside, and then more.
pub data Code : Type 0 where
  quiet : Code
  section : Code → Code → Code

unfoldable pub leave_then : (Cpu → Option Cpu) → Option Cpu → Option Cpu
leave_then f none = none
leave_then f (some c) = f c

unfoldable pub perform : Code → Cpu → Option Cpu
unfolding leave_then
perform quiet c = some c
perform (section inner rest) c =
    leave_then (perform rest) (leave_then exit (perform inner (enter c)))

-- How deep the sections lie.
abbrev pub depth : Code → ℕ
depth quiet = 0
depth (section inner rest) =
    if ltb (depth rest) (depth inner + 1) then depth inner + 1 else depth rest

-- Inside a section interrupts are disabled.
abbrev pub Masked : Cpu → Type 0
Masked c = (c.primask ≤ 1) × (0 < c.critical_nesting → c.primask ≡ 1)

exit_lem :
    (c : Cpu) (n : ℕ)
    → c.critical_nesting ≡ n + 1
    → (c' : Cpu) × (exit c ≡ some c')
      × (c'.critical_nesting ≡ n)
      × (c'.critical_saved_primask ≡ c.critical_saved_primask)
      × (n ≡ 0 → c'.primask ≡ (if c.critical_saved_primask % 2 == 0 then 0 else 1))
      × (0 < n → c'.primask ≡ c.primask)
unfolding exit
exit_lem c n e =
    let inside : ltb 0 c.critical_nesting ≡ true = ground arith in
    let less : c.critical_nesting - 1 ≡ n = omega arith in
    (
      left c,
      ap (λ b. if b then some (left c) else none) inside,
      less,
      refl,
      λ h. ground arith,
      λ h. ground arith,
    )

-- PRIMASK and the nesting are as before, and inside a section so is the saved PRIMASK.
pub record Restored (c c' : Cpu) : Type 0 where
  pub primask_same : c'.primask ≡ c.primask
  pub nesting_same : c'.critical_nesting ≡ c.critical_nesting
  pub saved_same : 0 < c.critical_nesting → c'.critical_saved_primask ≡ c.critical_saved_primask

exit-enter :
    (c c2 : Cpu)
    → Masked c
    → c.critical_nesting + 1 < word
    → Restored (enter c) c2
    → (c3 : Cpu) × (exit c2 ≡ some c3) × Restored c c3
unfolding enter
exit-enter c c2 m fits r =
    let deeper : (enter c).critical_nesting ≡ c.critical_nesting + 1 = ground arith in
    let (c3, run, nest, saved, last, between) =
      exit_lem c2 c.critical_nesting (r.nesting_same ∙ deeper) in
    let kept = r.saved_same (ground arith) in
    (
      c3,
      run,
      record {
        primask_same = elim (Bool-cases (c.critical_nesting == 0)) [
          | inl e ↦
              (let outer : (enter c).critical_saved_primask ≡ c.primask =
                  ap (λ b. if b then c.primask else c.critical_saved_primask) e in
                let low = m.0 in let p = last (ground arith) in ground (arith, p, kept, outer, low))
          | inr e ↦
              (let pos : 0 < c.critical_nesting = ground arith in
                between pos ∙ r.primask_same ∙ sym (m.1 pos))
        ];
        nesting_same = nest;
        saved_same = λ pos.
            (let nested : (c.critical_nesting == 0) ≡ false = ground arith in
              saved ∙ kept ∙ ap (λ b. if b then c.primask else c.critical_saved_primask) nested);
      },
    )

Restored-then : (c c1 c2 : Cpu) → Restored c c1 → Restored c1 c2 → Restored c c2
Restored-then c c1 c2 r q = record {
  primask_same = q.primask_same ∙ r.primask_same;
  nesting_same = q.nesting_same ∙ r.nesting_same;
  saved_same = λ pos. q.saved_same (omega (arith, r.nesting_same)) ∙ r.saved_same pos;
}

Masked-same : (c c' : Cpu) → Restored c c' → Masked c → Masked c'
Masked-same c c' r m = ground (arith, r.primask_same, r.nesting_same, m.0, m.1)

enter-Masked : (c : Cpu) → Masked (enter c)
unfolding enter
enter-Masked c = (omega arith, λ h. refl)

enter_bound :
    (c : Cpu) (w : Code)
    → c.critical_nesting + (depth w + 1) < word
    → (enter c).critical_nesting + depth w < word
unfolding enter
enter_bound c w h = ground arith

-- From where interrupts are disabled inside sections, code whose sections are well nested, and not
-- too deep for the counter, meets no failing assertion and leaves PRIMASK and the nesting as they
-- were: with no section around it interrupts are enabled again exactly if they were enabled before.
pub perform-Restored :
    (w : Code) (c : Cpu)
    → Masked c
    → c.critical_nesting + depth w < word
    → (c' : Cpu) × (perform w c ≡ some c') × Restored c c'
unfolding perform leave_then
perform-Restored quiet c m fits =
    (c, refl, record { primask_same = refl; nesting_same = refl; saved_same = λ h. refl })
perform-Restored (section inner rest) c m fits =
    let (c2, run1, r1) =
      perform-Restored inner (enter c) (enter-Masked c) (enter_bound c inner (ground arith)) in
    let (c3, run2, r2) = exit-enter c c2 m (ground arith) r1 in
    let (c4, run3, r3) =
      perform-Restored rest c3 (Masked-same c c3 r2 m) (ground (arith, r2.nesting_same)) in
    (
      c4,
      ap (λ r. leave_then (perform rest) (leave_then exit r)) run1
          ∙ ap (leave_then (perform rest)) run2
          ∙ run3,
      Restored-then c c3 c4 r2 r3,
    )
