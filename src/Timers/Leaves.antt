-- ===== src/Timers/Leaves.antt =====
-- kernel/timers.c: what the parts of a command do to one timer and the list of active timers.
use mini_free_rtos.Common.{
  ℕ, ◌≡◌, refl, ap, sym, subst, ◌∙◌, inl, inr, true, false, List, [], ◌∷◌, arith, ◌∈◌, ◌∉◌, has,
  delete, update, Bool-cases, ◌==◌, if◌then◌else◌,
}
use mini_free_rtos.Word.{add32}
use mini_free_rtos.Timers.{
  Timer, Timers, TimerCommandKind, command_start, command_stop, command_reset,
  command_change_period,
}
use mini_free_rtos.Timers.Active.{linked_in, active_timer_remove}
use mini_free_rtos.Timers.Service.{remove_if_active, restart}
use mini_free_rtos.Timers.Listed.{Listed, active_timer_remove-Removed, active_timer_insert-Listed}
use mini_free_rtos.Kernel.{Kernel}
use mini_free_rtos.Kernel.Outcome.{done, pure}

pub delete-absent : (t : ℕ) (xs : List ℕ) → t ∉ xs → delete t xs ≡ xs
delete-absent t [] out = refl
delete-absent t (x ∷ xs) out =
    let miss : (t == x) ≡ false = ground arith in
    rw miss (ap (λ l. x ∷ l) (delete-absent t xs (ground arith)))

-- The timer after a command at `now`, and the active timers.
abbrev pub restarted : ℕ → ℕ → Timer → Timer
restarted period now c = record c { period = period; expiry_tick = add32 now period; active = true }

abbrev pub applied : TimerCommandKind → ℕ → ℕ → Timer → Timer
applied command_start period now c = restarted c.period now c
applied command_reset period now c = restarted c.period now c
applied command_stop period now c = record c { active = false }
applied command_change_period period now c = restarted period now c

abbrev pub listed_after : TimerCommandKind → ℕ → List ℕ → List ℕ
listed_after command_stop t xs = delete t xs
listed_after _ t xs = t ∷ delete t xs

-- What a step leaves of the timers.
pub record Leaves (s s' : Timers) (t : ℕ) (c : Timer) (xs : List ℕ) : Type 0 where
  pub listed : Listed s' xs
  pub timer : (u : ℕ) → s'.timer u ≡ update s.timer t c u
  pub registry : s'.timer_registry ≡ s.timer_registry

-- A write that changes nothing.
pub kept :
    (t : ℕ) (c : Timer) (f : ℕ → Timer) (u : ℕ)
    → f t ≡ c
    → c.active ≡ false
    → f u ≡ update f t (record c { active = false }) u
kept t c f u e inactive =
    let same : c ≡ record c { active = false } = ap (λ b. record c { active = b }) inactive in
    elim (Bool-cases (u == t)) [
      | inl h ↦ (let here : u ≡ t = ground arith in rw (h, here) (e ∙ same))
      | inr h ↦ rw h refl
    ]

pub Leaves-then :
    (s s1 s2 : Timers) (t : ℕ) (c1 c2 : Timer) (xs ys : List ℕ)
    → Leaves s s1 t c1 xs
    → Leaves s1 s2 t c2 ys
    → Leaves s s2 t c2 ys
Leaves-then s s1 s2 t c1 c2 xs ys first second = record {
  listed = second.listed;
  timer = λ u. ground (arith, first.timer u, second.timer u);
  registry = second.registry ∙ first.registry;
}

pub at_timer :
    (s s' : Timers) (t : ℕ) (c : Timer) (xs : List ℕ) → Leaves s s' t c xs → s'.timer t ≡ c
at_timer s s' t c xs r =
    let e = r.timer t in let here : (t == t) ≡ true = ground arith in rw here at e

pub remove_if_active-Leaves :
    (t : ℕ) (k : Kernel) (xs : List ℕ)
    → Listed k.timers xs
    → (s' : Timers) × (remove_if_active t k ≡ done tt (record k { timers = s' }))
      × Leaves k.timers s' t (record (k.timers.timer t) { active = false }) (delete t xs)
unfolding remove_if_active
remove_if_active-Leaves t k xs l = elim (Bool-cases (has t xs)) [
  | inl i ↦
      (let (s', run, r) = active_timer_remove-Removed t k xs l i in
        let active : (k.timers.timer t).active ≡ true = l.marked t ∙ i in
        (
          s',
          ap (λ b. (if b then active_timer_remove t else pure tt) k) active ∙ run,
          record { listed = r.listed; timer = r.timer; registry = r.registry },
        ))
  | inr o ↦
      (let inactive : (k.timers.timer t).active ≡ false = l.marked t ∙ o in
        (
          k.timers,
          ap (λ b. (if b then active_timer_remove t else pure tt) k) inactive,
          record {
            listed = subst (Listed k.timers) (sym (delete-absent t xs o)) l;
            timer = λ u. kept t (k.timers.timer t) k.timers.timer u refl inactive;
            registry = refl;
          },
        ))
]

-- The list of active timers stays when other fields are written.
pub set_timer-Leaves :
    (t : ℕ) (s : Timers) (c : Timer) (xs : List ℕ)
    → Listed s xs
    → c.active ≡ (s.timer t).active
    → Leaves s (record s { timer = update s.timer t c }) t c xs
set_timer-Leaves t s c xs l same = record {
  listed = record {
    chain = l.chain;
    distinct = l.distinct;
    marked = λ u. ground (arith, l.marked u, l.marked t, same);
    known = l.known;
  };
  timer = λ u. refl;
  registry = refl;
}

pub restart-Leaves :
    (t now : ℕ) (k : Kernel) (xs : List ℕ)
    → Listed k.timers xs
    → t ∉ xs
    → t ∈ k.timers.timer_registry
    → (s' : Timers) × (restart t now k ≡ done tt (record k { timers = s' }))
      × Leaves k.timers s' t (restarted (k.timers.timer t).period now (k.timers.timer t)) (t ∷ xs)
unfolding restart
restart-Leaves t now k xs l out known =
    let c = k.timers.timer t in
    let c1 : Timer = record c { expiry_tick = add32 now c.period } in
    let s1 : Timers = record k.timers { timer = update k.timers.timer t c1 } in
    let written = set_timer-Leaves t k.timers c1 xs l refl in
    let (run, l') =
      active_timer_insert-Listed t (record k { timers = s1 }) xs written.listed out known in
    (linked_in t s1, run, record { listed = l'; timer = λ u. ground arith; registry = refl })
