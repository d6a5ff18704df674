-- ===== src/Kernel/Outcome.antt =====
-- What a kernel function does: it returns a value and the new state, or `vAssertCalled` stops the
-- program, or a pointer chase runs longer than the list that it follows.
use mini_free_rtos.Common.{ℕ, ◌≡◌, ap, Bool, true, false}
use mini_free_rtos.Kernel.{Kernel, Tcb}
use mini_free_rtos.Common.{update}

pub data Fault : Type 0 where
  assertion_failed out_of_fuel : Fault

pub data Outcome (A : Type 0) : Type 0 where
  done : A → Kernel → Outcome A
  halted : Fault → Outcome A

abbrev pub M : Type 0 → Type 0
M A = Kernel → Outcome A

abbrev pub pure : {A : Type 0} → A → M A
pure a k = done a k

abbrev pub and_then : {A B : Type 0} → Outcome A → (A → M B) → Outcome B
and_then (done a k) f = f a k
and_then (halted e) f = halted e

infixl 5 ◌>>=◌ ◌>>◌
abbrev pub ◌>>=◌ : {A B : Type 0} → M A → (A → M B) → M B
◌>>=◌ m f k = and_then (m k) f

abbrev pub ◌>>◌ : {B : Type 0} → M (Unit {0}) → M B → M B
m >> n = m >>= λ _. n

-- configASSERT
abbrev pub config_assert : Bool → M (Unit {0})
config_assert true k = done tt k
config_assert false k = halted assertion_failed

-- The state as a value, and a change of it.
abbrev pub kernel : M Kernel
kernel k = done k k

abbrev pub modify : (Kernel → Kernel) → M (Unit {0})
modify f k = done tt (f k)

-- Assignments to fields of the task at an address.
abbrev pub set_task : ℕ → (Tcb → Tcb) → M (Unit {0})
set_task t f k = done tt (record k { task = update k.task t (f (k.task t)) })

-- A step whose outcome is known.
pub and_then-done :
    {A B : Type 0} {r : Outcome A} {a : A} {k : Kernel} (f : A → M B)
    → r ≡ done a k
    → and_then r f ≡ f a k
and_then-done f e = ap (λ r. and_then r f) e

pub config_assert-true : {b : Bool} (k : Kernel) → b ≡ true → config_assert b k ≡ done tt k
config_assert-true k e = ap (λ b. config_assert b k) e
