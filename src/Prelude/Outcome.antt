-- ===== src/Prelude/Outcome.antt =====
-- Steps that may stop. A check of the source refuses a step; a fault is an access to memory that holds
-- no object, or an object made over a living one.
use mathlib.Core.Bool.{Bool, true, false}
use mathlib.Core.Option.{Option, none, some}

pub data Outcome {ℓ} (A : Type ℓ) : Type ℓ where
  done : A → Outcome A
  refused fault : Outcome A

abbrev pub or_fault {ℓ} : {A : Type ℓ} → Option A → Outcome A
or_fault none = Outcome.fault
or_fault (some a) = Outcome.done a

abbrev pub or_refused {ℓ} : {A : Type ℓ} → Option A → Outcome A
or_refused none = Outcome.refused
or_refused (some a) = Outcome.done a

infixl 5 ◌>>=◌
abbrev pub ◌>>=◌ {ℓ κ} : {A : Type ℓ} {B : Type κ} → Outcome A → (A → Outcome B) → Outcome B
Outcome.done a >>= f = f a
Outcome.refused >>= f = Outcome.refused
Outcome.fault >>= f = Outcome.fault

abbrev pub check_that : Bool → Outcome (Unit {0})
check_that true = Outcome.done tt
check_that false = Outcome.refused
