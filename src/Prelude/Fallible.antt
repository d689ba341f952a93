-- ===== src/Prelude/Fallible.antt =====
-- Steps that may fail: `none` stands for a violated CHECK, ERROR_IF or precondition.
use mathlib.Core.Bool.{Bool, true, false}
use mathlib.Core.Option.{Option, none, some}

infixl 5 ◌>>=◌ ◌>>◌
abbrev pub ◌>>=◌ {ℓ κ} : {A : Type ℓ} {B : Type κ} → Option A → (A → Option B) → Option B
none >>= f = none
some a >>= f = f a

abbrev pub ◌>>◌ {ℓ} : {B : Type ℓ} → Option (Unit {0}) → Option B → Option B
none >> k = none
some a >> k = k

abbrev pub check : Bool → Option (Unit {0})
check true = some tt
check false = none
