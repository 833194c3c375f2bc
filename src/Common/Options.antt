-- ===== src/Common/Options.antt =====
-- Results that may be missing.
use mathlib.Core.Option.{Option, none, some}

infixl 5 ◌>>=◌
-- The rest of a computation, behind a result that may be missing.
abbrev pub ◌>>=◌ {ℓ κ} : {A : Type ℓ} {B : Type κ} → Option A → (A → Option B) → Option B
none >>= f = none
some a >>= f = f a
