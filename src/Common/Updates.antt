-- ===== src/Common/Updates.antt =====
-- Functions that are changed at one number.
use Prim.Native.Nat.{ℕ}
use mathlib.Core.Path.{◌≡◌}
use mathlib.Core.Logic.{◌≢◌}
use native.Mathlib.Omega.{arith}
use eparallel.Common.Tests.{◌==◌, if◌then◌else◌}

module _ {ℓ} {A : Type ℓ} where
  abbrev pub update : (ℕ → A) → ℕ → A → ℕ → A
  update f k v q = if q == k then v else f q

  pub update_self : (f : ℕ → A) (k : ℕ) (v : A) → update f k v k ≡ v
  update_self f k v = ground arith

  pub update_at : (f : ℕ → A) {k q : ℕ} (v : A) → q ≡ k → update f k v q ≡ v
  update_at f {k} {q} v e = ground (arith, e)

  pub update_ne : (f : ℕ → A) {k q : ℕ} (v : A) → q ≢ k → update f k v q ≡ f q
  update_ne f {k} {q} v d = ground (arith, d)
