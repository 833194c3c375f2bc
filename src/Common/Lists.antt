-- ===== src/Common/Lists.antt =====
-- Lists measured and indexed by native numbers, under the library's names.
use Prim.Native.Nat.{ℕ, zero, suc, ◌+◌, ◌-◌, ◌<◌, ◌≤◌, min}
use mathlib.Core.Path.{◌≡◌, refl, ap}
use mathlib.Core.Logic.{◌≢◌}
use mathlib.Core.List.{List, [], ◌∷◌, ◌++◌, map}
use mathlib.Core.Option.{Option, none, some}
use native.Mathlib.Omega.{arith}

module _ {ℓ} {A : Type ℓ} where
  abbrev pub length : List A → ℕ
  length [] = 0
  length (x ∷ xs) = suc (length xs)

  abbrev pub get_elem? : List A → ℕ → Option A
  get_elem? [] i = none
  get_elem? (x ∷ xs) zero = some x
  get_elem? (x ∷ xs) (suc i) = get_elem? xs i

  -- A write out of bounds changes nothing.
  abbrev pub set : List A → ℕ → A → List A
  set [] i v = []
  set (x ∷ xs) zero v = v ∷ xs
  set (x ∷ xs) (suc i) v = x ∷ set xs i v

  pub length-append : (xs ys : List A) → length (xs ++ ys) ≡ length xs + length ys
  length-append [] ys = omega arith
  length-append (x ∷ xs) ys = omega (arith, length-append xs ys)

module _ {ℓ} {A : Type ℓ} where
  pub length-set : (xs : List A) (i : ℕ) (v : A) → length (set xs i v) ≡ length xs
  length-set [] i v = refl
  length-set (x ∷ xs) zero v = refl
  length-set (x ∷ xs) (suc i) v = ap suc (length-set xs i v)

  pub get_elem?-set_self :
      (xs : List A) (i : ℕ) (v : A) → i < length xs → get_elem? (set xs i v) i ≡ some v
  get_elem?-set_self [] i v h = elim h [ ]
  get_elem?-set_self (x ∷ xs) zero v h = refl
  get_elem?-set_self (x ∷ xs) (suc i) v h = get_elem?-set_self xs i v (omega arith)

  pub get_elem?-set_ne :
      (xs : List A) {i j : ℕ} (v : A) → i ≢ j → get_elem? (set xs i v) j ≡ get_elem? xs j
  get_elem?-set_ne [] v h = refl
  get_elem?-set_ne (x ∷ xs) {i = zero} {j = zero} v h = absurd (h refl)
  get_elem?-set_ne (x ∷ xs) {i = zero} {j = suc j} v h = refl
  get_elem?-set_ne (x ∷ xs) {i = suc i} {j = zero} v h = refl
  get_elem?-set_ne (x ∷ xs) {i = suc i} {j = suc j} v h = get_elem?-set_ne xs v (λ e. h (ap suc e))

module _ {ℓ} {A : Type ℓ} where
  abbrev pub get_or : List A → ℕ → A → A
  get_or [] i d = d
  get_or (x ∷ xs) zero d = x
  get_or (x ∷ xs) (suc i) d = get_or xs i d

  abbrev pub take : ℕ → List A → List A
  take zero xs = []
  take (suc n) [] = []
  take (suc n) (x ∷ xs) = x ∷ take n xs

  abbrev pub drop : ℕ → List A → List A
  drop zero xs = xs
  drop (suc n) [] = []
  drop (suc n) (x ∷ xs) = drop n xs

  abbrev pub replicate : ℕ → A → List A
  replicate zero a = []
  replicate (suc n) a = a ∷ replicate n a

  pub take-append-drop : (n : ℕ) (xs : List A) → take n xs ++ drop n xs ≡ xs
  take-append-drop zero xs = refl
  take-append-drop (suc n) [] = refl
  take-append-drop (suc n) (x ∷ xs) = rw (take-append-drop n xs)

  pub length-take : (n : ℕ) (xs : List A) → length (take n xs) ≡ min n (length xs)
  length-take zero xs = omega arith
  length-take (suc n) [] = omega arith
  length-take (suc n) (x ∷ xs) = omega (arith, length-take n xs)

  pub length-drop : (n : ℕ) (xs : List A) → length (drop n xs) ≡ length xs - n
  length-drop zero xs = omega arith
  length-drop (suc n) [] = omega arith
  length-drop (suc n) (x ∷ xs) = omega (arith, length-drop n xs)

  pub length-replicate : (n : ℕ) (a : A) → length (replicate n a) ≡ n
  length-replicate zero a = refl
  length-replicate (suc n) a = ap suc (length-replicate n a)

  pub length-map {κ} : {B : Type κ} (xs : List A) (f : A → B) → length (map f xs) ≡ length xs
  length-map [] f = refl
  length-map (x ∷ xs) f = ap suc (length-map xs f)

pub get_or-set_ne {ℓ} :
    {A : Type ℓ} (ts : List A) (i j : ℕ) (t d : A) → i ≢ j → get_or (set ts i t) j d ≡ get_or ts j d
get_or-set_ne [] i j t d h = refl
get_or-set_ne (x ∷ ts) zero zero t d h = absurd (h refl)
get_or-set_ne (x ∷ ts) zero (suc j) t d h = refl
get_or-set_ne (x ∷ ts) (suc i) zero t d h = refl
get_or-set_ne (x ∷ ts) (suc i) (suc j) t d h = get_or-set_ne ts i j t d (λ e. h (ap suc e))

pub get_or-set_self {ℓ} :
    {A : Type ℓ} (ts : List A) (i : ℕ) (t d : A) → i < length ts → get_or (set ts i t) i d ≡ t
get_or-set_self [] i t d h = absurd (omega (arith, h))
get_or-set_self (x ∷ ts) zero t d h = refl
get_or-set_self (x ∷ ts) (suc i) t d h = get_or-set_self ts i t d (omega (arith, h))

-- The sum of what `f` gives for the elements.
module _ {ℓ} {A : Type ℓ} (f : A → ℕ) where
  abbrev pub count : List A → ℕ
  count [] = 0
  count (x ∷ xs) = f x + count xs

  pub count-set :
      (xs : List A) (i : ℕ) (a b : A)
      → get_elem? xs i ≡ some a
      → count (set xs i b) + f a ≡ count xs + f b
  count-set [] i a b e = cc
  count-set (x ∷ xs) zero a b e = let x' : x ≡ a = ground (arith, e) in rw x' (omega arith)
  count-set (x ∷ xs) (suc i) a b e = omega (arith, count-set xs i a b e)

  pub count-le : ((a : A) → f a ≤ 1) → (xs : List A) → count xs ≤ length xs
  count-le h [] = omega arith
  count-le h (x ∷ xs) = omega (arith, h x, count-le h xs)

pub count_mono {ℓ} :
    {A : Type ℓ} (f g : A → ℕ) → ((a : A) → f a ≤ g a) → (xs : List A) → count f xs ≤ count g xs
count_mono f g h [] = omega arith
count_mono f g h (x ∷ xs) = omega (arith, h x, count_mono f g h xs)
