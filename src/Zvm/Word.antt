-- ===== src/Zvm/Word.antt =====
-- `s64` as the number of its 64 bits, in two's complement.
use eparallel.Common.{
  ℕ, zero, ◌+◌, ◌-◌, ◌*◌, ◌/◌, ◌%◌, ◌^◌, Bool, true, false, Option, none, some, ltb, leb, ◌==◌,
  if◌then◌else◌,
}

abbrev pub word : ℕ → ℕ
word n = n % 2 ^ 64

abbrev pub is_negative : ℕ → Bool
is_negative x = leb (2 ^ 63) x

unfoldable pub add64 : ℕ → ℕ → ℕ
add64 x y = word (x + y)

unfoldable pub sub64 : ℕ → ℕ → ℕ
sub64 x y = word (x + (2 ^ 64 - y))

unfoldable pub mul64 : ℕ → ℕ → ℕ
mul64 x y = word (x * y)

unfoldable pub neg64 : ℕ → ℕ
neg64 x = word (2 ^ 64 - x)

unfoldable pub not64 : ℕ → ℕ
not64 x = 2 ^ 64 - 1 - x

-- The magnitude of a number.
unfoldable pub abs64 : ℕ → ℕ
unfolding neg64
abs64 x = if is_negative x then neg64 x else x

-- `/` and `%` round to zero; `none`: a trap, for a divisor of 0 and for the least number by -1.
unfoldable pub div64 : ℕ → ℕ → Option ℕ
unfolding abs64 neg64
div64 x zero = none
div64 x y =
    let q = abs64 x / abs64 y in
    if is_negative x
    then (if is_negative y then (if q == 2 ^ 63 then none else some q) else some (neg64 q))
    else (if is_negative y then some (neg64 q) else some q)

unfoldable pub rem64 : ℕ → ℕ → Option ℕ
unfolding abs64 neg64
rem64 x zero = none
rem64 x y =
    let r = abs64 x % abs64 y in
    if is_negative x
    then (if x == 2 ^ 63
        then (if y == 2 ^ 64 - 1 then none else some (neg64 r))
        else some (neg64 r))
    else some r

-- Shifts by 64 or more, or by a negative number, are undefined.
unfoldable pub shl64 : ℕ → ℕ → Option ℕ
shl64 x k = if ltb k 64 then some (word (x * 2 ^ k)) else none

unfoldable pub shr64 : ℕ → ℕ → Option ℕ
unfolding not64
shr64 x k =
    if ltb k 64
    then (if is_negative x then some (not64 (not64 x / 2 ^ k)) else some (x / 2 ^ k))
    else none

-- The order of signed numbers.
unfoldable pub lt64 : ℕ → ℕ → Bool
lt64 x y = ltb (word (x + 2 ^ 63)) (word (y + 2 ^ 63))

abbrev pub of_bool : Bool → ℕ
of_bool true = 1
of_bool false = 0
