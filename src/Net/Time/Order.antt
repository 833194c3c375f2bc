-- ===== src/Net/Time/Order.antt =====
-- `less` is a strict order, in which keys that are not ordered are equal.
use eparallel.Common.{◌≡◌, true, false, arith}
use eparallel.Net.Time.{TimerKey, less}

pub less_trans : (a b c : TimerKey) → less a b ≡ true → less b c ≡ true → less a c ≡ true
unfolding less
less_trans a b c h g = ground arith

pub less_irrefl : (a : TimerKey) → less a a ≡ false
unfolding less
less_irrefl a = ground arith

pub less-total : (a b : TimerKey) → less a b ≡ false → less b a ≡ false → a ≡ b
unfolding less
less-total a b h g = ground arith
