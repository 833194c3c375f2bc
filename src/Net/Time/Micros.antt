-- ===== src/Net/Time/Micros.antt =====
-- `tv_cmp` and `tv_diff` against times in microseconds.
use eparallel.Common.{
  ℕ, ◌+◌, ◌-◌, ◌*◌, ◌<◌, ◌≤◌, ◌≡◌, ltb, ℤ, pos, negsuc, if◌then◌else◌, ◌==◌, arith,
}
use eparallel.Net.Time.{TimeTv, tv_cmp, tv_diff}

abbrev pub micros : TimeTv → ℕ
micros t = t.sec * 1000000 + t.usec

-- The comparison of numbers, as `tv_cmp` tells it.
abbrev pub sign : ℕ → ℕ → ℤ
sign m n = if ltb m n then negsuc 0 else if m == n then pos 0 else pos 1

cmp-sign :
    (t1 t2 : TimeTv)
    → t1.usec < 1000000
    → t2.usec < 1000000
    → tv_cmp t1 t2 ≡ sign (micros t1) (micros t2)
unfolding tv_cmp
cmp-sign t1 t2 a b = ground arith

-- For two times whose microseconds are below a second, the first not before the second: `tv_cmp`
-- compares them, either way round, as their numbers of microseconds are compared, and `tv_diff` is
-- the time of the difference of these, with its own microseconds below a second.
pub tv_diff-Micros :
    (t1 t2 : TimeTv)
    → t1.usec < 1000000
    → t2.usec < 1000000
    → micros t2 ≤ micros t1
    → (tv_cmp t1 t2 ≡ sign (micros t1) (micros t2))
      × (tv_cmp t2 t1 ≡ sign (micros t2) (micros t1))
      × (micros (tv_diff t1 t2) ≡ micros t1 - micros t2)
      × ((tv_diff t1 t2).usec < 1000000)
unfolding tv_diff
tv_diff-Micros t1 t2 a b l = (cmp-sign t1 t2 a b, cmp-sign t2 t1 b a, ground arith, ground arith)
