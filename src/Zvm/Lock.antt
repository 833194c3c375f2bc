-- ===== src/Zvm/Lock.antt =====
-- zvm/zvm_lock.cpp: `simple_lock`, which its owner can take again, and `spin_lock`.
-- An owner is the lower half of the address of a stack, and 0 is nobody. The functions here are
-- those of a stack that nobody interrupts; Access has them an access at a time.
pub mod Access
pub mod Exclusion
use eparallel.Common.{
  ℕ, zero, suc, ◌+◌, ◌-◌, ◌%◌, ◌^◌, ◌<◌, ◌≡◌, Bool, true, false, not, Option, none, some, ◌==◌,
  if◌then◌else◌, ℤ, pos, negsuc,
}

pub record SimpleLock : Type 0 where
  pub owner : ℕ
  pub cnt : ℕ

abbrev pub free_lock : SimpleLock
free_lock = record { owner = 0; cnt = 0 }

-- `atomic_compare_exchange32`: the value found, and the value left.
unfoldable pub compare_exchange : ℕ → ℕ → ℕ → ℕ × ℕ
compare_exchange found val cmp = (found, if found == cmp then val else found)

-- What a round of `lock` comes to: the loop goes on, the assertion fails, or the lock is taken.
pub data Locked : Type 0 where
  spins asserts : Locked
  taken : SimpleLock → Locked

-- A round of `lock`. The assertion on `m_cnt` fails where the lock has no owner and a count.
unfoldable pub lock : SimpleLock → ℕ → Locked
unfolding compare_exchange
lock l par =
    if l.owner == par
    then taken (record l { cnt = l.cnt + 1 })
    else (let (found, owner) = compare_exchange l.owner par 0 in
        if found == 0
        then if l.cnt == 0 then taken (record { owner = owner; cnt = l.cnt + 1 }) else asserts
        else spins)

unfoldable pub unlock : SimpleLock → ℕ → ℤ × SimpleLock
unlock l par =
    if l.owner == par
    then (pos 0, record { owner = if (l.cnt - 1) == 0 then 0 else l.owner; cnt = l.cnt - 1 })
    else (negsuc 0, l)

-- `none`: the assertion fails.
unfoldable pub try_lock : SimpleLock → ℕ → Option (ℤ × SimpleLock)
unfolding compare_exchange
try_lock l par =
    if l.owner == par
    then some (pos 0, record l { cnt = l.cnt + 1 })
    else (let (found, owner) = compare_exchange l.owner par 0 in
        if found == 0
        then if l.cnt == 0 then some (pos 0, record { owner = owner; cnt = l.cnt + 1 }) else none
        else some (negsuc 0, l))

unfoldable pub try_unlock : SimpleLock → ℕ → ℤ × SimpleLock
try_unlock l par =
    if l.owner == par
    then (pos 0, record { owner = if (l.cnt - 1) == 0 then 0 else l.owner; cnt = l.cnt - 1 })
    else (negsuc 0, l)

-- `spin_lock`, by its flag.
unfoldable pub spin_lock : ℕ → Option ℕ
unfolding compare_exchange
spin_lock flag =
    let (found, left) = compare_exchange flag 1 0 in if found == 0 then some left else none

unfoldable pub spin_unlock : ℕ → ℤ × ℕ
unfolding compare_exchange
spin_unlock flag =
    let (found, left) = compare_exchange flag 0 1 in
    if found == 1 then (pos 0, left) else (negsuc 0, left)

unfoldable pub spin_try_lock : ℕ → ℤ × ℕ
unfolding compare_exchange
spin_try_lock flag =
    let (found, left) = compare_exchange flag 1 0 in
    if found == 0 then (pos 0, left) else (negsuc 0, left)

unfoldable pub spin_try_unlock : ℕ → ℤ × ℕ
unfolding compare_exchange
spin_try_unlock flag =
    let (found, left) = compare_exchange flag 0 1 in
    if found == 1 then (pos 0, left) else (negsuc 0, left)
