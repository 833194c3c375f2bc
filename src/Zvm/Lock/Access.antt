-- ===== src/Zvm/Lock/Access.antt =====
-- zvm/zvm_lock.cpp: `simple_lock` under any number of stacks, an access to its fields at a time.
use eparallel.Common.{
  zero, Bool-cases, inl, inr, ◌≡◌, arith, suc, ℕ, ◌+◌, ◌-◌, ◌<◌, ◌==◌, if◌then◌else◌, update,
}
use eparallel.Zvm.Lock.{lock, unlock, taken, SimpleLock, free_lock, compare_exchange}

-- Which function a stack calls next.
pub data Function : Type 0 where
  locks tries unlocks : Function

-- Where a stack stands, and how often it holds the lock there: outside the functions; before the
-- compare and exchange of `lock`, or of `try_lock`; before the assertion behind it; before
-- `++m_cnt`; before `--m_cnt`; behind it; before the exchange. An assertion has failed.
pub data Pc : Type 0 where
  inside : ℕ → Pc
  spin trying won : Pc
  again leaving left freeing : ℕ → Pc
  aborted : Pc

-- One access of the stack `par`. `m_cnt` is an `s32` that holds any count here.
unfoldable pub access : Function → SimpleLock → ℕ → Pc → SimpleLock × Pc
unfolding compare_exchange
access locks l par (inside n) = (l, if l.owner == par then again n else spin)
access tries l par (inside n) = (l, if l.owner == par then again n else trying)
access unlocks l par (inside n) = (l, if l.owner == par then leaving n else inside n)
access call l par spin =
    let (found, owner) = compare_exchange l.owner par 0 in
    (record l { owner = owner }, if found == 0 then won else spin)
access call l par trying =
    let (found, owner) = compare_exchange l.owner par 0 in
    (record l { owner = owner }, if found == 0 then won else inside 0)
access call l par won = (l, if l.cnt == 0 then again 0 else aborted)
access call l par (again n) = (record l { cnt = l.cnt + 1 }, inside (n + 1))
access call l par (leaving n) = (record l { cnt = l.cnt - 1 }, left (n - 1))
access call l par (left n) = (l, if l.cnt == 0 then freeing n else inside n)
access call l par (freeing n) = (record l { owner = 0 }, inside n)
access call l par aborted = (l, aborted)

-- So many accesses of one stack that nobody comes between.
abbrev alone : Function → ℕ → ℕ → SimpleLock × Pc → SimpleLock × Pc
alone call par zero x = x
alone call par (suc n) (l, pc) = alone call par n (access call l par pc)

-- The accesses of `lock` alone are a round of it, on a lock that is the stack's own or free, and
-- those of `unlock` are that.
lock-alone_own :
    (l : SimpleLock) (par n : ℕ)
    → l.owner ≡ par
    → lock l par ≡ taken (alone locks par 2 (l, inside n)).0
unfolding access lock
lock-alone_own l par n e = ground (arith, e)

lock-alone_free :
    (l : SimpleLock) (par n : ℕ)
    → 0 < par
    → l.owner ≡ 0
    → l.cnt ≡ 0
    → lock l par ≡ taken (alone locks par 4 (l, inside n)).0
unfolding access lock
lock-alone_free l par n p e c = ground (arith, e, c, p)

unlock-alone :
    (l : SimpleLock) (par n : ℕ)
    → l.owner ≡ par
    → l.cnt ≡ n
    → (unlock l par).1 ≡ (alone unlocks par (if (n - 1) == 0 then 4 else 3) (l, inside n)).0
unfolding access unlock
unlock-alone l par n e c = elim (Bool-cases ((n - 1) == 0)) [
  | inl last ↦ rw last (ground (arith, e, c, last))
  | inr more ↦ rw more (ground (arith, e, c, more))
]

pub record Stacks : Type 0 where
  pub mutex : SimpleLock
  pub at : ℕ → Pc

-- The lock, and no stack in it.
abbrev pub nobody : Stacks
nobody = record { mutex = free_lock; at = λ q. inside 0 }

abbrev pub go : Function → ℕ → Stacks → Stacks
go call par w =
    let (l, pc) = access call w.mutex par (w.at par) in
    record { mutex = l; at = update w.at par pc }

-- A stack, whose address is not 0, makes one access.
pub data Step (w : Stacks) : Stacks → Type 0 where
  moves : (call : Function) (par : ℕ) → 0 < par → Step w (go call par w)

pub data Reach (w : Stacks) : Stacks → Type 0 where
  here : Reach w w
  next : {u v : Stacks} → Reach w u → Step u v → Reach w v
