-- ===== src/Zvm/Heap.antt =====
-- zvm/zvm_obj.h and zvm/zvm_pool.h: the objects of a stack, their locks and their entries.
-- An address of 0 is NULL. An entry is of the base class `entry`: it is known by its number, and
-- `refs` has its count. What `new` returns is the next address.
use eparallel.Common.{
  ℕ, ◌+◌, ◌-◌, Bool, Option, none, some, List, [], ◌∷◌, ◌==◌, if◌then◌else◌, ℤ, pos, negsuc,
}
use eparallel.Zvm.Lock.{SimpleLock, free_lock, lock, unlock, spins, asserts, taken}

-- A result, a wait for a lock, or what the language leaves undefined (a NULL is used, or an
-- assertion fails).
pub data Res {ℓ} (A : Type ℓ) : Type ℓ where
  ok : A → Res A
  waits : Res A
  fault : Res A

infixl 5 ◌>>=◌
abbrev pub ◌>>=◌ {ℓ κ} : {A : Type ℓ} {B : Type κ} → Res A → (A → Res B) → Res B
ok a >>= f = f a
waits >>= f = waits
fault >>= f = fault

pub record Obj : Type 0 where
  pub mutex : SimpleLock
  pub ent : ℕ

pub record Heap : Type 0 where
  pub objs : ℕ → Option Obj
  pub refs : ℕ → ℕ
  pub pool : List ℕ
  pub fresh : ℕ

abbrev pub write : Heap → ℕ → Obj → Heap
write h a o = record h { objs = λ q. if q == a then some o else h.objs q }

abbrev pub read : Heap → ℕ → Res Obj
read h a = elim (h.objs a) [ none ↦ fault | some o ↦ ok o ]

-- `obj::lock` and `obj::unlock`
unfoldable pub obj_lock : ℕ → Heap → ℕ → Res (ℤ × Heap)
unfolding lock
obj_lock s h a = do
  o ← read h a
  elim (lock o.mutex s) [
    | spins ↦ waits
    | asserts ↦ fault
    | taken l ↦ ok (pos 0, write h a (record o { mutex = l }))
  ]

unfoldable pub obj_unlock : ℕ → Heap → ℕ → Res (ℤ × Heap)
unfolding unlock
obj_unlock s h a = do
  o ← read h a
  let (e, l) = unlock o.mutex s
  ok (e, write h a (record o { mutex = l }))

-- `entry::reference` and `entry::recycle`
unfoldable pub reference : Heap → ℕ → Heap
reference h e = record h { refs = λ q. if q == e then h.refs q + 1 else h.refs q }

unfoldable pub recycle : Heap → ℕ → Heap
recycle h e = record h { refs = λ q. if q == e then h.refs q - 1 else h.refs q }

unfoldable pub set_entry : ℕ → Heap → ℕ → ℕ → Res (ℤ × Heap)
unfolding obj_lock obj_unlock recycle
set_entry s h a ent = do
  old ← read h a
  (_, h1) ← obj_lock s h a
  o ← read h1 a
  (_, h2) ← obj_unlock s (write h1 a (record o { ent = ent })) a
  ok (pos 0, if old.ent == 0 then h2 else recycle h2 old.ent)

-- The entry that the object refers to, with one reference more.
unfoldable pub entry_reference : ℕ → Heap → ℕ → Res (ℕ × Heap)
unfolding obj_lock obj_unlock reference
entry_reference s h a = do
  (_, h1) ← obj_lock s h a
  o ← read h1 a
  (_, h2) ← obj_unlock s h1 a
  ok (o.ent, if o.ent == 0 then h2 else reference h2 o.ent)

-- `pool::allocate`: an object that was given back, as it is, or a new one.
unfoldable pub pool_allocate : Heap → ℕ × Heap
pool_allocate h = elim h.pool [
  | a ∷ rest ↦ (a, record h { pool = rest })
  | [] ↦ (
    h.fresh,
    record (write h h.fresh (record { mutex = free_lock; ent = 0 })) { fresh = h.fresh + 1 },
  )
]

unfoldable pub allocate : ℕ → Heap → ℕ → Res (ℕ × Heap)
unfolding pool_allocate set_entry
allocate s h ent = do let (a, h1) = pool_allocate h; (_, h2) ← set_entry s h1 a ent; ok (a, h2)

unfoldable pub deallocate : ℕ → Heap → ℕ → Res Heap
unfolding set_entry
deallocate s h a =
    if a == 0 then ok h else (do (_, h1) ← set_entry s h a 0; ok (record h1 { pool = a ∷ h1.pool }))

unfoldable pub is_null : Heap → ℕ → Res Bool
is_null h a = do o ← read h a; ok (o.ent == 0)

-- `obj::assign`
unfoldable pub assign : ℕ → Heap → ℕ → ℕ → Res (ℤ × Heap)
unfolding entry_reference set_entry
assign s h a from = do
  (e, h1) ← entry_reference s h from
  if e == 0 then ok (negsuc 10004, h1) else set_entry s h1 a e
