-- ===== src/Zvm/Lock/Exclusion.antt =====
-- Any stacks that take and leave a `simple_lock`, their accesses in any order.
use eparallel.Common.{
  Bool, inr, ◌⊎◌, dec_eq, inl, Bool-cases, ℕ, zero, suc, ◌+◌, ◌<◌, ◌≡◌, ◌≢◌, refl, sym, ◌∙◌, true,
  false, ◌==◌, if◌then◌else◌, arith, update_at, update_ne,
}
use eparallel.Zvm.Lock.{SimpleLock, free_lock}
use eparallel.Zvm.Lock.Access.{
  Function, locks, tries, unlocks, Pc, inside, spin, trying, won, again, leaving, left, freeing,
  aborted, access, Stacks, nobody, go, moves, Reach, here, next,
}

-- How the lock is where a stack stands.
abbrev pub At : SimpleLock → ℕ → Pc → Type 0
At l q (inside zero) = l.owner ≢ q
At l q (inside (suc n)) = (l.owner ≡ q) × (l.cnt ≡ suc n)
At l q spin = l.owner ≢ q
At l q trying = l.owner ≢ q
At l q won = (l.owner ≡ q) × (l.cnt ≡ 0)
At l q (again n) = (l.owner ≡ q) × (l.cnt ≡ n)
At l q (leaving n) = (l.owner ≡ q) × (l.cnt ≡ n) × (0 < n)
At l q (left n) = (l.owner ≡ q) × (l.cnt ≡ n)
At l q (freeing n) = (l.owner ≡ q) × (l.cnt ≡ 0) × (n ≡ 0)
At l q aborted = q ≢ q

-- The stack stands where the lock is its own.
abbrev pub holds : Pc → Bool
holds (inside zero) = false
holds spin = false
holds trying = false
holds _ = true

pub record Inv (w : Stacks) : Type 0 where
  pub placed : (q : ℕ) → 0 < q → At w.mutex q (w.at q)
  pub unowned : w.mutex.owner ≡ 0 → w.mutex.cnt ≡ 0

-- A lock that is not taken from another stack.
abbrev Passes : ℕ → SimpleLock → SimpleLock → Type 0
Passes par l l' =
    ((l' ≡ l) ⊎ ((l.owner ≡ par) ⊎ (l.owner ≡ 0)) × ((l'.owner ≡ par) ⊎ (l'.owner ≡ 0)))
    × (l'.owner ≡ 0 → l'.cnt ≡ 0)

other_owner :
    (par q : ℕ) (l l' : SimpleLock)
    → q ≢ par
    → 0 < q
    → ((l.owner ≡ par) ⊎ (l.owner ≡ 0)) × ((l'.owner ≡ par) ⊎ (l'.owner ≡ 0))
    → (l.owner ≢ q) × (l'.owner ≢ q)
other_owner par q l l' n p (a, b) = (
  λ e. elim a [ inl x ↦ n (sym e ∙ x) | inr x ↦ omega (arith, x, e, p) ],
  λ e. elim b [ inl x ↦ n (sym e ∙ x) | inr x ↦ omega (arith, x, e, p) ],
)

At-owner : (l : SimpleLock) (q : ℕ) (pc : Pc) → At l q pc → (holds pc ≡ false) ⊎ (l.owner ≡ q)
At-owner l q (inside zero) a = inl refl
At-owner l q (inside (suc n)) a = inr a.0
At-owner l q spin a = inl refl
At-owner l q trying a = inl refl
At-owner l q won a = inr a.0
At-owner l q (again n) a = inr a.0
At-owner l q (leaving n) a = inr a.0
At-owner l q (left n) a = inr a.0
At-owner l q (freeing n) a = inr a.0
At-owner l q aborted a = absurd (a refl)

At-outside : (l : SimpleLock) (q : ℕ) (pc : Pc) → holds pc ≡ false → l.owner ≢ q → At l q pc
At-outside l q (inside zero) h n = n
At-outside l q (inside (suc m)) h n = absurd (ground (arith, h))
At-outside l q spin h n = n
At-outside l q trying h n = n
At-outside l q won h n = absurd (ground (arith, h))
At-outside l q (again m) h n = absurd (ground (arith, h))
At-outside l q (leaving m) h n = absurd (ground (arith, h))
At-outside l q (left m) h n = absurd (ground (arith, h))
At-outside l q (freeing m) h n = absurd (ground (arith, h))
At-outside l q aborted h n = absurd (ground (arith, h))

-- What a stack does leaves the others where they stand.
other-At :
    (par q : ℕ) (l l' : SimpleLock) (pc : Pc)
    → q ≢ par
    → 0 < q
    → Passes par l l'
    → At l q pc
    → At l' q pc
other-At par q l l' pc n p (inl same, c) a = rw same a
other-At par q l l' pc n p (inr moved, c) a =
    let (x, y) = other_owner par q l l' n p moved in
    elim (At-owner l q pc a) [ inl out ↦ At-outside l' q pc out y | inr own ↦ absurd (x own) ]

-- What one access leaves, for the stack and the lock.
abbrev Moved : ℕ → SimpleLock → SimpleLock × Pc → Type 0
Moved par l (l', pc') = At l' par pc' × Passes par l l'

stays-Moved :
    (par : ℕ) (l : SimpleLock) (pc : Pc)
    → (l.owner ≡ 0 → l.cnt ≡ 0)
    → At l par pc
    → Moved par l (l, pc)
stays-Moved par l pc u a = (a, (inl refl, u))

inside-At : (l : SimpleLock) (q n : ℕ) → l.owner ≡ q → At l q (inside n) → l.cnt ≡ n
inside-At l q zero e a = absurd (a e)
inside-At l q (suc n) e a = a.1

outside-At : (l : SimpleLock) (q n : ℕ) → l.owner ≢ q → At l q (inside n) → n ≡ 0
outside-At l q zero d a = refl
outside-At l q (suc n) d a = absurd (d a.0)

-- Behind the test for the owner.
tested-Moved :
    (l : SimpleLock) (par n : ℕ) (pc : Pc)
    → (l.owner ≡ 0 → l.cnt ≡ 0)
    → At l par (inside n)
    → (l.owner ≢ par → At l par pc)
    → Moved par l (l, if l.owner == par then again n else pc)
tested-Moved l par n pc u a out = elim (Bool-cases (l.owner == par)) [
  | inl e ↦
      let mine : l.owner ≡ par = ground (arith, e) in
      rw e (stays-Moved par l (again n) u (mine, inside-At l par n mine a))
  | inr e ↦ rw e (stays-Moved par l pc u (out (λ o. ground (arith, o, e))))
]

inside-Moved :
    (call : Function) (l : SimpleLock) (par n : ℕ)
    → (l.owner ≡ 0 → l.cnt ≡ 0)
    → At l par (inside n)
    → Moved par l (access call l par (inside n))
unfolding access
inside-Moved locks l par n u a = tested-Moved l par n spin u a (λ d. d)
inside-Moved tries l par n u a = tested-Moved l par n trying u a (λ d. d)
inside-Moved unlocks l par n u a = elim (Bool-cases (l.owner == par)) [
  | inl e ↦
      let mine : l.owner ≡ par = ground (arith, e) in
      rw e (stays-Moved par l (leaving n) u (mine, inside-At l par n mine a, some_held n mine a))
  | inr e ↦ rw e (stays-Moved par l (inside n) u a)
]
  where
    some_held : (n : ℕ) → l.owner ≡ par → At l par (inside n) → 0 < n
    some_held zero o a = absurd (a o)
    some_held (suc n) o a = omega arith

-- The compare and exchange, from a place outside the lock.
compare-Moved :
    (l : SimpleLock) (par : ℕ) (pc : Pc)
    → 0 < par
    → (l.owner ≡ 0 → l.cnt ≡ 0)
    → l.owner ≢ par
    → (l.owner ≢ par → At l par pc)
    → Moved par l (
      record l { owner = if l.owner == 0 then par else l.owner },
      if l.owner == 0 then won else pc,
    )
compare-Moved l par pc p u d out = elim (Bool-cases (l.owner == 0)) [
  | inl e ↦
      let free : l.owner ≡ 0 = ground (arith, e) in
      rw e ((refl, u free), (inr (inr free, inl refl), λ z. absurd (omega (arith, z, p))))
  | inr e ↦ rw e (stays-Moved par l pc u (out d))
]

left-Moved :
    (l : SimpleLock) (par n : ℕ)
    → (l.owner ≡ 0 → l.cnt ≡ 0)
    → l.owner ≡ par
    → l.cnt ≡ n
    → Moved par l (l, if l.cnt == 0 then freeing n else inside n)
left-Moved l par zero u o c =
    let none_left : (l.cnt == 0) ≡ true = ground (arith, c) in
    rw none_left (stays-Moved par l (freeing 0) u (o, c, refl))
left-Moved l par (suc n) u o c =
    let more : (l.cnt == 0) ≡ false = ground (arith, c) in
    rw more (stays-Moved par l (inside (suc n)) u (o, c))

module _ (call : Function) (l : SimpleLock) (par : ℕ) (p : 0 < par)
    (u : l.owner ≡ 0 → l.cnt ≡ 0) where
  access-Moved : (pc : Pc) → At l par pc → Moved par l (access call l par pc)
  unfolding access
  access-Moved (inside n) a = inside-Moved call l par n u a
  access-Moved spin a = compare-Moved l par spin p u a (λ d. d)
  access-Moved trying a = compare-Moved l par (inside 0) p u a (λ d. d)
  access-Moved won (o, c) =
      let zero_cnt : (l.cnt == 0) ≡ true = ground (arith, c) in
      rw zero_cnt (stays-Moved par l (again 0) u (o, c))
  access-Moved (again n) (o, c) =
      let suc_cnt : n + 1 ≡ suc n = omega arith in
      rw suc_cnt ((o, omega (arith, c)), (inr (inl o, inl o), λ z. absurd (omega (arith, z, o, p))))
  access-Moved (leaving n) (o, c, s) =
      ((o, omega (arith, c)), (inr (inl o, inl o), λ z. absurd (omega (arith, z, o, p))))
  access-Moved (left n) (o, c) = left-Moved l par n u o c
  access-Moved (freeing n) (o, c, z) =
      rw z ((λ e. omega (arith, e, p)), (inr (inl o, inr refl), λ e. c))
  access-Moved aborted a = absurd (a refl)

go-Inv : (call : Function) (par : ℕ) (w : Stacks) → 0 < par → Inv w → Inv (go call par w)
go-Inv call par w p v =
    let (mine, rest) = access-Moved call w.mutex par p v.unowned (w.at par) (v.placed par p) in
    record {
      placed = λ q q_pos. elim (dec_eq q par) [
        | inl e ↦ rw (update_at w.at (access call w.mutex par (w.at par)).1 e) (rw e mine)
        | inr n ↦
            rw (update_ne w.at (access call w.mutex par (w.at par)).1 n)
              (other-At par q w.mutex _ (w.at q) n q_pos rest (v.placed q q_pos))
      ];
      unowned = rest.1;
    }

nobody-Inv : Inv nobody
nobody-Inv = record { placed = λ q p e. omega (arith, e, p); unowned = λ e. refl }

Reach-Inv : {w u : Stacks} → Inv w → Reach w u → Inv u
Reach-Inv v here = v
Reach-Inv v (next {u = w} r (moves call par p)) = go-Inv call par w p (Reach-Inv v r)

-- In every state that the accesses of any stacks reach from a lock that nobody is in: two stacks
-- are not both at places where they hold the lock; one that is outside the functions and holds
-- the lock is its owner, and `m_cnt` says how often; no assertion has failed; and a lock without
-- owner has a count of 0.
pub lock_excludes :
    {w : Stacks}
    → Reach nobody w
    → ((p q : ℕ) → 0 < p → 0 < q → holds (w.at p) ≡ true → holds (w.at q) ≡ true → p ≡ q)
      × ((q n : ℕ) → 0 < q → w.at q ≡ inside (suc n) → w.mutex ≡ record { owner = q; cnt = suc n })
      × ((q : ℕ) → 0 < q → w.at q ≢ aborted)
      × (w.mutex.owner ≡ 0 → w.mutex ≡ free_lock)
lock_excludes {w} r =
    let v = Reach-Inv nobody-Inv r in
    (
      λ p q hp hq a b. sym (held_owner w p v hp a) ∙ held_owner w q v hq b,
      λ q n hq e.
          let here_at : At w.mutex q (w.at q) = v.placed q hq in
          let own : (w.mutex.owner ≡ q) × (w.mutex.cnt ≡ suc n) = rw e at here_at in
          ground (arith, own),
      λ q hq e.
          let here_at : At w.mutex q (w.at q) = v.placed q hq in
          let never : q ≢ q = rw e at here_at in never refl,
      λ e. let c = v.unowned e in ground (arith, e, c),
    )
  where
    held_owner : (w : Stacks) (q : ℕ) → Inv w → 0 < q → holds (w.at q) ≡ true → w.mutex.owner ≡ q
    held_owner w q v h e = elim (At-owner w.mutex q (w.at q) (v.placed q h)) [
      | inl out ↦ absurd (ground (arith, out, e))
      | inr own ↦ own
    ]
