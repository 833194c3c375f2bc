-- ===== src/Net/Thread/Timers.antt =====
-- The map of the timers: its order, and what it has at each key.
use eparallel.Common.{
  ◌≡◌, refl, true, false, none, some, List, [], ◌∷◌, if◌then◌else◌, arith, Bool-cases, inl, inr,
}
use eparallel.Net.Time.{TimerKey, Timer, less}
use eparallel.Net.Time.Order.{less_trans, less-total}
use eparallel.Net.Thread.{insert, erase, find, differs}

-- Every key of the map is behind `k`.
abbrev pub Behind : TimerKey → List (TimerKey × Timer) → Type 0
Behind k [] = Unit {0}
Behind k ((q, tm) ∷ m) = (less k q ≡ true) × Behind k m

abbrev pub Ordered : List (TimerKey × Timer) → Type 0
Ordered [] = Unit {0}
Ordered ((k, tm) ∷ m) = Behind k m × Ordered m

Behind-trans :
    (k q : TimerKey) (m : List (TimerKey × Timer)) → less k q ≡ true → Behind q m → Behind k m
Behind-trans k q [] h b = tt
Behind-trans k q ((p, tm) ∷ m) h b = (less_trans k q p h b.0, Behind-trans k q m h b.1)

insert-Behind :
    (p k : TimerKey) (tm : Timer) (m : List (TimerKey × Timer))
    → less p k ≡ true
    → Behind p m
    → Behind p (insert k tm m)
unfolding insert
insert-Behind p k tm [] h b = (h, tt)
insert-Behind p k tm ((q, w) ∷ m) h b = elim (Bool-cases (less k q)) [
  | inl l ↦ rw l (h, b)
  | inr n ↦ rw n (elim (Bool-cases (less q k)) [
    | inl g ↦ rw g (b.0, insert-Behind p k tm m h b.1)
    | inr e ↦ rw e (h, b.1)
  ])
]

pub insert-Ordered :
    (k : TimerKey) (tm : Timer) (m : List (TimerKey × Timer)) → Ordered m → Ordered (insert k tm m)
unfolding insert
insert-Ordered k tm [] o = (tt, tt)
insert-Ordered k tm ((q, w) ∷ m) o = elim (Bool-cases (less k q)) [
  | inl l ↦ rw l ((l, Behind-trans k q m l o.0), o)
  | inr n ↦ rw n (elim (Bool-cases (less q k)) [
    | inl g ↦ rw g (insert-Behind q k tm m g o.0, insert-Ordered k tm m o.1)
    | inr e ↦ rw e (rw (less-total k q n e) o)
  ])
]

erase-Behind : (p k : TimerKey) (m : List (TimerKey × Timer)) → Behind p m → Behind p (erase k m)
unfolding erase
erase-Behind p k [] b = tt
erase-Behind p k ((q, w) ∷ m) b = elim (Bool-cases (differs k q)) [
  | inl d ↦ rw d (b.0, erase-Behind p k m b.1)
  | inr e ↦ rw e b.1
]

pub erase-Ordered : (k : TimerKey) (m : List (TimerKey × Timer)) → Ordered m → Ordered (erase k m)
unfolding erase
erase-Ordered k [] o = tt
erase-Ordered k ((q, w) ∷ m) o = elim (Bool-cases (differs k q)) [
  | inl d ↦ rw d (erase-Behind q k m o.0, erase-Ordered k m o.1)
  | inr e ↦ rw e o.1
]

pub same_key : (k q : TimerKey) → differs k q ≡ false → k ≡ q
unfolding less
same_key k q h = elim (Bool-cases (less k q)) [
  | inl l ↦ absurd (ground (arith, h, l))
  | inr n ↦ elim (Bool-cases (less q k)) [
    | inl g ↦ absurd (ground (arith, h, g))
    | inr e ↦ less-total k q n e
  ]
]

pub find-insert :
    (p k : TimerKey) (tm : Timer) (m : List (TimerKey × Timer))
    → find p (insert k tm m) ≡ (if differs p k then find p m else some tm)
unfolding insert find
find-insert p k tm [] = refl
find-insert p k tm ((q, w) ∷ m) = elim (Bool-cases (less k q)) [
  | inl l ↦ rw l refl
  | inr n ↦ rw n (elim (Bool-cases (less q k)) [
    | inl g ↦
        rw (g, find-insert p k tm m)
          (elim (Bool-cases (differs p q)) [
            | inl d ↦ rw d refl
            | inr s ↦ rw (s, same_key p q s, g) refl
          ])
    | inr e ↦ rw e (
        rw (less-total k q n e)
          (elim (Bool-cases (differs p q)) [ inl d ↦ rw d refl | inr s ↦ rw s refl ]))
  ])
]

find-Behind : (k : TimerKey) (m : List (TimerKey × Timer)) → Behind k m → find k m ≡ none
unfolding find
find-Behind k [] b = refl
find-Behind k ((q, w) ∷ m) b = rw b.0 (find-Behind k m b.1)

differs-sym : (k q : TimerKey) → differs k q ≡ true → differs q k ≡ true
differs-sym k q d = elim (Bool-cases (less k q)) [
  | inl l ↦ ground (arith, l)
  | inr n ↦ elim (Bool-cases (less q k)) [
    | inl g ↦ ground (arith, g)
    | inr e ↦ absurd (ground (arith, d, n, e))
  ]
]

pub find-erase :
    (p k : TimerKey) (m : List (TimerKey × Timer))
    → Ordered m
    → find p (erase k m) ≡ (if differs p k then find p m else none)
unfolding erase find
find-erase p k [] o = elim (Bool-cases (differs p k)) [ inl d ↦ rw d refl | inr s ↦ rw s refl ]
find-erase p k ((q, w) ∷ m) o = elim (Bool-cases (differs k q)) [
  | inl d ↦
      rw (d, find-erase p k m o.1)
        (elim (Bool-cases (differs p q)) [
          | inl a ↦ rw a refl
          | inr s ↦ rw (s, same_key p q s, differs-sym k q d) refl
        ])
  | inr e ↦
      rw (e, same_key k q e)
        (elim (Bool-cases (differs p q)) [
          | inl a ↦ rw a refl
          | inr s ↦ rw (s, same_key p q s) (find-Behind q m o.0)
        ])
]
