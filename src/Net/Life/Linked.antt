-- ===== src/Net/Life/Linked.antt =====
-- That a thread has of a connection only the timers that the connection lists, and what each call
-- on the timers does to that.
use eparallel.Common.{
  ℕ, ◌≡◌, ◌≢◌, refl, sym, ap, ◌∙◌, Bool, true, false, Option, none, some, List, [], ◌∷◌, ◌++◌, ◌==◌,
  if◌then◌else◌, arith, Bool-cases, Option-cases, inl, inr,
}
use eparallel.Net.Time.{TimeTv, Timer, TimerKey}
use eparallel.Net.Thread.{
  NetThread, key_of, differs, find, insert, erase, add_timer, del_timer, time_out_at,
}
use eparallel.Net.Thread.Timers.{
  Ordered, insert-Ordered, erase-Ordered, find-insert, find-erase, same_key,
}
use eparallel.Net.Conn.{Conn}
use eparallel.Net.Life.{take_timer, drop_timer, start_con_timer, del_timers}

-- A key is that of a timer of the list.
abbrev pub lists : TimerKey → List Timer → Bool
lists p [] = false
lists p (tm ∷ tms) = let rest = lists p tms in if differs p (key_of tm) then rest else true

-- The timers are of the connection with the id.
abbrev pub Own : ℕ → List Timer → Type 0
Own id [] = Unit {0}
Own id (tm ∷ tms) = (tm.con ≡ some id) × Own id tms

-- The map has at a key of the connection only what the list has.
abbrev pub Listed : ℕ → List (TimerKey × Timer) → List Timer → Type 0
Listed id m tms = (p : TimerKey) → p.con_id ≡ id → lists p tms ≡ false → find p m ≡ none

pub record Linked (t : NetThread) (c : Conn) : Type 0 where
  pub ordered : Ordered t.timer_map
  pub listed : Listed c.id t.timer_map c.timers
  pub own : Own c.id c.timers
  pub threaded : c.has_thread ≡ true

pub take_timer-Own :
    (id n : ℕ) (tms : List Timer) (tm : Timer) (others : List Timer)
    → Own id tms
    → take_timer n tms ≡ some (tm, others)
    → (tm.con ≡ some id)
      × Own id others
      × ((p : TimerKey)
          → differs p (key_of tm) ≡ true
          → lists p others ≡ false
          → lists p tms ≡ false)
take_timer-Own id n [] tm others o e = absurd (ground (arith, e))
take_timer-Own id n (x ∷ tms) tm others o e = elim (Bool-cases (x.id == n)) [
  | inl y ↦
      let here : tm ≡ x = ground (arith, e, y) in
      let rest : others ≡ tms = ground (arith, e, y) in rw (here, rest) (o.0, o.1, λ p d n. rw d n)
  | inr y ↦ elim (Option-cases (take_timer n tms)) [
    | inl g ↦ absurd (ground (arith, e, y, g))
    | inr ((tm1, others1), g) ↦
        let there : tm ≡ tm1 = ground (arith, e, y, g) in
        let rest : others ≡ x ∷ others1 = ground (arith, e, y, g) in
        let (a, b, c) = take_timer-Own id n tms tm1 others1 o.1 g in
        rw (there, rest) (a, (o.0, b), λ p d n. kept_first p x others1 tms (c p d) n)
  ]
]
  where
    kept_first :
        (p : TimerKey) (x : Timer) (others1 tms : List Timer)
        → (lists p others1 ≡ false → lists p tms ≡ false)
        → lists p (x ∷ others1) ≡ false
        → lists p (x ∷ tms) ≡ false
    kept_first p x others1 tms h n = elim (Bool-cases (differs p (key_of x))) [
      | inl d ↦ rw d (h (ground (arith, n, d)))
      | inr s ↦ absurd (ground (arith, n, s))
    ]

-- Without the entry of a timer, the list can be without the timer.
pub erase-Listed :
    (id : ℕ) (k : TimerKey) (m : List (TimerKey × Timer)) (tms others : List Timer)
    → Ordered m
    → Listed id m tms
    → ((p : TimerKey) → differs p k ≡ true → lists p others ≡ false → lists p tms ≡ false)
    → Listed id (erase k m) others
erase-Listed id k m tms others o l h p i n = elim (Bool-cases (differs p k)) [
  | inl d ↦ rw (find-erase p k m o, d) (l p i (h p d n))
  | inr s ↦ rw (find-erase p k m o, s) refl
]

pub lists-append :
    (p : TimerKey) (tms : List Timer) (tm : Timer)
    → lists p (tms ++ (tm ∷ [])) ≡ false
    → (lists p tms ≡ false) × (differs p (key_of tm) ≡ true)
lists-append p [] tm e = elim (Bool-cases (differs p (key_of tm))) [
  | inl d ↦ (refl, d)
  | inr s ↦ absurd (ground (arith, e, s))
]
lists-append p (x ∷ tms) tm e = elim (Bool-cases (differs p (key_of x))) [
  | inl d ↦ rw d (lists-append p tms tm (ground (arith, e, d)))
  | inr s ↦ absurd (ground (arith, e, s))
]

pub insert-Listed :
    (id : ℕ) (tm : Timer) (m : List (TimerKey × Timer)) (tms : List Timer)
    → Listed id m tms
    → Listed id (insert (key_of tm) tm m) (tms ++ (tm ∷ []))
insert-Listed id tm m tms l p i n =
    let (a, d) = lists-append p tms tm n in rw (find-insert p (key_of tm) tm m, d) (l p i a)

pub other-Listed :
    (id : ℕ) (tm : Timer) (m : List (TimerKey × Timer)) (tms : List Timer)
    → (key_of tm).con_id ≢ id
    → Listed id m tms
    → Listed id (insert (key_of tm) tm m) tms
other-Listed id tm m tms f l p i n = elim (Bool-cases (differs p (key_of tm))) [
  | inl d ↦ rw (find-insert p (key_of tm) tm m, d) (l p i n)
  | inr s ↦ absurd (f (sym (ap (λ (k : TimerKey). k.con_id) (same_key p (key_of tm) s)) ∙ i))
]

-- A timer of a connection is taken from the map.
pub del_timer-Own :
    (t : NetThread) (tm : Timer) (id : ℕ)
    → tm.con ≡ some id
    → del_timer t tm ≡ some (record t { timer_map = erase (key_of tm) t.timer_map })
unfolding del_timer
del_timer-Own t tm id e = of_some tm.con (record t { timer_map = erase (key_of tm) t.timer_map }) e
  where
    of_some :
        (o : Option ℕ) (x : NetThread)
        → o ≡ some id
        → elim o [ none ↦ none | some c ↦ some x ] ≡ some x
    of_some none x e = absurd (ground (arith, e))
    of_some (some c) x e = refl

pub drop_timer-Linked :
    (t : NetThread) (c : Conn) (id : ℕ)
    → Linked t c
    → (t1 : NetThread) × (c1 : Conn) × (drop_timer t c id ≡ some (t1, c1))
      × Linked t1 c1
      × (c1.id ≡ c.id)
unfolding drop_timer
drop_timer-Linked t c id l = elim (Option-cases (take_timer id c.timers)) [
  | inl n ↦ (t, c, rw (drop_timer, n) refl, l, refl)
  | inr ((tm, tms), e) ↦
      let (mine, own, h) = take_timer-Own c.id id c.timers tm tms l.own e in
      (
        record t { timer_map = erase (key_of tm) t.timer_map },
        record c { timers = tms },
        rw (drop_timer, e) (rw (del_timer-Own t tm c.id mine) refl),
        record {
          ordered = erase-Ordered (key_of tm) t.timer_map l.ordered;
          listed = erase-Listed c.id (key_of tm) t.timer_map c.timers tms l.ordered l.listed h;
          own = own;
          threaded = l.threaded;
        },
        refl,
      )
]

pub Own-append :
    (id : ℕ) (tms : List Timer) (tm : Timer)
    → Own id tms
    → tm.con ≡ some id
    → Own id (tms ++ (tm ∷ []))
Own-append id [] tm o e = (e, tt)
Own-append id (x ∷ tms) tm o e = (o.0, Own-append id tms tm o.1 e)

pub start_con_timer-Linked :
    (t : NetThread) (c : Conn) (now : TimeTv) (id timeout : ℕ)
    → Linked t c
    → (t1 : NetThread) × (c1 : Conn) × (start_con_timer t c now id timeout ≡ some (t1, c1))
      × Linked t1 c1
      × (c1.id ≡ c.id)
unfolding start_con_timer add_timer
start_con_timer-Linked t c now id timeout l =
    let (t1, c1, e, l1, same) = drop_timer-Linked t c id l in
    let tm : Timer = record {
      con = some c1.id;
      id = id;
      time_out_time = time_out_at now timeout;
    } in
    (
      record t1 { timer_map = insert (key_of tm) tm t1.timer_map },
      record c1 { timers = c1.timers ++ (tm ∷ []) },
      rw (start_con_timer, l.threaded) (rw e refl),
      record {
        ordered = insert-Ordered (key_of tm) tm t1.timer_map l1.ordered;
        listed = insert-Listed c1.id tm t1.timer_map c1.timers l1.listed;
        own = Own-append c1.id c1.timers tm l1.own refl;
        threaded = l1.threaded;
      },
      same,
    )

-- `del_timer` for each timer of the list.
pub del_timers-None :
    (id : ℕ) (t : NetThread) (tms : List Timer)
    → Ordered t.timer_map
    → Own id tms
    → Listed id t.timer_map tms
    → (t1 : NetThread) × (del_timers t tms ≡ some t1)
      × ((p : TimerKey) → p.con_id ≡ id → find p t1.timer_map ≡ none)
unfolding del_timers
del_timers-None id t [] o w l = (t, refl, λ p i. l p i refl)
del_timers-None id t (tm ∷ tms) o w l =
    let m = erase (key_of tm) t.timer_map in
    let (t1, e, h) =
      del_timers-None id (record t { timer_map = m }) tms (erase-Ordered (key_of tm) t.timer_map o)
        w.1 (erase-Listed id (key_of tm) t.timer_map (tm ∷ tms) tms o l (λ p d n. rw d n)) in
    (t1, rw (del_timers, del_timer-Own t tm id w.0) e, h)
