-- ===== src/Net/Thread/Fire.antt =====
-- Which timers `process_timer` lets go off, and what `start_timer` and `stop_timer` do afterwards.
use eparallel.Common.{
  Option-cases, ℕ, zero, suc, ◌≤◌, ◌≡◌, refl, ap, sym, ◌∙◌, true, false, none, some, List, [], ◌∷◌,
  ◌++◌, length, is_neg, arith, Bool-cases, inl, inr, ◌⊎◌,
}
use eparallel.Net.Time.{TimeTv, TimerKey, Timer, less, tv_cmp, tv_diff}
use eparallel.Net.Time.Order.{less_irrefl}
use eparallel.Net.Thread.{
  time_out_at, add_timer, del_timer, find_del_timer, look, find_del_timer, start_timer, stop_timer,
  del_timer, add_timer, NetThread, erase, erase_all, collect, fire, max_timer, process_timer,
}
use eparallel.Net.Thread.Timers.{Behind, Ordered}

-- The time of each key has come, or of none.
abbrev pub Due : TimeTv → List (TimerKey × Timer) → Type 0
Due now [] = Unit {0}
Due now ((k, tm) ∷ m) = (is_neg (tv_cmp now k.tv) ≡ false) × Due now m

abbrev pub Later : TimeTv → List (TimerKey × Timer) → Type 0
Later now [] = Unit {0}
Later now ((k, tm) ∷ m) = (is_neg (tv_cmp now k.tv) ≡ true) × Later now m

abbrev pub no_time : TimeTv
no_time = record { sec = 0; usec = 0 }

-- The time until the first of the timers that are left.
abbrev pub next_time : TimeTv → List (TimerKey × Timer) → TimeTv
next_time now [] = no_time
next_time now ((k, tm) ∷ m) = tv_diff k.tv now

-- A map in two parts: at most `n` timers that are due, and the rest, of which none is due, unless
-- there are `n` that go off; then the time until the next one is not known.
pub record Parted (now : TimeTv) (n : ℕ) (m : List (TimerKey × Timer)) (diff : TimeTv)
    : Type 0 where
  pub batch : List (TimerKey × Timer)
  pub rest : List (TimerKey × Timer)
  pub whole : m ≡ batch ++ rest
  pub due : Due now batch
  pub few : length batch ≤ n
  pub later :
      (Later now rest × (diff ≡ next_time now rest)) ⊎ ((length batch ≡ n) × (diff ≡ no_time))

later-less :
    (now : TimeTv) (k q : TimerKey)
    → less k q ≡ true
    → is_neg (tv_cmp now k.tv) ≡ true
    → is_neg (tv_cmp now q.tv) ≡ true
unfolding less tv_cmp
later-less now k q h g = ground arith

Behind-Later :
    (now : TimeTv) (k : TimerKey) (m : List (TimerKey × Timer))
    → Behind k m
    → is_neg (tv_cmp now k.tv) ≡ true
    → Later now m
Behind-Later now k [] b g = tt
Behind-Later now k ((q, w) ∷ m) b g = (later-less now k q b.0 g, Behind-Later now k m b.1 g)

collect-Parted :
    (now : TimeTv) (n : ℕ) (m : List (TimerKey × Timer))
    → Ordered m
    → (p : Parted now n m (collect now n m).1) × (p.batch ≡ (collect now n m).0)
unfolding collect
collect-Parted now zero m o = (
  record {
    batch = [];
    rest = m;
    whole = refl;
    due = tt;
    few = omega arith;
    later = inr (refl, refl);
  },
  refl,
)
collect-Parted now (suc n) [] o = (
  record {
    batch = [];
    rest = [];
    whole = refl;
    due = tt;
    few = omega arith;
    later = inl (tt, refl);
  },
  refl,
)
collect-Parted now (suc n) ((k, tm) ∷ m) o = elim (Bool-cases (is_neg (tv_cmp now k.tv))) [
  | inl l ↦ rw l (
    record {
      batch = [];
      rest = (k, tm) ∷ m;
      whole = refl;
      due = tt;
      few = omega arith;
      later = inl ((l, Behind-Later now k m o.0 l), refl);
    },
    refl,
  )
  | inr d ↦
      let (p, e) = collect-Parted now n m o.1 in
      rw d (
        record {
          batch = (k, tm) ∷ p.batch;
          rest = p.rest;
          whole = ap (λ x. (k, tm) ∷ x) p.whole;
          due = (d, p.due);
          few = omega (arith, p.few);
          later = elim p.later [ inl l ↦ inl l | inr (f, z) ↦ inr (ap suc f, z) ];
        },
        ap (λ x. (k, tm) ∷ x) e,
      )
]

erase_all-front : (batch rest : List (TimerKey × Timer)) → erase_all batch (batch ++ rest) ≡ rest
unfolding erase
erase_all-front [] rest = refl
erase_all-front ((k, tm) ∷ batch) rest = rw (less_irrefl k) (erase_all-front batch rest)

fire-quiet :
    (h : Timer → NetThread → NetThread) (batch : List (TimerKey × Timer)) (t : NetThread)
    → ((tm : Timer) (u : NetThread) → (h tm u).timer_map ≡ u.timer_map)
    → (fire h batch t).timer_map ≡ t.timer_map
fire-quiet h [] t q = refl
fire-quiet h ((k, tm) ∷ batch) t q = fire-quiet h batch (h tm t) q ∙ q tm t

-- On a map in the order of its keys, where handlers leave the map alone: `process_timer` lets
-- timers at the front of the map go off, each when its time has come and at most 256 of them, in
-- their order; it leaves the others, none of which is due unless 256 have gone off; and it gives
-- the time until the first of these, or 0 if there is none or 256 have gone off.
pub process_timer-Parted :
    (h : Timer → NetThread → NetThread) (now : TimeTv) (t : NetThread)
    → Ordered t.timer_map
    → ((tm : Timer) (u : NetThread) → (h tm u).timer_map ≡ u.timer_map)
    → (p : Parted now 256 t.timer_map (process_timer h now t).0) × ((process_timer h now t).1
        ≡ record (fire h p.batch t) { timer_map = p.rest })
unfolding process_timer
process_timer-Parted h now t o q =
    let (p, e) = collect-Parted now 256 t.timer_map o in
    let left : erase_all p.batch (fire h p.batch t).timer_map ≡ p.rest =
      ap (λ m. erase_all p.batch m) (fire-quiet h p.batch t q ∙ p.whole)
      ∙ erase_all-front p.batch p.rest in
    (p, rw (sym e, left) refl)

fire-timers :
    (h : Timer → NetThread → NetThread) (id : ℕ) (batch : List (TimerKey × Timer)) (t : NetThread)
    → ((tm : Timer) (u : NetThread) → look id (h tm u).timers ≡ look id u.timers)
    → look id (fire h batch t).timers ≡ look id t.timers
fire-timers h id [] t q = refl
fire-timers h id ((k, tm) ∷ batch) t q = fire-timers h id batch (h tm t) q ∙ q tm t

-- A timer of the thread's own in the table.
Held : NetThread → ℕ → Type 0
Held t id = (tm : Timer) × (look id t.timers ≡ some tm) × (tm.con ≡ none)

start_timer-Held :
    (t t1 : NetThread) (now : TimeTv) (id timeout : ℕ)
    → start_timer t now id timeout ≡ some t1
    → Held t1 id
unfolding Held start_timer add_timer
start_timer-Held t t1 now id timeout e = elim (Option-cases (stop_timer t id)) [
  | inl n ↦ absurd (ground (arith, e, n))
  | inr (t0, s) ↦ (
    record { con = none; id = id; time_out_time = time_out_at now timeout },
    ground (arith, e, s),
    refl,
  )
]

stop_timer-Held : (t : NetThread) (id : ℕ) → Held t id → stop_timer t id ≡ none
unfolding Held stop_timer find_del_timer del_timer
stop_timer-Held t id (tm, l, c) = rw (stop_timer, find_del_timer, l, del_timer, c) refl

-- A timer of the thread's own that `start_timer` has started can afterwards neither be started
-- again nor stopped, whatever the times are, before and after a `process_timer` in which it may
-- have gone off and whose handlers leave the entry of its id in the table of these timers alone:
-- there is no result, since both use the connection of the old timer, which is NULL.
pub start_timer-Again :
    (h : Timer → NetThread → NetThread) (t t1 : NetThread) (now after : TimeTv)
    (id timeout again : ℕ)
    → start_timer t now id timeout ≡ some t1
    → ((tm : Timer) (u : NetThread) → look id (h tm u).timers ≡ look id u.timers)
    → (start_timer t1 after id again ≡ none)
      × (stop_timer t1 id ≡ none)
      × (start_timer (process_timer h after t1).1 after id again ≡ none)
      × (stop_timer (process_timer h after t1).1 id ≡ none)
unfolding start_timer process_timer Held
start_timer-Again h t t1 now after id timeout again e q =
    let held = start_timer-Held t t1 now id timeout e in
    let later : Held (process_timer h after t1).1 id =
      (held.0, fire-timers h id (collect after max_timer t1.timer_map).0 t1 q ∙ held.1, held.2) in
    let now_stops = stop_timer-Held t1 id held in
    let then_stops = stop_timer-Held _ id later in
    (rw (start_timer, now_stops) refl, now_stops, rw (start_timer, then_stops) refl, then_stops)
