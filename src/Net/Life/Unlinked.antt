-- ===== src/Net/Life/Unlinked.antt =====
-- A connection that is cleared leaves no timer of its own with its thread.
use eparallel.Common.{
  ℕ, ◌≡◌, ◌≢◌, refl, sym, ◌∙◌, true, false, ◌||◌, Option, none, some, List, [], ◌∷◌, if◌then◌else◌,
  Bool-cases, inl, inr,
}
use eparallel.Net.Time.{TimeTv, Timer, TimerKey}
use eparallel.Net.Thread.{
  NetThread, key_of, differs, find, insert, erase, add_timer, del_connection,
}
use eparallel.Net.Thread.Timers.{Ordered, insert-Ordered, erase-Ordered, find-erase}
use eparallel.Net.Conn.{Os, Conn, thread_notify, has_bit, add_read, add_write}
use eparallel.Net.Life.{drop_timer, start_con_timer, stop_time, del_timers, leave_thread, clear}
use eparallel.Net.Life.Linked.{
  Linked, Listed, start_con_timer-Linked, drop_timer-Linked, del_timers-None, other-Listed,
}

-- What may happen to the timers of a connection and its thread: the connection starts one or stops
-- one, an entry of the thread's map is erased, as it is when a timer has gone off, or another's
-- timer is added.
pub data TimerCall : Type 0 where
  starts : TimeTv → ℕ → ℕ → TimerCall
  stops : ℕ → TimerCall
  erased : TimerKey → TimerCall
  others : Timer → TimerCall

abbrev pub call : TimerCall → NetThread → Conn → Option (NetThread × Conn)
call (starts now id timeout) t c = start_con_timer t c now id timeout
call (stops id) t c = stop_time t c id
call (erased k) t c = some (record t { timer_map = erase k t.timer_map }, c)
call (others tm) t c = some (add_timer t tm, c)

abbrev pub calls : List TimerCall → NetThread → Conn → Option (NetThread × Conn)
calls [] t c = some (t, c)
calls (x ∷ xs) t c = elim (call x t c) [ none ↦ none | some (t1, c1) ↦ calls xs t1 c1 ]

-- Another's timer is not of the connection with the id.
abbrev pub Foreign : ℕ → List TimerCall → Type 0
Foreign id [] = Unit {0}
Foreign id (others tm ∷ xs) = ((key_of tm).con_id ≢ id) × Foreign id xs
Foreign id (_ ∷ xs) = Foreign id xs

erased-Listed :
    (id : ℕ) (k : TimerKey) (m : List (TimerKey × Timer)) (tms : List Timer)
    → Ordered m
    → Listed id m tms
    → Listed id (erase k m) tms
erased-Listed id k m tms o l p i n = elim (Bool-cases (differs p k)) [
  | inl d ↦ rw (find-erase p k m o, d) (l p i n)
  | inr s ↦ rw (find-erase p k m o, s) refl
]

stop_time-drop :
    (t : NetThread) (c : Conn) (id : ℕ) → c.has_thread ≡ true → stop_time t c id ≡ drop_timer t c id
unfolding stop_time
stop_time-drop t c id h = simp (stop_time, h)

calls-Linked :
    (xs : List TimerCall) (t : NetThread) (c : Conn)
    → Linked t c
    → Foreign c.id xs
    → (t1 : NetThread) × (c1 : Conn) × (calls xs t c ≡ some (t1, c1))
      × Linked t1 c1
      × (c1.id ≡ c.id)
unfolding add_timer
calls-Linked [] t c l f = (t, c, refl, l, refl)
calls-Linked (starts now id timeout ∷ xs) t c l f =
    let (t1, c1, e, l1, i) = start_con_timer-Linked t c now id timeout l in
    let (t2, c2, e2, l2, j) = calls-Linked xs t1 c1 l1 (rw i f) in
    (t2, c2, rw (calls, e) e2, l2, j ∙ i)
calls-Linked (stops id ∷ xs) t c l f =
    let (t1, c1, e, l1, i) = drop_timer-Linked t c id l in
    let (t2, c2, e2, l2, j) = calls-Linked xs t1 c1 l1 (rw i f) in
    (t2, c2, rw (calls, stop_time-drop t c id l.threaded ∙ e) e2, l2, j ∙ i)
calls-Linked (erased k ∷ xs) t c l f =
    calls-Linked xs (record t { timer_map = erase k t.timer_map }) c
      (record {
        ordered = erase-Ordered k t.timer_map l.ordered;
        listed = erased-Listed c.id k t.timer_map c.timers l.ordered l.listed;
        own = l.own;
        threaded = l.threaded;
      })
      f
calls-Linked (others tm ∷ xs) t c l f =
    calls-Linked xs (record t { timer_map = insert (key_of tm) tm t.timer_map }) c
      (record {
        ordered = insert-Ordered (key_of tm) tm t.timer_map l.ordered;
        listed = other-Listed c.id tm t.timer_map c.timers f.0 l.listed;
        own = l.own;
        threaded = l.threaded;
      })
      f.1

-- The connection when it has been cleared.
cleared : Conn → Conn
cleared c = record c { timers = []; has_thread = false; has_fd = false; noti = 0; id = 0 }

clear-Leaves :
    {K : Type 0} (os : Os K) (k : K) (t t1 : NetThread) (c : Conn)
    → c.has_thread ≡ true
    → del_timers t c.timers ≡ some t1
    → clear os t c k
      ≡ some (
        del_connection t1 c.id,
        cleared c,
        if has_bit add_read c.noti || has_bit add_write c.noti
            then (thread_notify os k c.noti 0).1
            else k,
      )
unfolding clear leave_thread cleared
clear-Leaves os k t t1 c h d = simp (clear, h, leave_thread, d)

-- A connection with a thread starts with no timers, and the thread's map, in the order of its keys,
-- has none of its own: after any calls that start and stop timers of it, let timers go off, or
-- add timers of others, each of which has a result, `clear` has a result too, and then the
-- thread's map has no timer of the connection, at no time and with no id.
pub clear-Unlinked :
    {K : Type 0} (os : Os K) (k : K) (t : NetThread) (c : Conn) (xs : List TimerCall)
    → c.has_thread ≡ true
    → c.timers ≡ []
    → Ordered t.timer_map
    → ((p : TimerKey) → p.con_id ≡ c.id → find p t.timer_map ≡ none)
    → Foreign c.id xs
    → (t1 : NetThread) × (c1 : Conn) × (calls xs t c ≡ some (t1, c1))
      × (r : NetThread × Conn × K) × (clear os t1 c1 k ≡ some r)
      × ((tv : TimeTv) (id : ℕ)
          → find (record { tv = tv; con_id = c.id; id = id }) r.0.timer_map ≡ none)
unfolding clear leave_thread del_connection
clear-Unlinked os k t c xs h e o l f =
    let (t1, c1, g, l1, i) =
      calls-Linked xs t c
        (record { ordered = o; listed = λ p q n. l p q; own = rw e tt; threaded = h }) f in
    let (t2, d, gone) = del_timers-None c1.id t1 c1.timers l1.ordered l1.own l1.listed in
    (
      t1,
      c1,
      g,
      (del_connection t2 c1.id, cleared c1, _),
      clear-Leaves os k t1 t2 c1 l1.threaded d,
      λ tv id. gone (record { tv = tv; con_id = c.id; id = id }) (sym i),
    )
