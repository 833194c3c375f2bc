-- ===== src/Net/Life.antt =====
-- efnfw/ef_connection.cpp: the timers of a connection, and how it ends.
-- A connection's functions are given its thread, as the code's follow `m_thread`; without one the
-- timers have no result, since `m_thread` is NULL.
pub mod Linked
pub mod Unlinked
use eparallel.Common.{
  ℕ, zero, suc, ◌+◌, ◌≡◌, Bool, true, false, ◌||◌, Option, none, some, List, [], ◌∷◌, ◌++◌, ◌==◌,
  if◌then◌else◌, ℤ, pos, negsuc,
}
use eparallel.Net.Time.{TimeTv, Timer}
use eparallel.Net.Thread.{NetThread, add_timer, del_timer, del_connection, time_out_at}
use eparallel.Net.Conn.{
  Os, Conn, thread_notify, set_notify, has_bit, add_read, add_write, or_del_read, do_send,
}

-- The first timer of the list with the id, and the others.
abbrev pub take_timer : ℕ → List Timer → Option (Timer × List Timer)
take_timer id [] = none
take_timer id (tm ∷ tms) =
    let rest = take_timer id tms in
    if tm.id == id
    then some (tm, tms)
    else elim rest [ none ↦ none | some (found, others) ↦ some (found, tm ∷ others) ]

-- `connection::find_del_timer`, and `del_timer` of the thread where it has found one.
unfoldable pub drop_timer : NetThread → Conn → ℕ → Option (NetThread × Conn)
unfolding del_timer
drop_timer t c id = elim (take_timer id c.timers) [
  | none ↦ some (t, c)
  | some (tm, tms) ↦ elim (del_timer t tm) [
    | none ↦ none
    | some t1 ↦ some (t1, record c { timers = tms })
  ]
]

-- `connection::start_timer`
unfoldable pub start_con_timer : NetThread → Conn → TimeTv → ℕ → ℕ → Option (NetThread × Conn)
unfolding drop_timer add_timer
start_con_timer t c now id timeout =
    if c.has_thread
    then elim (drop_timer t c id) [
      | none ↦ none
      | some (t1, c1) ↦
          let tm : Timer = record {
            con = some c1.id;
            id = id;
            time_out_time = time_out_at now timeout;
          } in
          some (add_timer t1 tm, record c1 { timers = c1.timers ++ (tm ∷ []) })
    ]
    else none

-- `connection::stop_time`
unfoldable pub stop_time : NetThread → Conn → ℕ → Option (NetThread × Conn)
unfolding drop_timer
stop_time t c id = if c.has_thread then drop_timer t c id else drop_nothing t c id
  where
    -- Without a thread a timer that is found has none to be taken from.
    drop_nothing : NetThread → Conn → ℕ → Option (NetThread × Conn)
    drop_nothing t c id = elim (take_timer id c.timers) [ none ↦ some (t, c) | some x ↦ none ]

-- `m_thread->del_timer` for each of the timers.
unfoldable pub del_timers : NetThread → List Timer → Option NetThread
unfolding del_timer
del_timers t [] = some t
del_timers t (tm ∷ tms) = elim (del_timer t tm) [ none ↦ none | some t1 ↦ del_timers t1 tms ]

-- The connection leaves its thread.
unfoldable pub leave_thread : NetThread → Conn → Option (NetThread × Conn)
unfolding del_timers del_connection
leave_thread t c = elim (del_timers t c.timers) [
  | none ↦ none
  | some t1 ↦ some (del_connection t1 c.id, record c { timers = []; has_thread = false })
]

module _ {K : Type 0} (os : Os K) where
  -- `connection::clear`
  unfoldable pub clear : NetThread → Conn → K → Option (NetThread × Conn × K)
  unfolding leave_thread thread_notify
  clear t c k =
      let done = λ (t1 : NetThread) (c1 : Conn) (k1 : K).
        some (t1, record c1 { has_fd = false; noti = 0; id = 0 }, k1) in
      if c.has_thread
      then (let k1 : K =
            if has_bit add_read c.noti || has_bit add_write c.noti
            then (thread_notify os k c.noti 0).1
            else k in
          elim (leave_thread t c) [ none ↦ none | some (t1, c1) ↦ done t1 c1 k1 ])
      else done t c k

  -- `connection::safe_close`; the connection is missing where it was deleted.
  unfoldable pub safe_close : ℕ → NetThread → Conn → K → Option (ℤ × NetThread × Option Conn × K)
  unfolding clear leave_thread thread_notify do_send
  safe_close fuel t c k = elim c.msgs [
    | [] ↦ elim (clear t c k) [ none ↦ none | some (t1, c1, k1) ↦ some (pos 0, t1, none, k1) ]
    | msg ∷ msgs ↦
        let k1 : K =
          if has_bit add_read c.noti
          then (thread_notify os k c.noti (or_del_read c.noti)).1
          else k in
        elim (if c.has_thread then leave_thread t c else some (t, c)) [
          | none ↦ none
          | some (t1, c1) ↦
              elim (do_send os fuel (if c.has_thread then k1 else k)
                (record c1 { flag_safe_close = true })) [
                  | none ↦ none
                  | some (ret, c2, k2) ↦ some (ret, t1, some c2, k2)
                ]
        ]
  ]
