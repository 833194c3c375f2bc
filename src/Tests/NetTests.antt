-- ===== src/Tests/NetTests.antt =====
-- The connections and the timers of efnfw on concrete sockets and times.
use eparallel.Common.{
  ◌<◌, ◌-◌, ℕ, ◌≡◌, refl, true, false, Option, none, some, List, [], ◌∷◌, ◌++◌, length, take,
  length-take, ℤ, pos, negsuc, arith,
}
use eparallel.LoopBuf.{LoopBuf, read, new_loop_buf}
use eparallel.LoopBuf.Contents.{Valid, contents}
use eparallel.Net.Life.{clear, safe_close}
use eparallel.Net.Life.Unlinked.{TimerCall, starts, stops, erased, others, calls, clear-Unlinked}
use eparallel.Net.Read.{receive, handle_read}
use eparallel.Net.Read.Receive.{receive-Keeps}
use eparallel.Net.Time.Micros.{micros, tv_diff-Micros}
use eparallel.Net.Time.{tv_cmp, tv_diff, TimeTv, Timer}
use eparallel.Net.Thread.{
  find, fire, NetThread, close_connection_op, send_message_op, add_timer, process_timer,
  start_timer, stop_timer, process_op,
}
use eparallel.Net.Thread.Timers.{Ordered}
use eparallel.Net.Thread.Fire.{Parted, process_timer-Parted, start_timer-Again}
use eparallel.Net.Thread.Drain.{process_op-Drains, all_ops}
use eparallel.Net.Conn.{
  int32_of, sent, Os, Conn, Ctl, ctl_add, ctl_mod, ctl_del, send_message, set_notify,
}
use eparallel.Net.Conn.Pending.{Counts, pending}
use eparallel.Net.Conn.Send.{Lawful}
use eparallel.Net.Conn.Stream.{Sends, send_message-Stream}
use eparallel.Net.Conn.Interest.{Epoll, set_notify-Interest}

abbrev empty_thread : NetThread
empty_thread = record { con_map = []; timer_map = []; timers = []; ops = []; cur_id = 1 }

abbrev at_time : ℕ → ℕ → TimeTv
at_time s u = record { sec = s; usec = u }

abbrev con_timer : ℕ → ℕ → TimeTv → Timer
con_timer c id tv = record { con = some c; id = id; time_out_time = tv }

-- Three timers, which were added out of order.
abbrev three : NetThread
three =
    add_timer
      (add_timer (add_timer empty_thread (con_timer 2 1 (at_time 5 0)))
        (con_timer 3 1 (at_time 4 7)))
      (con_timer 2 2 (at_time 9 1))

three-Ordered : Ordered three.timer_map
unfolding add_timer
three-Ordered = ((refl, (refl, tt)), ((refl, tt), (tt, tt)))

-- Two go off at 6 s, and the next one is 3 s and 1 us later.
three_fire :
    ((process_timer (λ tm t. t) (at_time 6 0) three).0 ≡ at_time 3 1)
    × (length (process_timer (λ tm t. t) (at_time 6 0) three).1.timer_map ≡ 1)
unfolding add_timer process_timer
three_fire = (refl, refl)

process_timer-Parted_example :
    (p : Parted (at_time 6 0) 256 three.timer_map (process_timer (λ tm t. t) (at_time 6 0) three).0)
    × ((process_timer (λ tm t. t) (at_time 6 0) three).1
        ≡ record (fire (λ tm t. t) p.batch three) { timer_map = p.rest })
process_timer-Parted_example =
    process_timer-Parted (λ tm t. t) (at_time 6 0) three three-Ordered (λ tm u. refl)

abbrev started : Option NetThread
started = start_timer empty_thread (at_time 6 0) 4 1500

started_thread : NetThread
started_thread = elim started [ none ↦ empty_thread | some t ↦ t ]

start_timer-Again_example :
    (start_timer started_thread (at_time 7 0) 4 10 ≡ none)
    × (stop_timer started_thread 4 ≡ none)
    × (start_timer (process_timer (λ tm t. t) (at_time 7 0) started_thread).1 (at_time 7 0) 4 10
        ≡ none)
    × (stop_timer (process_timer (λ tm t. t) (at_time 7 0) started_thread).1 4 ≡ none)
unfolding start_timer started_thread
start_timer-Again_example =
    start_timer-Again (λ tm t. t) empty_thread started_thread (at_time 6 0) (at_time 7 0) 4 1500 10
      refl (λ tm u. refl)

abbrev two_ops : NetThread
two_ops = record empty_thread { ops = send_message_op 1 (5 ∷ []) ∷ close_connection_op 1 ∷ [] }

process_op-Drains_example :
    (process_op (λ op t. t) 3 two_ops ≡ some (two_ops.ops, all_ops (λ op t. t) two_ops.ops two_ops))
    × ((all_ops (λ op t. t) two_ops.ops two_ops).ops ≡ [])
process_op-Drains_example = process_op-Drains (λ op t. t) 3 two_ops (λ op u. refl) (omega arith)

-- A socket that takes two bytes at a time, and how epoll watches it.
abbrev World : Type 0
World = List ℕ × Option ℕ

abbrev watch : Ctl → ℕ → Option ℕ → ℤ × Option ℕ
watch ctl_add ev none = (pos 0, some ev)
watch ctl_add ev (some old) = (negsuc 0, some old)
watch ctl_mod ev none = (negsuc 0, none)
watch ctl_mod ev (some old) = (pos 0, some ev)
watch ctl_del ev none = (negsuc 0, none)
watch ctl_del ev (some old) = (pos 0, none)

abbrev two_bytes : Os World
two_bytes = record {
  send = λ k buf n. (sent (length (take 2 buf)), (k.0 ++ take 2 buf, k.1));
  epoll_ctl = λ c ev k. ((watch c ev k.1).0, (k.0, (watch c ev k.1).1));
}

two_bytes-Lawful : Lawful two_bytes (λ k. k.0)
two_bytes-Lawful = record {
  at_most = λ k buf. omega (arith, length-take 2 buf);
  takes = λ k buf. rw (short_take buf) refl;
  keeps = λ c ev k. refl;
}
  where
    short_take : (buf : List ℕ) → take (length (take 2 buf)) buf ≡ take 2 buf
    short_take [] = refl
    short_take (x ∷ []) = refl
    short_take (x ∷ y ∷ buf) = refl

-- A connection that is notified of input, with a message that is sent in part.
abbrev sample_conn : Conn
sample_conn = record {
  id = 2;
  has_fd = true;
  has_thread = true;
  noti = 1;
  timers = [];
  msgs = (7 ∷ 8 ∷ 9 ∷ []) ∷ [];
  send_queue_size = 2;
  cur_msg_start = 1;
  flag_safe_close = false;
}

sample_conn-Counts : Counts sample_conn
sample_conn-Counts = record {
  within = omega arith;
  short = (omega arith, tt);
  counted = refl;
  bounded = omega arith;
}

-- The three bytes of the second message do not all find room.
send_message-Stream_example :
    Sends two_bytes
      (λ k. k.0)
      two_bytes-Lawful
      ([], some 1)
      (pending sample_conn.cur_msg_start sample_conn.msgs ++ (4 ∷ 5 ∷ 6 ∷ []))
      (send_message two_bytes 1 ([], some 1) sample_conn (4 ∷ 5 ∷ 6 ∷ []))
send_message-Stream_example =
    send_message-Stream two_bytes (λ k. k.0) two_bytes-Lawful 1 ([], some 1) sample_conn
      (4 ∷ 5 ∷ 6 ∷ []) (λ k buf. refl) sample_conn-Counts (omega arith) (omega arith)

two_bytes-Epoll : Epoll two_bytes (λ k. k.1)
two_bytes-Epoll = record {
  added = λ k ev e. rw e refl;
  refused = λ k ev old e. rw e refl;
  changed = λ k ev old e. rw e refl;
  removed = λ k ev old e. rw e refl;
}

abbrev write_only : Conn
write_only = record sample_conn { noti = 2 }

-- It is notified of nothing, and is watched for writing still.
set_notify-Interest_example :
    ((set_notify two_bytes ([], some 4) write_only 0).0 ≡ pos 0)
    × ((set_notify two_bytes ([], some 4) write_only 0).1 ≡ record write_only { noti = 0 })
    × ((set_notify two_bytes ([], some 4) write_only 0).2.1 ≡ some 4)
set_notify-Interest_example =
    set_notify-Interest two_bytes (λ k. k.1) two_bytes-Epoll ([], some 4) write_only 0 refl
      (omega arith) refl

-- A ring of four bytes, one of them free, that is to take three.
abbrev small_ring : LoopBuf
small_ring = record { buf = 13 ∷ 9 ∷ 11 ∷ 12 ∷ []; cap = 4; size = 3; start = 2 }

small_ring-Valid : Valid small_ring
small_ring-Valid = record {
  some_room = omega arith;
  whole = refl;
  fits = omega arith;
  inside = omega arith;
}

receive-Keeps_example :
    (b' : LoopBuf) × (receive 0 small_ring (21 ∷ 22 ∷ 23 ∷ []) ≡ some b')
    × (contents b' ≡ contents small_ring ++ take (4 - 3) (21 ∷ 22 ∷ 23 ∷ []))
    × (b'.cap ≡ 4)
receive-Keeps_example = receive-Keeps 0 small_ring (21 ∷ 22 ∷ 23 ∷ []) small_ring-Valid

-- A pack of two bytes is taken each time there are two, and the third byte waits for more.
abbrev pack_two : LoopBuf → ℤ × LoopBuf
pack_two b = elim (read b 2) [ none ↦ (negsuc 0, b) | some (bytes, b1) ↦ (pos 0, b1) ]

abbrev input : List (List ℕ) → (ℤ × List ℕ) × List (List ℕ)
input [] = ((pos 0, []), [])
input (bytes ∷ chunks) = ((pos (length bytes), bytes), chunks)

two_packs :
    (elim (handle_read input pack_two 0 2 5
      ((1 ∷ 2 ∷ 3 ∷ []) ∷ (4 ∷ 5 ∷ []) ∷ [])
      (new_loop_buf 0 8)) [ none ↦ [] | some (ret, b, k) ↦ contents b ])
    ≡ 5 ∷ []
unfolding handle_read read new_loop_buf
two_packs = refl

-- Its own timers, and another's: one is started twice, one is stopped.
abbrev young : Conn
young = record sample_conn { msgs = []; send_queue_size = 0; cur_msg_start = 0 }

abbrev busy : List TimerCall
busy =
    starts (at_time 5 0) 1 2500
    ∷ others (con_timer 3 1 (at_time 6 0))
    ∷ starts (at_time 6 0) 2 100
    ∷ starts (at_time 6 1) 1 700
    ∷ erased (record { tv = at_time 6 0; con_id = 3; id = 1 })
    ∷ stops 2
    ∷ []

clear-Unlinked_example :
    (t1 : NetThread) × (c1 : Conn) × (calls busy empty_thread young ≡ some (t1, c1))
    × (r : NetThread × Conn × World) × (clear two_bytes t1 c1 ([], some 1) ≡ some r)
    × ((tv : TimeTv) (id : ℕ) → find (record { tv = tv; con_id = 2; id = id }) r.0.timer_map ≡ none)
unfolding find
clear-Unlinked_example =
    clear-Unlinked two_bytes ([], some 1) empty_thread young busy refl refl tt (λ p e. refl)
      ((λ e. absurd (omega (arith, e))), tt)

-- With a message waiting, it is kept until that is sent; without one, it is deleted.
closing :
    (elim (safe_close two_bytes 1 empty_thread sample_conn ([], some 1)) [
      | none ↦ []
      | some (ret, t, none, k) ↦ []
      | some (ret, t, some c, k) ↦ k.0
    ])
    ≡ 8 ∷ 9 ∷ []
unfolding safe_close int32_of
closing = refl

-- 7.000002 s and 4.9 s.
tv_diff-Micros_example :
    (tv_cmp (at_time 7 2) (at_time 4 900000) ≡ pos 1)
    × (tv_cmp (at_time 4 900000) (at_time 7 2) ≡ negsuc 0)
    × (micros (tv_diff (at_time 7 2) (at_time 4 900000)) ≡ 2100002)
    × ((tv_diff (at_time 7 2) (at_time 4 900000)).usec < 1000000)
tv_diff-Micros_example =
    tv_diff-Micros (at_time 7 2) (at_time 4 900000) (omega arith) (omega arith) (omega arith)
