-- ===== src/Net/Time.antt =====
-- efnfw/ef_timer.cpp, and the keys of the timers in efnfw/ef_net_thread.h.
-- Times are not negative, and a difference is taken of a later and an earlier time.
pub mod Order
pub mod Micros
use eparallel.Common.{
  ℕ, zero, suc, ◌+◌, ◌-◌, ◌<◌, ◌≡◌, Bool, true, false, Option, none, some, ltb, if◌then◌else◌, ℤ,
  pos, negsuc,
}

pub record TimeTv : Type 0 where
  pub sec : ℕ
  pub usec : ℕ

-- A timer of a connection, by its id, or of the thread's own.
pub record Timer : Type 0 where
  pub con : Option ℕ
  pub id : ℕ
  pub time_out_time : TimeTv

pub record TimerKey : Type 0 where
  pub tv : TimeTv
  pub con_id : ℕ
  pub id : ℕ

unfoldable pub tv_cmp : TimeTv → TimeTv → ℤ
tv_cmp t1 t2 =
    if ltb t1.sec t2.sec
    then negsuc 0
    else if ltb t2.sec t1.sec
    then pos 1
    else if ltb t1.usec t2.usec
    then negsuc 0
    else if ltb t2.usec t1.usec
    then pos 1
    else pos 0

unfoldable pub tv_diff : TimeTv → TimeTv → TimeTv
tv_diff t1 t2 =
    if ltb t1.usec t2.usec
    then record { sec = t1.sec - t2.sec - 1; usec = t1.usec + 1000000 - t2.usec }
    else record { sec = t1.sec - t2.sec; usec = t1.usec - t2.usec }

-- `less`, the order of the keys.
unfoldable pub less : TimerKey → TimerKey → Bool
less k q =
    if ltb k.tv.sec q.tv.sec
    then true
    else if ltb q.tv.sec k.tv.sec
    then false
    else if ltb k.tv.usec q.tv.usec
    then true
    else if ltb q.tv.usec k.tv.usec
    then false
    else if ltb k.con_id q.con_id
    then true
    else if ltb q.con_id k.con_id
    then false
    else ltb k.id q.id
