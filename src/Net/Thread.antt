-- ===== src/Net/Thread.antt =====
-- efnfw/ef_net_thread.cpp: the timers, the connections and the operations of a `net_thread`.
-- A map is a list of keys and values; the map of the timers is in the order of its keys. A
-- connection stands here for its id. What `handle_timer` and an operation do is an argument. Each
-- part under the mutex is a step, and the time now is an argument.
pub mod Timers
pub mod Fire
pub mod Drain
use eparallel.Common.{
  ℕ, zero, suc, ◌+◌, ◌-◌, ◌/◌, ◌*◌, ◌%◌, ◌^◌, ◌<◌, ◌≡◌, Bool, true, false, not, ◌||◌, Option, none,
  some, List, [], ◌∷◌, ◌++◌, map, ltb, ◌==◌, if◌then◌else◌, is_neg, ℤ, pos, negsuc,
}
use eparallel.Net.Time.{TimeTv, Timer, TimerKey, less, tv_cmp, tv_diff}

-- `close_connection_op` and `send_message_op`
pub data NetOp : Type 0 where
  close_connection_op : ℕ → NetOp
  send_message_op : ℕ → List ℕ → NetOp

pub record NetThread : Type 0 where
  pub con_map : List ℕ
  pub timer_map : List (TimerKey × Timer)
  pub timers : List (ℕ × Timer)
  pub ops : List NetOp
  pub cur_id : ℕ

abbrev pub differs : TimerKey → TimerKey → Bool
differs k q = less k q || less q k

-- `m_timer_map[key] = tm`, `erase` and `find`
unfoldable pub insert : TimerKey → Timer → List (TimerKey × Timer) → List (TimerKey × Timer)
unfolding less
insert k tm [] = (k, tm) ∷ []
insert k tm ((q, w) ∷ m) =
    let rest = insert k tm m in
    if less k q then (k, tm) ∷ (q, w) ∷ m else if less q k then (q, w) ∷ rest else (k, tm) ∷ m

unfoldable pub erase : TimerKey → List (TimerKey × Timer) → List (TimerKey × Timer)
unfolding less
erase k [] = []
erase k ((q, w) ∷ m) = let rest = erase k m in if differs k q then (q, w) ∷ rest else m

unfoldable pub find : TimerKey → List (TimerKey × Timer) → Option Timer
unfolding less
find k [] = none
find k ((q, w) ∷ m) = let rest = find k m in if differs k q then rest else some w

-- The key of a timer: a timer of the thread's own has 0 for the id of its connection.
abbrev pub key_of : Timer → TimerKey
key_of tm = record {
  tv = tm.time_out_time;
  con_id = elim tm.con [ none ↦ 0 | some c ↦ c ];
  id = tm.id;
}

unfoldable pub add_timer : NetThread → Timer → NetThread
unfolding insert
add_timer t tm = record t { timer_map = insert (key_of tm) tm t.timer_map }

-- `del_timer`; `none`: it uses the connection of a timer that has none, which is NULL.
unfoldable pub del_timer : NetThread → Timer → Option NetThread
unfolding erase
del_timer t tm = elim tm.con [
  | none ↦ none
  | some c ↦ some (record t { timer_map = erase (key_of tm) t.timer_map })
]

-- The thread's own timers, by their ids.
abbrev pub look : ℕ → List (ℕ × Timer) → Option Timer
look id [] = none
look id ((q, tm) ∷ m) = let rest = look id m in if q == id then some tm else rest

abbrev pub drop_id : ℕ → List (ℕ × Timer) → List (ℕ × Timer)
drop_id id [] = []
drop_id id ((q, tm) ∷ m) = let rest = drop_id id m in if q == id then m else (q, tm) ∷ rest

unfoldable pub find_del_timer : NetThread → ℕ → Option (Timer × NetThread)
find_del_timer t id = elim (look id t.timers) [
  | none ↦ none
  | some tm ↦ some (tm, record t { timers = drop_id id t.timers })
]

-- `stop_timer`
unfoldable pub stop_timer : NetThread → ℕ → Option NetThread
unfolding find_del_timer del_timer
stop_timer t id = elim (find_del_timer t id) [ none ↦ some t | some (tm, t1) ↦ del_timer t1 tm ]

-- When a timer is to go off that is started now. A carry of the microseconds is not made.
abbrev pub time_out_at : TimeTv → ℕ → TimeTv
time_out_at now timeout = record {
  sec = now.sec + timeout / 1000;
  usec = now.usec + timeout % 1000 * 1000;
}

unfoldable pub start_timer : NetThread → TimeTv → ℕ → ℕ → Option NetThread
unfolding stop_timer add_timer
start_timer t now id timeout = elim (stop_timer t id) [
  | none ↦ none
  | some t1 ↦
      let tm : Timer = record { con = none; id = id; time_out_time = time_out_at now timeout } in
      some (add_timer (record t1 { timers = (id, tm) ∷ drop_id id t1.timers }) tm)
]

-- The first part of `process_timer`: at most `n` timers whose time has come, in the order of the
-- map, and the time until the next one.
unfoldable pub collect : TimeTv → ℕ → List (TimerKey × Timer) → List (TimerKey × Timer) × TimeTv
unfolding tv_cmp tv_diff
collect now zero m = ([], record { sec = 0; usec = 0 })
collect now (suc n) [] = ([], record { sec = 0; usec = 0 })
collect now (suc n) ((k, tm) ∷ m) =
    let (batch, diff) = collect now n m in
    if is_neg (tv_cmp now k.tv) then ([], tv_diff k.tv now) else ((k, tm) ∷ batch, diff)

-- The timers that were collected go off.
abbrev pub fire : (Timer → NetThread → NetThread) → List (TimerKey × Timer) → NetThread → NetThread
fire h [] t = t
fire h ((k, tm) ∷ batch) t = fire h batch (h tm t)

abbrev pub erase_all : List (TimerKey × Timer) → List (TimerKey × Timer) → List (TimerKey × Timer)
erase_all [] m = m
erase_all ((k, tm) ∷ batch) m = erase_all batch (erase k m)

-- `max_timer_one_loop`
abbrev pub max_timer : ℕ
max_timer = 256

unfoldable pub process_timer :
    (Timer → NetThread → NetThread) → TimeTv → NetThread → TimeTv × NetThread
unfolding collect erase
process_timer h now t =
    let (batch, diff) = collect now max_timer t.timer_map in
    let t1 = fire h batch t in (diff, record t1 { timer_map = erase_all batch t1.timer_map })

-- `add_connection`, `del_connection` and `get_connection`
abbrev pub has_id : ℕ → List ℕ → Bool
has_id id [] = false
has_id id (q ∷ m) = (q == id) || has_id id m

abbrev pub without : ℕ → List ℕ → List ℕ
without id [] = []
without id (q ∷ m) = let rest = without id m in if q == id then m else q ∷ rest

unfoldable pub add_connection : NetThread → ℕ → NetThread
add_connection t id = if has_id id t.con_map then t else record t { con_map = id ∷ t.con_map }

unfoldable pub del_connection : NetThread → ℕ → NetThread
del_connection t id = record t { con_map = without id t.con_map }

unfoldable pub get_connection : NetThread → ℕ → Option ℕ
get_connection t id = if has_id id t.con_map then some id else none

-- `close_connection` and `send_message` of the thread
unfoldable pub close_connection : NetThread → ℕ → NetThread
close_connection t id = record t { ops = t.ops ++ (close_connection_op id ∷ []) }

unfoldable pub send_message : NetThread → ℕ → List ℕ → NetThread
send_message t id msg = record t { ops = t.ops ++ (send_message_op id msg ∷ []) }

-- The loop of `process_op`, with fuel: the operations taken, and the thread. `i` is compared with
-- `loop` in each round, and no round counts it up.
unfoldable pub op_loop :
    (NetOp → NetThread → NetThread) → ℕ → ℕ → ℕ → NetThread → Option (List NetOp × NetThread)
op_loop h loop zero i t = none
op_loop h loop (suc fuel) i t = elim t.ops [
  | [] ↦ some ([], t)
  | op ∷ ops ↦
      let rest = op_loop h loop fuel i (h op (record t { ops = ops })) in
      if ltb i loop
      then elim rest [ none ↦ none | some (done, t1) ↦ some (op ∷ done, t1) ]
      else some ([], t)
]

unfoldable pub process_op :
    (NetOp → NetThread → NetThread) → ℕ → NetThread → Option (List NetOp × NetThread)
unfolding op_loop
process_op h fuel t = op_loop h 32 fuel 0 t

-- `get_id`, which nobody interrupts.
unfoldable pub get_id : NetThread → ℕ × NetThread
get_id t =
    let next = (t.cur_id + 1) % 2 ^ 32 in
    let id = if next == 0 then 1 else next in (id, record t { cur_id = id })
