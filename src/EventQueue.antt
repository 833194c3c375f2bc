-- ===== src/EventQueue.antt =====
-- equeue/equeue_imp.cpp: `eq_imp`, a queue of tasks in memory with a log of its operations on disk.
-- The log file that is open is its bytes; whether `fopen` and `fwrite` succeed are arguments, and
-- so is `sizeof(op)`. A `sem_wait` is not interrupted by a signal. An `int64` id is the number of its bits.
pub mod Replay
pub mod Outcome
use eparallel.Common.{
  ℕ, zero, suc, ◌+◌, ◌-◌, ◌%◌, ◌^◌, ◌<◌, ◌≡◌, Bool, true, false, ◌||◌, Option, none, some, List, [],
  ◌∷◌, ◌++◌, ◌>>=◌, ltb, leb, ◌==◌, if◌then◌else◌, length, take, drop, ℤ, is_neg, pos, negsuc, map,
}
use eparallel.TaskQueue.{sem_value_max}
use eparallel.OpLog.{
  Op, Loaded, loaded, throws, load_int, le_bytes, load_op_from_buf, save_op_to_buf,
}

abbrev pub op_add : ℕ
op_add = 1

abbrev pub op_del : ℕ
op_del = 2

pub record Queue : Type 0 where
  pub max_size : ℕ
  pub max_cnt : ℕ
  pub size : ℕ
  pub cnt : ℕ
  pub current_op_id : ℕ
  pub current_task_id : ℕ
  pub current_file_id : ℕ
  pub log : List ℕ
  pub tasks : List Op
  pub sem : ℕ

unfoldable pub add_task : Queue → Op → Queue
add_task q o = record q {
  tasks = q.tasks ++ (o ∷ []);
  size = q.size + length o.cont;
  cnt = q.cnt + 1;
}

-- The tasks without the first of this id, if there is one.
unfoldable pub erase_id : ℕ → List Op → Option (List Op)
erase_id id [] = none
erase_id id (o ∷ os) =
    if o.task_id == id then some os else (do rest ← erase_id id os; some (o ∷ rest))

unfoldable pub del_task : Queue → Op → ℤ × Queue
unfolding erase_id
del_task q o = elim (erase_id o.task_id q.tasks) [
  | none ↦ (pos 0, q)
  | some rest ↦ (pos 1, record q { tasks = rest; size = q.size - length o.cont; cnt = q.cnt - 1 })
]

-- What `get_front` comes to: it waits for the semaphore, its assertion fails or the front of an
-- empty list is taken, or it takes a task and leaves a queue.
pub data Front : Type 0 where
  waits fails : Front
  took : Op → Queue → Front

unfoldable pub take_front : Queue → Front
take_front q = elim q.tasks [
  | [] ↦ fails
  | o ∷ rest ↦ took o (record q { tasks = rest; size = q.size - length o.cont; cnt = q.cnt - 1 })
]

unfoldable pub get_front : Queue → Front
unfolding take_front
get_front q = elim q.sem [
  | zero ↦ waits
  | suc n ↦ if q.cnt == 0 then fails else take_front (record q { sem = n })
]

-- A record of the log: the length of the operation's bytes, and the bytes.
unfoldable pub frame : List ℕ → List ℕ
unfolding le_bytes
frame bytes = le_bytes 4 (length bytes) ++ bytes

-- The record that is written for an operation.
unfoldable pub save_task_to_file : ℕ → Bool → Queue → Op → ℤ × Queue
unfolding frame save_op_to_buf
save_task_to_file op_size written q o = elim (save_op_to_buf o (op_size + length o.cont)) [
  | none ↦ (negsuc 1, q)
  | some (bytes, left) ↦
      if written then (pos left, record q { log = q.log ++ frame bytes }) else (negsuc 2, q)
]

-- Whether `check_if_open_new_file` goes on to a new file, and whether that can be opened.
pub data Opened : Type 0 where
  same_file new_file open_fails : Opened

-- `false`: no file could be opened.
unfoldable pub check_if_open_new_file : Opened → Queue → Bool × Queue
check_if_open_new_file same_file q = (true, q)
check_if_open_new_file new_file q =
    (true, record q { current_file_id = (q.current_file_id + 1) % 2 ^ 32; log = [] })
check_if_open_new_file open_fails q =
    (false, record q { current_file_id = (q.current_file_id + 1) % 2 ^ 32; log = [] })

unfoldable pub next_op : Queue → ℕ → List ℕ → Queue × Op
next_op q cmd cont =
    let op_id = (q.current_op_id + 1) % 2 ^ 64 in
    let task_id = (q.current_task_id + 1) % 2 ^ 64 in
    (
      record q { current_op_id = op_id; current_task_id = task_id },
      record {
        cmd = cmd;
        op_id = op_id;
        log_file_id = q.current_file_id;
        task_id = task_id;
        cont = cont;
      },
    )

-- `sem_post`, which leaves a semaphore at its largest count as it is.
unfoldable pub sem_post : ℕ → ℕ
sem_post n = if ltb n sem_value_max then n + 1 else n

unfoldable pub add_back : ℕ → Opened → Bool → Queue → List ℕ → ℤ × Queue
unfolding sem_post
add_back op_size opened written q t =
    let (ok, q') = check_if_open_new_file opened q in
    let (q'', o) = next_op q' op_add t in
    let (e, r) = save_task_to_file op_size written q'' o in
    let s = add_task r o in
    if leb q.max_size q.size || leb q.max_cnt q.cnt
    then (negsuc 0, q)
    else (if ok
        then if is_neg e then (negsuc 0, r) else (pos 0, record s { sem = sem_post s.sem })
        else (negsuc 0, q'))

-- `del`: the operation is only written to the log. Its `m_log_file_id` is not set; `junk` stands
-- for it.
unfoldable pub del : ℕ → Opened → Bool → ℕ → Queue → ℕ → ℤ × Queue
unfolding check_if_open_new_file save_op_to_buf frame
del op_size opened written junk q id =
    let (ok, q') = check_if_open_new_file opened q in
    let op_id = (q'.current_op_id + 1) % 2 ^ 64 in
    let o : Op = record {
      cmd = op_del;
      op_id = op_id;
      log_file_id = junk;
      task_id = id;
      cont = [];
    } in
    let r = record q' { current_op_id = op_id } in
    if ok
    then elim (save_op_to_buf o op_size) [
      | none ↦ (negsuc 2, r)
      | some (bytes, left) ↦
          if written then (pos left, record r { log = r.log ++ frame bytes }) else (negsuc 2, r)
    ]
    else (negsuc 0, q')

-- `a < b` for the `int64`s of these bits.
unfoldable pub less_int64 : ℕ → ℕ → Bool
less_int64 a b = ltb ((a + 2 ^ 63) % 2 ^ 64) ((b + 2 ^ 63) % 2 ^ 64)

-- What the loop of `load_one_bin_log_file` does with an operation that it has read.
unfoldable pub load_op : ℕ → Queue → Op → Queue
unfolding add_task del_task
load_op start_op_id q o =
    if less_int64 o.op_id start_op_id
    then q
    else let r = record q {
      current_task_id =
          if less_int64 q.current_task_id o.task_id then o.task_id else q.current_task_id;
      current_op_id = if less_int64 q.current_op_id o.op_id then o.op_id else q.current_op_id;
    } in
      if o.cmd == op_add then add_task r o else if o.cmd == op_del then (del_task r o).1 else r

-- The loop over the records of a file, of at most `fuel` rounds: what is returned, which is the
-- last `ret`, and the queue; `none`: an exception.
unfoldable pub load_records : ℕ → ℕ → Queue → List ℕ → Option (ℤ × Queue)
unfolding load_op
load_records zero start_op_id q bytes = none
load_records (suc fuel) start_op_id q bytes = elim (load_int 4 bytes) [
  | none ↦ some (pos 0, q)
  | some (len, rest) ↦
      if leb (2 ^ 31) len
      then none
      else if len == 0 || ltb (length rest) len
      then some (pos 0, q)
      else elim (load_op_from_buf (take len rest)) [
        | none ↦ some (negsuc 0, q)
        | some throws ↦ none
        | some (loaded o left) ↦
            load_records fuel start_op_id (load_op start_op_id q o) (drop len rest)
      ]
]

-- The file is its bytes; `none`: it cannot be opened. A record takes more than one byte, so a
-- round for each byte is enough.
unfoldable pub load_one_bin_log_file : ℕ → Queue → Option (List ℕ) → Option (ℤ × Queue)
unfolding load_records
load_one_bin_log_file start_op_id q file = elim file [
  | none ↦ some (negsuc 0, q)
  | some bytes ↦ load_records (suc (length bytes)) start_op_id q bytes
]
