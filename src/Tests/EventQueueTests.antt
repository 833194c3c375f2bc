-- ===== src/Tests/EventQueueTests.antt =====
-- equeue's `eq_imp` and its log on concrete operations.
use eparallel.Common.{
  ℕ, ◌^◌, ◌-◌, ◌≡◌, ◌+◌, ◌⊎◌, ◌++◌, refl, true, List, [], ◌∷◌, some, arith, length, pos,
}
use eparallel.OpLog.{Op, loaded, save_op_to_buf, load_op_from_buf}
use eparallel.OpLog.Codec.{InRange, load_op_from_buf-save_op_to_buf}
use eparallel.EventQueue.{
  Queue, same_file, add_task, del_task, add_back, load_one_bin_log_file, less_int64,
}
use eparallel.EventQueue.Replay.{log_of, kept, Replayed, load_one_bin_log_file-Written}
use eparallel.EventQueue.Outcome.{
  Sound, Refused, Added, FirstTaken, add_back-Outcome, get_front-Outcome, del_task-Leaks,
}

abbrev added : Op
added = record { cmd = 1; op_id = 5; log_file_id = 1; task_id = 7; cont = 10 ∷ 20 ∷ 30 ∷ [] }

abbrev deleted : Op
deleted = record { cmd = 2; op_id = 6; log_file_id = 1; task_id = 7; cont = [] }

added-InRange : InRange added
added-InRange = record {
  cmd_fits = omega arith;
  op_id_fits = omega arith;
  log_file_id_fits = omega arith;
  task_id_fits = omega arith;
  cont_fits = omega arith;
}

deleted-InRange : InRange deleted
deleted-InRange = record {
  cmd_fits = omega arith;
  op_id_fits = omega arith;
  log_file_id_fits = omega arith;
  task_id_fits = omega arith;
  cont_fits = omega arith;
}

abbrev empty_queue : Queue
empty_queue = record {
  max_size = 100;
  max_cnt = 2;
  size = 0;
  cnt = 0;
  current_op_id = 4;
  current_task_id = 6;
  current_file_id = 1;
  log = [];
  tasks = [];
  sem = 0;
}

abbrev one_task : Queue
one_task = record empty_queue { size = 3; cnt = 1; tasks = added ∷ []; sem = 1 }

empty_queue-Sound : Sound empty_queue
empty_queue-Sound = record { counted = refl; sized = refl; given = refl }

one_task-Sound : Sound one_task
one_task-Sound = record { counted = refl; sized = refl; given = refl }

load_op_from_buf-save_op_to_buf_example :
    (bytes : List ℕ) × (left : ℕ) × (save_op_to_buf added 51 ≡ some (bytes, left))
    × (left + length bytes ≡ 51)
    × (load_op_from_buf (bytes ++ (1 ∷ 2 ∷ [])) ≡ some (loaded added 2))
load_op_from_buf-save_op_to_buf_example =
    load_op_from_buf-save_op_to_buf added 51 (1 ∷ 2 ∷ []) added-InRange (omega arith)

load_one_bin_log_file-Written_example :
    (r : Queue) × (load_one_bin_log_file 0 empty_queue (some (log_of (added ∷ deleted ∷ [])))
      ≡ some (pos 0, r))
    × Replayed empty_queue (kept 0 (added ∷ deleted ∷ [])) r
load_one_bin_log_file-Written_example =
    load_one_bin_log_file-Written 0 empty_queue (added ∷ deleted ∷ []) refl
      (added-InRange, omega arith, (deleted-InRange, omega arith, tt))

-- An id of the bits of -1 is before 0, and its operation is left out.
kept_negative : kept 0 (record added { op_id = 2 ^ 64 - 1 } ∷ deleted ∷ []) ≡ deleted ∷ []
unfolding less_int64
kept_negative = refl

add_back-Outcome_example :
    Refused one_task (add_back 48 same_file true one_task (40 ∷ []))
    ⊎ Added (40 ∷ []) one_task (add_back 48 same_file true one_task (40 ∷ []))
add_back-Outcome_example =
    add_back-Outcome 48 same_file true one_task (40 ∷ []) one_task-Sound (omega arith)

get_front-Outcome_example : FirstTaken one_task
get_front-Outcome_example = get_front-Outcome one_task one_task-Sound

leaked : let r = (del_task (add_task empty_queue added) deleted).1 in (r.tasks ≡ []) × (r.size ≡ 3)
leaked = del_task-Leaks empty_queue added deleted refl refl refl refl
