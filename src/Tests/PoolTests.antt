-- ===== src/Tests/PoolTests.antt =====
-- ep's `thread_pool` on concrete pools.
use eparallel.Common.{
  ℕ, ◌≡◌, refl, true, false, List, [], ◌∷◌, some, none, arith, ℤ, pos, negsuc, ◌==◌, length, ◌<◌,
}
use eparallel.TaskQueue
use eparallel.TaskQueue.{TaskQueue, new_queue, empty_lists}
use eparallel.TaskQueue.Threads.{System, here, Inv, idle}
use eparallel.Worker.{Thread, Status, new_thread, permanent_process}
use eparallel.Pool.{
  Pool, new_pool, init_pool, free_pool, add_task, start_temp_thread, check_need_more_thread,
  run_pool, stop_begin,
}
use eparallel.Pool.Schedule.{start_temp_thread_count, check_need_more_thread_busy}
use eparallel.Pool.Control.{
  free-init, AddOutcome, add_task_outcome, run_pool_again, stop_begin_loses_exits,
  permanent_process_waits, AllNeg,
}

-- Two permanent and three temporary threads; of these the first one runs.
abbrev busy_thread : Thread
busy_thread = record { status = Status.running; run = true; create_thread = true }

abbrev temps : List Thread
temps = busy_thread ∷ new_thread ∷ new_thread ∷ []

abbrev full_queue : TaskQueue
full_queue = record {
  oplists = (7 ∷ 8 ∷ 9 ∷ []) ∷ empty_lists 31;
  semp = 3;
  size = 3;
  total_task_cnt = 3;
  stopped = false;
}

abbrev sample : Pool
sample = record {
  run = true;
  threads_cnt = 2;
  tmp_threads_cnt = 3;
  tmp_thread_idx = 2;
  task_q_past_sz = 1;
  too_busy = true;
  schedule_span = 50;
  busy_control = true;
  task_que_max_size = 3;
  master_thread = some busy_thread;
  threads = some (busy_thread ∷ busy_thread ∷ []);
  tmp_threads = some temps;
  task_q = some full_queue;
}

abbrev created : ℕ → ℤ
created i = pos 0

start_temp_thread_count_example :
    (i : ℕ) × (p' : Pool) × (ts' : List Thread) × (start_temp_thread created sample 5
      ≡ some (i, p'))
    × (i ≡ 2)
    × (p'.tmp_threads ≡ some ts')
    × (length ts' ≡ 3)
    × (p'.tmp_thread_idx < p'.tmp_threads_cnt)
start_temp_thread_count_example =
    start_temp_thread_count created sample 5 temps refl (omega arith) (omega arith)

busy_pool_needs_more :
    (p' : Pool) × (check_need_more_thread created sample ≡ some p')
    × (p'.task_q_past_sz ≡ 3)
    × (p'.too_busy ≡ false)
busy_pool_needs_more =
    check_need_more_thread_busy created sample full_queue temps refl refl (omega arith)
      (omega arith)

freed_but_for_equal :
    free_pool (init_pool (new_pool 4 4 50 50 false)).1
    ≡ (negsuc 10005, (init_pool (new_pool 4 4 50 50 false)).1)
freed_but_for_equal = free-init 4 4 50 50 false (omega arith) (omega arith)

add_task_outcome_example : AddOutcome sample full_queue 6 0
add_task_outcome_example = add_task_outcome sample full_queue 6 0 refl refl

run_again_refused :
    (p' : Pool) × (run_pool (pos 0) created sample ≡ some (negsuc 10007, p'))
    × (p'.threads ≡ sample.threads)
    × (add_task p' 6 0 ≡ some (negsuc 10008, p'))
run_again_refused = run_pool_again sample busy_thread (pos 0) created 6 0 refl refl (omega arith)

stop_begin_loses_exits_example :
    (rets : List ℤ) × (p' : Pool) × (stop_begin sample (20 ∷ 21 ∷ []) ≡ some (rets, p'))
    × AllNeg rets
    × (p'.task_q ≡ some (TaskQueue.stop full_queue))
stop_begin_loses_exits_example =
    stop_begin_loses_exits sample full_queue busy_thread (20 ∷ 21 ∷ []) refl refl

abbrev ended : System
ended = record { queue = record new_queue_value { stopped = true }; threads = idle ∷ [] }
  where
    new_queue_value : TaskQueue
    new_queue_value = record full_queue { oplists = empty_lists 32; semp = 0; size = 0 }

ended-Inv : Inv ended
ended-Inv = record {
  valid = record { lists = refl; counted = refl; small = omega arith; nonnull = omega arith };
  balance = refl;
  ranges = omega arith;
}

permanent_process_waits_example : permanent_process (λ t. t == 20) ended.queue ≡ none
permanent_process_waits_example =
    permanent_process_waits (λ t. t == 20) ended ended ended-Inv refl refl here
