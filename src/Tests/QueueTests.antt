-- ===== src/Tests/QueueTests.antt =====
-- ep's `task_queue` on concrete queues.
use eparallel.Common.{◌≡◌, refl, true, false, List, [], ◌∷◌, some, none, arith, ℤ, pos, negsuc, ◌<◌}
use eparallel.TaskQueue.Clear.{clear_recycles}
use eparallel.TaskQueue.{
  clear, TaskQueue, Op, add, take, del, shut, code, got, contract_run, new_queue, empty_lists, step,
  run, get_task_by_priority, scan, get_locked, sem_try_take, del_task, del_locked,
}
use eparallel.TaskQueue.Refine.{IsValid, new_queue-IsValid, view}
use eparallel.TaskQueue.Run.{run_refines}
use eparallel.TaskQueue.Threads.{System, Reach, here, next, claims_get, Inv, idle, getting}
use eparallel.TaskQueue.Threads.Claims.{get_task_never_null, del_task_refused}
use eparallel.Worker.{Status, new_thread, run_worker, run_thread, temporary_rounds}
use eparallel.Worker.Drain.{temporary_thread_drains}
use eparallel.Worker.Life.{run_thread-Ends, run_worker_again, Ends}

abbrev script : List Op
script =
    add 7 16 ∷ add 8 0 ∷ add 9 16 ∷ add 5 40 ∷ del 9 16 ∷ take ∷ shut ∷ add 6 1 ∷ take ∷ take ∷ []

script_replies :
    run new_queue script
    ≡ code (pos 0)
      ∷ code (pos 0)
      ∷ code (pos 0)
      ∷ code (negsuc 10011)
      ∷ code (pos 0)
      ∷ got 8
      ∷ code (pos 0)
      ∷ code (negsuc 0)
      ∷ got 7
      ∷ got 0
      ∷ []
unfolding run step new_queue get_locked scan get_task_by_priority del_locked
script_replies = refl

run_refines_example :
    run new_queue script ≡ contract_run (record { waiting = []; closed = false }) script
unfolding new_queue
run_refines_example =
    run_refines script new_queue new_queue-IsValid refl (omega arith) (omega arith)

-- A queue with task 7, and one of two threads that has passed the semaphore.
abbrev one_task : TaskQueue
one_task = record {
  oplists = (7 ∷ []) ∷ empty_lists 31;
  semp = 1;
  size = 1;
  total_task_cnt = 1;
  stopped = false;
}

abbrev before : System
before = record { queue = one_task; threads = idle ∷ idle ∷ [] }

abbrev claimed_once : System
claimed_once = record { queue = record one_task { semp = 0 }; threads = getting ∷ idle ∷ [] }

one_task-IsValid : IsValid one_task
one_task-IsValid = record {
  lists = refl;
  counted = refl;
  small = omega arith;
  nonnull = omega arith;
}

before-Inv : Inv before
before-Inv = record { valid = one_task-IsValid; balance = refl; ranges = omega arith }

before_claimed : Reach before claimed_once
unfolding sem_try_take
before_claimed = next here (claims_get 0 (record one_task { semp = 0 }) refl refl refl)

get_task_never_null_example : 0 < (get_locked claimed_once.queue).0
get_task_never_null_example =
    (get_task_never_null before claimed_once 0 before-Inv before_claimed refl).2

-- Task 7 is in the queue, and cannot be deleted.
queued_task_refused : del_task claimed_once.queue 7 0 ≡ some (negsuc 10013, claimed_once.queue)
queued_task_refused = (del_task_refused before claimed_once 7 0 before-Inv before_claimed).1 refl

temporary_thread_drains_example :
    (q : TaskQueue) × (temporary_rounds 2 one_task ≡ some (7 ∷ [], q))
    × (view q ≡ [])
    × (q.size ≡ 0)
temporary_thread_drains_example =
    temporary_thread_drains 2 one_task one_task-IsValid refl (omega arith)

ends_at_failure :
    (Ends ((true, pos 0) ∷ (true, negsuc 0) ∷ [])
      → (r : ℤ) × (run_thread new_thread ((true, pos 0) ∷ (true, negsuc 0) ∷ [])
          ≡ some (r, record { status = Status.stopped; run = false; create_thread = false })))
    × (¬ Ends ((true, pos 0) ∷ (true, negsuc 0) ∷ [])
        → run_thread new_thread ((true, pos 0) ∷ (true, negsuc 0) ∷ []) ≡ none)
ends_at_failure = run_thread-Ends new_thread ((true, pos 0) ∷ (true, negsuc 0) ∷ [])

run_twice_creates_twice : (run_worker (run_worker new_thread (pos 0)).1 (pos 0)).0 ≡ pos 0
run_twice_creates_twice = (run_worker_again new_thread (pos 0) (pos 0) refl refl refl).0

one_recycled :
    ((clear one_task).0 ≡ 7 ∷ []) × (view (clear one_task).1 ≡ []) × ((clear one_task).1.size ≡ 0)
one_recycled = clear_recycles one_task one_task-IsValid
