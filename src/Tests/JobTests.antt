-- ===== src/Tests/JobTests.antt =====
-- ep's `job` on concrete children.
use eparallel.Common.{
  ℕ, ◌≡◌, ◌≢◌, refl, Bool, true, false, List, [], ◌∷◌, none, arith, negsuc, length,
}
use eparallel.Job.{
  Job, cancelled, Child, new_child, new_job, set_combiner, add_child_task, clone, set_status,
  dispatch_loop, dispatch_child_task, process_begin, retry_child_task, process_end, stop_loop,
  handle_all, stop, recycle, wait_for_all_child_task,
}
use eparallel.Job.Counts.{tolds, alls}
use eparallel.Job.Steps.{
  busy, queued, lost, World, Reach, here, next, runs, begins, stops, count, is_done,
}
use eparallel.Job.Steps.Finish.{
  fresh, Small, done_counts, wait_for_all_child_task-exact, job_never_deleted,
}
use eparallel.Job.Handlers
use eparallel.Job.Handlers.{start, told, counted, part}
use eparallel.Job.Handlers.Finish.{called}
use eparallel.Job.Steps.Dropped.{dropped_child_hangs}

abbrev kids : List Child
kids = new_child 1 ∷ new_child 0 ∷ []

kids-Small : Small kids
kids-Small = record { some_child = omega arith; roomy = omega arith }

abbrev none_queued : ℕ → Bool
none_queued i = false

-- `run`, then child 0 begins.
abbrev w0 : World
w0 = fresh true true kids

abbrev w1 : World
w1 = record { job = (dispatch_child_task w0.job).1; phases = queued ∷ queued ∷ [] }

abbrev w2 : World
w2 = record { job = (process_begin w1.job 0).1; phases = busy ∷ queued ∷ [] }

abbrev w3 : World
w3 = record { job = stop w2.job cancelled none_queued; phases = busy ∷ queued ∷ [] }

abbrev w4 : World
w4 = record { job = (process_end w3.job 0 (negsuc 4)).1; phases = lost ∷ queued ∷ [] }

begun_one : Reach w0 w2
unfolding new_job set_combiner add_child_task clone dispatch_child_task dispatch_loop process_begin
    set_status
begun_one = next (next here (runs refl refl)) (begins 0 refl refl)

cancelled_one : Reach w0 w3
unfolding new_job set_combiner add_child_task clone dispatch_child_task dispatch_loop process_begin
    set_status
cancelled_one = next begun_one (stops none_queued ((λ e. cc), ((λ e. cc), tt)) refl)

counted_so_far : (w2.job.finish_num ≡ 0) × (tolds w2.job.calls ≡ 0) × (alls w2.job.calls ≡ 0)
counted_so_far = done_counts true true kids kids-Small begun_one

-- Both children are counted before the first call goes on.
abbrev two_kids : Job
two_kids =
    add_child_task (add_child_task (set_combiner (new_job true) true) (new_child 1)) (new_child 0)

abbrev both_counted : Handlers.World
both_counted =
    Handlers.go (Handlers.go (Handlers.go (Handlers.go (called two_kids) 0 start) 1 start) 1 told) 0
      told

-- The call that counts last sees the end.
last_sees : both_counted.at ≡ counted true ∷ counted false ∷ []
unfolding new_job set_combiner add_child_task clone part
last_sees = refl

job_never_deleted_example : (w3.job.deleted ≡ false) × ((recycle w3.job).deleted ≡ false)
job_never_deleted_example = job_never_deleted true true kids kids-Small cancelled_one

wait_for_all_child_task-exact_example :
    (count is_done w2.phases ≡ length kids → wait_for_all_child_task w2.job ≢ none)
    × (count is_done w2.phases ≢ length kids → wait_for_all_child_task w2.job ≡ none)
unfolding new_job set_combiner add_child_task clone dispatch_child_task dispatch_loop process_begin
    set_status
wait_for_all_child_task-exact_example =
    wait_for_all_child_task-exact true true kids kids-Small begun_one refl

dropped_child_hangs_example : (wait_for_all_child_task w4.job ≡ none) × (alls w4.job.calls ≡ 0)
unfolding new_job set_combiner add_child_task clone dispatch_child_task dispatch_loop process_begin
    set_status stop stop_loop handle_all process_end retry_child_task
dropped_child_hangs_example =
    dropped_child_hangs true true kids 0 _ (negsuc 4) kids-Small cancelled_one refl refl
      (omega arith) refl refl here
