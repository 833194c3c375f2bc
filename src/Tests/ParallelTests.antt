-- ===== src/Tests/ParallelTests.antt =====
-- ep's `parallel` with two jobs.
use eparallel.Common.{◌≡◌, refl, [], ◌∷◌, none, some, arith}
use eparallel.Errno.{ep_invalid_argu}
use eparallel.Parallel.{
  Parallel, run_call, recycle_call, live_pool, create_job, call_job, destroy_job, destroy,
}
use eparallel.Parallel.Destroy.{call_job-Absent}

abbrev two_jobs : Parallel
two_jobs = record {
  max_child_task_num = 10;
  thread_pool = live_pool;
  jobs = (0, 70) ∷ (1, 80) ∷ [];
  job_id = 2;
}

third :
    (elim (create_job two_jobs 9 90) [ none ↦ [] | some (t, p) ↦ p.jobs ])
    ≡ (0, 70) ∷ (1, 80) ∷ (2, 90) ∷ []
unfolding create_job
third = refl

both_recycled :
    (elim (destroy two_jobs) [ none ↦ [] | some (calls, p) ↦ calls ])
    ≡ recycle_call 70 ∷ recycle_call 80 ∷ []
unfolding destroy
both_recycled = refl

call_job-Absent_example :
    ((call_job run_call two_jobs 5).0 ≡ ep_invalid_argu)
    × ((call_job run_call two_jobs 5).1 ≡ [])
    × (destroy (call_job run_call two_jobs 5).2 ≡ none)
    × (destroy_job two_jobs 5 ≡ (ep_invalid_argu, [], two_jobs))
call_job-Absent_example =
    call_job-Absent run_call two_jobs 5
      ((λ e. absurd (omega (arith, e))), ((λ e. absurd (omega (arith, e))), tt))
