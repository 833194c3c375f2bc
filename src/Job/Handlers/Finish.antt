-- ===== src/Job/Handlers/Finish.antt =====
-- What the calls of `handle_child_task_finish` come to together, in any order of their parts.
use eparallel.Common.{
  ℕ, ◌+◌, ◌≤◌, ◌<◌, ◌≡◌, ◌^◌, ◌⊎◌, Bool, List, ◌==◌, length, set, if◌then◌else◌, replicate, count,
}
use eparallel.Job.{Job}
use eparallel.Job.Counts.{tolds, alls}
use eparallel.Job.Handlers.{
  Pc, start, World, one_if, has_told, has_counted, saw_all, has_ended, has_given,
}

-- What the counters of the job are, where `n` children were given to it.
pub record Inv (n : ℕ) (co : Bool) (w : World) : Type 0 where
  pub some_child : 0 < n
  pub small : n < 2 ^ 32
  pub children : length w.job.child_tasks ≡ n
  pub calls_made : length w.at ≡ n
  pub combines : w.job.combiner ≡ co
  pub finish : w.job.finish_num ≡ count has_counted w.at
  pub tells : tolds w.job.calls ≡ (if co then count has_told w.at else 0)
  pub ends : alls w.job.calls ≡ (if co then count has_ended w.at else 0)
  pub flags : count saw_all w.at ≡ one_if (count has_counted w.at == n)
  pub gives : w.job.semp ≡ count has_given w.at

-- How the sums change where a call goes from `a` to `b`.
record Sums (at : List Pc) (i : ℕ) (a b : Pc) : Type 0 where
  told_sum : count has_told (set at i b) + has_told a ≡ count has_told at + has_told b
  counted_sum :
      count has_counted (set at i b) + has_counted a ≡ count has_counted at + has_counted b
  saw_sum : count saw_all (set at i b) + saw_all a ≡ count saw_all at + saw_all b
  ended_sum : count has_ended (set at i b) + has_ended a ≡ count has_ended at + has_ended b
  given_sum : count has_given (set at i b) + has_given a ≡ count has_given at + has_given b
  same_length : length (set at i b) ≡ length at
  few : count has_counted (set at i b) ≤ length at

-- The calls for all children of a job, none of which has begun.
abbrev pub called : Job → World
called j = record { job = j; at = replicate (length j.child_tasks) start }

-- What the calls have come to for the job.
pub record Finished (j : Job) (w : World) : Type 0 where
  pub counts : w.job.finish_num ≡ count has_counted w.at
  pub gave : w.job.semp ≡ count has_given w.at
  pub told_each : tolds w.job.calls ≡ (if j.combiner then count has_told w.at else 0)
  pub told_all :
      (alls w.job.calls ≡ 0)
      ⊎ (alls w.job.calls ≡ 1)
        × (tolds w.job.calls ≡ length j.child_tasks)
        × (w.job.finish_num ≡ length j.child_tasks)
  pub at_end :
      (count has_given w.at < length j.child_tasks)
      ⊎ (alls w.job.calls ≡ (if j.combiner then 1 else 0))
