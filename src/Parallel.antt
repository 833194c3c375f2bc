-- ===== src/Parallel.antt =====
-- ep/ep.cpp: `parallel`, the jobs by their ids.
-- A job is a handle, and 0 is NULL; what is called on it is written down. The static `s_j_id` is a
-- field. A job that is used and is NULL has no result.
pub mod Destroy
use eparallel.Common.{
  ℕ, zero, suc, ◌+◌, ◌%◌, ◌^◌, ◌≡◌, Bool, true, false, Option, none, some, List, [], ◌∷◌, ◌++◌, ltb,
  leb, ◌==◌, if◌then◌else◌, ℤ, pos,
}
use eparallel.Errno.{ep_invalid_argu}

pub data JobCall : Type 0 where
  run_call cancel_call recycle_call : ℕ → JobCall

-- `m_thread_pool`, which `destroy` deletes and does not set to NULL.
pub data PoolPointer : Type 0 where
  no_pool live_pool deleted_pool : PoolPointer

pub record Parallel : Type 0 where
  pub max_child_task_num : ℕ
  pub thread_pool : PoolPointer
  pub jobs : List (ℕ × ℕ)
  pub job_id : ℕ

-- `m_jobs[id]`: an id that is not there is put there with NULL, in the order of the ids.
unfoldable pub at_id : ℕ → List (ℕ × ℕ) → ℕ × List (ℕ × ℕ)
at_id id [] = (0, (id, 0) ∷ [])
at_id id ((q, j) ∷ m) =
    let (found, rest) = at_id id m in
    if q == id
    then (j, (q, j) ∷ m)
    else if ltb id q
    then (0, (id, 0) ∷ (q, j) ∷ m)
    else (found, (q, j) ∷ rest)

unfoldable pub set_id : ℕ → ℕ → List (ℕ × ℕ) → List (ℕ × ℕ)
set_id id t [] = (id, t) ∷ []
set_id id t ((q, j) ∷ m) =
    let rest = set_id id t m in
    if q == id then (q, t) ∷ m else if ltb id q then (id, t) ∷ (q, j) ∷ m else (q, j) ∷ rest

unfoldable pub erase_job : ℕ → List (ℕ × ℕ) → List (ℕ × ℕ)
erase_job id [] = []
erase_job id ((q, j) ∷ m) = let rest = erase_job id m in if q == id then m else (q, j) ∷ rest

-- `init`
unfoldable pub init : Parallel → ℤ × Parallel
init p = (pos 0, record p { thread_pool = live_pool })

-- `create_job`, where the pool has `tasks` and `new` gives `t`.
unfoldable pub create_job : Parallel → ℕ → ℕ → Option (ℕ × Parallel)
unfolding set_id
create_job p tasks t = elim p.thread_pool [
  | no_pool ↦ some (0, p)
  | deleted_pool ↦ none
  | live_pool ↦ some (
      if leb p.max_child_task_num tasks
      then (0, p)
      else if t == 0
      then (0, p)
      else (t, record p { jobs = set_id p.job_id t p.jobs; job_id = (p.job_id + 1) % 2 ^ 64 }))
]

-- `run_job` and `cancel_job`: the result, what is called, and the jobs.
unfoldable pub call_job : (ℕ → JobCall) → Parallel → ℕ → ℤ × List JobCall × Parallel
unfolding at_id
call_job f p id =
    let (t, jobs) = at_id id p.jobs in
    (
      if t == 0 then ep_invalid_argu else pos 0,
      if t == 0 then [] else f t ∷ [],
      record p { jobs = jobs },
    )

abbrev pub run_job : Parallel → ℕ → ℤ × List JobCall × Parallel
run_job = call_job run_call

abbrev pub cancel_job : Parallel → ℕ → ℤ × List JobCall × Parallel
cancel_job = call_job cancel_call

unfoldable pub destroy_job : Parallel → ℕ → ℤ × List JobCall × Parallel
unfolding at_id erase_job
destroy_job p id =
    let (t, jobs) = at_id id p.jobs in
    (
      if t == 0 then ep_invalid_argu else pos 0,
      if t == 0 then [] else recycle_call t ∷ [],
      record p { jobs = erase_job id jobs },
    )

-- The loop of `destroy`: every job is recycled.
unfoldable pub recycle_all : List (ℕ × ℕ) → Option (List JobCall)
recycle_all [] = some []
recycle_all ((id, j) ∷ m) =
    let rest = recycle_all m in
    if j == 0 then none else elim rest [ none ↦ none | some calls ↦ some (recycle_call j ∷ calls) ]

unfoldable pub destroy : Parallel → Option (List JobCall × Parallel)
unfolding recycle_all
destroy p = elim (recycle_all p.jobs) [
  | none ↦ none
  | some calls ↦ elim p.thread_pool [
    | no_pool ↦ some (calls, record p { jobs = [] })
    | live_pool ↦ some (calls, record p { jobs = []; thread_pool = deleted_pool })
    | deleted_pool ↦ none
  ]
]
