-- ===== src/Job.antt =====
-- ep/ep_job.cpp and ep/ep_job.h: `childtask`, `ctfcb` and `job`.
-- A child task is known by its number in `m_child_tasks`; the callback with the same number in
-- `m_chlid_task_callbasks` runs it. What a child's own `process` returns, and which callbacks
-- `del_task` finds in the queue of the thread pool, are arguments. The calls that the job makes
-- of its combiner are kept in `calls`, the latest first.
pub mod Counts
pub mod Steps
pub mod Handlers
use eparallel.Common.{
  ℕ, zero, suc, ◌+◌, ◌-◌, ◌%◌, ◌^◌, Bool, true, false, not, ◌&&◌, ◌||◌, Option, none, some, List,
  [], ◌∷◌, ◌++◌, ltb, leb, ◌==◌, if◌then◌else◌, ℤ, pos, negsuc, is_neg, length, get_elem?, set,
}
use eparallel.TaskQueue.{inc32, dec32}

-- `STATUS_*`, of a child task and of a job.
pub data Status : Type 0 where
  init running finished failed cancelled : Status

abbrev pub is_init : Status → Bool
is_init init = true
is_init _ = false

abbrev pub is_running : Status → Bool
is_running running = true
is_running _ = false

pub record Child : Type 0 where
  pub status : Status
  pub max_retry_times : ℕ
  pub retry_times : ℕ

-- The constructor of `childtask`, with `set_max_retry_times`.
abbrev pub new_child : ℕ → Child
new_child retries = record { status = init; max_retry_times = retries; retry_times = 0 }

-- The calls of a combiner.
pub data Call : Type 0 where
  child_task_finish : ℕ → Call
  all_child_task_finish : Call

pub record Job : Type 0 where
  pub child_tasks : List Child
  pub callbacks : ℕ
  pub finish_num : ℕ
  pub combiner : Bool
  pub status : Status
  pub refs : ℕ
  pub autodestroy : Bool
  pub semp : ℕ
  pub deleted : Bool
  pub calls : List Call

-- `JOB_INVALID_STATUS`
abbrev pub job_invalid_status : ℤ
job_invalid_status = negsuc 0

unfoldable pub new_job : Bool → Job
new_job autodestroy = record {
  child_tasks = [];
  callbacks = 0;
  finish_num = 0;
  combiner = false;
  status = init;
  refs = 1;
  autodestroy = autodestroy;
  semp = 0;
  deleted = false;
  calls = [];
}

-- Whether the combiner that is set is not `NULL`.
unfoldable pub set_combiner : Job → Bool → Job
set_combiner j cb = record j { combiner = cb }

-- `clone`: one more reference.
unfoldable pub clone : Job → Job
clone j = record j { refs = inc32 j.refs }

-- `recycle`: with the last reference the job is deleted.
unfoldable pub recycle : Job → Job
recycle j = let left = dec32 j.refs in record j { refs = left; deleted = j.deleted || left == 0 }

-- `add_child_task`, with the reference that `childtask::set_job` takes.
unfoldable pub add_child_task : Job → Child → Job
unfolding clone
add_child_task j c = let j' = clone j in record j' { child_tasks = j'.child_tasks ++ (c ∷ []) }

unfoldable pub set_status : Job → ℕ → Status → Job
set_status j i st = elim (get_elem? j.child_tasks i) [
  | none ↦ j
  | some c ↦ record j { child_tasks = set j.child_tasks i (record c { status = st }) }
]

-- The loop of `dispatch_child_task`: each new callback takes a reference and is pushed.
unfoldable pub dispatch_loop : List Child → Job → Job
unfolding clone
dispatch_loop [] j = j
dispatch_loop (c ∷ cs) j =
    dispatch_loop cs (record j { refs = inc32 j.refs; callbacks = j.callbacks + 1 })

-- `run`
unfoldable pub dispatch_child_task : Job → ℤ × Job
dispatch_child_task j =
    if is_init j.status
    then (pos 0, dispatch_loop j.child_tasks (record j { status = running }))
    else (job_invalid_status, j)

unfoldable pub handle_child_task_finish : Job → ℕ → Job
unfolding recycle
handle_child_task_finish j i =
    let told = if j.combiner then child_task_finish i ∷ j.calls else j.calls in
    let num = inc32 j.finish_num in
    let all_finish = num == length j.child_tasks in
    let j' = record j {
      finish_num = num;
      calls = if all_finish && j.combiner then all_child_task_finish ∷ told else told;
      semp = j.semp + 1;
    } in
    if all_finish && j.autodestroy then recycle j' else j'

-- `ctfcb::process` up to the call of the child's own `process`; `false`: it is not called.
unfoldable pub process_begin : Job → ℕ → Bool × Job
unfolding set_status handle_child_task_finish
process_begin j i =
    if is_running j.status
    then (true, set_status j i running)
    else (false, handle_child_task_finish (set_status j i cancelled) i)

unfoldable pub retry_child_task : Job → ℤ
retry_child_task j = if is_running j.status then pos 0 else job_invalid_status

-- What became of a child: handed to the pool again, handled as finished, or neither.
pub data Outcome : Type 0 where
  retried handled dropped : Outcome

unfoldable pub count_retry : Job → ℕ → Child → Job
count_retry j i c = record j {
  child_tasks = set j.child_tasks i (record c { retry_times = inc32 c.retry_times });
}

-- The rest of `ctfcb::process`, when the child's `process` has returned `ret`.
unfoldable pub process_end : Job → ℕ → ℤ → Outcome × Job
unfolding set_status handle_child_task_finish retry_child_task count_retry
process_end j i ret = elim (get_elem? j.child_tasks i) [
  | none ↦ (dropped, j)
  | some c ↦
      if is_neg ret
      then if ltb c.retry_times c.max_retry_times
        then if is_neg (retry_child_task j) then (dropped, j) else (retried, count_retry j i c)
        else (handled, handle_child_task_finish (set_status j i failed) i)
      else (handled, handle_child_task_finish (set_status j i finished) i)
]

-- The first loop of `stop`, from callback `k` on with `n` left; `del` says which callbacks
-- `del_task` took out of the queue. The children to be handled, and the job.
unfoldable pub stop_loop : Status → (ℕ → Bool) → ℕ → ℕ → Job → List ℕ × Job
unfolding set_status
stop_loop st del zero k j = ([], j)
stop_loop st del (suc n) k j =
    let (ctl, j') = stop_loop st del n (suc k) (if del k then set_status j k st else j) in
    (if del k then k ∷ ctl else ctl, j')

-- The second loop of `stop`.
unfoldable pub handle_all : List ℕ → Job → Job
unfolding handle_child_task_finish
handle_all [] j = j
handle_all (i ∷ ctl) j = handle_all ctl (handle_child_task_finish j i)

unfoldable pub stop : Job → Status → (ℕ → Bool) → Job
unfolding stop_loop handle_all
stop j st del =
    let (ctl, j') = stop_loop st del j.callbacks 0 (record j { status = st }) in
    if is_running j.status then handle_all ctl j' else j

unfoldable pub cancel : Job → (ℕ → Bool) → Job
unfolding stop
cancel j del = stop j cancelled del

-- `wait_for_all_child_task`: the job once it has taken the semaphore for each callback; `none`:
-- it still waits.
unfoldable pub wait_for_all_child_task : Job → Option Job
wait_for_all_child_task j =
    if leb j.callbacks j.semp then some (record j { semp = j.semp - j.callbacks }) else none
