-- ===== src/Worker.antt =====
-- ep/ep_thread_pool.cpp: `thread` and the threads that take tasks, `permanent_thread` and
-- `temporary_thread`.
-- What `pthread_create` returns and what a loop round sees are arguments.
pub mod Drain
pub mod Life
use eparallel.Common.{
  ℕ, zero, suc, Bool, true, false, Option, none, some, List, [], ◌∷◌, ◌==◌, if◌then◌else◌, ℤ, pos,
  is_neg,
}
use eparallel.Errno.{fail, ep_thread_has_start, ep_thread_crete_fail, ep_exit_for_null_task}
use eparallel.TaskQueue.{TaskQueue, null, get_task, try_get_task}

-- `thread::STATUS_*`
pub data Status : Type 0 where
  init running pause stopped : Status

pub record Thread : Type 0 where
  pub status : Status
  pub run : Bool
  pub create_thread : Bool

abbrev pub new_thread : Thread
new_thread = record { status = init; run = false; create_thread = false }

abbrev pub is_running : Status → Bool
is_running running = true
is_running _ = false

-- `thread::run`, where `be_thread_create` returns `created`.
unfoldable pub run_worker : Thread → ℤ → ℤ × Thread
run_worker t created =
    if is_running t.status
    then (ep_thread_has_start, t)
    else if is_neg created
    then (ep_thread_crete_fail, record t { run = false })
    else (created, record t { run = true; create_thread = true })

-- `thread::join`, once the thread has ended.
unfoldable pub join : Thread → Thread
join t = if t.create_thread then record t { create_thread = false } else t

-- `thread::stop`
unfoldable pub stop_worker : Thread → Thread
unfolding join
stop_worker t = join (record t { run = false })

-- The loop of `thread::run_thread`, one entry for each round: whether `m_run` is still set when
-- the round begins, and what `run_process` returns. `none`: the thread has not ended.
unfoldable pub run_rounds : Thread → ℤ → List (Bool × ℤ) → Option (ℤ × Thread)
run_rounds t ret [] = none
run_rounds t ret ((false, r) ∷ rounds) = some (ret, record t { run = false; status = stopped })
run_rounds t ret ((true, r) ∷ rounds) = elim (is_neg r) [
  | true ↦ some (r, record t { run = false; status = stopped })
  | false ↦ run_rounds t r rounds
]

unfoldable pub run_thread : Thread → List (Bool × ℤ) → Option (ℤ × Thread)
unfolding run_rounds
run_thread t rounds = run_rounds (record t { status = running }) (pos 0) rounds

-- What one round did: its return code, the task that ran (NULL for none), and the queue.
pub record Round : Type 0 where
  pub ret : ℤ
  pub ran : ℕ
  pub queue : TaskQueue

-- `is_exit` is the dynamic cast to `exit_task`.
abbrev served : (ℕ → Bool) → ℕ × TaskQueue → Round
served is_exit (t, q) =
    if t == null
    then record { ret = pos 0; ran = null; queue = q }
    else if is_exit t
    then record { ret = ep_exit_for_null_task; ran = null; queue = q }
    else record { ret = pos 0; ran = t; queue = q }

-- `permanent_thread::run_process`; `none`: it waits for a task.
unfoldable pub permanent_process : (ℕ → Bool) → TaskQueue → Option Round
unfolding get_task
permanent_process is_exit q = elim (get_task q) [ none ↦ none | some r ↦ some (served is_exit r) ]

-- `temporary_thread::run_process`
unfoldable pub temporary_process : TaskQueue → Round
temporary_process q =
    let (t, q') = try_get_task q in
    if t == null
    then record { ret = fail; ran = null; queue = q' }
    else record { ret = pos 0; ran = t; queue = q' }

-- The rounds of a `temporary_thread` while nobody else uses the queue and `m_run` stays set:
-- the tasks that it ran, and the queue that it leaves; `none` when the fuel is used up.
unfoldable pub temporary_rounds : ℕ → TaskQueue → Option (List ℕ × TaskQueue)
unfolding temporary_process
temporary_rounds zero q = none
temporary_rounds (suc n) q =
    let r = temporary_process q in
    elim (is_neg r.ret) [
      | true ↦ some ([], r.queue)
      | false ↦ elim (temporary_rounds n r.queue) [
        | none ↦ none
        | some (ts, q') ↦ some (r.ran ∷ ts, q')
      ]
    ]
