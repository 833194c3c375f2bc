-- ===== src/Job/Handlers.antt =====
-- ep/ep_job.cpp: `job::handle_child_task_finish` under the threads of the pool, in its parts. The
-- calls of the combiner are outside `m_cs`; the count and its test are under it.
pub mod Finish
use eparallel.Common.{
  ℕ, zero, suc, ◌+◌, ◌<◌, ◌≡◌, refl, Bool, true, false, ◌&&◌, List, [], ◌∷◌, some, ◌==◌, length,
  get_elem?, set, if◌then◌else◌, arith,
}
use eparallel.TaskQueue.{inc32}
use eparallel.Job.{Job, child_task_finish, all_child_task_finish, recycle, handle_child_task_finish}

-- Where the call for a child stands, with `all_finish` from the lock on: before it, or behind the
-- call of the combiner, the lock, the second call of the combiner, the semaphore, or the end.
pub data Pc : Type 0 where
  start told : Pc
  counted ended given left : Bool → Pc

-- The next part of the call for child number `i`.
unfoldable pub part : Job → ℕ → Pc → Job × Pc
unfolding recycle
part j i start =
    (if j.combiner then record j { calls = child_task_finish i ∷ j.calls } else j, told)
part j i told =
    let num = inc32 j.finish_num in
    (record j { finish_num = num }, counted (num == length j.child_tasks))
part j i (counted all_finish) = (
  if all_finish && j.combiner then record j { calls = all_child_task_finish ∷ j.calls } else j,
  ended all_finish,
)
part j i (ended all_finish) = (record j { semp = j.semp + 1 }, given all_finish)
part j i (given all_finish) =
    (if all_finish && j.autodestroy then recycle j else j, left all_finish)
part j i (left all_finish) = (j, left all_finish)

-- The parts of a call that nothing comes between are the call.
part_alone :
    (j : Job) (i : ℕ)
    → let x1 = part j i start in
      let x2 = part x1.0 i x1.1 in
      let x3 = part x2.0 i x2.1 in
      let x4 = part x3.0 i x3.1 in (part x4.0 i x4.1).0 ≡ handle_child_task_finish j i
unfolding part handle_child_task_finish
part_alone j i = ground arith

-- The job, and the call for each child.
pub record World : Type 0 where
  pub job : Job
  pub at : List Pc

abbrev pub go : World → ℕ → Pc → World
go w i pc = let (j, pc') = part w.job i pc in record { job = j; at = set w.at i pc' }

-- One thread goes on.
pub data Step (w : World) : World → Type 0 where
  moves : (i : ℕ) (pc : Pc) → get_elem? w.at i ≡ some pc → Step w (go w i pc)

pub data Reach (w : World) : World → Type 0 where
  here : Reach w w
  next : {u v : World} → Reach w u → Step u v → Reach w v

-- What a call has done so far.
abbrev pub one_if : Bool → ℕ
one_if true = 1
one_if false = 0

abbrev pub has_told : Pc → ℕ
has_told start = 0
has_told _ = 1

abbrev pub has_counted : Pc → ℕ
has_counted start = 0
has_counted told = 0
has_counted _ = 1

abbrev pub saw_all : Pc → ℕ
saw_all (counted b) = one_if b
saw_all (ended b) = one_if b
saw_all (given b) = one_if b
saw_all (left b) = one_if b
saw_all _ = 0

abbrev pub has_ended : Pc → ℕ
has_ended (ended b) = one_if b
has_ended (given b) = one_if b
has_ended (left b) = one_if b
has_ended _ = 0

abbrev pub has_given : Pc → ℕ
has_given (given b) = 1
has_given (left b) = 1
has_given _ = 0
