-- ===== src/Job/Steps.antt =====
-- ep's `job` under the threads of the pool and its owner.
-- What has become of each child task is kept beside the job. A call of `handle_child_task_finish`
-- is part of one step, and a state is one between two calls of it; Job/Handlers takes these calls
-- apart.
pub mod Inv
pub mod Preserve
pub mod Frame
pub mod Finish
pub mod Dropped
pub use eparallel.Common.{count, count-set}
use eparallel.Common.{
  ℕ, zero, suc, ◌+◌, ◌≤◌, ◌<◌, ◌≡◌, ◌≢◌, refl, Bool, true, false, List, [], ◌∷◌, Option, none, some,
  arith, length, get_elem?, set, ℤ, pos, if◌then◌else◌,
}
use eparallel.Job.{
  Job, Status, running, cancelled, is_init, is_running, Outcome, retried, handled, dropped,
  dispatch_child_task, process_begin, process_end, stop,
}

-- Not yet dispatched, in the queue of the pool, in the child's own `process`, handled as finished,
-- or handed to nobody.
pub data Phase : Type 0 where
  idle queued busy done lost : Phase

pub record World : Type 0 where
  pub job : Job
  pub phases : List Phase

abbrev pub all_queued : List Phase → List Phase
all_queued [] = []
all_queued (p ∷ ps) = queued ∷ all_queued ps

abbrev pub begun : Bool → Phase
begun true = busy
begun false = done

abbrev pub after : Outcome → Phase
after retried = queued
after handled = done
after dropped = lost

-- The children from number `k` on that `del` takes out of the queue are done.
abbrev pub mark : (ℕ → Bool) → ℕ → List Phase → List Phase
mark del k [] = []
mark del k (p ∷ ps) = (if del k then done else p) ∷ mark del (suc k) ps

-- Only a callback that is in the queue can be taken out of it.
abbrev pub OnlyQueued : (ℕ → Bool) → ℕ → List Phase → Type 0
OnlyQueued del k [] = Unit {0}
OnlyQueued del k (p ∷ ps) = (del k ≡ true → p ≡ queued) × OnlyQueued del (suc k) ps

-- One step of the owner (`run`, `cancel`) or of a thread of the pool.
pub data Step (w u : World) : Type 0 where
  runs :
      is_init w.job.status ≡ true
      → u ≡ record { job = (dispatch_child_task w.job).1; phases = all_queued w.phases }
      → Step w u
  begins :
      (i : ℕ)
      → get_elem? w.phases i ≡ some queued
      → u ≡ record {
        job = (process_begin w.job i).1;
        phases = set w.phases i (begun (process_begin w.job i).0);
      }
      → Step w u
  ends :
      (i : ℕ) (ret : ℤ)
      → get_elem? w.phases i ≡ some busy
      → u ≡ record {
        job = (process_end w.job i ret).1;
        phases = set w.phases i (after (process_end w.job i ret).0);
      }
      → Step w u
  stops :
      (del : ℕ → Bool)
      → OnlyQueued del 0 w.phases
      → u ≡ record {
        job = stop w.job cancelled del;
        phases = if is_running w.job.status then mark del 0 w.phases else w.phases;
      }
      → Step w u

pub data Reach (w : World) : World → Type 0 where
  here : Reach w w
  next : {u v : World} → Reach w u → Step u v → Reach w v

abbrev pub is_done : Phase → ℕ
is_done done = 1
is_done _ = 0

abbrev pub is_lost : Phase → ℕ
is_lost lost = 1
is_lost _ = 0
