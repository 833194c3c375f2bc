-- ===== src/TaskQueue/Threads/Shutdown.antt =====
-- ep's `task_queue` after `stop`.
use eparallel.Common.{ℕ, ◌≤◌, ◌≡◌, refl, ◌∙◌, inl, inr, true, none, arith, is_neg}
use eparallel.TaskQueue.{TaskQueue, sem_try_take, add_task, get_locked, sem_give, stop}
use eparallel.TaskQueue.Refine.{get_locked-Taken}
use eparallel.TaskQueue.Delete.{del_locked-Deleted}
use eparallel.TaskQueue.Threads.{
  System, Step, adds, claims_get, gets, claims_del, dels, stops, Reach, here, next, Inv,
  get_elem?-IsInRange, sem_try_take_lem, deleting,
}
use eparallel.TaskQueue.Threads.Claims.{Reach-Inv}

-- A stopped queue refuses every task and stays as it is.
pub add_task-stopped :
    (q : TaskQueue) (t p : ℕ)
    → q.stopped ≡ true
    → (is_neg (add_task q t p).0 ≡ true) × ((add_task q t p).1 ≡ q)
unfolding add_task
add_task-stopped q t p h = ground arith

sem_give-keeps : (q : TaskQueue) → ((sem_give q).stopped ≡ q.stopped) × ((sem_give q).size ≡ q.size)
unfolding sem_give
sem_give-keeps q = ground arith

-- What a step leaves of a stopped queue.
abbrev Shrinks : TaskQueue → TaskQueue → Type 0
Shrinks q r = (r.stopped ≡ true) × (r.size ≤ q.size)

stopped-get :
    (s : System) (i : ℕ) → Inv s → s.queue.stopped ≡ true → Shrinks s.queue (get_locked s.queue).1
stopped-get s i v h = elim (get_locked-Taken s.queue v.valid) [
  | inl (_, e) ↦ rw e (h, omega arith)
  | inr (k, ls, vw, nz, len, tot, nn, e) ↦ rw e (h, omega (arith, v.valid.counted, v.valid.small))
]

stopped-Step : {s u : System} → Step s u → Inv s → s.queue.stopped ≡ true → Shrinks s.queue u.queue
stopped-Step {s} (adds t p n b e) v h = rw (e, (add_task-stopped s.queue t p h).1) (h, omega arith)
stopped-Step {s} (claims_get i q g e' e) v h =
    rw (e, (sem_try_take_lem s.queue q e').0) (h, omega arith)
stopped-Step {s} (gets i g e) v h = rw e (stopped-get s i v h)
stopped-Step {s} (claims_del i t p q r g e' e) v h =
    rw (e, (sem_try_take_lem s.queue q e').0) (h, omega arith)
stopped-Step {s} (dels i t p c q g e' e) v h =
    elim (del_locked-Deleted s.queue t p (get_elem?-IsInRange s.threads i (deleting t p) g v.ranges)
      v.valid) [
        | inl (q', gone, d, v', sz, sm, st) ↦
            let same : q ≡ q' = cc in rw (e, same) (st ∙ h, omega arith)
        | inr (gone, d) ↦
            let same : q ≡ sem_give s.queue = cc in
            let k = sem_give-keeps s.queue in rw (e, same) (k.0 ∙ h, omega (arith, k.1))
      ]
stopped-Step {s} (stops e) v h = rw e (unfold stop in (refl, omega arith))

stopped-Reach :
    {s u : System} → Reach s u → Inv s → s.queue.stopped ≡ true → Shrinks s.queue u.queue
stopped-Reach here v h = (h, omega arith)
stopped-Reach (next r st) v h =
    let a = stopped-Reach r v h in
    let b = stopped-Step st (Reach-Inv v r) a.0 in (b.0, omega (arith, a.1, b.1))

-- Once a queue is stopped and empty, no schedule of the threads ever lets one through its
-- semaphore again: a thread that waits in `get_task` waits for good.
pub stopped_never_wakes :
    (s u : System)
    → Inv s
    → s.queue.stopped ≡ true
    → s.queue.size ≡ 0
    → Reach s u
    → (sem_try_take u.queue ≡ none) × (u.queue.size ≡ 0)
unfolding sem_try_take
stopped_never_wakes s u v h e r =
    let a = stopped-Reach r v h in
    let w = Reach-Inv v r in (ground (arith, a.1, w.balance), omega (arith, a.1))
