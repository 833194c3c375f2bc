-- ===== src/Worker/Drain.antt =====
-- A temporary thread of ep on a queue of its own.
use eparallel.Common.{
  ℕ, zero, suc, ◌<◌, ◌≡◌, ◌≢◌, ap, sym, ◌∙◌, inl, inr, List, [], ◌∷◌, some, arith, length, dec_eq,
}
use eparallel.TaskQueue.{TaskQueue, tasks, try_get_task, get_locked}
use eparallel.TaskQueue.Buckets.{length-entries}
use eparallel.TaskQueue.Refine.{view, IsValid, get_locked-Taken, get_locked-IsValid}
use eparallel.TaskQueue.Run.{Balanced, claimed, claimed-IsValid, no_entries}
use eparallel.Worker.{temporary_rounds}

try_get_task-empty : (q : TaskQueue) → q.semp ≡ 0 → try_get_task q ≡ (0, q)
unfolding try_get_task
try_get_task-empty q e = ground arith

try_get_task-claimed : (q : TaskQueue) → q.semp ≢ 0 → try_get_task q ≡ get_locked (claimed q)
unfolding try_get_task
try_get_task-claimed q n = ground arith

rounds-more :
    (n : ℕ) (q : TaskQueue) (ts : List ℕ) (q' : TaskQueue)
    → q.semp ≢ 0
    → 0 < (get_locked (claimed q)).0
    → temporary_rounds n (get_locked (claimed q)).1 ≡ some (ts, q')
    → temporary_rounds (suc n) q ≡ some ((get_locked (claimed q)).0 ∷ ts, q')
unfolding temporary_rounds
rounds-more n q ts q' nz h e = ground (arith, try_get_task-claimed q nz)

-- A temporary thread that has the queue to itself runs every task once, in the order of the
-- queue, then ends with an empty queue; one round more than there are tasks is enough.
pub temporary_thread_drains :
    (n : ℕ) (q : TaskQueue)
    → IsValid q
    → Balanced q
    → q.size < n
    → (q' : TaskQueue) × (temporary_rounds n q ≡ some (tasks (view q), q'))
      × (view q' ≡ [])
      × (q'.size ≡ 0)
unfolding temporary_rounds
temporary_thread_drains zero q v b h = absurd (omega arith)
temporary_thread_drains (suc n) q v b h = elim (dec_eq q.semp 0) [
  | inl z ↦
      let e = no_entries q v (omega arith) in
      (q, rw e (ground (arith, try_get_task-empty q z)), e, omega arith)
  | inr nz ↦
      let v' = claimed-IsValid q v in
      let w = get_locked-IsValid (claimed q) v' in
      elim (get_locked-Taken (claimed q) v') [
        | inl (e, _) ↦ absurd (omega (arith, ap length e, length-entries q.oplists 0, v.counted))
        | inr (k, ls, vw, nonnull, len, tot, nn, e) ↦
            let q1 = (get_locked (claimed q)).1 in
            let (q', r, vw', z') =
              temporary_thread_drains n q1 w (rw e (omega (arith, v.small, v.counted)))
                (rw e (omega (arith, v.small, v.counted))) in
            let step = rounds-more n q (tasks (view q1)) q' nz nonnull r in
            let same : view q ≡ (k, (get_locked (claimed q)).0) ∷ view q1 =
              vw ∙ ap (λ m. (k, (get_locked (claimed q)).0) ∷ view m) (sym e) in
            (q', rw same step, vw', z')
      ]
]
