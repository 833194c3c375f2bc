-- ===== src/Job/Steps/Frame.antt =====
-- What no step of an ep `job` changes.
use eparallel.Common.{
  Option-cases, Bool, ℤ, ℕ, ◌+◌, ◌≡◌, refl, ◌∙◌, inl, inr, List, [], ◌∷◌, arith, length, get_elem?,
  Bool-cases,
}
use eparallel.Job.{
  inc32, stop_loop, Child, stop, dispatch_child_task, cancelled, handle_all, finished,
  dispatch_loop, failed, running, is_running, count_retry, set_status, Status, process_begin,
  process_end, Job, handle_child_task_finish,
}
use eparallel.Job.Counts.{stop_loop-Quiet, count_retry-Quiet, set_status-Quiet, Same, handle-Same}
use eparallel.Job.Steps.{runs, begins, ends, stops, here, next, Step, Reach, World}

-- The number of the children, and whether there is a combiner.
pub record Kept (j k : Job) : Type 0 where
  pub kept_length : length k.child_tasks ≡ length j.child_tasks
  pub kept_combiner : k.combiner ≡ j.combiner
  pub kept_autodestroy : k.autodestroy ≡ j.autodestroy

Kept-refl : (j : Job) → Kept j j
Kept-refl j = record { kept_length = refl; kept_combiner = refl; kept_autodestroy = refl }

Kept-trans : (j k l : Job) → Kept j k → Kept k l → Kept j l
Kept-trans j k l p q = record {
  kept_length = q.kept_length ∙ p.kept_length;
  kept_combiner = q.kept_combiner ∙ p.kept_combiner;
  kept_autodestroy = q.kept_autodestroy ∙ p.kept_autodestroy;
}

Same-Kept : (j k : Job) → Same j k → Kept j k
Same-Kept j k s = record {
  kept_length = s.same_length;
  kept_combiner = s.same_combiner;
  kept_autodestroy = s.same_autodestroy;
}

-- A child that is handled after its status was set.
handled-Kept :
    (j : Job) (i : ℕ) (st : Status) → Kept j (handle_child_task_finish (set_status j i st) i)
handled-Kept j i st =
    Kept-trans j (set_status j i st) _ (Same-Kept _ _ (set_status-Quiet j i st).frame)
      (Same-Kept _ _ (handle-Same (set_status j i st) i))

process_begin-Kept : (j : Job) (i : ℕ) → Kept j (process_begin j i).1
unfolding process_begin
process_begin-Kept j i = elim (Bool-cases (is_running j.status)) [
  | inl go ↦ rw (go, process_begin) (Same-Kept _ _ (set_status-Quiet j i running).frame)
  | inr no' ↦ rw (no', process_begin) (handled-Kept j i cancelled)
]

process_end-Kept : (j : Job) (i : ℕ) (ret : ℤ) → Kept j (process_end j i ret).1
unfolding process_end count_retry
process_end-Kept j i ret = elim (Option-cases (get_elem? j.child_tasks i)) [
  | inl n ↦ rw (n, process_end) (Kept-refl j)
  | inr (c, e) ↦
      rw (e, process_end)
        (ground (
          arith,
          handled-Kept j i failed,
          handled-Kept j i finished,
          Same-Kept j (count_retry j i c) (count_retry-Quiet j i c).frame,
        ))
]

handle_all-Same : (ctl : List ℕ) (j : Job) → Kept j (handle_all ctl j)
unfolding handle_all
handle_all-Same [] j = Kept-refl j
handle_all-Same (i ∷ ctl) j =
    let j' = handle_child_task_finish j i in
    Kept-trans j j' (handle_all ctl j') (Same-Kept _ _ (handle-Same j i)) (handle_all-Same ctl j')

stop-Kept : (j : Job) (st : Status) (del : ℕ → Bool) → Kept j (stop j st del)
unfolding stop
stop-Kept j st del = elim (Bool-cases (is_running j.status)) [
  | inr idle' ↦ rw (idle', stop) (Kept-refl j)
  | inl go ↦
      let j0 = record j { status = st } in
      let loop = stop_loop st del j.callbacks 0 j0 in
      let q = (stop_loop-Quiet st del j.callbacks 0 j0).0 in
      rw (go, stop)
        (Kept-trans j loop.1 _
          (Kept-trans j j0 loop.1
            (record { kept_length = refl; kept_combiner = refl; kept_autodestroy = refl })
            (Same-Kept _ _ q.frame))
          (handle_all-Same loop.0 loop.1))
]

dispatch_loop-Kept : (cs : List Child) (j : Job) → Kept j (dispatch_loop cs j)
unfolding dispatch_loop
dispatch_loop-Kept [] j = Kept-refl j
dispatch_loop-Kept (c ∷ cs) j =
    let j' = record j { refs = inc32 j.refs; callbacks = j.callbacks + 1 } in
    Kept-trans j j' (dispatch_loop cs j')
      (record { kept_length = refl; kept_combiner = refl; kept_autodestroy = refl })
      (dispatch_loop-Kept cs j')

dispatch-Kept : (j : Job) → Kept j (dispatch_child_task j).1
unfolding dispatch_child_task
dispatch-Kept j =
    ground (arith, dispatch_loop-Kept j.child_tasks (record j { status = running }), Kept-refl j)

Step-Kept : {w u : World} → Step w u → Kept w.job u.job
Step-Kept {w} (runs s e) = rw e (dispatch-Kept w.job)
Step-Kept {w} (begins i g e) = rw e (process_begin-Kept w.job i)
Step-Kept {w} (ends i ret g e) = rw e (process_end-Kept w.job i ret)
Step-Kept {w} (stops del o e) = rw e (stop-Kept w.job cancelled del)

pub Reach-Kept : {w u : World} → Reach w u → Kept w.job u.job
Reach-Kept {w} here = Kept-refl w.job
Reach-Kept {w} {u} (next {u = v} r s) = Kept-trans w.job v.job u.job (Reach-Kept r) (Step-Kept s)
