-- ===== src/Job/Counts.antt =====
-- The counters of an ep `job`, and what each of its operations does to them.
use eparallel.Common.{
  ℕ, zero, suc, ◌+◌, ◌≤◌, ◌<◌, ◌≡◌, ◌^◌, refl, inl, inr, Bool, true, false, List, [], ◌∷◌, arith,
  length, get_elem?, length-set, ◌&&◌, if◌then◌else◌, ◌==◌, Bool-cases, Option-cases,
}
use eparallel.Job.{
  inc32, Job, Child, Call, child_task_finish, all_child_task_finish, Status, running, is_init,
  dispatch_child_task, dispatch_loop, set_status, count_retry, handle_child_task_finish, stop_loop,
  handle_all,
}

-- How often the combiner was told of a finished child, and of the end of all.
abbrev pub tolds : List Call → ℕ
tolds [] = 0
tolds (child_task_finish i ∷ cs) = suc (tolds cs)
tolds (all_child_task_finish ∷ cs) = tolds cs

abbrev pub alls : List Call → ℕ
alls [] = 0
alls (child_task_finish i ∷ cs) = alls cs
alls (all_child_task_finish ∷ cs) = suc (alls cs)

-- The counters of a job of which `d` children are done and which was given `b` references.
pub record Counts (j : Job) (d b : ℕ) : Type 0 where
  pub some_child : 0 < length j.child_tasks
  pub small : length j.child_tasks < 2 ^ 32
  pub many : 2 ≤ b
  pub fits : b < 2 ^ 32
  pub alive : j.deleted ≡ false
  pub held : j.refs + (if j.autodestroy && d == length j.child_tasks then 1 else 0) ≡ b
  pub in_range : d ≤ length j.child_tasks
  pub finish : j.finish_num ≡ d
  pub given : j.semp ≡ d
  pub told : tolds j.calls ≡ (if j.combiner then d else 0)
  pub called : alls j.calls ≡ (if j.combiner && d == length j.child_tasks then 1 else 0)

-- What the operations on a child leave alone.
pub record Same (j k : Job) : Type 0 where
  pub same_status : k.status ≡ j.status
  pub same_callbacks : k.callbacks ≡ j.callbacks
  pub same_length : length k.child_tasks ≡ length j.child_tasks
  pub same_combiner : k.combiner ≡ j.combiner
  pub same_autodestroy : k.autodestroy ≡ j.autodestroy

pub record Quiet (j k : Job) : Type 0 where
  pub frame : Same j k
  pub quiet_num : k.finish_num ≡ j.finish_num
  pub quiet_semp : k.semp ≡ j.semp
  pub quiet_calls : k.calls ≡ j.calls
  pub quiet_refs : k.refs ≡ j.refs
  pub quiet_deleted : k.deleted ≡ j.deleted

pub Counts-Quiet : (j k : Job) (d b : ℕ) → Quiet j k → Counts j d b → Counts k d b
Counts-Quiet j k d b q c = ground arith

pub set_status-Quiet : (j : Job) (i : ℕ) (st : Status) → Quiet j (set_status j i st)
unfolding set_status
set_status-Quiet j i st = elim (Option-cases (get_elem? j.child_tasks i)) [
  | inl n ↦
      rw (n, set_status)
        (record {
          frame = record {
            same_status = refl;
            same_callbacks = refl;
            same_length = refl;
            same_combiner = refl;
            same_autodestroy = refl;
          };
          quiet_num = refl;
          quiet_semp = refl;
          quiet_calls = refl;
          quiet_refs = refl;
          quiet_deleted = refl;
        })
  | inr (c, e) ↦
      rw (e, set_status)
        (record {
          frame = record {
            same_status = refl;
            same_callbacks = refl;
            same_length = length-set j.child_tasks i _;
            same_combiner = refl;
            same_autodestroy = refl;
          };
          quiet_num = refl;
          quiet_semp = refl;
          quiet_calls = refl;
          quiet_refs = refl;
          quiet_deleted = refl;
        })
]

pub count_retry-Quiet : (j : Job) (i : ℕ) (c : Child) → Quiet j (count_retry j i c)
unfolding count_retry
count_retry-Quiet j i c = record {
  frame = record {
    same_status = refl;
    same_callbacks = refl;
    same_length = length-set j.child_tasks i _;
    same_combiner = refl;
    same_autodestroy = refl;
  };
  quiet_num = refl;
  quiet_semp = refl;
  quiet_calls = refl;
  quiet_refs = refl;
  quiet_deleted = refl;
}

pub handle-Same : (j : Job) (i : ℕ) → Same j (handle_child_task_finish j i)
unfolding handle_child_task_finish
handle-Same j i = ground arith

pub handle-Counts :
    (j : Job) (i d b : ℕ)
    → d < length j.child_tasks
    → Counts j d b
    → Counts (handle_child_task_finish j i) (suc d) b
unfolding handle_child_task_finish
handle-Counts j i d b h c = ground arith

Quiet-trans : (j k l : Job) → Quiet j k → Quiet k l → Quiet j l
Quiet-trans j k l p q = ground arith

pub Quiet-refl : (j : Job) → Quiet j j
Quiet-refl j = ground arith

Same-trans : (j k l : Job) → Same j k → Same k l → Same j l
Same-trans j k l p q = ground arith

-- The number of callbacks, of `n` from number `k` on, that `del` takes out of the queue.
abbrev pub dels : (ℕ → Bool) → ℕ → ℕ → ℕ
dels del zero k = 0
dels del (suc n) k = (if del k then 1 else 0) + dels del n (suc k)

pub stop_loop-Quiet :
    (st : Status) (del : ℕ → Bool) (n k : ℕ) (j : Job)
    → Quiet j (stop_loop st del n k j).1 × (length (stop_loop st del n k j).0 ≡ dels del n k)
unfolding stop_loop
stop_loop-Quiet st del zero k j = (Quiet-refl j, refl)
stop_loop-Quiet st del (suc n) k j = elim (Bool-cases (del k)) [
  | inl hit ↦
      let ih = stop_loop-Quiet st del n (suc k) (set_status j k st) in
      rw (hit, stop_loop)
        (Quiet-trans j (set_status j k st) _ (set_status-Quiet j k st) ih.0, omega (arith, ih.1))
  | inr miss ↦
      let ih = stop_loop-Quiet st del n (suc k) j in
      rw (miss, stop_loop) (ih.0, omega (arith, ih.1))
]

pub handle_all-Counts :
    (ctl : List ℕ) (j : Job) (d b : ℕ)
    → d + length ctl ≤ length j.child_tasks
    → Counts j d b
    → Counts (handle_all ctl j) (d + length ctl) b × Same j (handle_all ctl j)
unfolding handle_all
handle_all-Counts [] j d b h c = let e : d + 0 ≡ d = omega arith in rw e (c, (Quiet-refl j).frame)
handle_all-Counts (i ∷ ctl) j d b h c =
    let j' = handle_child_task_finish j i in
    let s = handle-Same j i in
    let ih =
      handle_all-Counts ctl j' (suc d) b (omega (arith, s.same_length))
        (handle-Counts j i d b (omega arith) c) in
    let e : d + suc (length ctl) ≡ suc d + length ctl = omega arith in
    rw e (ih.0, Same-trans j j' (handle_all ctl j') s ih.1)

dispatch_loop-Launched :
    (cs : List Child) (j : Job)
    → j.refs + length cs < 2 ^ 32
    → dispatch_loop cs j
      ≡ record j { callbacks = j.callbacks + length cs; refs = j.refs + length cs }
unfolding dispatch_loop
dispatch_loop-Launched [] j h = ground arith
dispatch_loop-Launched (c ∷ cs) j h = ground (
  arith,
  dispatch_loop-Launched cs (record j { refs = inc32 j.refs; callbacks = j.callbacks + 1 }),
)

-- `run` launches every child, takes a reference for each, and leaves the other counters.
pub run-Counts :
    (j : Job) (d b : ℕ)
    → is_init j.status ≡ true
    → j.callbacks ≡ 0
    → d < length j.child_tasks
    → b + length j.child_tasks < 2 ^ 32
    → Counts j d b
    → let k = (dispatch_child_task j).1 in
      Counts k d (b + length j.child_tasks)
      × (is_init k.status ≡ false)
      × (k.callbacks ≡ length k.child_tasks)
      × (k.child_tasks ≡ j.child_tasks)
unfolding dispatch_child_task
run-Counts j d b s z l f c =
    let e =
      dispatch_loop-Launched j.child_tasks (record j { status = running })
        (omega (arith, c.held)) in
    rw (s, dispatch_child_task) (rw e (ground arith, refl, ground arith, refl))

-- The counters do not depend on the status.
pub Counts-status :
    (j : Job) (st : Status) (d b : ℕ) → Counts j d b → Counts (record j { status = st }) d b
Counts-status j st d b c = ground arith
