-- ===== src/Job/Steps/Inv.antt =====
-- What holds of an ep `job` and its children between two steps of any threads.
use eparallel.Common.{
  ℕ, zero, suc, ◌+◌, ◌≤◌, ◌<◌, ◌≡◌, ◌≢◌, ◌^◌, refl, ap, sym, ◌∙◌, inl, inr, true, false, List, [],
  ◌∷◌, some, arith, length, get_elem?, set, length-set, if◌then◌else◌, Bool-cases,
}
use eparallel.Job.{Job, is_init, handle_child_task_finish}
use eparallel.Job.Counts.{Counts, Quiet, Counts-Quiet, handle-Same, handle-Counts}
use eparallel.Job.Steps.{Phase, idle, queued, busy, done, lost, World, is_done, count, count-set}

pub count_done-le : (ps : List Phase) → count is_done ps ≤ length ps
count_done-le [] = omega arith
count_done-le (p ∷ ps) = omega (arith, is_done-le p, count_done-le ps)
  where
    is_done-le : (p : Phase) → is_done p ≤ 1
    is_done-le idle = omega arith
    is_done-le queued = omega arith
    is_done-le busy = omega arith
    is_done-le done = omega arith
    is_done-le lost = omega arith

abbrev pub AllIdle : List Phase → Type 0
AllIdle [] = Unit {0}
AllIdle (p ∷ ps) = (p ≡ idle) × AllIdle ps

-- The references given to a job: its owner's, one for each child, and one for each callback.
abbrev pub given_refs : Job → ℕ
given_refs j =
    if is_init j.status
    then 1 + length j.child_tasks
    else 1 + length j.child_tasks + length j.child_tasks

pub record Inv (w : World) : Type 0 where
  pub sized : length w.phases ≡ length w.job.child_tasks
  pub counts : Counts w.job (count is_done w.phases) (given_refs w.job)
  pub roomy : 1 + length w.job.child_tasks + length w.job.child_tasks < 2 ^ 32
  pub before : is_init w.job.status ≡ true → (w.job.callbacks ≡ 0) × AllIdle w.phases
  pub launched : is_init w.job.status ≡ false → w.job.callbacks ≡ length w.job.child_tasks

-- Two jobs that agree on these were given as many references.
pub given_refs-Same :
    (j k : Job)
    → is_init k.status ≡ is_init j.status
    → length k.child_tasks ≡ length j.child_tasks
    → given_refs k ≡ given_refs j
given_refs-Same j k s l = rw s (rw l refl)

AllIdle-none :
    (ps : List Phase) (i : ℕ) (p : Phase) → p ≢ idle → AllIdle ps → get_elem? ps i ≢ some p
AllIdle-none [] i p n a e = cc
AllIdle-none (x ∷ ps) zero p n a e = n (ground (arith, e, a.0))
AllIdle-none (x ∷ ps) (suc i) p n a e = AllIdle-none ps i p n a.1 e

-- A child that is queued or busy belongs to a job that was started.
pub started :
    (w : World) (i : ℕ) (p : Phase)
    → p ≢ idle
    → get_elem? w.phases i ≡ some p
    → Inv w
    → is_init w.job.status ≡ false
started w i p n g v = elim (Bool-cases (is_init w.job.status)) [
  | inl yes' ↦ absurd (AllIdle-none w.phases i p n (v.before yes').1 g)
  | inr no' ↦ no'
]

-- The child moves to a phase that is not done, and the counters stay.
pub stay-Inv :
    (w : World) (i : ℕ) (p q : Phase) (k : Job)
    → is_done p ≡ 0
    → is_done q ≡ 0
    → get_elem? w.phases i ≡ some p
    → is_init w.job.status ≡ false
    → Quiet w.job k
    → Inv w
    → Inv (record { job = k; phases = set w.phases i q })
stay-Inv w i p q k dp dq g s f v =
    let c : count is_done (set w.phases i q) ≡ count is_done w.phases =
      omega (arith, count-set is_done w.phases i p q g) in
    record {
      sized = length-set w.phases i q ∙ v.sized ∙ sym f.frame.same_length;
      counts =
          rw (c, given_refs-Same w.job k (ap is_init f.frame.same_status) f.frame.same_length)
            (Counts-Quiet w.job k _ _ f v.counts);
      roomy = rw f.frame.same_length v.roomy;
      before = λ e. let n : is_init k.status ≡ false = rw f.frame.same_status s in cc;
      launched = λ e. f.frame.same_callbacks ∙ v.launched s ∙ sym f.frame.same_length;
    }

-- The child is handled as finished.
pub done-Inv :
    (w : World) (i : ℕ) (p : Phase) (k : Job)
    → is_done p ≡ 0
    → get_elem? w.phases i ≡ some p
    → is_init w.job.status ≡ false
    → Quiet w.job k
    → Inv w
    → Inv (record { job = handle_child_task_finish k i; phases = set w.phases i done })
done-Inv w i p k dp g s f v =
    let c : count is_done (set w.phases i done) ≡ suc (count is_done w.phases) =
      omega (arith, count-set is_done w.phases i p done g) in
    let h = handle-Same k i in
    let len = length-set w.phases i done in
    let room : count is_done w.phases < length k.child_tasks =
      omega (arith, c, count_done-le (set w.phases i done), len, v.sized, f.frame.same_length) in
    record {
      sized = len ∙ v.sized ∙ sym f.frame.same_length ∙ sym h.same_length;
      counts =
          rw
            (
              c,
              given_refs-Same w.job (handle_child_task_finish k i)
                  (ap is_init (h.same_status ∙ f.frame.same_status))
                  (h.same_length ∙ f.frame.same_length),
            )
            (handle-Counts k i _ _ room (Counts-Quiet w.job k _ _ f v.counts));
      roomy = rw (h.same_length ∙ f.frame.same_length) v.roomy;
      before = λ e.
          let n : is_init (handle_child_task_finish k i).status ≡ false =
            rw (h.same_status, f.frame.same_status) s in
          cc;
      launched = λ e.
          h.same_callbacks
          ∙ f.frame.same_callbacks
          ∙ v.launched s
          ∙ sym f.frame.same_length
          ∙ sym h.same_length;
    }
