-- ===== src/Job/Steps/Finish.antt =====
-- What an ep `job` that was given its children and a combiner comes to, whatever its threads do.
use eparallel.Common.{
  ◌&&◌, ℕ, zero, suc, ◌+◌, ◌≤◌, ◌<◌, ◌≡◌, ◌≢◌, ◌^◌, refl, sym, ◌∙◌, inl, inr, Bool, false, List, [],
  ◌∷◌, none, arith, length, if◌then◌else◌, ◌==◌, Bool-cases, length-append, replicate,
  length-replicate,
}
use eparallel.Job.{
  Job, Child, init, is_init, new_job, set_combiner, add_child_task, clone, recycle,
  wait_for_all_child_task,
}
use eparallel.Job.Counts.{tolds, alls}
use eparallel.Job.Steps.{idle, World, Reach, is_done, count}
use eparallel.Job.Steps.Inv.{Inv, AllIdle, given_refs, count_done-le}
use eparallel.Job.Steps.Frame.{Reach-Kept}
use eparallel.Job.Steps.Preserve.{Reach-Inv, count-AllIdle}

-- The job that has been given these children.
abbrev pub add_all : List Child → Job → Job
add_all [] j = j
add_all (c ∷ cs) j = add_all cs (add_child_task j c)

-- The job before `run`, with a combiner or without.
abbrev pub fresh : Bool → Bool → List Child → World
fresh combiner autodestroy cs = record {
  job = set_combiner (add_all cs (new_job autodestroy)) combiner;
  phases = replicate (length cs) idle;
}

pub record Small (cs : List Child) : Type 0 where
  pub some_child : 0 < length cs
  pub roomy : 1 + length cs + length cs < 2 ^ 32

pub add_all-Fresh :
    (cs : List Child) (j : Job)
    → j.refs + length cs < 2 ^ 32
    → let k = add_all cs j in
      (length k.child_tasks ≡ length j.child_tasks + length cs)
      × (k.refs ≡ j.refs + length cs)
      × (k.status ≡ j.status)
      × (k.callbacks ≡ j.callbacks)
      × (k.finish_num ≡ j.finish_num)
      × (k.semp ≡ j.semp)
      × (k.deleted ≡ j.deleted)
      × (k.calls ≡ j.calls)
      × (k.combiner ≡ j.combiner)
unfolding add_child_task clone
add_all-Fresh [] j h = ground arith
add_all-Fresh (c ∷ cs) j h =
    let ih = add_all-Fresh cs (add_child_task j c) (ground arith) in
    ground (arith, ih, length-append j.child_tasks (c ∷ []))

replicate-AllIdle : (n : ℕ) → AllIdle (replicate n idle)
replicate-AllIdle zero = tt
replicate-AllIdle (suc n) = (refl, replicate-AllIdle n)

count-idle : (n : ℕ) → count is_done (replicate n idle) ≡ 0
count-idle zero = refl
count-idle (suc n) = omega (arith, count-idle n)

pub fresh-Inv : (co ad : Bool) (cs : List Child) → Small cs → Inv (fresh co ad cs)
unfolding new_job set_combiner
fresh-Inv co ad cs s =
    let (l', r, st, cb, fin, sm, del, ca, co_old) =
      add_all-Fresh cs (new_job ad) (omega (arith, s.roomy)) in
    let l : length (add_all cs (new_job ad)).child_tasks ≡ length cs = omega (arith, l') in
    let n = length-replicate (length cs) idle in
    let z = count-idle (length cs) in
    let pos' = s.some_child in
    record {
      sized = n ∙ sym l;
      counts = rw z (ground (arith, l, r, st, fin, sm, del, ca, co_old, s));
      roomy = rw l s.roomy;
      before = λ e. (cb, replicate-AllIdle (length cs));
      launched = λ e. let e' : is_init init ≡ false = rw st at e in cc;
    }

pub fresh-Kept :
    (co ad : Bool) (cs : List Child)
    → Small cs
    → ((fresh co ad cs).job.combiner ≡ co) × (length (fresh co ad cs).job.child_tasks ≡ length cs)
unfolding set_combiner new_job
fresh-Kept co ad cs s =
    let h = add_all-Fresh cs (new_job ad) (omega (arith, s.roomy)) in ground (arith, h)

-- Between the calls, the children that were handled as finished are counted exactly: the combiner
-- was told of each of them once, and the end of all was told once when all were, else never.
pub done_counts :
    (co ad : Bool) (cs : List Child) {u : World}
    → Small cs
    → Reach (fresh co ad cs) u
    → (u.job.finish_num ≡ count is_done u.phases)
      × (tolds u.job.calls ≡ (if co then count is_done u.phases else 0))
      × (alls u.job.calls ≡ (if co && count is_done u.phases == length cs then 1 else 0))
done_counts co ad cs {u} s r =
    let v = Reach-Inv (fresh-Inv co ad cs s) r in
    let k = Reach-Kept r in
    let (c, l) = fresh-Kept co ad cs s in
    (
      v.counts.finish,
      v.counts.told ∙ rw (k.kept_combiner ∙ c) refl,
      v.counts.called ∙ rw (k.kept_combiner ∙ c, k.kept_length ∙ l) refl,
    )

-- `wait_for_all_child_task` returns as soon as all children of a started job were handled, and
-- never before.
pub wait_for_all_child_task-exact :
    (co ad : Bool) (cs : List Child) {u : World}
    → Small cs
    → Reach (fresh co ad cs) u
    → is_init u.job.status ≡ false
    → (count is_done u.phases ≡ length cs → wait_for_all_child_task u.job ≢ none)
      × (count is_done u.phases ≢ length cs → wait_for_all_child_task u.job ≡ none)
unfolding wait_for_all_child_task
wait_for_all_child_task-exact co ad cs {u} s r i =
    let v = Reach-Inv (fresh-Inv co ad cs s) r in
    let sz : length u.phases ≡ length cs =
      v.sized ∙ (Reach-Kept r).kept_length ∙ (fresh-Kept co ad cs s).1 in
    let called : u.job.callbacks ≡ length cs = v.launched i ∙ sym v.sized ∙ sz in
    let le : count is_done u.phases ≤ length cs =
      omega (arith, count_done-le u.phases, v.sized, sz) in
    (
      λ e. ground (arith, v.counts.given, called, le, e),
      λ e. ground (arith, v.counts.given, called, le, e),
    )

-- No step deletes the job, and its owner's `recycle` does not either, also after all is finished.
pub job_never_deleted :
    (co ad : Bool) (cs : List Child) {u : World}
    → Small cs
    → Reach (fresh co ad cs) u
    → (u.job.deleted ≡ false) × ((recycle u.job).deleted ≡ false)
unfolding recycle
job_never_deleted co ad cs {u} s r =
    let v = Reach-Inv (fresh-Inv co ad cs s) r in
    let c = v.counts in
    (
      c.alive,
      elim (Bool-cases (is_init u.job.status)) [
        | inl yes' ↦
            let given : given_refs u.job ≡ 1 + length u.job.child_tasks = rw yes' refl in
            let z = count-AllIdle u.phases (v.before yes').1 in
            ground (arith, c.alive, c.held, c.some_child, c.fits, given, z)
        | inr no' ↦
            let given : given_refs u.job ≡ 1 + length u.job.child_tasks + length u.job.child_tasks =
              rw no' refl in
            ground (arith, c.alive, c.held, c.some_child, c.fits, given)
      ],
    )
