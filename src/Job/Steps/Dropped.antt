-- ===== src/Job/Steps/Dropped.antt =====
-- A child of an ep `job` that is neither retried nor finished.
use eparallel.Common.{
  ℕ, zero, suc, ◌<◌, ◌≡◌, ◌≢◌, refl, ◌∙◌, Bool, true, false, inl, inr, List, [], ◌∷◌, none, some,
  arith, length, get_elem?, set, ℤ, is_neg, Bool-cases, get_elem?-set_ne, get_elem?-set_self,
  dec_eq,
}
use eparallel.Job.{
  Child, is_running, process_end, retry_child_task, wait_for_all_child_task, dropped,
}
use eparallel.Job.Counts.{alls}
use eparallel.Job.Steps.{
  Phase, queued, busy, lost, World, Step, runs, begins, ends, stops, Reach, here, next, mark,
  OnlyQueued, is_done, count, after,
}
use eparallel.Job.Steps.Inv.{Inv, started, count_done-le}
use eparallel.Job.Steps.Preserve.{Reach-Inv}
use eparallel.Job.Steps.Frame.{Reach-Kept}
use eparallel.Job.Steps.Finish.{
  fresh-Kept, fresh, Small, fresh-Inv, wait_for_all_child_task-exact, done_counts,
}

get_elem?-IsInRange :
    (ps : List Phase) (i : ℕ) {p : Phase} → get_elem? ps i ≡ some p → i < length ps
get_elem?-IsInRange [] i e = cc
get_elem?-IsInRange (x ∷ ps) zero e = omega arith
get_elem?-IsInRange (x ∷ ps) (suc i) e = omega (arith, get_elem?-IsInRange ps i e)

mark-lost :
    (del : ℕ → Bool) (k i : ℕ) (ps : List Phase)
    → OnlyQueued del k ps
    → get_elem? ps i ≡ some lost
    → get_elem? (mark del k ps) i ≡ some lost
mark-lost del k i [] o e = cc
mark-lost del k zero (p ∷ ps) o e = elim (Bool-cases (del k)) [
  | inl hit ↦ let q = o.0 hit in cc
  | inr miss ↦ rw miss e
]
mark-lost del k (suc i) (p ∷ ps) o e = mark-lost del (suc k) i ps o.1 e

set-lost :
    (ps : List Phase) (j i : ℕ) (p q : Phase)
    → get_elem? ps j ≡ some p
    → p ≢ lost
    → get_elem? ps i ≡ some lost
    → get_elem? (set ps j q) i ≡ some lost
set-lost ps j i p q g n e = elim (dec_eq j i) [
  | inl same ↦ absurd (n (let h = rw same at g in cc))
  | inr other ↦ get_elem?-set_ne ps q other ∙ e
]

Step-lost :
    {w u : World} (i : ℕ)
    → Inv w
    → Step w u
    → get_elem? w.phases i ≡ some lost
    → get_elem? u.phases i ≡ some lost
Step-lost {w} i v (runs s e) l = let no' = started w i lost (λ p. cc) l v in cc
Step-lost {w} i v (begins j g e) l = rw e (set-lost w.phases j i queued _ g (λ p. cc) l)
Step-lost {w} i v (ends j ret g e) l = rw e (set-lost w.phases j i busy _ g (λ p. cc) l)
Step-lost {w} i v (stops del o e) l = rw e (elim (Bool-cases (is_running w.job.status)) [
  | inl go ↦ rw go (mark-lost del 0 i w.phases o l)
  | inr idle' ↦ rw idle' l
])

pub Reach-lost :
    {w u : World} (i : ℕ)
    → Inv w
    → Reach w u
    → get_elem? w.phases i ≡ some lost
    → get_elem? u.phases i ≡ some lost
Reach-lost i v here l = l
Reach-lost i v (next r s) l = Step-lost i (Reach-Inv v r) s (Reach-lost i v r l)

lost-count : (ps : List Phase) (i : ℕ) → get_elem? ps i ≡ some lost → count is_done ps < length ps
lost-count [] i e = cc
lost-count (p ∷ ps) zero e =
    let q : p ≡ lost = ground (arith, e) in rw q (omega (arith, count_done-le ps))
lost-count (p ∷ ps) (suc i) e = omega (arith, count_done-le (p ∷ []), lost-count ps i e)

Reach-trans : {w u v : World} → Reach w u → Reach u v → Reach w v
Reach-trans r here = r
Reach-trans r (next q s) = next (Reach-trans r q) s

-- What follows for the job.
lost-Hangs :
    (co ad : Bool) (cs : List Child) (i : ℕ) {v : World}
    → Small cs
    → Reach (fresh co ad cs) v
    → get_elem? v.phases i ≡ some lost
    → (wait_for_all_child_task v.job ≡ none) × (alls v.job.calls ≡ 0)
lost-Hangs co ad cs i {v} s r l =
    let inv = Reach-Inv (fresh-Inv co ad cs s) r in
    let go = started v i lost (λ p. cc) l inv in
    let few = lost-count v.phases i l in
    let sz = inv.sized ∙ (Reach-Kept r).kept_length ∙ (fresh-Kept co ad cs s).1 in
    let ne : count is_done v.phases ≢ length cs = λ e. omega (arith, few, e, sz) in
    (
      (wait_for_all_child_task-exact co ad cs s r go).1 ne,
      (done_counts co ad cs s r).2 ∙ ground (arith, ne),
    )

-- A child with retries left that fails in its own `process` when the job is not running any more
-- is handed to nobody: from then on, whatever happens, its job is never told that all is finished
-- and `wait_for_all_child_task`, with which the job's destructor begins, never returns.
pub dropped_child_hangs :
    (co ad : Bool) (cs : List Child) (i : ℕ) (c : Child) (ret : ℤ) {u v : World}
    → Small cs
    → Reach (fresh co ad cs) u
    → get_elem? u.phases i ≡ some busy
    → get_elem? u.job.child_tasks i ≡ some c
    → c.retry_times < c.max_retry_times
    → is_neg ret ≡ true
    → is_running u.job.status ≡ false
    → Reach
        (record {
          job = (process_end u.job i ret).1;
          phases = set u.phases i (after (process_end u.job i ret).0);
        })
        v
    → (wait_for_all_child_task v.job ≡ none) × (alls v.job.calls ≡ 0)
unfolding process_end retry_child_task
dropped_child_hangs co ad cs i c ret {u} {v} s r g k more bad off rest =
    let st : Step u _ = ends i ret g refl in
    let all = Reach-trans (next r st) rest in
    let out : (process_end u.job i ret).0 ≡ dropped = ground (arith, k, more, bad, off) in
    let gone : get_elem? (set u.phases i (after (process_end u.job i ret).0)) i ≡ some lost =
      rw out (get_elem?-set_self u.phases i lost (get_elem?-IsInRange u.phases i g)) in
    let inv = Reach-Inv (fresh-Inv co ad cs s) (next r st) in
    lost-Hangs co ad cs i s all (Reach-lost i inv rest gone)
