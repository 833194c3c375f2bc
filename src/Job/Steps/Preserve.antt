-- ===== src/Job/Steps/Preserve.antt =====
-- Each step of an ep `job` keeps its counters right.
use eparallel.Common.{
  ℕ, suc, ◌+◌, ◌≤◌, ◌<◌, ◌≡◌, ◌^◌, refl, ap, sym, ◌∙◌, inl, inr, Bool, true, false, List, [], ◌∷◌,
  some, arith, length, get_elem?, set, ℤ, if◌then◌else◌, Bool-cases, Option-cases, is_neg, ltb,
}
use eparallel.Job.{
  failed, finished, Status, running, cancelled, is_init, is_running, dispatch_child_task,
  process_begin, process_end, stop, stop_loop, handle_all, retry_child_task,
}
use eparallel.Job.Counts.{
  Counts-Quiet, set_status-Quiet, count_retry-Quiet, stop_loop-Quiet, Counts-status, Quiet-refl,
  run-Counts, handle_all-Counts, dels,
}
use eparallel.Job.Steps.{
  Phase, queued, busy, lost, World, Step, runs, begins, ends, stops, Reach, here, next, all_queued,
  begun, after, mark, OnlyQueued, is_done, count,
}
use eparallel.Job.Steps.Inv.{
  Inv, AllIdle, given_refs, given_refs-Same, count_done-le, started, stay-Inv, done-Inv,
}

count-mark :
    (del : ℕ → Bool) (k : ℕ) (ps : List Phase)
    → OnlyQueued del k ps
    → count is_done (mark del k ps) ≡ count is_done ps + dels del (length ps) k
count-mark del k [] o = refl
count-mark del k (p ∷ ps) o = ground (arith, o.0, count-mark del (suc k) ps o.1)

length-mark : (del : ℕ → Bool) (k : ℕ) (ps : List Phase) → length (mark del k ps) ≡ length ps
length-mark del k [] = refl
length-mark del k (p ∷ ps) = ap suc (length-mark del (suc k) ps)

begins-Inv :
    (w : World) (i : ℕ)
    → get_elem? w.phases i ≡ some queued
    → Inv w
    → Inv (record {
      job = (process_begin w.job i).1;
      phases = set w.phases i (begun (process_begin w.job i).0);
    })
unfolding process_begin
begins-Inv w i g v = elim (Bool-cases (is_running w.job.status)) [
  | inl go ↦
      rw (go, process_begin)
        (stay-Inv w i queued busy _ refl refl g (started w i queued (λ e. cc) g v)
          (set_status-Quiet w.job i running) v)
  | inr no' ↦
      rw (no', process_begin)
        (done-Inv w i queued _ refl g (started w i queued (λ e. cc) g v)
          (set_status-Quiet w.job i cancelled) v)
]

ends-Inv :
    (w : World) (i : ℕ) (ret : ℤ)
    → get_elem? w.phases i ≡ some busy
    → Inv w
    → Inv (record {
      job = (process_end w.job i ret).1;
      phases = set w.phases i (after (process_end w.job i ret).0);
    })
unfolding process_end
ends-Inv w i ret g v =
    let s = started w i busy (λ e. cc) g v in
    let q = λ (st : Status). set_status-Quiet w.job i st in
    elim (Option-cases (get_elem? w.job.child_tasks i)) [
      | inl n ↦
          rw (n, process_end) (stay-Inv w i busy lost w.job refl refl g s (Quiet-refl w.job) v)
      | inr (c, e) ↦ elim (Bool-cases (is_neg ret)) [
        | inr ok ↦
            rw (e, process_end) (rw (ok, process_end) (done-Inv w i busy _ refl g s (q finished) v))
        | inl bad ↦ elim (Bool-cases (ltb c.retry_times c.max_retry_times)) [
          | inr out ↦
              rw (e, process_end)
                (rw (bad, process_end)
                  (rw (out, process_end) (done-Inv w i busy _ refl g s (q failed) v)))
          | inl more ↦ elim (Bool-cases (is_neg (retry_child_task w.job))) [
            | inl no' ↦
                rw (e, process_end)
                  (rw (bad, process_end)
                    (rw (more, process_end)
                      (rw (no', process_end)
                        (stay-Inv w i busy lost w.job refl refl g s (Quiet-refl w.job) v))))
            | inr yes' ↦
                rw (e, process_end)
                  (rw (bad, process_end)
                    (rw (more, process_end)
                      (rw (yes', process_end)
                        (stay-Inv w i busy queued _ refl refl g s (count_retry-Quiet w.job i c)
                          v))))
          ]
        ]
      ]
    ]

running-not_init : (st : Status) → is_running st ≡ true → is_init st ≡ false
running-not_init st e = ground arith

-- `stop` on a running job: the children that were taken out of the queue are handled as finished.
stop_running-Inv :
    (w : World) (del : ℕ → Bool)
    → is_running w.job.status ≡ true
    → OnlyQueued del 0 w.phases
    → Inv w
    → let loop = stop_loop cancelled del w.job.callbacks 0 (record w.job { status = cancelled }) in
      Inv (record { job = handle_all loop.0 loop.1; phases = mark del 0 w.phases })
stop_running-Inv w del go o v =
    let j0 = record w.job { status = cancelled } in
    let loop = stop_loop cancelled del w.job.callbacks 0 j0 in
    let (q, n) = stop_loop-Quiet cancelled del w.job.callbacks 0 j0 in
    let l = v.launched (running-not_init w.job.status go) in
    let d = count is_done w.phases in
    let same : w.job.callbacks ≡ length w.phases = l ∙ sym v.sized in
    let taken : length loop.0 ≡ dels del (length w.phases) 0 = n ∙ ap (λ m. dels del m 0) same in
    let m : count is_done (mark del 0 w.phases) ≡ d + length loop.0 =
      omega (arith, count-mark del 0 w.phases o, taken) in
    let len = length-mark del 0 w.phases in
    let room : d + length loop.0 ≤ length loop.1.child_tasks =
      omega (arith, m, count_done-le (mark del 0 w.phases), len, v.sized, q.frame.same_length) in
    let (c, f) =
      handle_all-Counts loop.0 loop.1 d (given_refs w.job) room
        (Counts-Quiet j0 loop.1 d _ q (Counts-status w.job cancelled d _ v.counts)) in
    let same_length = f.same_length ∙ q.frame.same_length in
    let given =
      given_refs-Same w.job (handle_all loop.0 loop.1)
        (rw (f.same_status, q.frame.same_status, running-not_init w.job.status go) refl)
        same_length in
    record {
      sized = len ∙ v.sized ∙ sym q.frame.same_length ∙ sym f.same_length;
      counts = rw (m, given) c;
      roomy = rw same_length v.roomy;
      before = λ e.
          let z : is_init (handle_all loop.0 loop.1).status ≡ false =
            rw (f.same_status, q.frame.same_status) refl in
          cc;
      launched = λ e.
          f.same_callbacks
          ∙ q.frame.same_callbacks
          ∙ l
          ∙ sym q.frame.same_length
          ∙ sym f.same_length;
    }

stops-Inv :
    (w : World) (del : ℕ → Bool)
    → OnlyQueued del 0 w.phases
    → Inv w
    → Inv (record {
      job = stop w.job cancelled del;
      phases = if is_running w.job.status then mark del 0 w.phases else w.phases;
    })
unfolding stop
stops-Inv w del o v = elim (Bool-cases (is_running w.job.status)) [
  | inr idle' ↦ rw (idle', stop) v
  | inl go ↦ rw (go, stop) (stop_running-Inv w del go o v)
]

length-all_queued : (ps : List Phase) → length (all_queued ps) ≡ length ps
length-all_queued [] = refl
length-all_queued (p ∷ ps) = ap suc (length-all_queued ps)

count-all_queued : (ps : List Phase) → count is_done (all_queued ps) ≡ 0
count-all_queued [] = refl
count-all_queued (p ∷ ps) = omega (arith, count-all_queued ps)

pub count-AllIdle : (ps : List Phase) → AllIdle ps → count is_done ps ≡ 0
count-AllIdle [] a = refl
count-AllIdle (p ∷ ps) a = rw (a.0) (omega (arith, count-AllIdle ps a.1))

runs-Inv :
    (w : World)
    → is_init w.job.status ≡ true
    → Inv w
    → Inv (record { job = (dispatch_child_task w.job).1; phases = all_queued w.phases })
runs-Inv w s v =
    let b = v.before s in
    let none_done = count-AllIdle w.phases b.1 in
    let n = length w.job.child_tasks in
    let given : given_refs w.job ≡ 1 + n = rw s refl in
    let room : 1 + n + n < 2 ^ 32 = v.roomy in
    let r =
      run-Counts w.job 0 (1 + n) s b.0 v.counts.some_child room
        (rw given at (rw none_done at v.counts)) in
    let given' : given_refs (dispatch_child_task w.job).1 ≡ 1 + n + n = rw (r.1, r.3) refl in
    record {
      sized = length-all_queued w.phases ∙ v.sized ∙ ap length (sym r.3);
      counts = rw (count-all_queued w.phases, given') r.0;
      roomy = rw r.3 room;
      before = λ e. let n = r.1 in cc;
      launched = λ e. r.2;
    }

-- Every step keeps the counters of the job in agreement with what has become of its children.
pub Step-Inv : {w u : World} → Step w u → Inv w → Inv u
Step-Inv {w} (runs s e) v = rw e (runs-Inv w s v)
Step-Inv {w} (begins i g e) v = rw e (begins-Inv w i g v)
Step-Inv {w} (ends i ret g e) v = rw e (ends-Inv w i ret g v)
Step-Inv {w} (stops del o e) v = rw e (stops-Inv w del o v)

pub Reach-Inv : {w u : World} → Inv w → Reach w u → Inv u
Reach-Inv v here = v
Reach-Inv v (next r st) = Step-Inv st (Reach-Inv v r)
