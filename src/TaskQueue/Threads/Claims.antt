-- ===== src/TaskQueue/Threads/Claims.antt =====
-- What a claim on ep's `task_queue` is worth: the thread that holds one finds a task.
use eparallel.Common.{
  ℕ, ◌+◌, ◌<◌, ◌≡◌, ◌↔◌, refl, ap, sym, ◌∙◌, inl, inr, ◌∷◌, none, some, arith, length, get_elem?,
  set, ℤ,
}
use eparallel.Errno.{ep_task_not_in_queue}
use eparallel.TaskQueue.{
  TaskQueue, sem_value_max, sem_try_take, sem_give, add_task, get_locked, del_locked, del_task,
  stop,
}
use eparallel.TaskQueue.Buckets.{length-entries}
use eparallel.TaskQueue.Refine.{
  view, add_task-added, added-IsValid, get_locked-Taken, get_locked-IsValid,
}
use eparallel.TaskQueue.Delete.{del_locked-Deleted}
use eparallel.TaskQueue.Threads.{
  Pc, idle, getting, deleting, System, Step, adds, claims_get, gets, claims_del, dels, stops, Reach,
  here, next, holders, held, holders-set, AllInRange-set, get_elem?-IsInRange, Inv, claim-Inv,
  add_task-cases,
}

-- A thread that holds a claim finds the queue not empty.
pub claim_backed :
    (s : System) (i : ℕ) (a : Pc)
    → get_elem? s.threads i ≡ some a
    → held a ≡ 1
    → Inv s
    → 0 < s.queue.size
claim_backed s i a g h v = omega (arith, holders-set s.threads i a idle g, v.balance)

adds-Inv :
    (s : System) (t p : ℕ)
    → 0 < t
    → s.queue.size < sem_value_max
    → Inv s
    → Inv (record s { queue = (add_task s.queue t p).1 })
adds-Inv s t p n b v = elim (add_task-cases s.queue t p) [
  | inl (h, o) ↦ rw (add_task-added s.queue t p h o b (omega (arith, v.balance))) (record {
    valid = added-IsValid s.queue t p h b n v.valid;
    balance = omega (arith, v.balance);
    ranges = v.ranges;
  })
  | inr e ↦ rw e (record { valid = v.valid; balance = v.balance; ranges = v.ranges })
]

-- A claim of `get_task` is worth the first entry of the queue.
pub gets_first :
    (s : System) (i : ℕ)
    → get_elem? s.threads i ≡ some getting
    → Inv s
    → (k : ℕ) × (view s.queue ≡ (k, (get_locked s.queue).0) ∷ view (get_locked s.queue).1)
      × (0 < (get_locked s.queue).0)
      × ((get_locked s.queue).1.size + 1 ≡ s.queue.size)
      × ((get_locked s.queue).1.semp ≡ s.queue.semp)
gets_first s i g v =
    let b = claim_backed s i getting g refl v in
    elim (get_locked-Taken s.queue v.valid) [
      | inl (e, _) ↦
          absurd (omega (arith, ap length e, length-entries s.queue.oplists 0, v.valid.counted))
      | inr (k, ls, vw, nz, len, tot, nn, e) ↦ (
        k,
        vw ∙ ap (λ q. (k, (get_locked s.queue).0) ∷ view q) (sym e),
        nz,
        rw e (omega (arith, v.valid.small)),
        rw e refl,
      )
    ]

gets-Inv :
    (s : System) (i : ℕ)
    → get_elem? s.threads i ≡ some getting
    → Inv s
    → Inv (record { queue = (get_locked s.queue).1; threads = set s.threads i idle })
gets-Inv s i g v =
    let (k, vw, nz, sz, sm) = gets_first s i g v in
    record {
      valid = get_locked-IsValid s.queue v.valid;
      balance = omega (arith, holders-set s.threads i getting idle g, v.balance, sz, sm);
      ranges = AllInRange-set s.threads i idle tt v.ranges;
    }

give-semp : (q : TaskQueue) → q.semp < sem_value_max → sem_give q ≡ record q { semp = q.semp + 1 }
unfolding sem_give
give-semp q h = ground arith

dels-Inv :
    (s : System) (i t p : ℕ) (c : ℤ) (q : TaskQueue)
    → get_elem? s.threads i ≡ some (deleting t p)
    → del_locked s.queue t p ≡ some (c, q)
    → Inv s
    → Inv (record { queue = q; threads = set s.threads i idle })
dels-Inv s i t p c q g e v =
    let h = holders-set s.threads i (deleting t p) idle g in
    let r = get_elem?-IsInRange s.threads i (deleting t p) g v.ranges in
    elim (del_locked-Deleted s.queue t p r v.valid) [
      | inl (q', gone, e', v', sz, sm, st) ↦
          let same : q ≡ q' = cc in
          rw same (record {
            valid = v';
            balance = omega (arith, h, v.balance);
            ranges = AllInRange-set s.threads i idle tt v.ranges;
          })
      | inr (gone, e') ↦
          let same : q ≡ record s.queue { semp = s.queue.semp + 1 } =
            cc (give-semp s.queue (omega (arith, h, v.balance, v.valid.small))) in
          rw same (record {
            valid = record {
              lists = v.valid.lists;
              counted = v.valid.counted;
              small = v.valid.small;
              nonnull = v.valid.nonnull;
            };
            balance = omega (arith, h, v.balance);
            ranges = AllInRange-set s.threads i idle tt v.ranges;
          })
    ]

-- Every step of every thread keeps the balance of semaphore, claims and tasks.
pub Step-Inv : {s u : System} → Step s u → Inv s → Inv u
Step-Inv {s} (adds t p n b e) v = rw e (adds-Inv s t p n b v)
Step-Inv {s} (claims_get i q g e' e) v = rw e (claim-Inv s i getting q refl tt g e' v)
Step-Inv {s} (gets i g e) v = rw e (gets-Inv s i g v)
Step-Inv {s} (claims_del i t p q r g e' e) v = rw e (claim-Inv s i (deleting t p) q refl r g e' v)
Step-Inv {s} (dels i t p c q g e' e) v = rw e (dels-Inv s i t p c q g e' v)
Step-Inv {s} (stops e) v = rw e (
    unfold stop in
    record {
      valid = record {
        lists = v.valid.lists;
        counted = v.valid.counted;
        small = v.valid.small;
        nonnull = v.valid.nonnull;
      };
      balance = v.balance;
      ranges = v.ranges;
    })

pub Reach-Inv : {s u : System} → Inv s → Reach s u → Inv u
Reach-Inv v here = v
Reach-Inv v (next r st) = Step-Inv st (Reach-Inv v r)

-- In every reachable state, whatever the other threads did in between, a thread of `get_task`
-- that has passed the semaphore takes a task that is not NULL: the first entry of the queue,
-- which the others keep.
pub get_task_never_null :
    (s u : System) (i : ℕ)
    → Inv s
    → Reach s u
    → get_elem? u.threads i ≡ some getting
    → (k : ℕ) × (view u.queue ≡ (k, (get_locked u.queue).0) ∷ view (get_locked u.queue).1)
      × (0 < (get_locked u.queue).0)
get_task_never_null s u i v r g =
    let (k, vw, nz, sz, sm) = gets_first u i g (Reach-Inv v r) in (k, vw, nz)

sem_try_take-none_iff : (q : TaskQueue) → (sem_try_take q ≡ none) ↔ (q.semp ≡ 0)
unfolding sem_try_take
sem_try_take-none_iff q = (λ e. ground arith, λ e. ground arith)

-- In every reachable state the semaphore of `del_task` refuses exactly when each task in the queue
-- is already claimed by some thread; then `del_task` answers EP_TASK_NOT_IN_QUEUE for every task,
-- the queued ones too.
pub del_task_refused :
    (s u : System) (t p : ℕ)
    → Inv s
    → Reach s u
    → ((sem_try_take u.queue ≡ none) ↔ (holders u.threads ≡ length (view u.queue)))
      × (holders u.threads ≡ length (view u.queue)
          → del_task u.queue t p ≡ some (ep_task_not_in_queue, u.queue))
unfolding del_task
del_task_refused s u t p v r =
    let w = Reach-Inv v r in
    let n = length-entries u.queue.oplists 0 in
    let i = sem_try_take-none_iff u.queue in
    (
      (
        λ e. omega (arith, i.0 e, n, w.valid.counted, w.balance),
        λ e. i.1 (omega (arith, n, w.valid.counted, w.balance)),
      ),
      λ e. rw (i.1 (omega (arith, n, w.valid.counted, w.balance)), del_task) refl,
    )
