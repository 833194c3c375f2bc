-- ===== src/TaskQueue/Run.antt =====
-- ep's `task_queue` under one client at a time: every call answers as the contract says.
use eparallel.Common.{
  none, sym, ℕ, ◌+◌, ◌-◌, ◌≤◌, ◌<◌, ◌≡◌, refl, ap, ◌∙◌, inl, inr, List, [], ◌∷◌, some, arith,
  length, pos, Bool-cases, dec_eq, leb, ℤ, ◌≢◌,
}
use eparallel.TaskQueue.{
  remove_entry, TaskQueue, Entry, max_priority_num, sem_value_max, Op, add, take, del, shut, Reply,
  code, got, Contract, contract_step, contract_run, sem_give, get_locked, del_locked, stop, step,
  run,
}
use eparallel.Errno.{fail, ep_invalid_task_priority, ep_task_not_in_queue}
use eparallel.TaskQueue.Buckets.{length-entries}
use eparallel.TaskQueue.Refine.{
  view, IsValid, added, add_task-added, added-IsValid, view-added, get_locked-Taken,
  get_locked-IsValid,
}
use eparallel.TaskQueue.Delete.{del_locked-Deleted}

-- With no thread between its semaphore and its lock the count is the number of tasks.
abbrev pub Balanced : TaskQueue → Type 0
Balanced q = q.semp ≡ q.size

abbrev pub contract : TaskQueue → Contract
contract q = record { waiting = view q; closed = q.stopped }

-- What the queue asks of its callers: no NULL task, and a priority in range for a delete.
abbrev pub IsFit : Op → Type 0
IsFit (add t p) = 0 < t
IsFit take = Unit {0}
IsFit (del t p) = p < max_priority_num
IsFit shut = Unit {0}

abbrev pub AllFit : List Op → Type 0
AllFit [] = Unit {0}
AllFit (o ∷ os) = IsFit o × AllFit os

-- What one call must do to a valid queue.
record Refines (q : TaskQueue) (o : Op) : Type 0 where
  valid : IsValid (step q o).1
  balanced : Balanced (step q o).1
  grows : (step q o).1.size ≤ q.size + 1
  same : ((step q o).0, contract (step q o).1) ≡ contract_step (contract q) o

step-eq-Refines :
    (q : TaskQueue) (o : Op) (r : Reply) (q' : TaskQueue)
    → step q o ≡ (r, q')
    → IsValid q'
    → Balanced q'
    → q'.size ≤ q.size + 1
    → (r, contract q') ≡ contract_step (contract q) o
    → Refines q o
step-eq-Refines q o r q' e v b g c = record {
  valid = rw e v;
  balanced = rw e b;
  grows = rw e g;
  same = rw e c;
}

add-Refines :
    (q : TaskQueue) (t p : ℕ)
    → IsValid q
    → Balanced q
    → q.size < sem_value_max
    → 0 < t
    → Refines q (add t p)
unfolding step contract_step
add-Refines q t p v b s n = elim (Bool-cases (leb max_priority_num p)) [
  | inl far ↦
      step-eq-Refines q (add t p) (code ep_invalid_task_priority) q (ground arith) v b (omega arith)
        (ground arith)
  | inr near ↦ elim (Bool-cases q.stopped) [
    | inl closed ↦
        step-eq-Refines q (add t p) (code fail) q (ground arith) v b (omega arith) (ground arith)
    | inr opened ↦
        let h : p < max_priority_num = ground arith in
        step-eq-Refines q (add t p) (code (pos 0)) (added q t p)
          (ground (arith, add_task-added q t p h opened s (omega arith)))
          (added-IsValid q t p h s n v) (omega arith) (omega arith)
          (ground (arith, view-added q t p h v))
  ]
]

pub no_entries : (q : TaskQueue) → IsValid q → q.size ≡ 0 → view q ≡ []
no_entries q v e = ground (arith, length-entries q.oplists 0, v.counted, length-zero (view q))
  where
    length-zero : (l : List Entry) → length l ≡ 0 → l ≡ []
    length-zero [] h = refl
    length-zero (x ∷ l) h = absurd (omega arith)

-- The queue between the semaphore and the lock.
abbrev pub claimed : TaskQueue → TaskQueue
claimed q = record q { semp = q.semp - 1 }

pub claimed-IsValid : (q : TaskQueue) → IsValid q → IsValid (claimed q)
claimed-IsValid q v = record {
  lists = v.lists;
  counted = v.counted;
  small = v.small;
  nonnull = v.nonnull;
}

step-take :
    (q : TaskQueue)
    → q.semp ≢ 0
    → step q take ≡ (got (get_locked (claimed q)).0, (get_locked (claimed q)).1)
unfolding step
step-take q n = ground arith

take-Refines : (q : TaskQueue) → IsValid q → Balanced q → Refines q take
unfolding step contract_step
take-Refines q v b = elim (dec_eq q.semp 0) [
  | inl z ↦
      let e = no_entries q v (omega arith) in
      step-eq-Refines q take (got 0) q (ground arith) v b (omega arith) (rw e refl)
  | inr nz ↦
      let v' = claimed-IsValid q v in
      elim (get_locked-Taken (claimed q) v') [
        | inl (e, _) ↦ absurd (omega (arith, ap length e, length-entries q.oplists 0, v.counted))
        | inr (k, ls, vw, nonnull, len, tot, nn, e) ↦
            step-eq-Refines q take (got (get_locked (claimed q)).0) (get_locked (claimed q)).1
              (step-take q nz) (get_locked-IsValid (claimed q) v')
              (rw e (omega (arith, v.small, v.counted))) (rw e (omega (arith, v.small, v.counted)))
              (rw e (rw vw refl))
      ]
]

step-del :
    (q : TaskQueue) (t p : ℕ) (c : ℤ) (q' : TaskQueue)
    → q.semp ≢ 0
    → del_locked (claimed q) t p ≡ some (c, q')
    → step q (del t p) ≡ (code c, q')
unfolding step
step-del q t p c q' n e = ground arith

give-claimed : (q : TaskQueue) → q.semp ≢ 0 → q.semp ≤ sem_value_max → sem_give (claimed q) ≡ q
unfolding sem_give
give-claimed q n s = ground arith

contract-del-some :
    (q : TaskQueue) (t p : ℕ) (w : List Entry)
    → remove_entry p t (view q) ≡ some w
    → contract_step (contract q) (del t p)
      ≡ (code (pos 0), record { waiting = w; closed = q.stopped })
unfolding contract_step
contract-del-some q t p w e = ground arith

contract-del-none :
    (q : TaskQueue) (t p : ℕ)
    → remove_entry p t (view q) ≡ none
    → contract_step (contract q) (del t p) ≡ (code ep_task_not_in_queue, contract q)
unfolding contract_step
contract-del-none q t p e = ground arith

del-Refines :
    (q : TaskQueue) (t p : ℕ) → IsValid q → Balanced q → p < max_priority_num → Refines q (del t p)
unfolding contract_step
del-Refines q t p v b h = elim (dec_eq q.semp 0) [
  | inl z ↦
      let e = no_entries q v (omega arith) in
      step-eq-Refines q (del t p) (code ep_task_not_in_queue) q (unfold step in ground arith) v b
        (omega arith) (rw e refl)
  | inr nz ↦ elim (del_locked-Deleted (claimed q) t p h (claimed-IsValid q v)) [
    | inl (q', gone, e, v', sz, sm, st) ↦
        step-eq-Refines q (del t p) (code (pos 0)) q' (step-del q t p (pos 0) q' nz e) v'
          (omega arith) (omega arith)
          (sym (
            contract-del-some q t p (view q') gone
            ∙ ap (λ c. (code (pos 0), record { waiting = view q'; closed = c })) (sym st)))
    | inr (gone, e) ↦
        step-eq-Refines q (del t p) (code ep_task_not_in_queue) q
          (step-del q t p ep_task_not_in_queue q nz
            (e ∙ ap (λ k. some (ep_task_not_in_queue, k)) (give-claimed q nz (omega arith))))
          v b (omega arith) (sym (contract-del-none q t p gone))
  ]
]

step-Refines :
    (q : TaskQueue) (o : Op)
    → IsValid q
    → Balanced q
    → q.size < sem_value_max
    → IsFit o
    → Refines q o
step-Refines q (add t p) v b s f = add-Refines q t p v b s f
step-Refines q take v b s f = take-Refines q v b
step-Refines q (del t p) v b s f = del-Refines q t p v b f
step-Refines q shut v b s f =
    step-eq-Refines q shut (code (pos 0)) (stop q) (unfold step in refl)
      (unfold stop in ground arith) (unfold stop in b) (unfold stop in omega arith)
      (unfold stop contract_step in refl)

-- Any sequence of calls on a valid queue, one client at a time, gets the answers of the contract:
-- the most urgent priority first, first come first served within one, a delete of exactly the
-- first entry with that task and priority, nothing accepted after `stop`.
pub run_refines :
    (os : List Op) (q : TaskQueue)
    → IsValid q
    → Balanced q
    → q.size + length os ≤ sem_value_max
    → AllFit os
    → run q os ≡ contract_run (contract q) os
unfolding run contract_run
run_refines [] q v b s f = refl
run_refines (o ∷ os) q v b s f =
    let r = step-Refines q o v b (omega arith) f.0 in
    let ih = run_refines os (step q o).1 r.valid r.balanced (omega (arith, r.grows)) f.1 in
    rw (← r.same) (ap (◌∷◌ (step q o).0) ih)
