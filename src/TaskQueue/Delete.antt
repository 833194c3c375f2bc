-- ===== src/TaskQueue/Delete.antt =====
-- ep's `del_task` under the lock.
use eparallel.Common.{
  ℕ, zero, suc, ℤ, ◌+◌, ◌<◌, ◌≡◌, refl, ◌∙◌, ◌⊎◌, inl, inr, List, [], ◌∷◌, Option, none, some,
  arith, length, get_elem?, set, length-set, pos, Option-cases,
}
use eparallel.Errno.{ep_task_not_in_queue}
use eparallel.TaskQueue.{
  TaskQueue, max_priority_num, remove_entry, erase_op, del_locked, dec32, sem_give,
}
use eparallel.TaskQueue.Erase.{remove_entry-set, remove_entry-missing, erased_total}
use eparallel.TaskQueue.Refine.{view, IsValid}

get_elem?-some :
    (ls : List (List ℕ)) (i : ℕ) → i < length ls → (l : List ℕ) × (get_elem? ls i ≡ some l)
get_elem?-some [] i h = absurd (omega arith)
get_elem?-some (l ∷ ls) zero h = (l, refl)
get_elem?-some (l ∷ ls) (suc i) h = get_elem?-some ls i (omega arith)

-- The outcomes of a delete: the task's entry is gone, or there is none and the semaphore is given
-- back.
abbrev pub Deleted : TaskQueue → ℕ → ℕ → Option (ℤ × TaskQueue) → Type 0
Deleted q op p r =
    ((q' : TaskQueue) × (remove_entry p op (view q) ≡ some (view q'))
      × (r ≡ some (pos 0, q'))
      × IsValid q'
      × (q'.size + 1 ≡ q.size)
      × (q'.semp ≡ q.semp)
      × (q'.stopped ≡ q.stopped))
    ⊎ ((remove_entry p op (view q) ≡ none) × (r ≡ some (ep_task_not_in_queue, sem_give q)))

pub del_locked-Deleted :
    (q : TaskQueue) (op p : ℕ)
    → p < max_priority_num
    → IsValid q
    → Deleted q op p (del_locked q op p)
unfolding del_locked
del_locked-Deleted q op p h v =
    let (l, g) = get_elem?-some q.oplists p (omega (arith, v.lists)) in
    elim (Option-cases (erase_op op l)) [
      | inl n ↦ inr (
        remove_entry-missing q.oplists 0 p p op l (omega arith) g n,
        rw (g, del_locked) (rw (n, del_locked)),
      )
      | inr (r, s) ↦
          let (tot, nn) = erased_total q.oplists p op l r g s in
          let q' : TaskQueue = record q { oplists = set q.oplists p r; size = dec32 q.size } in
          inl (
            q',
            remove_entry-set q.oplists 0 p p op l r (omega arith) g s,
            rw (g, del_locked) (rw (s, del_locked)),
            record {
              lists = length-set q.oplists p r ∙ v.lists;
              counted = omega (arith, v.counted, v.small, tot);
              small = omega (arith, v.counted, v.small, tot);
              nonnull = nn v.nonnull;
            },
            omega (arith, v.counted, v.small, tot),
            refl,
            refl,
          )
    ]
