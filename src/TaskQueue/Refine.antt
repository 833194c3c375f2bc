-- ===== src/TaskQueue/Refine.antt =====
-- ep's `task_queue` against its contract: what each operation does to the list of entries.
use mathlib.Core.List.{append_assoc}
use eparallel.Common.{
  ℕ, zero, suc, ◌+◌, ◌≤◌, ◌<◌, ◌≡◌, refl, ap, sym, ◌∙◌, ◌⊎◌, inl, inr, false, List, [], ◌∷◌, ◌++◌,
  arith, length, get_or, set, length-set, pos, length-append,
}
use eparallel.TaskQueue.Buckets.{
  entries, total, NoNulls, AllEmpty, AllEmpty-snoc, entries-set_append, total-set_append,
  NoNulls-set_append, entries-AllEmpty, get_or-append, set-append, total-append,
}
use eparallel.TaskQueue.{
  TaskQueue, Entry, enqueue, max_priority_num, sem_value_max, new_queue, add_task,
  get_task_by_priority, scan, get_locked, dec32, inc32,
}

-- The entries of the queue, first to leave first.
abbrev pub view : TaskQueue → List Entry
view q = entries 0 q.oplists

-- Well-formedness: 32 lists with no NULL in them, and `m_size` is their number of tasks.
pub record IsValid (q : TaskQueue) : Type 0 where
  pub lists : length q.oplists ≡ max_priority_num
  pub counted : q.size ≡ total q.oplists
  pub small : q.size ≤ sem_value_max
  pub nonnull : NoNulls q.oplists

pub new_queue-IsValid : IsValid new_queue
unfolding new_queue
new_queue-IsValid = record {
  lists = refl;
  counted = refl;
  small = omega arith;
  nonnull = omega arith;
}

-- What `add_task` does when it accepts.
abbrev pub added : TaskQueue → ℕ → ℕ → TaskQueue
added q op p = record q {
  oplists = set q.oplists p (get_or q.oplists p [] ++ (op ∷ []));
  semp = q.semp + 1;
  size = q.size + 1;
  total_task_cnt = inc32 q.total_task_cnt;
}

pub add_task-added :
    (q : TaskQueue) (op p : ℕ)
    → p < max_priority_num
    → q.stopped ≡ false
    → q.size < sem_value_max
    → q.semp ≤ q.size
    → add_task q op p ≡ (pos 0, added q op p)
unfolding add_task
add_task-added q op p h s b c = ground arith

pub added-IsValid :
    (q : TaskQueue) (op p : ℕ)
    → p < max_priority_num
    → q.size < sem_value_max
    → 0 < op
    → IsValid q
    → IsValid (added q op p)
added-IsValid q op p h b n v = record {
  lists = length-set q.oplists p _ ∙ v.lists;
  counted = omega (arith, v.counted, total-set_append q.oplists p op (omega (arith, v.lists)));
  small = omega arith;
  nonnull = NoNulls-set_append q.oplists p op n v.nonnull;
}

pub view-added :
    (q : TaskQueue) (op p : ℕ)
    → p < max_priority_num
    → IsValid q
    → view (added q op p) ≡ enqueue p op (view q)
view-added q op p h v = entries-set_append q.oplists 0 p p op (omega arith) (omega (arith, v.lists))

gtp-empty : (q : TaskQueue) (p : ℕ) → get_or q.oplists p [] ≡ [] → get_task_by_priority q p ≡ (0, q)
unfolding get_task_by_priority
gtp-empty q p e = rw e

gtp-cons :
    (q : TaskQueue) (p x : ℕ) (l : List ℕ)
    → get_or q.oplists p [] ≡ x ∷ l
    → get_task_by_priority q p ≡ (x, record q { oplists = set q.oplists p l; size = dec32 q.size })
unfolding get_task_by_priority
gtp-cons q p x l e = rw e

scan-empty :
    (n p : ℕ) (q : TaskQueue) → get_or q.oplists p [] ≡ [] → scan (suc n) p q ≡ scan n (p + 1) q
unfolding scan
scan-empty n p q e = rw (gtp-empty q p e, scan) (ap (λ r. scan n (p + 1) r.1) (gtp-empty q p e))

scan-cons :
    (n p : ℕ) (q : TaskQueue) (x : ℕ) (l : List ℕ)
    → get_or q.oplists p [] ≡ x ∷ l
    → 0 < x
    → scan (suc n) p q ≡ (x, record q { oplists = set q.oplists p l; size = dec32 q.size })
unfolding scan
scan-cons n p q x l e h = ground (arith, gtp-cons q p x l e)

-- The outcomes of a look through the lists: nothing there, or the first entry is taken.
abbrev pub Taken : TaskQueue → ℕ × TaskQueue → Type 0
Taken q r =
    ((view q ≡ []) × (r ≡ (0, q)))
    ⊎ ((k : ℕ) × (ls : List (List ℕ)) × (view q ≡ (k, r.0) ∷ entries 0 ls)
        × (0 < r.0)
        × (length ls ≡ length q.oplists)
        × (total q.oplists ≡ suc (total ls))
        × NoNulls ls
        × (r.1 ≡ record q { oplists = ls; size = dec32 q.size }))

NoNulls-pop :
    (pre : List (List ℕ)) (x : ℕ) (l : List ℕ) (post : List (List ℕ))
    → NoNulls (pre ++ ((x ∷ l) ∷ post))
    → (0 < x) × NoNulls (pre ++ (l ∷ post))
NoNulls-pop [] x l post n = (n.0.0, (n.0.1, n.1))
NoNulls-pop (m ∷ pre) x l post n = let r = NoNulls-pop pre x l post n.1 in (r.0, (n.0, r.1))

scan-Taken :
    (n p : ℕ) (pre post : List (List ℕ)) (q : TaskQueue)
    → q.oplists ≡ pre ++ post
    → p ≡ length pre
    → n ≡ length post
    → AllEmpty pre
    → NoNulls q.oplists
    → Taken q (scan n p q)
scan-Taken zero p pre [] q e ep en a h =
    inl (rw e (entries-AllEmpty pre [] 0 a), unfold scan in refl)
scan-Taken zero p pre (l ∷ post) q e ep en a h = absurd (omega arith)
scan-Taken (suc n) p pre [] q e ep en a h = absurd (omega arith)
scan-Taken (suc n) p pre ([] ∷ post) q e ep en a h =
    rw (scan-empty n p q (rw (e, ep) (get_or-append pre [] post))) (
      scan-Taken n (p + 1) (pre ++ ([] ∷ [])) post q (e ∙ sym (append_assoc pre ([] ∷ []) post))
        (omega (arith, length-append pre ([] ∷ []))) (omega arith) (AllEmpty-snoc pre a) h)
scan-Taken (suc n) p pre ((x ∷ l) ∷ post) q e ep en a h =
    let good = NoNulls-pop pre x l post (rw e at h) in
    rw (scan-cons n p q x l (rw (e, ep) (get_or-append pre (x ∷ l) post)) good.0) (
      inr (
        0 + length pre,
        pre ++ (l ∷ post),
        rw e (
            entries-AllEmpty pre ((x ∷ l) ∷ post) 0 a
            ∙ ap (◌∷◌ (0 + length pre, x)) (sym (entries-AllEmpty pre (l ∷ post) 0 a))),
        good.0,
        rw e (omega (arith, length-append pre (l ∷ post), length-append pre ((x ∷ l) ∷ post))),
        rw e (omega (arith, total-append pre (l ∷ post), total-append pre ((x ∷ l) ∷ post))),
        good.1,
        ap (λ ls. record q { oplists = ls; size = dec32 q.size })
            (rw (e, ep) (set-append pre (x ∷ l) l post)),
      ))

-- Under the lock `get_task` and `try_get_task` take the first entry of the queue, and give NULL
-- only when the queue has none.
pub get_locked-Taken : (q : TaskQueue) → IsValid q → Taken q (get_locked q)
unfolding get_locked
get_locked-Taken q v = scan-Taken 32 0 [] q.oplists q refl refl (sym v.lists) tt v.nonnull

pub get_locked-IsValid : (q : TaskQueue) → IsValid q → IsValid (get_locked q).1
get_locked-IsValid q v = elim (get_locked-Taken q v) [
  | inl (_, e) ↦ rw e v
  | inr (k, ls, vw, nz, len, tot, nn, e) ↦ rw e (record {
    lists = len ∙ v.lists;
    counted = omega (arith, v.counted, v.small);
    small = omega (arith, v.counted, v.small);
    nonnull = nn;
  })
]
