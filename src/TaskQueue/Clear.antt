-- ===== src/TaskQueue/Clear.antt =====
-- ep's `task_queue::clear`.
use mathlib.Core.List.{append_assoc}
use eparallel.Common.{
  ℕ, zero, suc, ◌+◌, ◌-◌, ◌≤◌, ◌≡◌, refl, ap, sym, ◌∙◌, List, [], ◌∷◌, ◌++◌, arith, length, get_or,
  set, length-append,
}
use eparallel.TaskQueue.{
  TaskQueue, Entry, tag, tasks, sem_value_max, dec32, clear_list, clear_one_priority, clear_rounds,
  clear,
}
use eparallel.TaskQueue.Buckets.{
  entries, total, NoNull, NoNulls, AllEmpty, AllEmpty-snoc, entries-AllEmpty, get_or-append,
  set-append,
}
use eparallel.TaskQueue.Refine.{view, IsValid}

clear_list_lem :
    (l : List ℕ) (size : ℕ)
    → NoNull l
    → length l ≤ size
    → size ≤ sem_value_max
    → clear_list l size ≡ (l, size - length l)
unfolding clear_list
clear_list_lem [] size n h b = ground arith
clear_list_lem (x ∷ l) size n h b =
    ground (arith, clear_list_lem l (dec32 size) n.1 (omega arith) (omega arith))

tasks-tag : (b : ℕ) (l : List ℕ) (v : List Entry) → tasks (tag b l ++ v) ≡ l ++ tasks v
tasks-tag b [] v = refl
tasks-tag b (x ∷ l) v = ap (◌∷◌ x) (tasks-tag b l v)

clear_one :
    (q : TaskQueue) (p : ℕ) (l : List ℕ) (ls : List (List ℕ))
    → get_or q.oplists p [] ≡ l
    → set q.oplists p [] ≡ ls
    → NoNull l
    → length l ≤ q.size
    → q.size ≤ sem_value_max
    → clear_one_priority q p ≡ (l, record q { oplists = ls; size = q.size - length l })
unfolding clear_one_priority
clear_one q p l ls g s n h b = rw (g, s, clear_list_lem l q.size n h b) refl

-- What the rounds that are left must do.
abbrev Cleared : ℕ → List (List ℕ) → List ℕ × TaskQueue → Type 0
Cleared b post r = (r.0 ≡ tasks (entries b post)) × (view r.1 ≡ []) × (r.1.size ≡ 0)

clear_rounds-Cleared :
    (n p b : ℕ) (pre post : List (List ℕ)) (q : TaskQueue)
    → q.oplists ≡ pre ++ post
    → p ≡ length pre
    → n ≡ length post
    → AllEmpty pre
    → NoNulls post
    → q.size ≡ total post
    → q.size ≤ sem_value_max
    → Cleared b post (clear_rounds n p q)
unfolding clear_rounds
clear_rounds-Cleared zero p b pre [] q e ep en a nn c s =
    (refl, rw e (entries-AllEmpty pre [] 0 a), c)
clear_rounds-Cleared zero p b pre (l ∷ post) q e ep en a nn c s = absurd (omega arith)
clear_rounds-Cleared (suc n) p b pre [] q e ep en a nn c s = absurd (omega arith)
clear_rounds-Cleared (suc n) p b pre (l ∷ post) q e ep en a nn c s =
    let q' : TaskQueue = record q { oplists = pre ++ ([] ∷ post); size = q.size - length l } in
    let one : clear_one_priority q p ≡ (l, q') =
      clear_one q p l (pre ++ ([] ∷ post)) (rw (e, ep) (get_or-append pre l post))
        (rw (e, ep) (set-append pre l [] post)) nn.0 (omega arith) s in
    let ih =
      clear_rounds-Cleared n (p + 1) (suc b) (pre ++ ([] ∷ [])) post q'
        (sym (append_assoc pre ([] ∷ []) post)) (omega (arith, length-append pre ([] ∷ [])))
        (omega arith) (AllEmpty-snoc pre a) nn.1 (omega arith) (omega arith) in
    rw (one, clear_rounds)
      (ap (◌++◌ l) ih.0 ∙ sym (tasks-tag b l (entries (suc b) post)), ih.1, ih.2)

-- `clear` recycles every task of the queue once, in the order of the queue, and leaves it empty.
pub clear_recycles :
    (q : TaskQueue)
    → IsValid q
    → ((clear q).0 ≡ tasks (view q)) × (view (clear q).1 ≡ []) × ((clear q).1.size ≡ 0)
unfolding clear
clear_recycles q v =
    clear_rounds-Cleared 32 0 0 [] q.oplists q refl refl (sym v.lists) tt v.nonnull v.counted
      v.small
