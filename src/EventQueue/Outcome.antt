-- ===== src/EventQueue/Outcome.antt =====
-- The counters of `eq_imp`, and what its operations return.
use eparallel.Common.{
  ℕ, zero, suc, ◌+◌, ◌-◌, ◌<◌, ◌≡◌, ◌⊎◌, inl, inr, refl, ap, sym, ◌∙◌, Bool, true, false, ◌||◌,
  List, [], ◌∷◌, ◌++◌, leb, length, ℤ, pos, negsuc, is_neg, arith, length-append, Bool-cases,
  Option-cases, ◌==◌,
}
use eparallel.OpLog.{Op, save_op_to_buf}
use eparallel.EventQueue.{
  sem_value_max, Queue, Opened, same_file, new_file, open_fails, add_back, get_front, add_task,
  del_task, next_op, check_if_open_new_file, save_task_to_file, op_add, erase_id, take_front, waits,
  took, sem_post,
}

-- The bytes of the tasks together.
abbrev pub total : List Op → ℕ
total [] = 0
total (o ∷ os) = length o.cont + total os

pub record Sound (q : Queue) : Type 0 where
  pub counted : q.cnt ≡ length q.tasks
  pub sized : q.size ≡ total q.tasks
  pub given : q.sem ≡ q.cnt

total-append : (xs ys : List Op) → total (xs ++ ys) ≡ total xs + total ys
total-append [] ys = omega arith
total-append (x ∷ xs) ys = omega (arith, total-append xs ys)

-- What `add_back` leaves: the queue as it was but for the ids and the file, or one more task.
abbrev pub Refused : Queue → ℤ × Queue → Type 0
Refused q (ret, r) = (ret ≡ negsuc 0) × (r.tasks ≡ q.tasks) × Sound r

abbrev pub Added : List ℕ → Queue → ℤ × Queue → Type 0
Added t q (ret, r) =
    (ret ≡ pos 0)
    × (q.size < q.max_size)
    × (q.cnt < q.max_cnt)
    × ((o : Op) × (o.cont ≡ t) × (o.cmd ≡ op_add) × (r.tasks ≡ q.tasks ++ (o ∷ [])))
    × Sound r

-- The same tasks and counters.
abbrev Kept : Queue → Queue → Type 0
Kept q r = (r.tasks ≡ q.tasks) × (r.cnt ≡ q.cnt) × (r.size ≡ q.size) × (r.sem ≡ q.sem)

Kept-Sound : (q r : Queue) → Kept q r → Sound q → Sound r
Kept-Sound q r (t, c, z, m) v = record {
  counted = c ∙ v.counted ∙ ap length (sym t);
  sized = z ∙ v.sized ∙ ap total (sym t);
  given = m ∙ v.given ∙ sym c;
}

check-Kept : (opened : Opened) (q : Queue) → Kept q (check_if_open_new_file opened q).1
unfolding check_if_open_new_file
check-Kept same_file q = (refl, refl, refl, refl)
check-Kept new_file q = (refl, refl, refl, refl)
check-Kept open_fails q = (refl, refl, refl, refl)

next_op-Kept :
    (q : Queue) (cmd : ℕ) (t : List ℕ)
    → let n = next_op q cmd t in Kept q n.0 × (n.1.cont ≡ t) × (n.1.cmd ≡ cmd)
unfolding next_op
next_op-Kept q cmd t = ((refl, refl, refl, refl), refl, refl)

save-Kept : (n : ℕ) (w : Bool) (q : Queue) (o : Op) → Kept q (save_task_to_file n w q o).1
unfolding save_task_to_file
save-Kept n true q o = elim (Option-cases (save_op_to_buf o (n + length o.cont))) [
  | inl e ↦ rw (e, save_task_to_file) (refl, refl, refl, refl)
  | inr (x, e) ↦ rw (e, save_task_to_file) (refl, refl, refl, refl)
]
save-Kept n false q o = elim (Option-cases (save_op_to_buf o (n + length o.cont))) [
  | inl e ↦ rw (e, save_task_to_file) (refl, refl, refl, refl)
  | inr (x, e) ↦ rw (e, save_task_to_file) (refl, refl, refl, refl)
]

Kept-trans : (q r s : Queue) → Kept q r → Kept r s → Kept q s
Kept-trans q r s (a, b, c, d) (a', b', c', d') = (a' ∙ a, b' ∙ b, c' ∙ c, d' ∙ d)

-- The counters of a queue with one more task.
add_task-Sound :
    (q r : Queue) (o : Op)
    → Kept q r
    → Sound q
    → q.cnt < sem_value_max
    → let s = add_task r o in
      (s.tasks ≡ q.tasks ++ (o ∷ [])) × Sound (record s { sem = sem_post s.sem })
unfolding add_task sem_post
add_task-Sound q r o (t, c, z, m) v few = (
  ap (λ ts. ts ++ (o ∷ [])) t,
  record {
    counted = omega (arith, length-append r.tasks (o ∷ []), c, v.counted, ap length t);
    sized = omega (arith, total-append r.tasks (o ∷ []), z, v.sized, ap total t);
    given = ground (arith, m, c, v.given, few);
  },
)

-- When the counters are right and the semaphore is below its largest count: whatever happens to
-- the log file, `add_back` returns -1 and leaves the tasks as they were, or 0
-- and has put a task with these contents behind the others, for which there was room; the
-- counters stay right.
pub add_back-Outcome :
    (op_size : ℕ) (opened : Opened) (written : Bool) (q : Queue) (t : List ℕ)
    → Sound q
    → q.cnt < sem_value_max
    → Refused q (add_back op_size opened written q t)
      ⊎ Added t q (add_back op_size opened written q t)
unfolding add_back
add_back-Outcome n opened w q t v few =
    let q1 = (check_if_open_new_file opened q).1 in
    let next = next_op q1 op_add t in
    let saved = save_task_to_file n w next.0 next.1 in
    let k1 = check-Kept opened q in
    let (k2, c, a) = next_op-Kept q1 op_add t in
    let k12 = Kept-trans q q1 next.0 k1 k2 in
    let k3 = Kept-trans q next.0 saved.1 k12 (save-Kept n w next.0 next.1) in
    elim (Bool-cases (leb q.max_size q.size || leb q.max_cnt q.cnt)) [
      | inl full ↦ rw full (inl (refl, refl, v))
      | inr room ↦ rw room (elim (Bool-cases (check_if_open_new_file opened q).0) [
        | inr closed ↦ rw closed (inl (refl, k1.0, Kept-Sound q q1 k1 v))
        | inl ok ↦ rw ok (elim (Bool-cases (is_neg saved.0)) [
          | inl bad ↦ rw bad (inl (refl, k3.0, Kept-Sound q saved.1 k3 v))
          | inr good ↦
              let (tasks, sound) = add_task-Sound q saved.1 next.1 k3 v few in
              rw good (
                inr
                  (refl, ground (arith, room), ground (arith, room), (next.1, c, a, tasks), sound))
        ])
      ])
    ]

-- What `get_front` comes to.
abbrev pub FirstTaken : Queue → Type 0
FirstTaken q =
    ((q.tasks ≡ []) × (get_front q ≡ waits))
    ⊎ ((o : Op) × (rest : List Op) × (r : Queue) × (q.tasks ≡ o ∷ rest)
        × (get_front q ≡ took o r)
        × (r.tasks ≡ rest)
        × Sound r)

front_cases : (ts : List Op) (n : ℕ) (q : Queue) → q.tasks ≡ ts → q.sem ≡ n → Sound q → FirstTaken q
unfolding get_front take_front
front_cases [] zero q e s v = inl (e, rw (s, get_front) refl)
front_cases [] (suc n) q e s v = absurd (omega (arith, v.counted, v.given, s, ap length e))
front_cases (o ∷ rest) zero q e s v = absurd (omega (arith, v.counted, v.given, s, ap length e))
front_cases (o ∷ rest) (suc n) q e s v =
    let r : Queue = record q {
      tasks = rest;
      size = q.size - length o.cont;
      cnt = q.cnt - 1;
      sem = n;
    } in
    let held : (q.cnt == 0) ≡ false = ground (arith, v.given, s) in
    inr (
      o,
      rest,
      r,
      e,
      rw (s, get_front) (rw (held, get_front) (rw (e, take_front) refl)),
      refl,
      record {
        counted = omega (arith, v.counted, ap length e);
        sized = omega (arith, v.sized, ap total e);
        given = omega (arith, v.given, s);
      },
    )

-- When the counters are right, `get_front` waits for the semaphore exactly when there is no task,
-- and else takes the first one and leaves the others with the counters right; its assertion does
-- not fail.
pub get_front-Outcome : (q : Queue) → Sound q → FirstTaken q
get_front-Outcome q v = front_cases q.tasks q.sem q refl refl v

-- A deletion that is read from the log takes the task, but not its bytes out of `m_size`: the
-- operation that stands in the log has no contents.
pub del_task-Leaks :
    (q : Queue) (o d : Op)
    → q.tasks ≡ []
    → q.size ≡ 0
    → d.task_id ≡ o.task_id
    → d.cont ≡ []
    → let r = (del_task (add_task q o) d).1 in (r.tasks ≡ []) × (r.size ≡ length o.cont)
unfolding del_task add_task erase_id
del_task-Leaks q o d e z i c = ground (arith, e, z, i, c)
