-- ===== src/EventQueue/Replay.antt =====
-- What is read from a log file that `eq_imp` has written.
use mathlib.Core.List.{append_assoc, append-nil}
use eparallel.Common.{
  ℕ, zero, suc, ◌+◌, ◌-◌, ◌^◌, ◌<◌, ◌≤◌, ◌≡◌, refl, ap, sym, ◌∙◌, false, some, List, [], ◌∷◌, ◌++◌,
  ltb, leb, ◌==◌, length, take, drop, arith, if◌then◌else◌, Bool-cases, inr, inl, ◌⊎◌, none, map,
  pos, true, length-append, take-append_le, take_all, drop-append_ge,
}
use eparallel.OpLog.{Op, loaded, load_int, le_bytes, load_op_from_buf}
use eparallel.OpLog.Codec.{
  InRange, encoded, length-encoded, load_op_from_buf-Encoded, load_int-le_bytes, Fits-int,
}
use eparallel.EventQueue.{
  Queue, frame, load_op, load_one_bin_log_file, load_records, less_int64, erase_id, del_task,
  add_task,
}

-- The bytes of a log with these operations.
abbrev pub log_of : List Op → List ℕ
log_of [] = []
log_of (o ∷ os) = frame (encoded o) ++ log_of os

abbrev load_all : ℕ → Queue → List Op → Queue
load_all start q [] = q
load_all start q (o ∷ os) = load_all start (load_op start q o) os

abbrev pub AllInRange : List Op → Type 0
AllInRange [] = Unit {0}
AllInRange (o ∷ os) = InRange o × (28 + length o.cont < 2 ^ 31) × AllInRange os

load_records-Empty :
    (fuel start : ℕ) (q : Queue) → load_records (suc fuel) start q [] ≡ some (pos 0, q)
unfolding load_records load_int
load_records-Empty fuel start q = refl

-- One record that was written.
load_records-Frame :
    (fuel start : ℕ) (q : Queue) (o : Op) (rest : List ℕ)
    → InRange o
    → 28 + length o.cont < 2 ^ 31
    → load_records (suc fuel) start q (frame (encoded o) ++ rest)
      ≡ load_records fuel start (load_op start q o) rest
unfolding load_records frame
load_records-Frame fuel start q o rest r s =
    let n = length (encoded o) in
    let l = length-encoded o in
    let assoc = append_assoc (le_bytes 4 n) (encoded o) rest in
    let len = load_int-le_bytes 4 n (encoded o ++ rest) (Fits-int n (omega (arith, l, s))) in
    let small : leb (2 ^ 31) n ≡ false = ground (arith, l, s) in
    let some_bytes : (n == 0) ≡ false = ground (arith, l) in
    let enough : ltb (length (encoded o ++ rest)) n ≡ false =
      ground (arith, length-append (encoded o) rest) in
    let mine : take n (encoded o ++ rest) ≡ encoded o =
      take-append_le n (encoded o) rest (omega arith) ∙ take_all n (encoded o) (omega arith) in
    let z : n - n ≡ 0 = omega arith in
    let others : drop n (encoded o ++ rest) ≡ rest =
      drop-append_ge n (encoded o) rest (omega arith) ∙ rw z refl in
    let back : load_op_from_buf (encoded o) ≡ some (loaded o 0) =
      ap load_op_from_buf (sym (append-nil (encoded o))) ∙ load_op_from_buf-Encoded o [] r in
    ap (load_records (suc fuel) start q) assoc
    ∙ rw (len, load_records)
        (rw (small, load_records)
          (rw (some_bytes, load_records)
            (rw (enough, load_records)
              (rw (mine, load_records) (rw (back, load_records) (rw others refl))))))

load_records-Written :
    (fuel start : ℕ) (q : Queue) (os : List Op)
    → length os < fuel
    → AllInRange os
    → load_records fuel start q (log_of os) ≡ some (pos 0, load_all start q os)
load_records-Written zero start q os h r = absurd (omega arith)
load_records-Written (suc fuel) start q [] h r = load_records-Empty fuel start q
load_records-Written (suc fuel) start q (o ∷ os) h (r, s, rs) =
    load_records-Frame fuel start q o (log_of os) r s
    ∙ load_records-Written fuel start (load_op start q o) os (omega arith) rs

length-log_of : (os : List Op) → length os ≤ length (log_of os)
unfolding frame
length-log_of [] = omega arith
length-log_of (o ∷ os) = omega (
  arith,
  length-log_of os,
  length-append (frame (encoded o)) (log_of os),
  length-append (le_bytes 4 (length (encoded o))) (encoded o),
  length-encoded o,
)

-- The operations from the one with this id on, by the ids as `int64`s.
abbrev pub kept : ℕ → List Op → List Op
kept start [] = []
kept start (o ∷ os) = if less_int64 o.op_id start then kept start os else o ∷ kept start os

-- The tasks less the first one of this id.
abbrev pub without_first : ℕ → List Op → List Op
without_first id [] = []
without_first id (o ∷ os) = if o.task_id == id then os else o ∷ without_first id os

-- What operations leave of a list of tasks.
abbrev pub tasks_after : List Op → List Op → List Op
tasks_after [] ts = ts
tasks_after (o ∷ os) ts =
    tasks_after os
      (if o.cmd == 1 then ts ++ (o ∷ []) else if o.cmd == 2 then without_first o.task_id ts else ts)

-- The greatest of these `int64`s.
abbrev pub greatest : ℕ → List ℕ → ℕ
greatest n [] = n
greatest n (m ∷ ms) = greatest (if less_int64 n m then m else n) ms

-- What a queue comes to with these operations.
pub record Replayed (q : Queue) (os : List Op) (r : Queue) : Type 0 where
  pub tasks : r.tasks ≡ tasks_after os q.tasks
  pub op_id : r.current_op_id ≡ greatest q.current_op_id (map (λ o. o.op_id) os)
  pub task_id : r.current_task_id ≡ greatest q.current_task_id (map (λ o. o.task_id) os)
  pub counted : r.cnt ≡ length r.tasks
  pub file : r.current_file_id ≡ q.current_file_id
  pub log : r.log ≡ q.log
  pub sem : r.sem ≡ q.sem

-- What is found, and how many are left.
erase_id-without :
    (id : ℕ) (ts : List Op)
    → ((erase_id id ts ≡ none) × (without_first id ts ≡ ts))
      ⊎ ((erase_id id ts ≡ some (without_first id ts))
          × (suc (length (without_first id ts)) ≡ length ts))
unfolding erase_id
erase_id-without id [] = inl (refl, refl)
erase_id-without id (t ∷ ts) = elim (Bool-cases (t.task_id == id)) [
  | inl e ↦ inr (rw (e, erase_id) refl, rw e refl)
  | inr e ↦ elim (erase_id-without id ts) [
    | inl (n, w) ↦ inl (rw (e, erase_id) (rw (n, erase_id) refl), rw e (ap (λ us. t ∷ us) w))
    | inr (n, l) ↦ inr (rw (e, erase_id) (rw (n, erase_id) refl), rw e (ap suc l))
  ]
]

del_task-Tasks :
    (q : Queue) (o : Op)
    → q.cnt ≡ length q.tasks
    → let r = (del_task q o).1 in
      (r.tasks ≡ without_first o.task_id q.tasks)
      × (r.cnt ≡ length r.tasks)
      × (r.current_op_id ≡ q.current_op_id)
      × (r.current_task_id ≡ q.current_task_id)
      × (r.current_file_id ≡ q.current_file_id)
      × (r.log ≡ q.log)
      × (r.sem ≡ q.sem)
unfolding del_task
del_task-Tasks q o c = elim (erase_id-without o.task_id q.tasks) [
  | inl (n, w) ↦ rw (n, del_task) (sym w, c, refl, refl, refl, refl, refl)
  | inr (n, l) ↦ rw (n, del_task) (refl, omega (arith, c, l), refl, refl, refl, refl, refl)
]

old_op : (start : ℕ) (q : Queue) (o : Op) → less_int64 o.op_id start ≡ true → load_op start q o ≡ q
unfolding load_op
old_op start q o old = rw (old, load_op) refl

load_op-Replayed :
    (start : ℕ) (q : Queue) (o : Op)
    → less_int64 o.op_id start ≡ false
    → q.cnt ≡ length q.tasks
    → Replayed q (o ∷ []) (load_op start q o)
unfolding load_op add_task
load_op-Replayed start q o new c =
    let r : Queue = record q {
      current_task_id =
          if less_int64 q.current_task_id o.task_id then o.task_id else q.current_task_id;
      current_op_id = if less_int64 q.current_op_id o.op_id then o.op_id else q.current_op_id;
    } in
    elim (Bool-cases (o.cmd == 1)) [
      | inl add ↦
          rw (new, load_op)
            (rw (add, load_op)
              (record {
                tasks = rw (add, tasks_after) refl;
                op_id = refl;
                task_id = refl;
                counted = omega (arith, c, length-append q.tasks (o ∷ []));
                file = refl;
                log = refl;
                sem = refl;
              }))
      | inr other ↦ elim (Bool-cases (o.cmd == 2)) [
        | inl del ↦
            let (ts, n, i, t, f, l, s) = del_task-Tasks r o c in
            rw (new, load_op)
              (rw (other, load_op)
                (rw (del, load_op)
                  (record {
                    tasks = ts ∙ sym (rw (other, tasks_after) (rw (del, tasks_after) refl));
                    op_id = i;
                    task_id = t;
                    counted = n;
                    file = f;
                    log = l;
                    sem = s;
                  })))
        | inr none_of ↦
            rw (new, load_op)
              (rw (other, load_op)
                (rw (none_of, load_op)
                  (record {
                    tasks = sym (rw (other, tasks_after) (rw (none_of, tasks_after) refl));
                    op_id = refl;
                    task_id = refl;
                    counted = c;
                    file = refl;
                    log = refl;
                    sem = refl;
                  })))
      ]
    ]

-- What the first operation leaves, and what the others leave of that.
Replayed-Cons :
    (q m r : Queue) (o : Op) (os : List Op)
    → Replayed q (o ∷ []) m
    → Replayed m os r
    → Replayed q (o ∷ os) r
Replayed-Cons q m r o os a b = record {
  tasks = b.tasks ∙ ap (tasks_after os) a.tasks;
  op_id = b.op_id ∙ ap (λ n. greatest n (map (λ x. x.op_id) os)) a.op_id;
  task_id = b.task_id ∙ ap (λ n. greatest n (map (λ x. x.task_id) os)) a.task_id;
  counted = b.counted;
  file = b.file ∙ a.file;
  log = b.log ∙ a.log;
  sem = b.sem ∙ a.sem;
}

load_all-Replayed :
    (start : ℕ) (q : Queue) (os : List Op)
    → q.cnt ≡ length q.tasks
    → Replayed q (kept start os) (load_all start q os)
load_all-Replayed start q [] c = record {
  tasks = refl;
  op_id = refl;
  task_id = refl;
  counted = c;
  file = refl;
  log = refl;
  sem = refl;
}
load_all-Replayed start q (o ∷ os) c = elim (Bool-cases (less_int64 o.op_id start)) [
  | inl old ↦
      let same : load_op start q o ≡ q = old_op start q o old in
      rw (old, same) (load_all-Replayed start q os c)
  | inr new ↦
      let a = load_op-Replayed start q o new c in
      let b = load_all-Replayed start (load_op start q o) os a.counted in
      rw new (Replayed-Cons q (load_op start q o) _ o (kept start os) a b)
]

-- A queue that counts its tasks reads a log file of operations whose fields fit to its end and
-- returns 0. Of the operations from the one with id `start` on, by the ids as `int64`s, each is
-- taken up once, in order: an addition puts its task behind the others, a deletion takes the
-- first task of its id; the ids of the queue become the greatest that were read, the count is
-- that of the tasks, and the file, its log and the semaphore stay as they were.
pub load_one_bin_log_file-Written :
    (start : ℕ) (q : Queue) (os : List Op)
    → q.cnt ≡ length q.tasks
    → AllInRange os
    → (r : Queue) × (load_one_bin_log_file start q (some (log_of os)) ≡ some (pos 0, r))
      × Replayed q (kept start os) r
unfolding load_one_bin_log_file
load_one_bin_log_file-Written start q os c r = (
  load_all start q os,
  load_records-Written (suc (length (log_of os))) start q os (omega (arith, length-log_of os)) r,
  load_all-Replayed start q os c,
)
