-- ===== src/Pool/Control.antt =====
-- Starting, using and stopping ep's `thread_pool`.
use eparallel.Common.{
  ltb, ltb, sym, get_or-set_ne, get_or-set_self, ℕ, ◌≤◌, ◌<◌, ◌≡◌, refl, ap, inl, inr, ◌⊎◌,
  Bool-cases, ◌≢◌, ◌+◌, ◌%◌, ◌++◌, get_or, length, Bool, true, false, List, [], ◌∷◌, none, some,
  arith, ℤ, pos, is_neg, leb, if◌then◌else◌, map, ◌==◌, ◌^◌,
}
use eparallel.Errno.{
  fail, ep_invalid_task_priority, ep_invalid_argu, ep_has_not_been_inited, ep_do_not_start,
  ep_too_busy, ep_master_start_fail,
}
use eparallel.TaskQueue
use eparallel.TaskQueue.{sem_value_max, sem_give, TaskQueue, max_priority_num, sem_try_take}
use eparallel.TaskQueue.Threads.{System, Reach, Inv}
use eparallel.TaskQueue.Threads.Shutdown.{add_task-stopped, stopped_never_wakes}
use eparallel.Worker.{Thread, is_running, permanent_process, run_worker, stop_worker, join}
use eparallel.Pool.{Pool, new_pool, init_pool, free_pool, add_task, run_pool, add_exits, stop_begin}

-- `free` undoes `init` when the pool has temporary threads. A pool without any is left as it is,
-- with EP_HAS_NOT_BEEN_INITED, so that nothing of it is ever released.
pub free-init :
    (minthread maxthread span maxsz : ℕ) (busy : Bool)
    → minthread ≤ maxthread
    → maxthread < 2 ^ 32
    → let p = new_pool minthread maxthread span maxsz busy in
      let p' = (init_pool p).1 in
      free_pool p' ≡ (if minthread == maxthread then (ep_has_not_been_inited, p') else (pos 0, p))
unfolding new_pool init_pool free_pool
free-init minthread maxthread span maxsz busy h b = ground arith

-- The task goes behind the others of its priority, and no other priority changes.
pub record Queued (q : TaskQueue) (t priority : ℕ) (q' : TaskQueue) : Type 0 where
  pub behind : get_or q'.oplists priority [] ≡ get_or q.oplists priority [] ++ (t ∷ [])
  pub others : (k : ℕ) → k ≢ priority → get_or q'.oplists k [] ≡ get_or q.oplists k []
  pub counted : q'.size ≡ (q.size + 1) % 2 ^ 32
  pub running : q'.stopped ≡ false

-- Why a task is refused, and with which code.
pub data Refusal (p : Pool) (q : TaskQueue) (t priority : ℕ) : ℤ → Type 0 where
  no_task : t ≡ 0 → Refusal p q t priority ep_invalid_argu
  not_started : 0 < t → p.run ≡ false → Refusal p q t priority ep_do_not_start
  busy :
      0 < t
      → p.run ≡ true
      → (32 ≤ priority) ⊎ (q.stopped ≡ true)
      → p.too_busy ≡ true
      → Refusal p q t priority ep_too_busy
  no_priority :
      0 < t
      → p.run ≡ true
      → 32 ≤ priority
      → p.too_busy ≡ false
      → Refusal p q t priority ep_invalid_task_priority
  closed :
      0 < t
      → p.run ≡ true
      → priority < 32
      → q.stopped ≡ true
      → p.too_busy ≡ false
      → Refusal p q t priority fail

queue-Queued :
    (q : TaskQueue) (t priority : ℕ)
    → priority < length q.oplists
    → priority < 32
    → q.stopped ≡ false
    → (TaskQueue.add_task q t priority).0 ≡ pos 0
      × Queued q t priority (TaskQueue.add_task q t priority).1
unfolding TaskQueue.add_task sem_give
queue-Queued q t priority h l o =
    let fits : leb max_priority_num priority ≡ false = ground (arith, l) in
    let mine = get_or-set_self q.oplists priority (get_or q.oplists priority [] ++ (t ∷ [])) [] h in
    let rest = λ (k : ℕ) (n : k ≢ priority).
      get_or-set_ne q.oplists priority k (get_or q.oplists priority [] ++ (t ∷ [])) []
        (λ e. n (sym e)) in
    elim (Bool-cases (ltb q.semp sem_value_max)) [
      | inl room ↦
          rw (fits, TaskQueue.add_task)
            (rw (o, TaskQueue.add_task)
              (rw (room, sem_give)
                (refl, record { behind = mine; others = rest; counted = refl; running = refl })))
      | inr full ↦
          rw (fits, TaskQueue.add_task)
            (rw (o, TaskQueue.add_task)
              (rw (full, sem_give)
                (refl, record { behind = mine; others = rest; counted = refl; running = refl })))
    ]

-- What `add_task` comes to.
abbrev pub AddOutcome : Pool → TaskQueue → ℕ → ℕ → Type 0
AddOutcome p q t priority =
    ((0 < t)
      × (p.run ≡ true)
      × (priority < 32)
      × (q.stopped ≡ false)
      × ((q' : TaskQueue) × Queued q t priority q'
          × (add_task p t priority ≡ some (pos 0, record p { task_q = some q' }))))
    ⊎ ((c : ℤ) × Refusal p q t priority c × (add_task p t priority ≡ some (c, p)))

-- What `add_task` comes to on a pool with a queue of 32 priorities, on every branch: it takes the
-- task exactly when it is not NULL, the pool runs, its priority is below 32 and the queue is not
-- stopped, whether the pool is too busy or not, and puts it behind the tasks of its priority;
-- else it leaves the pool as it was and returns the code of the first of these that fails, or,
-- where the queue refuses the task of a pool that is too busy, EP_TOO_BUSY.
pub add_task_outcome :
    (p : Pool) (q : TaskQueue) (t priority : ℕ)
    → p.task_q ≡ some q
    → length q.oplists ≡ 32
    → AddOutcome p q t priority
unfolding add_task TaskQueue.add_task
add_task_outcome p q t priority e l = elim (Bool-cases (t == 0)) [
  | inl z ↦ inr (ep_invalid_argu, no_task (ground (arith, z)), rw (z, add_task) refl)
  | inr nz ↦ elim (Bool-cases p.run) [
    | inr off ↦ inr (
      ep_do_not_start,
      not_started (ground (arith, nz)) off,
      rw (nz, add_task) (rw (off, add_task) refl),
    )
    | inl on ↦ elim (Bool-cases (leb 32 priority)) [
      | inl high ↦ elim (Bool-cases p.too_busy) [
        | inl b ↦ inr (
          ep_too_busy,
          busy (ground (arith, nz)) on (inl (ground (arith, high))) b,
          ground (arith, e, nz, on, high, b),
        )
        | inr b ↦ inr (
          ep_invalid_task_priority,
          no_priority (ground (arith, nz)) on (ground (arith, high)) b,
          ground (arith, e, nz, on, high, b),
        )
      ]
      | inr low ↦ elim (Bool-cases q.stopped) [
        | inl shut ↦ elim (Bool-cases p.too_busy) [
          | inl b ↦ inr (
            ep_too_busy,
            busy (ground (arith, nz)) on (inr shut) b,
            ground (arith, e, nz, on, low, shut, b),
          )
          | inr b ↦ inr (
            fail,
            closed (ground (arith, nz)) on (ground (arith, low)) shut b,
            ground (arith, e, nz, on, low, shut, b),
          )
        ]
        | inr going ↦
            let (ret, queued) =
              queue-Queued q t priority (ground (arith, low, l)) (ground (arith, low)) going in
            inl (
              ground (arith, nz),
              on,
              ground (arith, low),
              going,
              ((TaskQueue.add_task q t priority).1, queued, ground (arith, e, nz, on, ret)),
            )
      ]
    ]
  ]
]

-- `run` on a pool whose master thread runs fails and clears `m_run`: the pool takes no task any
-- more, though all of its threads go on.
pub run_pool_again :
    (p : Pool) (m : Thread) (master : ℤ) (created : ℕ → ℤ) (t priority : ℕ)
    → p.master_thread ≡ some m
    → is_running m.status ≡ true
    → 0 < t
    → (p' : Pool) × (run_pool master created p ≡ some (ep_master_start_fail, p'))
      × (p'.threads ≡ p.threads)
      × (add_task p' t priority ≡ some (ep_do_not_start, p'))
unfolding run_pool run_worker add_task
run_pool_again p m master created t priority e r n =
    (record p { run = false; master_thread = some m }, ground arith, refl, ground arith)

-- All codes are failures.
abbrev pub AllNeg : List ℤ → Type 0
AllNeg [] = Unit {0}
AllNeg (c ∷ cs) = (is_neg c ≡ true) × AllNeg cs

add_exits-stopped :
    (q : TaskQueue) (ts : List ℕ)
    → q.stopped ≡ true
    → (AllNeg (add_exits q ts).0) × ((add_exits q ts).1 ≡ q)
unfolding add_exits
add_exits-stopped q [] h = (tt, refl)
add_exits-stopped q (t ∷ ts) h =
    let a = add_task-stopped q t 31 h in
    let ih = add_exits-stopped q ts h in ((a.0, rw (a.1) ih.0), rw (a.1) ih.1)

-- `stop` closes the queue before it adds the exit tasks, so the queue refuses every one of them:
-- no permanent thread is ever told to end.
pub stop_begin_loses_exits :
    (p : Pool) (q : TaskQueue) (m : Thread) (exits : List ℕ)
    → p.task_q ≡ some q
    → p.master_thread ≡ some m
    → (rets : List ℤ) × (p' : Pool) × (stop_begin p exits ≡ some (rets, p'))
      × AllNeg rets
      × (p'.task_q ≡ some (TaskQueue.stop q))
unfolding stop_begin
stop_begin_loses_exits p q m exits e f =
    let x = add_exits-stopped (TaskQueue.stop q) exits (unfold TaskQueue.stop in refl) in
    (
      (add_exits (TaskQueue.stop q) exits).0,
      record p {
        run = false;
        master_thread = some (stop_worker m);
        tmp_threads = elim p.tmp_threads [ none ↦ none | some ts ↦ some (map join ts) ];
        task_q = some (add_exits (TaskQueue.stop q) exits).1;
      },
      rw (e, stop_begin) (rw (f, stop_begin) refl),
      x.0,
      ap some x.1,
    )

-- A permanent thread that comes to the queue of a stopped pool once it is empty waits for good,
-- whatever the other threads do: `stop` never gets past its join.
pub permanent_process_waits :
    (is_exit : ℕ → Bool) (s u : System)
    → Inv s
    → s.queue.stopped ≡ true
    → s.queue.size ≡ 0
    → Reach s u
    → permanent_process is_exit u.queue ≡ none
unfolding permanent_process
permanent_process_waits is_exit s u v h e r =
    rw ((stopped_never_wakes s u v h e r).0, permanent_process)
