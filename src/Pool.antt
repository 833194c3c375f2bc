-- ===== src/Pool.antt =====
-- ep/ep_thread_pool.cpp and ep/ep_thread_pool.h: `thread_pool`.
-- A pointer that may be NULL is an `Option`; a result `none` is the use of a NULL pointer. `new`
-- throws and does not return NULL, so the branches of `init` for NULL are not reached. What
-- `pthread_create` returns for thread number i is an argument.
pub mod Schedule
pub mod Control
use eparallel.Common.{
  ℕ, zero, suc, ◌+◌, ◌-◌, ◌%◌, ◌^◌, Bool, true, false, not, ◌&&◌, ◌||◌, Option, none, some, List,
  [], ◌∷◌, ltb, leb, ◌==◌, if◌then◌else◌, ℤ, pos, is_neg, get_or, set, replicate, map,
}
use eparallel.Errno.{
  ep_has_been_inited, ep_has_not_been_inited, ep_can_not_free_when_running, ep_invalid_argu,
  ep_do_not_start, ep_too_busy, ep_master_start_fail,
}
use eparallel.TaskQueue
use eparallel.TaskQueue.{TaskQueue, null, max_priority_num, new_queue}
use eparallel.Worker.{Thread, new_thread, run_worker, join, stop_worker}

pub record Pool : Type 0 where
  pub run : Bool
  pub threads_cnt : ℕ
  pub tmp_threads_cnt : ℕ
  pub tmp_thread_idx : ℕ
  pub task_q_past_sz : ℕ
  pub too_busy : Bool
  pub schedule_span : ℕ
  pub busy_control : Bool
  pub task_que_max_size : ℕ
  pub master_thread : Option Thread
  pub threads : Option (List Thread)
  pub tmp_threads : Option (List Thread)
  pub task_q : Option TaskQueue

abbrev pub is_some {ℓ} : {A : Type ℓ} → Option A → Bool
is_some none = false
is_some (some a) = true

-- The constructor; `maxthread - minthread` is a u32 difference.
unfoldable pub new_pool : ℕ → ℕ → ℕ → ℕ → Bool → Pool
new_pool minthread maxthread schedulespan tskqmaxsz busycontrol = record {
  run = false;
  threads_cnt = minthread;
  tmp_threads_cnt = (maxthread + 2 ^ 32 - minthread) % 2 ^ 32;
  tmp_thread_idx = 0;
  task_q_past_sz = 0;
  too_busy = false;
  schedule_span = schedulespan;
  busy_control = busycontrol;
  task_que_max_size = tskqmaxsz;
  master_thread = none;
  threads = none;
  tmp_threads = none;
  task_q = none;
}

unfoldable pub init_pool : Pool → ℤ × Pool
init_pool p =
    if is_some p.task_q || is_some p.master_thread || is_some p.threads || is_some p.tmp_threads
    then (ep_has_been_inited, p)
    else (
      pos 0,
      record p {
        task_q = some new_queue;
        master_thread = some new_thread;
        threads = some (replicate p.threads_cnt new_thread);
        tmp_threads =
            if p.tmp_threads_cnt == 0 then none else some (replicate p.tmp_threads_cnt new_thread);
      },
    )

unfoldable pub free_pool : Pool → ℤ × Pool
free_pool p =
    if not (is_some p.threads) || not (is_some p.tmp_threads)
    then (ep_has_not_been_inited, p)
    else if p.run
    then (ep_can_not_free_when_running, p)
    else (
      pos 0,
      record p { master_thread = none; threads = none; tmp_threads = none; task_q = none },
    )

-- The part of `add_task` behind its guards.
pool_add : Pool → TaskQueue → ℕ → ℕ → ℤ × Pool
pool_add p q t priority =
    let (ret, q') = TaskQueue.add_task q t priority in
    (if is_neg ret && p.too_busy then ep_too_busy else ret, record p { task_q = some q' })

unfoldable pub add_task : Pool → ℕ → ℕ → Option (ℤ × Pool)
unfolding pool_add
add_task p t priority =
    if t == null
    then some (ep_invalid_argu, p)
    else if not p.run
    then some (ep_do_not_start, p)
    else elim p.task_q [ none ↦ none | some q ↦ some (pool_add p q t priority) ]

unfoldable pub del_task : Pool → ℕ → ℕ → Option (ℤ × Pool)
del_task p t priority = elim p.task_q [
  | none ↦ none
  | some q ↦ elim (TaskQueue.del_task q t priority) [
    | none ↦ none
    | some (ret, q') ↦ some (ret, record p { task_q = some q' })
  ]
]

unfoldable pub get_task_count : Pool → Option ℕ
get_task_count p = elim p.task_q [ none ↦ none | some q ↦ some q.size ]

-- The loop of `start_temp_thread` with `n` rounds left: `i` threads started of `cnt` wanted, the
-- next one to look at is `idx`.
unfoldable pub start_rounds : (ℕ → ℤ) → ℕ → ℕ → ℕ → ℕ → ℕ → List Thread → ℕ × ℕ × List Thread
start_rounds created tmp cnt zero i idx ts = (i, idx, ts)
start_rounds created tmp cnt (suc n) i idx ts = elim (ltb i cnt) [
  | true ↦
      let (ret, t) = run_worker (get_or ts idx new_thread) (created idx) in
      start_rounds created tmp cnt n (if is_neg ret then i else i + 1) ((idx + 1) % tmp)
        (set ts idx t)
  | false ↦ (i, idx, ts)
]

-- With no temporary thread the loop makes no round and the array is not touched.
unfoldable pub start_temp_thread : (ℕ → ℤ) → Pool → ℕ → Option (ℕ × Pool)
start_temp_thread created p cnt =
    let tmp = p.tmp_threads_cnt in
    if tmp == 0 then some (0, p) else elim p.tmp_threads [
      | none ↦ none
      | some ts ↦
          let (i, idx, ts') =
            start_rounds created tmp (if ltb tmp cnt then tmp else cnt) tmp 0 p.tmp_thread_idx ts in
          some (i, record p { tmp_thread_idx = idx; tmp_threads = some ts' })
    ]

-- The end of `check_need_more_thread`, with what was started.
finish_check : Pool → ℕ → Option (ℕ × Pool) → Option Pool
finish_check p sz none = none
finish_check p sz (some (i, p')) = some (record p' {
  too_busy = i == 0 && p.busy_control && leb p.task_que_max_size sz;
  task_q_past_sz = sz;
})

unfoldable pub check_need_more_thread : (ℕ → ℤ) → Pool → Option Pool
unfolding finish_check
check_need_more_thread created p = elim p.task_q [
  | none ↦ none
  | some q ↦
      if ltb p.task_q_past_sz q.size && ltb p.threads_cnt q.total_task_cnt
      then finish_check p q.size (start_temp_thread created p (q.size - p.task_q_past_sz))
      else some (record p { too_busy = false; task_q_past_sz = q.size })
]

-- `m_threads[i].run()` for each permanent thread.
unfoldable pub run_all : (ℕ → ℤ) → ℕ → List Thread → List Thread
run_all created i [] = []
run_all created i (t ∷ ts) = (run_worker t (created i)).1 ∷ run_all created (i + 1) ts

unfoldable pub run_pool : ℤ → (ℕ → ℤ) → Pool → Option (ℤ × Pool)
run_pool master created p = elim p.master_thread [
  | none ↦ none
  | some m ↦
      let (ret, m') = run_worker m master in
      if is_neg ret
      then some (ep_master_start_fail, record p { run = false; master_thread = some m' })
      else elim p.threads [
        | none ↦ none
        | some ts ↦ some (
          ret,
          record p { run = true; master_thread = some m'; threads = some (run_all created 0 ts) },
        )
      ]
]

-- `stop` puts one `exit_task` for each permanent thread, the addresses `exits`, at the last
-- priority; the codes that it ignores are kept here.
unfoldable pub add_exits : TaskQueue → List ℕ → List ℤ × TaskQueue
add_exits q [] = ([], q)
add_exits q (t ∷ ts) =
    let (ret, q') = TaskQueue.add_task q t (max_priority_num - 1) in
    let (rets, q'') = add_exits q' ts in (ret ∷ rets, q'')

-- `thread_pool::stop` up to the loop that waits for the queue to be empty.
unfoldable pub stop_begin : Pool → List ℕ → Option (List ℤ × Pool)
stop_begin p exits = elim p.task_q [
  | none ↦ none
  | some q ↦ elim p.master_thread [
    | none ↦ none
    | some m ↦
        let (rets, q') = add_exits (TaskQueue.stop q) exits in
        some (
          rets,
          record p {
            run = false;
            master_thread = some (stop_worker m);
            tmp_threads = elim p.tmp_threads [ none ↦ none | some ts ↦ some (map join ts) ];
            task_q = some q';
          },
        )
  ]
]

-- What `stop` does once the queue is empty and each permanent thread has ended.
unfoldable pub stop_end : Pool → Option Pool
stop_end p = elim p.threads [
  | none ↦ none
  | some ts ↦ some (record p { threads = some (map stop_worker ts) })
]
