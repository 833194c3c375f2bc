-- ===== src/Pool/Schedule.antt =====
-- How ep's `thread_pool` starts temporary threads.
use eparallel.Common.{
  true, false, ◌==◌, ltb, leb, ◌&&◌, ℕ, zero, suc, ◌+◌, ◌-◌, ◌%◌, ◌≤◌, ◌<◌, ◌≡◌, ◌≢◌, refl, ap, sym,
  ◌∙◌, inl, inr, List, some, arith, length, get_or, get_or-set_ne, set, length-set, ℤ, is_neg, min,
  ltb, if◌then◌else◌, Bool-cases, ltb→lt,
}
use native.Mathlib.Nat.{mod-eq_of_lt, mod-eq-sub-mod, mod-add-mod}
use native.Mathlib.Decide.{dec_lt}
use eparallel.Worker.{Thread, new_thread, run_worker, is_running}
use eparallel.Pool.{TaskQueue, check_need_more_thread, Pool, start_rounds, start_temp_thread}

-- Whether `thread::run` takes this thread for started: it looks for a negative number only.
abbrev pub startable : ℤ → Thread → ℕ
startable c t = if is_running t.status then 0 else if is_neg c then 0 else 1

-- The threads that can be started among `n`, from number `idx` on, going round at `tmp`.
abbrev pub startables : (ℕ → ℤ) → ℕ → ℕ → ℕ → List Thread → ℕ
startables created tmp zero idx ts = 0
startables created tmp (suc n) idx ts =
    startable (created idx) (get_or ts idx new_thread)
    + startables created tmp n ((idx + 1) % tmp) ts

-- `k` steps from `idx`, fewer than go round, do not come back to it.
add-mod-ne : (tmp idx k : ℕ) → idx < tmp → suc k < tmp → (idx + suc k) % tmp ≢ idx
add-mod-ne tmp idx k h s = elim (dec_lt (idx + suc k) tmp) [
  | yes p ↦ omega (arith, mod-eq_of_lt p)
  | no p ↦ omega (
    arith,
    mod-eq-sub-mod {n = idx + suc k} {m = tmp} (omega arith),
    mod-eq_of_lt {n = idx + suc k - tmp} {m = tmp} (omega arith),
  )
]

-- A thread that the remaining rounds do not look at may change.
startables-set :
    (created : ℕ → ℤ) (tmp n k j idx : ℕ) (ts : List Thread) (t : Thread)
    → idx < tmp
    → n + k < tmp
    → j ≡ (idx + suc k) % tmp
    → startables created tmp n j (set ts idx t) ≡ startables created tmp n j ts
startables-set created tmp zero k j idx ts t h s e = refl
startables-set created tmp (suc n) k j idx ts t h s e =
    let ne : idx ≢ j = λ d. add-mod-ne tmp idx k h (omega arith) (sym (d ∙ e)) in
    let next : (j + 1) % tmp ≡ (idx + suc (suc k)) % tmp =
      rw (e, mod-add-mod) (ap (λ m. m % tmp) (omega arith)) in
    rw (get_or-set_ne ts idx j t new_thread ne) (
      ap (λ m. startable (created j) (get_or ts j new_thread) + m)
        (startables-set created tmp n (suc k) ((j + 1) % tmp) idx ts t h (omega arith) next))

run_worker-startable :
    (t : Thread) (c : ℤ) (i : ℕ)
    → (if is_neg (run_worker t c).0 then i else i + 1) ≡ i + startable c t
unfolding run_worker
run_worker-startable t c i = ground arith

startable-le_one : (c : ℤ) (t : Thread) → startable c t ≤ 1
startable-le_one c t = ground arith

startables-le :
    (created : ℕ → ℤ) (tmp n idx : ℕ) (ts : List Thread) → startables created tmp n idx ts ≤ n
startables-le created tmp zero idx ts = omega arith
startables-le created tmp (suc n) idx ts = omega (
  arith,
  startable-le_one (created idx) (get_or ts idx new_thread),
  startables-le created tmp n ((idx + 1) % tmp) ts,
)

-- What the rounds have done when they stop.
record Started (created : ℕ → ℤ) (tmp cnt n i idx : ℕ) (ts : List Thread)
    (out : ℕ × ℕ × List Thread) : Type 0 where
  count : out.0 ≡ min cnt (i + startables created tmp n idx ts)
  index : out.1 < tmp
  size : length out.2 ≡ length ts

start_rounds-Started :
    (created : ℕ → ℤ) (tmp cnt n i idx : ℕ) (ts : List Thread)
    → idx < tmp
    → n ≤ tmp
    → i ≤ cnt
    → Started created tmp cnt n i idx ts (start_rounds created tmp cnt n i idx ts)
unfolding start_rounds
start_rounds-Started created tmp cnt zero i idx ts h s b = record {
  count = omega arith;
  index = h;
  size = refl;
}
start_rounds-Started created tmp cnt (suc n) i idx ts h s b = elim (Bool-cases (ltb i cnt)) [
  | inl more ↦
      let t = get_or ts idx new_thread in
      let t' = (run_worker t (created idx)).1 in
      let i' = if is_neg (run_worker t (created idx)).0 then i else i + 1 in
      let j = (idx + 1) % tmp in
      let started = run_worker-startable t (created idx) i in
      let one = startable-le_one (created idx) t in
      let same =
        startables-set created tmp n 0 j idx ts t' h (omega arith)
          (ap (λ m. m % tmp) (omega arith)) in
      let ih =
        start_rounds-Started created tmp cnt n i' j (set ts idx t') (omega arith) (omega arith)
          (omega (arith, started, one, ltb→lt i cnt more)) in
      rw (more, start_rounds)
        (record {
          count = omega (arith, ih.count, started, same);
          index = ih.index;
          size = ih.size ∙ length-set ts idx t';
        })
  | inr full ↦ rw (full, start_rounds) (record { count = ground arith; index = h; size = refl })
]

-- `start_temp_thread` starts as many threads as were wanted, or else every one that can be
-- started: those that are not running and for which `pthread_create` does not return a negative number,
-- which no error of it is, each looked at once from `m_tmp_thread_idx` on. The index stays in range, and no thread is gained or lost.
pub start_temp_thread_count :
    (created : ℕ → ℤ) (p : Pool) (cnt : ℕ) (ts : List Thread)
    → p.tmp_threads ≡ some ts
    → 0 < p.tmp_threads_cnt
    → p.tmp_thread_idx < p.tmp_threads_cnt
    → (i : ℕ) × (p' : Pool) × (ts' : List Thread) × (start_temp_thread created p cnt ≡ some (i, p'))
      × (i ≡ min cnt (startables created p.tmp_threads_cnt p.tmp_threads_cnt p.tmp_thread_idx ts))
      × (p'.tmp_threads ≡ some ts')
      × (length ts' ≡ length ts)
      × (p'.tmp_thread_idx < p'.tmp_threads_cnt)
unfolding start_temp_thread
start_temp_thread_count created p cnt ts e pos h =
    let tmp = p.tmp_threads_cnt in
    let want = if ltb tmp cnt then tmp else cnt in
    let out = start_rounds created tmp want tmp 0 p.tmp_thread_idx ts in
    let r =
      start_rounds-Started created tmp want tmp 0 p.tmp_thread_idx ts h (omega arith)
        (omega arith) in
    (
      out.0,
      record p { tmp_thread_idx = out.1; tmp_threads = some out.2 },
      out.2,
      ground (arith, e),
      ground (arith, r.count, startables-le created tmp tmp p.tmp_thread_idx ts),
      refl,
      r.size,
      r.index,
    )

check-grown :
    (created : ℕ → ℤ) (p p' : Pool) (q : TaskQueue) (i : ℕ)
    → p.task_q ≡ some q
    → (ltb p.task_q_past_sz q.size && ltb p.threads_cnt q.total_task_cnt) ≡ true
    → start_temp_thread created p (q.size - p.task_q_past_sz) ≡ some (i, p')
    → check_need_more_thread created p
      ≡ some (record p' {
        too_busy = i == 0 && p.busy_control && leb p.task_que_max_size q.size;
        task_q_past_sz = q.size;
      })
unfolding check_need_more_thread
check-grown created p p' q i e g s = ground arith

min-eq_zero : (w f i : ℕ) → 0 < w → i ≡ min w f → (i == 0) ≡ (f == 0)
min-eq_zero w f i h e = ground arith

check-calm :
    (created : ℕ → ℤ) (p : Pool) (q : TaskQueue)
    → p.task_q ≡ some q
    → (ltb p.task_q_past_sz q.size && ltb p.threads_cnt q.total_task_cnt) ≡ false
    → check_need_more_thread created p
      ≡ some (record p { too_busy = false; task_q_past_sz = q.size })
unfolding check_need_more_thread
check-calm created p q e g = ground arith

-- One round of the master thread: the size is remembered, and the pool is too busy exactly when
-- the queue has grown, there were more tasks than permanent threads so far, busy control is on,
-- the queue has reached its limit, and no temporary thread could be started.
pub check_need_more_thread_busy :
    (created : ℕ → ℤ) (p : Pool) (q : TaskQueue) (ts : List Thread)
    → p.task_q ≡ some q
    → p.tmp_threads ≡ some ts
    → 0 < p.tmp_threads_cnt
    → p.tmp_thread_idx < p.tmp_threads_cnt
    → let free = startables created p.tmp_threads_cnt p.tmp_threads_cnt p.tmp_thread_idx ts in
      (p' : Pool) × (check_need_more_thread created p ≡ some p')
      × (p'.task_q_past_sz ≡ q.size)
      × (p'.too_busy ≡ (
          (ltb p.task_q_past_sz q.size && ltb p.threads_cnt q.total_task_cnt)
          && (free == 0 && p.busy_control && leb p.task_que_max_size q.size)))
unfolding check_need_more_thread
check_need_more_thread_busy created p q ts eq et pos h =
    elim (Bool-cases (ltb p.task_q_past_sz q.size && ltb p.threads_cnt q.total_task_cnt)) [
      | inl grown ↦
          let (i, p', ts', s, c, kept, len, low) =
            start_temp_thread_count created p (q.size - p.task_q_past_sz) ts et pos h in
          (
            record p' {
              too_busy = i == 0 && p.busy_control && leb p.task_que_max_size q.size;
              task_q_past_sz = q.size;
            },
            check-grown created p p' q i eq grown s,
            refl,
            rw grown (
                ap (λ b. b && p.busy_control && leb p.task_que_max_size q.size)
                  (min-eq_zero (q.size - p.task_q_past_sz) _ i (ground arith) c)),
          )
      | inr calm ↦ (
        record p { too_busy = false; task_q_past_sz = q.size },
        check-calm created p q eq calm,
        refl,
        rw calm refl,
      )
    ]
