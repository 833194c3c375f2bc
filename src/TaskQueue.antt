-- ===== src/TaskQueue.antt =====
-- ep/ep_thread_pool.cpp and ep/ep_thread_pool.h: `task_queue`, with the semaphore of
-- be/be_thread.cpp that it waits on.
-- A task is known by its address, 0 is NULL. A function that holds `m_cs` for its whole body is
-- one step here; one that takes the semaphore before the lock is given in its two halves too.
mod Spec
pub mod Buckets
mod Erase
pub mod Refine
pub mod Delete
pub mod Run
pub mod Clear
pub mod Threads
unfoldable pub use Spec.{
  null, max_priority_num, Entry, tag, tasks, enqueue, remove_entry, contract_step, contract_run,
}
pub use Spec.{Op, add, take, del, shut, Reply, code, got, fault, Contract}
use eparallel.Errno.{fail, ep_invalid_task_priority, ep_task_not_in_queue}
use eparallel.Common.{
  ℕ, zero, suc, ◌+◌, ◌-◌, ◌%◌, ◌^◌, Bool, true, false, Option, none, some, List, [], ◌∷◌, ◌++◌, ltb,
  leb, ◌==◌, if◌then◌else◌, ℤ, pos, negsuc, get_elem?, get_or, set,
}

-- The largest count of a POSIX semaphore on Linux.
abbrev pub sem_value_max : ℕ
sem_value_max = 2147483647

-- u32 counters
abbrev pub inc32 : ℕ → ℕ
inc32 n = (n + 1) % 2 ^ 32

abbrev pub dec32 : ℕ → ℕ
dec32 n = (n + (2 ^ 32 - 1)) % 2 ^ 32

pub record TaskQueue : Type 0 where
  pub oplists : List (List ℕ)
  pub semp : ℕ
  pub size : ℕ
  pub total_task_cnt : ℕ
  pub stopped : Bool

abbrev pub empty_lists : ℕ → List (List ℕ)
empty_lists zero = []
empty_lists (suc n) = [] ∷ empty_lists n

-- The constructor.
unfoldable pub new_queue : TaskQueue
new_queue = record {
  oplists = empty_lists max_priority_num;
  semp = 0;
  size = 0;
  total_task_cnt = 0;
  stopped = false;
}

-- `be_sem_give`: at the largest count `sem_post` fails and changes nothing.
unfoldable pub sem_give : TaskQueue → TaskQueue
sem_give q = if ltb q.semp sem_value_max then record q { semp = q.semp + 1 } else q

-- `be_sem_try_take`: `none` is the failure of `sem_trywait` on a count of 0. `be_sem_take` does
-- the same and waits while this is `none`.
unfoldable pub sem_try_take : TaskQueue → Option TaskQueue
sem_try_take q = if q.semp == 0 then none else some (record q { semp = q.semp - 1 })

unfoldable pub add_task : TaskQueue → ℕ → ℕ → ℤ × TaskQueue
unfolding sem_give
add_task q op priority =
    if leb max_priority_num priority
    then (ep_invalid_task_priority, q)
    else if q.stopped
    then (fail, q)
    else (
      pos 0,
      sem_give (record q {
        oplists = set q.oplists priority (get_or q.oplists priority [] ++ (op ∷ []));
        size = inc32 q.size;
        total_task_cnt = inc32 q.total_task_cnt;
      }),
    )

-- The body of `get_task_by_priority` over the list that it looks at.
pop_bucket : TaskQueue → ℕ → List ℕ → ℕ × TaskQueue
pop_bucket q priority [] = (null, q)
pop_bucket q priority (op ∷ rest) =
    (op, record q { oplists = set q.oplists priority rest; size = dec32 q.size })

-- Called with a priority below `max_priority_num` only.
unfoldable pub get_task_by_priority : TaskQueue → ℕ → ℕ × TaskQueue
unfolding pop_bucket
get_task_by_priority q priority = pop_bucket q priority (get_or q.oplists priority [])

-- The loop of `get_task` and `try_get_task`, with `n` priorities left to try.
unfoldable pub scan : ℕ → ℕ → TaskQueue → ℕ × TaskQueue
scan zero p q = (null, q)
scan (suc n) p q =
    let (op, q') = get_task_by_priority q p in
    elim (op == null) [ true ↦ scan n (p + 1) q' | false ↦ (op, q') ]

-- What `get_task` and `try_get_task` do under the lock.
unfoldable pub get_locked : TaskQueue → ℕ × TaskQueue
get_locked q = scan max_priority_num 0 q

-- `none`: the caller still waits in `be_sem_take`.
unfoldable pub get_task : TaskQueue → Option (ℕ × TaskQueue)
unfolding sem_try_take
get_task q = elim (sem_try_take q) [ none ↦ none | some q' ↦ some (get_locked q') ]

unfoldable pub try_get_task : TaskQueue → ℕ × TaskQueue
unfolding sem_try_take
try_get_task q = elim (sem_try_take q) [ none ↦ (null, q) | some q' ↦ get_locked q' ]

-- The search of `del_task` and the erase: `none` when the task is not in the list.
unfoldable pub erase_op : ℕ → List ℕ → Option (List ℕ)
erase_op op [] = none
erase_op op (x ∷ xs) =
    let rest = erase_op op xs in
    if x == op then some xs else elim rest [ none ↦ none | some r ↦ some (x ∷ r) ]

-- What `del_task` does under the lock. `none` is the access outside `m_oplists`, which the code
-- does not guard.
unfoldable pub del_locked : TaskQueue → ℕ → ℕ → Option (ℤ × TaskQueue)
unfolding sem_give erase_op
del_locked q op priority = elim (get_elem? q.oplists priority) [
  | none ↦ none
  | some l ↦ elim (erase_op op l) [
    | some r ↦ some (pos 0, record q { oplists = set q.oplists priority r; size = dec32 q.size })
    | none ↦ some (ep_task_not_in_queue, sem_give q)
  ]
]

unfoldable pub del_task : TaskQueue → ℕ → ℕ → Option (ℤ × TaskQueue)
unfolding sem_try_take
del_task q op priority = elim (sem_try_take q) [
  | none ↦ some (ep_task_not_in_queue, q)
  | some q' ↦ del_locked q' op priority
]

unfoldable pub stop : TaskQueue → TaskQueue
stop q = record q { stopped = true }

-- The loop of `clear_one_priority` over a list, with `m_size`: the tasks that are recycled.
unfoldable pub clear_list : List ℕ → ℕ → List ℕ × ℕ
clear_list [] size = ([], size)
clear_list (op ∷ rest) size =
    let (recycled, left) = clear_list rest (dec32 size) in
    (if op == null then recycled else op ∷ recycled, left)

unfoldable pub clear_one_priority : TaskQueue → ℕ → List ℕ × TaskQueue
clear_one_priority q priority =
    let (recycled, left) = clear_list (get_or q.oplists priority []) q.size in
    (recycled, record q { oplists = set q.oplists priority []; size = left })

-- The loop of `clear`, with `n` priorities left.
unfoldable pub clear_rounds : ℕ → ℕ → TaskQueue → List ℕ × TaskQueue
clear_rounds zero p q = ([], q)
clear_rounds (suc n) p q =
    let (first, q') = clear_one_priority q p in
    let (rest, q'') = clear_rounds n (p + 1) q' in (first ++ rest, q'')

-- `clear`, but for the mutex: the code takes `m_cs` and does not give it back.
unfoldable pub clear : TaskQueue → List ℕ × TaskQueue
clear q = clear_rounds max_priority_num 0 q

-- One call of a client. `shut` is `stop`, and `take` is `try_get_task`.
unfoldable pub step : TaskQueue → Op → Reply × TaskQueue
unfolding add_task try_get_task del_task stop
step q (add t p) = let (c, q') = add_task q t p in (code c, q')
step q take = let (t, q') = try_get_task q in (got t, q')
step q (del t p) = elim (del_task q t p) [ none ↦ (fault, q) | some (c, q') ↦ (code c, q') ]
step q shut = (code (pos 0), stop q)

unfoldable pub run : TaskQueue → List Op → List Reply
run q [] = []
run q (o ∷ os) = let (r, q') = step q o in r ∷ run q' os
