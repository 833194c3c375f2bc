-- ===== src/TaskQueue/Threads.antt =====
-- ep's `task_queue` under many threads. `get_task` and `del_task` first take the semaphore and
-- then the lock: between the two a thread holds a claim, and other threads may run.
pub mod Claims
pub mod Shutdown
use eparallel.Common.{
  ℕ, zero, suc, ◌+◌, ◌-◌, ◌<◌, ◌≡◌, ◌⊎◌, false, List, [], ◌∷◌, some, arith, get_elem?, set, ℤ,
}
use eparallel.TaskQueue.{
  TaskQueue, max_priority_num, sem_value_max, sem_try_take, add_task, get_locked, del_locked, stop,
}
use eparallel.TaskQueue.Refine.{IsValid}

-- What a thread is about: nothing, or the second half of a call.
pub data Pc : Type 0 where
  idle : Pc
  getting : Pc
  deleting : ℕ → ℕ → Pc

pub record System : Type 0 where
  pub queue : TaskQueue
  pub threads : List Pc

-- One atomic step of some thread.
pub data Step (s u : System) : Type 0 where
  adds :
      (t p : ℕ)
      → 0 < t
      → s.queue.size < sem_value_max
      → u ≡ record s { queue = (add_task s.queue t p).1 }
      → Step s u
  claims_get :
      (i : ℕ) (q : TaskQueue)
      → get_elem? s.threads i ≡ some idle
      → sem_try_take s.queue ≡ some q
      → u ≡ record { queue = q; threads = set s.threads i getting }
      → Step s u
  gets :
      (i : ℕ)
      → get_elem? s.threads i ≡ some getting
      → u ≡ record { queue = (get_locked s.queue).1; threads = set s.threads i idle }
      → Step s u
  claims_del :
      (i t p : ℕ) (q : TaskQueue)
      → p < max_priority_num
      → get_elem? s.threads i ≡ some idle
      → sem_try_take s.queue ≡ some q
      → u ≡ record { queue = q; threads = set s.threads i (deleting t p) }
      → Step s u
  dels :
      (i t p : ℕ) (c : ℤ) (q : TaskQueue)
      → get_elem? s.threads i ≡ some (deleting t p)
      → del_locked s.queue t p ≡ some (c, q)
      → u ≡ record { queue = q; threads = set s.threads i idle }
      → Step s u
  stops : u ≡ record s { queue = stop s.queue } → Step s u

pub data Reach (s : System) : System → Type 0 where
  here : Reach s s
  next : {t u : System} → Reach s t → Step t u → Reach s u

abbrev pub held : Pc → ℕ
held idle = 0
held getting = 1
held (deleting t p) = 1

-- The threads that hold a claim.
abbrev pub holders : List Pc → ℕ
holders [] = 0
holders (c ∷ cs) = held c + holders cs

abbrev IsInRange : Pc → Type 0
IsInRange idle = Unit {0}
IsInRange getting = Unit {0}
IsInRange (deleting t p) = p < max_priority_num

abbrev AllInRange : List Pc → Type 0
AllInRange [] = Unit {0}
AllInRange (c ∷ cs) = IsInRange c × AllInRange cs

holders-set :
    (cs : List Pc) (i : ℕ) (a b : Pc)
    → get_elem? cs i ≡ some a
    → holders (set cs i b) + held a ≡ holders cs + held b
holders-set [] i a b e = cc
holders-set (c ∷ cs) zero a b e = let c' : c ≡ a = ground (arith, e) in rw c' (omega arith)
holders-set (c ∷ cs) (suc i) a b e = omega (arith, holders-set cs i a b e)

AllInRange-set :
    (cs : List Pc) (i : ℕ) (b : Pc) → IsInRange b → AllInRange cs → AllInRange (set cs i b)
AllInRange-set [] i b h a = tt
AllInRange-set (c ∷ cs) zero b h a = (h, a.1)
AllInRange-set (c ∷ cs) (suc i) b h a = (a.0, AllInRange-set cs i b h a.1)

get_elem?-IsInRange :
    (cs : List Pc) (i : ℕ) (b : Pc) → get_elem? cs i ≡ some b → AllInRange cs → IsInRange b
get_elem?-IsInRange [] i b e a = cc
get_elem?-IsInRange (c ∷ cs) zero b e a = let c' : c ≡ b = ground (arith, e) in rw (← c') a.0
get_elem?-IsInRange (c ∷ cs) (suc i) b e a = get_elem?-IsInRange cs i b e a.1

-- Every task in the lists is either counted by the semaphore or claimed by a thread.
pub record Inv (s : System) : Type 0 where
  pub valid : IsValid s.queue
  pub balance : s.queue.semp + holders s.threads ≡ s.queue.size
  pub ranges : AllInRange s.threads

sem_try_take_lem :
    (q q' : TaskQueue)
    → sem_try_take q ≡ some q'
    → (q' ≡ record q { semp = q.semp - 1 }) × (0 < q.semp)
unfolding sem_try_take
sem_try_take_lem q q' e = (ground arith, ground arith)

claim-Inv :
    (s : System) (i : ℕ) (b : Pc) (q : TaskQueue)
    → held b ≡ 1
    → IsInRange b
    → get_elem? s.threads i ≡ some idle
    → sem_try_take s.queue ≡ some q
    → Inv s
    → Inv (record { queue = q; threads = set s.threads i b })
claim-Inv s i b q hb rb g e v =
    let (e', h) = sem_try_take_lem s.queue q e in
    record {
      valid = rw e' (record {
        lists = v.valid.lists;
        counted = v.valid.counted;
        small = v.valid.small;
        nonnull = v.valid.nonnull;
      });
      balance = rw e' (omega (arith, holders-set s.threads i idle b g, v.balance));
      ranges = AllInRange-set s.threads i b rb v.ranges;
    }

add_task-cases :
    (q : TaskQueue) (t p : ℕ)
    → ((p < max_priority_num) × (q.stopped ≡ false)) ⊎ ((add_task q t p).1 ≡ q)
unfolding add_task
add_task-cases q t p = ground arith
