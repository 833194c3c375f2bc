-- ===== src/Net/MsgQueue.antt =====
-- efnfw/ef_msg_queue.cpp: `msg_queue`, a list of messages behind a mutex and a semaphore.
-- A step is what a thread does under the mutex, or one call of the semaphore; between two steps of
-- a call other threads may run. `m_max_size` is not negative, and below the largest count that a
-- semaphore can have.
pub mod Order
use eparallel.Common.{
  ℕ, zero, suc, ◌+◌, ◌-◌, ◌<◌, ◌≡◌, Option, none, some, List, [], ◌∷◌, ◌++◌, ltb, if◌then◌else◌, ℤ,
  pos,
}
use eparallel.Errno.{fail}
use eparallel.TaskQueue.{sem_value_max}

pub record MsgQueue (M : Type 0) : Type 0 where
  pub m_msglist : List M
  pub m_semp : ℕ
  pub m_max_size : ℕ
  pub m_size : ℕ

module _ {M : Type 0} where
  abbrev pub new : ℕ → MsgQueue M
  new maxsz = record { m_msglist = []; m_semp = 0; m_max_size = maxsz; m_size = 0 }

  -- push_msg under the mutex.
  unfoldable pub push_locked : MsgQueue M → M → ℤ × MsgQueue M
  push_locked q msg =
      if ltb q.m_max_size q.m_size
      then (fail, q)
      else (pos 0, record q { m_msglist = q.m_msglist ++ (msg ∷ []); m_size = q.m_size + 1 })

  -- The call of the semaphore behind it.
  unfoldable pub push_gives : MsgQueue M → ℤ × MsgQueue M
  push_gives q =
      if ltb q.m_semp sem_value_max then (pos 0, record q { m_semp = q.m_semp + 1 }) else (fail, q)

  -- get_msg takes the semaphore: `none` while it has to wait.
  unfoldable pub get_takes : MsgQueue M → Option (MsgQueue M)
  get_takes q = if ltb 0 q.m_semp then some (record q { m_semp = q.m_semp - 1 }) else none

  -- get_msg behind the semaphore: `none` where its assertion fails or the list has no front.
  unfoldable pub get_locked : MsgQueue M → Option (M × MsgQueue M)
  get_locked q = elim q.m_msglist [
    | [] ↦ none
    | msg ∷ rest ↦
        if ltb 0 q.m_size
        then some (msg, record q { m_msglist = rest; m_size = q.m_size - 1 })
        else none
  ]

-- The queue, how many threads are in push_msg between its two steps and in get_msg between its
-- two steps, what has been pushed and what has been got, in order.
pub record System (M : Type 0) : Type 0 where
  pub queue : MsgQueue M
  pub giving : ℕ
  pub getting : ℕ
  pub pushed : List M
  pub got : List M

pub data Step {M : Type 0} (s u : System M) : Type 0 where
  pushes :
      (msg : M) (q : MsgQueue M)
      → push_locked s.queue msg ≡ (pos 0, q)
      → u ≡ record s { queue = q; giving = s.giving + 1; pushed = s.pushed ++ (msg ∷ []) }
      → Step s u
  refused :
      (msg : M) (q : MsgQueue M)
      → push_locked s.queue msg ≡ (fail, q)
      → u ≡ record s { queue = q }
      → Step s u
  gives :
      0 < s.giving
      → u ≡ record s { queue = (push_gives s.queue).1; giving = s.giving - 1 }
      → Step s u
  takes :
      (q : MsgQueue M)
      → get_takes s.queue ≡ some q
      → u ≡ record s { queue = q; getting = s.getting + 1 }
      → Step s u
  gets :
      (msg : M) (q : MsgQueue M)
      → 0 < s.getting
      → get_locked s.queue ≡ some (msg, q)
      → u ≡ record s { queue = q; getting = s.getting - 1; got = s.got ++ (msg ∷ []) }
      → Step s u

pub data Reach {M : Type 0} (s : System M) : System M → Type 0 where
  here : Reach s s
  next : {t u : System M} → Reach s t → Step t u → Reach s u

abbrev pub start : {M : Type 0} → ℕ → System M
start maxsz = record { queue = new maxsz; giving = 0; getting = 0; pushed = []; got = [] }
