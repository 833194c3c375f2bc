-- ===== src/Be/Fifo.antt =====
-- be/be_fifo.h: `fifo`, a queue that threads share without a lock.
-- A node is an address and 0 is NULL. A step is one access to what is shared: a load of one half
-- of `m_info`, a compare and exchange of both, a read or write of a node, an atomic count. `long`
-- has 32 bits, so that both halves fit into the 64 bits of the exchange.
pub mod Inv
pub mod Kept
pub mod PushSteps
pub mod PopSteps
pub mod Turns
pub mod Order
pub mod Open
pub mod Settled
use eparallel.Common.{
  update, ℕ, zero, suc, ◌+◌, ◌-◌, ◌%◌, ◌^◌, Bool, true, false, not, ◌&&◌, Option, none, some, ◌==◌,
  if◌then◌else◌, ◌≡◌, ◌≢◌,
}

-- `info`
pub record Info : Type 0 where
  pub head : ℕ
  pub tail : ℕ

abbrev pub no_node : Info
no_node = record { head = 0; tail = 0 }

-- What has become of the node at an address, for the proofs: a push by a thread owns it, it is the
-- one that the push of that rank by that thread put into the queue, a pop by a thread owns it.
pub data Place : Type 0 where
  fresh : Place
  mine : ℕ → Place
  inside : ℕ → ℕ → Place
  taken : ℕ → Place
  gone : Place

-- The queue and the nodes. The history counts the exchanges of pushes and of pops; the node and
-- the value of a push have its rank, and so has the value that a pop hands out.
pub record Shared (A : Type 0) : Type 0 where
  pub m_info : Info
  pub m_sz : ℕ
  pub next : ℕ → ℕ
  pub val : ℕ → A
  pub place : ℕ → Place
  pub pushes : ℕ
  pub pops : ℕ
  pub pushed_node : ℕ → ℕ
  pub pushed_val : ℕ → A
  pub popped_val : ℕ → Option A

-- Where a thread is, with its local variables: `nod`, the halves of `oldinfo`, `newinfo.head`.
pub data Pc : Type 0 where
  idle : Pc
  pushing : ℕ → Pc
  push_head : ℕ → ℕ → Pc
  push_read : ℕ → ℕ → ℕ → Pc
  linking : ℕ → ℕ → Pc
  push_counts : Pc
  popping : Pc
  pop_head : ℕ → Pc
  pop_read : ℕ → ℕ → Pc
  pop_next : ℕ → ℕ → ℕ → Pc
  popped : ℕ → ℕ → Pc
  pop_counts : Pc

-- What a thread does where it has a choice: it calls `push`, with the address that the allocator
-- gives; it calls `pop`; it goes on, and where it frees a node, having read its value or not, the
-- allocator leaves some contents.
pub data Act (A : Type 0) : Type 0 where
  calls_push : A → ℕ → Act A
  calls_pop : Act A
  goes_on : Bool → ℕ → A → Act A

-- `newinfo` of push.
unfoldable pub push_info : Info → ℕ → Info
push_info oldinfo nod = record {
  head = if oldinfo.head == 0 then nod else oldinfo.head;
  tail = nod;
}

-- `newinfo` of pop, by `newinfo.head` where the queue has more than one node.
unfoldable pub pop_info : Info → ℕ → Info
pop_info oldinfo nh =
    if oldinfo.head == oldinfo.tail then no_node else record { head = nh; tail = oldinfo.tail }

-- `atomic_compare_exchange64` has found `oldinfo`.
unfoldable pub same_info : Info → ℕ → ℕ → Bool
same_info found oh ot = (found.head == oh) && (found.tail == ot)

abbrev pub is_idle : Pc → Bool
is_idle idle = true
is_idle _ = false

-- The node at the head has been found: what pop makes of it and of its `next`.
unfoldable pub look : ℕ → ℕ → ℕ → Pc
look oh ot nh = if oh == ot then pop_next oh ot 0 else if nh == 0 then idle else pop_next oh ot nh

module _ {A : Type 0} where
  -- The node that push gets.
  unfoldable pub new_node : Shared A → ℕ → A → ℕ → Shared A
  new_node m t v nod = record m {
    next = update m.next nod 0;
    val = update m.val nod v;
    place = update m.place nod (mine t);
  }

  -- The exchange of push, where it succeeds and `oldinfo` is what it has found.
  unfoldable pub push_exchange : Shared A → ℕ → ℕ → Shared A
  unfolding push_info
  push_exchange m t nod = record m {
    m_info = push_info m.m_info nod;
    place = update m.place nod (inside m.pushes t);
    pushes = suc m.pushes;
    pushed_node = update m.pushed_node m.pushes nod;
    pushed_val = update m.pushed_val m.pushes (m.val nod);
  }

  -- `((node*)oldinfo.tail)->next = nod`
  unfoldable pub link : Shared A → ℕ → ℕ → Shared A
  link m nod ot = if ot == 0 then m else record m { next = update m.next ot nod }

  -- The exchange of pop, where it succeeds.
  unfoldable pub pop_exchange : Shared A → ℕ → ℕ → ℕ → Shared A
  unfolding pop_info
  pop_exchange m t oh nh = record m {
    m_info = pop_info m.m_info nh;
    place = update m.place oh (taken t);
    pops = suc m.pops;
  }

  -- `t = nod->val`, in the pop that hands a value out, and `deallocate`.
  unfoldable pub hand_out : Shared A → ℕ → ℕ → Bool → ℕ → A → Shared A
  hand_out m nod rank keeps junk_next junk_val = record m {
    next = update m.next nod junk_next;
    val = update m.val nod junk_val;
    place = update m.place nod gone;
    popped_val = if keeps then update m.popped_val rank (some (m.val nod)) else m.popped_val;
  }

  -- The next step of thread `t` in push or pop.
  unfoldable pub step : Bool → ℕ → A → ℕ → Pc → Shared A → Shared A × Pc
  unfolding push_exchange same_info link look pop_exchange hand_out
  step keeps n x t idle m = (m, idle)
  step keeps n x t (pushing nod) m = (m, push_head nod m.m_info.head)
  step keeps n x t (push_head nod oh) m = (m, push_read nod oh m.m_info.tail)
  step keeps n x t (push_read nod oh ot) m =
      if same_info m.m_info oh ot then (push_exchange m t nod, linking nod ot) else (m, pushing nod)
  step keeps n x t (linking nod ot) m = (link m nod ot, push_counts)
  step keeps n x t push_counts m = (record m { m_sz = (m.m_sz + 1) % 2 ^ 32 }, idle)
  step keeps n x t popping m = (m, pop_head m.m_info.head)
  step keeps n x t (pop_head oh) m = (m, pop_read oh m.m_info.tail)
  step keeps n x t (pop_read oh ot) m = if oh == 0 then (m, idle) else (m, look oh ot (m.next oh))
  step keeps n x t (pop_next oh ot nh) m =
      if same_info m.m_info oh ot then (pop_exchange m t oh nh, popped oh m.pops) else (m, popping)
  step keeps n x t (popped nod rank) m = (hand_out m nod rank keeps n x, pop_counts)
  step keeps n x t pop_counts m = (record m { m_sz = (m.m_sz + (2 ^ 32 - 1)) % 2 ^ 32 }, idle)

  -- The next step of thread `t`; a call begins only where it is in none.
  unfoldable pub turn : Act A → ℕ → Pc → Shared A → Shared A × Pc
  unfolding new_node step
  turn (calls_push v nod) t pc m = if is_idle pc then (new_node m t v nod, pushing nod) else (m, pc)
  turn calls_pop t pc m = if is_idle pc then (m, popping) else (m, pc)
  turn (goes_on keeps n x) t pc m = step keeps n x t pc m

  -- The allocator gives no address twice.
  abbrev pub Gives : Act A → Shared A → Type 0
  Gives (calls_push v nod) m = (nod ≢ 0) × (m.place nod ≡ fresh)
  Gives _ m = Unit {0}

pub record World (A : Type 0) : Type 0 where
  pub shared : Shared A
  pub threads : ℕ → Pc

-- An empty queue and threads in no call; the constructor does not set `m_sz`.
abbrev pub start : {A : Type 0} → ℕ → (ℕ → ℕ) → (ℕ → A) → World A
start sz next val = record {
  shared = record {
    m_info = no_node;
    m_sz = sz;
    next = next;
    val = val;
    place = λ a. fresh;
    pushes = 0;
    pops = 0;
    pushed_node = λ k. 0;
    pushed_val = λ k. val 0;
    popped_val = λ k. none;
  };
  threads = λ t. idle;
}

-- A thread takes a step.
unfoldable pub run : {A : Type 0} → Act A → ℕ → World A → World A
unfolding turn
run act t w =
    let (m, pc) = turn act t (w.threads t) w.shared in
    record { shared = m; threads = update w.threads t pc }

-- Threads have taken steps in some order.
pub data Reach {A : Type 0} (w : World A) : World A → Type 0 where
  here : Reach w w
  then_run :
      {u : World A} → Reach w u → (act : Act A) (t : ℕ) → Gives act u.shared → Reach w (run act t u)
