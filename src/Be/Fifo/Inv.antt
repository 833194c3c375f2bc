-- ===== src/Be/Fifo/Inv.antt =====
-- What holds of a `fifo` that threads share, of its queue and of each thread.
use eparallel.Common.{ℕ, suc, ◌≤◌, ◌<◌, ◌≡◌, ◌≢◌, ◌⊎◌, inl, inr, refl, sym, ◌∙◌, arith, some}
use eparallel.Be.Fifo.{
  Shared, Place, fresh, mine, inside, taken, gone, Pc, idle, pushing, push_head, push_read, linking,
  push_counts, popping, pop_head, pop_read, pop_next, popped, pop_counts,
}

-- A node that has been in the queue, or is.
abbrev pub Passed : Place → Type 0
Passed fresh = ⊥
Passed (mine t) = ⊥
Passed (inside k t) = Unit {0}
Passed (taken t) = Unit {0}
Passed gone = Unit {0}

abbrev pub IsInside : Place → Type 0
IsInside (inside k t) = Unit {0}
IsInside _ = ⊥

module _ {A : Type 0} (m : Shared A) where
  -- The node of rank `k` in the queue: the next of it is the node of the next rank, or not yet
  -- written.
  pub record Cell (k : ℕ) : Type 0 where
    pub nonnull : m.pushed_node k ≢ 0
    pub owner : ℕ
    pub placed : m.place (m.pushed_node k) ≡ inside k owner
    pub value : m.val (m.pushed_node k) ≡ m.pushed_val k
    pub linked :
        (m.next (m.pushed_node k) ≡ 0)
        ⊎ ((suc k < m.pushes) × (m.next (m.pushed_node k) ≡ m.pushed_node (suc k)))

  abbrev pub Ends : Type 0
  Ends =
      ((m.pops ≡ m.pushes) × (m.m_info.head ≡ 0) × (m.m_info.tail ≡ 0))
      ⊎ ((m.m_info.head ≡ m.pushed_node m.pops)
          × (l : ℕ) × (m.pops ≤ l)
          × (m.pushes ≡ suc l)
          × (m.m_info.tail ≡ m.pushed_node l))

  pub record Core : Type 0 where
    pub counted : m.pops ≤ m.pushes
    pub cells : (k : ℕ) → m.pops ≤ k → k < m.pushes → Cell k
    pub ends : Ends
    pub handed : (k : ℕ) (x : A) → m.popped_val k ≡ some x → (k < m.pops) × (m.pushed_val k ≡ x)

  -- The node of a push before its exchange.
  abbrev pub Owned : ℕ → ℕ → Type 0
  Owned t nod = (nod ≢ 0) × (m.place nod ≡ mine t) × (m.next nod ≡ 0)

  -- Between the exchange of a push and its write, where the queue was not empty.
  pub record Links (t nod ot : ℕ) : Type 0 where
    pub rank : ℕ
    pub waits : m.pops ≤ rank
    pub within : suc rank < m.pushes
    pub before : m.pushed_node rank ≡ ot
    pub new : m.pushed_node (suc rank) ≡ nod
    pub unset : m.next ot ≡ 0
    pub own : m.place nod ≡ inside (suc rank) t

  -- Before the exchange of a pop.
  pub record Looked (oh ot nh : ℕ) : Type 0 where
    pub nonnull : oh ≢ 0
    pub seen : Passed (m.place oh)
    pub last : oh ≡ ot → nh ≡ 0
    pub more : oh ≢ ot → nh ≢ 0
    pub follows : oh ≢ ot → IsInside (m.place oh) → m.next oh ≡ nh

  abbrev pub Claim : ℕ → Pc → Type 0
  Claim t idle = Unit {0}
  Claim t (pushing nod) = Owned t nod
  Claim t (push_head nod oh) = Owned t nod
  Claim t (push_read nod oh ot) = Owned t nod
  Claim t (linking nod ot) = (ot ≡ 0) ⊎ Links t nod ot
  Claim t push_counts = Unit {0}
  Claim t popping = Unit {0}
  Claim t (pop_head oh) = (oh ≡ 0) ⊎ Passed (m.place oh)
  Claim t (pop_read oh ot) = (oh ≡ 0) ⊎ Passed (m.place oh)
  Claim t (pop_next oh ot nh) = Looked oh ot nh
  Claim t (popped nod rank) =
      (m.place nod ≡ taken t) × (rank < m.pops) × (m.val nod ≡ m.pushed_val rank)
  Claim t pop_counts = Unit {0}

-- What a step of thread `t` from `m` to `n` leaves to the other threads.
module _ {A : Type 0} (t : ℕ) (m n : Shared A) where
  pub record Frame : Type 0 where
    pub owned : (s a : ℕ) → s ≢ t → Owned m s a → Owned n s a
    pub links : (s nod ot : ℕ) → s ≢ t → Links m s nod ot → Links n s nod ot
    pub passed : (a : ℕ) → Passed (m.place a) → Passed (n.place a)
    pub inner :
        (a : ℕ)
        → Passed (m.place a)
        → IsInside (n.place a)
        → IsInside (m.place a) × ((m.next a ≢ 0) → n.next a ≡ m.next a)
    pub took : (s a : ℕ) → s ≢ t → m.place a ≡ taken s → (n.place a ≡ taken s) × (n.val a ≡ m.val a)
    pub grows : m.pops ≤ n.pops
    pub keeps : (k : ℕ) → k < m.pops → n.pushed_val k ≡ m.pushed_val k

module _ {A : Type 0} {t : ℕ} {m n : Shared A} (f : Frame t m n) where
  Looked-Frame : (oh ot nh : ℕ) → Looked m oh ot nh → Looked n oh ot nh
  Looked-Frame oh ot nh l = record {
    nonnull = l.nonnull;
    seen = f.passed oh l.seen;
    last = l.last;
    more = l.more;
    follows = λ d i.
        let (i', keep) = f.inner oh l.seen i in
        let e = l.follows d i' in keep (λ z. l.more d (sym e ∙ z)) ∙ e;
  }

  pub Claim-Frame : (s : ℕ) (pc : Pc) → s ≢ t → Claim m s pc → Claim n s pc
  Claim-Frame s idle d c = tt
  Claim-Frame s (pushing nod) d c = f.owned s nod d c
  Claim-Frame s (push_head nod oh) d c = f.owned s nod d c
  Claim-Frame s (push_read nod oh ot) d c = f.owned s nod d c
  Claim-Frame s (linking nod ot) d (inl z) = inl z
  Claim-Frame s (linking nod ot) d (inr l) = inr (f.links s nod ot d l)
  Claim-Frame s push_counts d c = tt
  Claim-Frame s popping d c = tt
  Claim-Frame s (pop_head oh) d (inl z) = inl z
  Claim-Frame s (pop_head oh) d (inr p) = inr (f.passed oh p)
  Claim-Frame s (pop_read oh ot) d (inl z) = inl z
  Claim-Frame s (pop_read oh ot) d (inr p) = inr (f.passed oh p)
  Claim-Frame s (pop_next oh ot nh) d c = Looked-Frame oh ot nh c
  Claim-Frame s (popped nod rank) d (p, r, v) =
      let (p', v') = f.took s nod d p in
      (p', omega (arith, r, f.grows), v' ∙ v ∙ sym (f.keeps rank r))
  Claim-Frame s pop_counts d c = tt

-- A step that leaves the queue and the nodes as they are.
pub same-Frame : {A : Type 0} (t : ℕ) (m : Shared A) → Frame t m m
same-Frame t m = record {
  owned = λ s a d c. c;
  links = λ s nod ot d l. l;
  passed = λ a p. p;
  inner = λ a p i. (i, λ z. refl);
  took = λ s a d p. (p, refl);
  grows = omega arith;
  keeps = λ k h. refl;
}
