-- ===== src/Be/Fifo/Open.antt =====
-- Whose it is to write a next that is NULL, before and after a step.
use eparallel.Common.{
  update, update_at, update_ne, ℕ, suc, ◌≤◌, ◌<◌, ◌≡◌, ◌≢◌, ◌⊎◌, inl, inr, refl, sym, ap, ap₂, ◌∙◌,
  arith, ◌==◌, dec_eq, Bool, true, Bool-cases, if◌then◌else◌,
}
use eparallel.Be.Fifo.{
  Shared, Pc, idle, pushing, push_head, push_read, linking, push_counts, popping, pop_head,
  pop_read, pop_next, popped, pop_counts, Act, calls_push, calls_pop, goes_on, taken, fresh, look,
  turn, step, is_idle, same_info, Gives, World, pop_exchange, hand_out, link, new_node,
  push_exchange,
}
use eparallel.Be.Fifo.Inv.{Core, Owned, Links, Claim}
use eparallel.Be.Fifo.Kept.{apart_places}
use eparallel.Be.Fifo.Turns.{same-info}

-- A node in the queue with a later one whose next is not written.
abbrev pub Open : {A : Type 0} → Shared A → ℕ → Type 0
Open m k = (m.pops ≤ k) × (suc k < m.pushes) × (m.next (m.pushed_node k) ≡ 0)

-- Some thread has still to write it.
abbrev pub Pending : {A : Type 0} → World A → Type 0
Pending w =
    (k : ℕ)
    → Open w.shared k
    → (s : ℕ) × (w.threads s ≡ linking (w.shared.pushed_node (suc k)) (w.shared.pushed_node k))

idle-NotLinking : (pc : Pc) → is_idle pc ≡ true → (a b : ℕ) → pc ≢ linking a b
idle-NotLinking pc i a b e = ground (arith, sym i ∙ ap is_idle e)

-- After a step of a thread from `pc`: it is for this thread to write the next of a node, or it was
-- for another thread before.
module _ {A : Type 0} (m : Shared A) (pc : Pc) where
  pub record Was (k : ℕ) (n : Shared A) (pc' : Pc) : Type 0 where
    pub opened : Open m k
    pub node : n.pushed_node k ≡ m.pushed_node k
    pub follow : n.pushed_node (suc k) ≡ m.pushed_node (suc k)
    pub other : (pc ≢ linking (m.pushed_node (suc k)) (m.pushed_node k)) ⊎ (pc' ≡ pc)

  abbrev pub Settles : Shared A × Pc → Type 0
  Settles (n, pc') =
      (k : ℕ) → Open n k → (pc' ≡ linking (n.pushed_node (suc k)) (n.pushed_node k)) ⊎ Was k n pc'

  stays : (pc' : Pc) → ((a b : ℕ) → pc ≢ linking a b) ⊎ (pc' ≡ pc) → Settles (m, pc')
  stays pc' d k o = inr (record {
    opened = o;
    node = refl;
    follow = refl;
    other = elim d [ inl f ↦ inl (f (m.pushed_node (suc k)) (m.pushed_node k)) | inr e ↦ inr e ];
  })

module _ {A : Type 0} (t : ℕ) (m : Shared A) (c : Core m) where
  looks : (oh ot nh : ℕ) → Settles m (pop_read oh ot) (m, look oh ot nh)
  looks oh ot nh = stays m (pop_read oh ot) (look oh ot nh) (inl (λ a b e. ground (arith, e)))

  tail_node : (k : ℕ) → m.pops ≤ k → m.pushes ≡ suc k → m.m_info.tail ≡ m.pushed_node k
  tail_node k lo e = elim c.ends [
    | inl (d, _, _) ↦ absurd (omega (arith, d, lo, e))
    | inr (_, l, _, w, z) ↦ z ∙ ap m.pushed_node (omega (arith, w, e))
  ]

  exchanges_push :
      (nod oh ot : ℕ)
      → Owned m t nod
      → Settles m (push_read nod oh ot) (
          if same_info m.m_info oh ot
          then (push_exchange m t nod, linking nod ot)
          else (m, pushing nod))
  unfolding push_exchange
  exchanges_push nod oh ot own = elim (Bool-cases (same_info m.m_info oh ot)) [
    | inr e ↦ rw e (stays m (push_read nod oh ot) (pushing nod) (inl (λ a b z. ground (arith, z))))
    | inl e ↦ rw e (λ k (lo, hi, z). elim (dec_eq (suc k) m.pushes) [
      | inr old ↦ inr (record {
        opened = (
          lo,
          omega (arith, hi, old),
          sym (ap m.next (update_ne m.pushed_node nod (omega (arith, hi)))) ∙ z,
        );
        node = update_ne m.pushed_node nod (omega (arith, hi));
        follow = update_ne m.pushed_node nod old;
        other = inl (λ y. ground (arith, y));
      })
      | inl last ↦
          let first : update m.pushed_node m.pushes nod (suc k) ≡ nod =
            update_at m.pushed_node nod last in
          let tail = (same-info m.m_info oh ot e).1 in
          let node =
            tail_node k lo (sym last) ∙ sym (update_ne m.pushed_node nod (omega (arith, last))) in
          inl (ap₂ linking (sym first) (sym tail ∙ node))
    ])
  ]

  exchanges_pop :
      (oh ot nh : ℕ)
      → Settles m (pop_next oh ot nh) (
          if same_info m.m_info oh ot
          then (pop_exchange m t oh nh, popped oh m.pops)
          else (m, popping))
  unfolding pop_exchange
  exchanges_pop oh ot nh = elim (Bool-cases (same_info m.m_info oh ot)) [
    | inr e ↦ rw e (stays m (pop_next oh ot nh) popping (inl (λ a b z. ground (arith, z))))
    | inl e ↦ rw e (λ k (lo, hi, z). inr (record {
      opened = (omega (arith, lo), hi, z);
      node = refl;
      follow = refl;
      other = inl (λ y. ground (arith, y));
    }))
  ]

  writes_link :
      (nod ot : ℕ)
      → (ot ≡ 0) ⊎ Links m t nod ot
      → Settles m (linking nod ot) (link m nod ot, push_counts)
  unfolding link
  writes_link nod ot l = elim (Bool-cases (ot == 0)) [
    | inl e ↦ rw e (λ k (lo, hi, z).
        let nz = (c.cells k lo (omega (arith, hi))).nonnull in
        inr (record {
          opened = (lo, hi, z);
          node = refl;
          follow = refl;
          other = inl (λ y. nz (ground (arith, y, e)));
        }))
    | inr e ↦ elim l [
      | inl z ↦ absurd (ground (arith, e, z))
      | inr w ↦ rw e (λ k (lo, hi, z). elim (dec_eq (m.pushed_node k) ot) [
        | inl same ↦ absurd (written w (sym (update_at m.next nod same) ∙ z))
        | inr d ↦ inr (record {
          opened = (lo, hi, sym (update_ne m.next nod d) ∙ z);
          node = refl;
          follow = refl;
          other = inl (λ y. d (ground (arith, y)));
        })
      ])
    ]
  ]
    where
      written : Links m t nod ot → nod ≢ 0
      written w z = (c.cells (suc w.rank) (omega (arith, w.waits)) w.within).nonnull (w.new ∙ z)

  frees :
      (nod rank : ℕ) (keeps : Bool) (n : ℕ) (x : A)
      → m.place nod ≡ taken t
      → Settles m (popped nod rank) (hand_out m nod rank keeps n x, pop_counts)
  unfolding hand_out
  frees nod rank keeps n x p = λ k (lo, hi, z).
      let q = (c.cells k lo (omega (arith, hi))).placed in
      let d : m.pushed_node k ≢ nod = apart_places m q p (λ y. ground (arith, y)) in
      inr (record {
        opened = (lo, hi, sym (update_ne m.next n d) ∙ z);
        node = refl;
        follow = refl;
        other = inl (λ y. ground (arith, y));
      })

  counts :
      (pc : Pc)
      → ((a b : ℕ) → pc ≢ linking a b)
      → (n : ℕ) → Settles m pc (record m { m_sz = n }, idle)
  counts pc d n = λ k o. inr (record {
    opened = o;
    node = refl;
    follow = refl;
    other = inl (d (m.pushed_node (suc k)) (m.pushed_node k));
  })

  allocates :
      (v : A) (nod : ℕ) (pc : Pc)
      → is_idle pc ≡ true
      → m.place nod ≡ fresh
      → Settles m pc (new_node m t v nod, pushing nod)
  unfolding new_node
  allocates v nod pc i p = λ k (lo, hi, z).
      let q = (c.cells k lo (omega (arith, hi))).placed in
      let d : m.pushed_node k ≢ nod = apart_places m q p (λ y. ground (arith, y)) in
      inr (record {
        opened = (lo, hi, sym (update_ne m.next 0 d) ∙ z);
        node = refl;
        follow = refl;
        other = inl (idle-NotLinking pc i (m.pushed_node (suc k)) (m.pushed_node k));
      })

  step-Settles :
      (keeps : Bool) (n : ℕ) (x : A) (pc : Pc) → Claim m t pc → Settles m pc (step keeps n x t pc m)
  unfolding step
  step-Settles keeps n x idle h = stays m idle idle (inr refl)
  step-Settles keeps n x (pushing nod) h =
      stays m (pushing nod) (push_head nod m.m_info.head) (inl (λ a b e. ground (arith, e)))
  step-Settles keeps n x (push_head nod oh) h =
      stays m (push_head nod oh) (push_read nod oh m.m_info.tail) (inl (λ a b e. ground (arith, e)))
  step-Settles keeps n x (push_read nod oh ot) h = exchanges_push nod oh ot h
  step-Settles keeps n x (linking nod ot) h = writes_link nod ot h
  step-Settles keeps n x push_counts h = counts push_counts (λ a b e. ground (arith, e)) _
  step-Settles keeps n x popping h =
      stays m popping (pop_head m.m_info.head) (inl (λ a b e. ground (arith, e)))
  step-Settles keeps n x (pop_head oh) h =
      stays m (pop_head oh) (pop_read oh m.m_info.tail) (inl (λ a b e. ground (arith, e)))
  step-Settles keeps n x (pop_read oh ot) h = elim (Bool-cases (oh == 0)) [
    | inl e ↦ rw e (stays m (pop_read oh ot) idle (inl (λ a b z. ground (arith, z))))
    | inr e ↦ rw e (looks oh ot (m.next oh))
  ]
  step-Settles keeps n x (pop_next oh ot nh) h = exchanges_pop oh ot nh
  step-Settles keeps n x (popped nod rank) (p, _, _) = frees nod rank keeps n x p
  step-Settles keeps n x pop_counts h = counts pop_counts (λ a b e. ground (arith, e)) _

  pub turn-Settles :
      (act : Act A) (pc : Pc) → Claim m t pc → Gives act m → Settles m pc (turn act t pc m)
  unfolding turn
  turn-Settles (calls_push v nod) pc h (_, f) = elim (Bool-cases (is_idle pc)) [
    | inr e ↦ rw e (stays m pc pc (inr refl))
    | inl e ↦ rw e (allocates v nod pc e f)
  ]
  turn-Settles calls_pop pc h g = elim (Bool-cases (is_idle pc)) [
    | inr e ↦ rw e (stays m pc pc (inr refl))
    | inl e ↦ rw e (stays m pc popping (inl (idle-NotLinking pc e)))
  ]
  turn-Settles (goes_on keeps n x) pc h g = step-Settles keeps n x pc h
