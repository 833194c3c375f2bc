-- ===== src/Be/Fifo/Turns.antt =====
-- Every step of a thread in a `fifo` keeps what holds of it, and leaves the claims of the others.
use eparallel.Common.{
  update_self, ◌⊎◌, ℕ, ◌≡◌, ◌≢◌, inl, inr, refl, ap, ◌∙◌, arith, ◌==◌, dec_eq, Bool, true, false,
  Bool-cases, if◌then◌else◌,
}
use eparallel.Be.Fifo.{
  Shared, Pc, idle, pushing, push_head, push_read, linking, push_counts, popping, pop_head,
  pop_read, pop_next, popped, pop_counts, Act, calls_push, calls_pop, goes_on, mine, look, turn,
  step, is_idle, same_info, Info, Gives, pop_exchange, link, push_exchange,
}
use eparallel.Be.Fifo.Inv.{Passed, Core, Owned, Links, Looked, Claim, Frame, same-Frame}
use eparallel.Be.Fifo.Kept.{Cell-Kept, Links-Kept}
use eparallel.Be.Fifo.PushSteps.{
  new_node-Core, new_node-Frame, push_exchange-Core, push_exchange-Frame, push_exchange-Links,
  link-Core, link-Frame,
}
use eparallel.Be.Fifo.PopSteps.{
  pop_exchange-Core, pop_exchange-Frame, pop_exchange-Claim, hand_out-Core, hand_out-Frame,
}

-- What a step of thread `t` from `m` makes.
pub record Stepped {A : Type 0} (t : ℕ) (m : Shared A) (r : Shared A × Pc) : Type 0 where
  pub core : Core r.0
  pub claim : Claim r.0 t r.1
  pub frame : Frame t m r.0

pub same-info : (i : Info) (oh ot : ℕ) → same_info i oh ot ≡ true → (i.head ≡ oh) × (i.tail ≡ ot)
unfolding same_info
same-info i oh ot e = (ground (arith, e), ground (arith, e))

module _ {A : Type 0} (t : ℕ) (m : Shared A) (c : Core m) where
  -- A step that changes nothing shared.
  stays : (pc : Pc) → Claim m t pc → Stepped t m (m, pc)
  stays pc h = record { core = c; claim = h; frame = same-Frame t m }

  -- Only the count changes.
  counts : (n : ℕ) → Stepped t m (record m { m_sz = n }, idle)
  counts n = record {
    core = record {
      counted = c.counted;
      cells = λ k lo hi.
          Cell-Kept k refl refl refl refl refl (omega arith) (λ w. refl) (c.cells k lo hi);
      ends = c.ends;
      handed = c.handed;
    };
    claim = tt;
    frame = record {
      owned = λ s a d o. o;
      links = λ s nod ot d l. Links-Kept l l.waits l.within refl refl refl refl;
      passed = λ a p. p;
      inner = λ a p i. (i, λ z. refl);
      took = λ s a d p. (p, refl);
      grows = omega arith;
      keeps = λ k h. refl;
    };
  }

  head-Seen : (m.m_info.head ≡ 0) ⊎ Passed (m.place m.m_info.head)
  head-Seen = elim c.ends [
    | inl (_, h, _) ↦ inl h
    | inr (h, r, le, w, _) ↦
        let cell = c.cells m.pops (omega arith) (omega (arith, le, w)) in
        inr (rw (ap m.place h ∙ cell.placed) tt)
  ]

  looks : (oh ot : ℕ) → oh ≢ 0 → Passed (m.place oh) → Stepped t m (m, look oh ot (m.next oh))
  unfolding look
  looks oh ot some_head seen = elim (dec_eq oh ot) [
    | inl same ↦
        let e : (oh == ot) ≡ true = ground (arith, same) in
        rw e (
          stays (pop_next oh ot 0) (record {
            nonnull = some_head;
            seen = seen;
            last = λ x. refl;
            more = λ d. absurd (d same);
            follows = λ d i. absurd (d same);
          }))
    | inr d ↦
        let e : (oh == ot) ≡ false = ground (arith, d) in
        elim (Bool-cases (m.next oh == 0)) [
          | inl z ↦ rw (e, z) (stays idle tt)
          | inr nz ↦
              rw (e, nz)
                (stays (pop_next oh ot (m.next oh)) (record {
                  nonnull = some_head;
                  seen = seen;
                  last = λ x. absurd (d x);
                  more = λ x. ground (arith, nz);
                  follows = λ x i. refl;
                }))
        ]
  ]

  exchanges_push :
      (nod oh ot : ℕ)
      → Owned m t nod
      → Stepped t m (
          if same_info m.m_info oh ot
          then (push_exchange m t nod, linking nod ot)
          else (m, pushing nod))
  exchanges_push nod oh ot own = elim (Bool-cases (same_info m.m_info oh ot)) [
    | inr e ↦ rw e (stays (pushing nod) own)
    | inl e ↦ rw e (record {
      core = push_exchange-Core t m nod own c;
      claim = push_exchange-Links t m nod own c ot (same-info m.m_info oh ot e).1;
      frame = push_exchange-Frame t m nod own c;
    })
  ]

  exchanges_pop :
      (oh ot nh : ℕ)
      → Looked m oh ot nh
      → Stepped t m (
          if same_info m.m_info oh ot
          then (pop_exchange m t oh nh, popped oh m.pops)
          else (m, popping))
  exchanges_pop oh ot nh l = elim (Bool-cases (same_info m.m_info oh ot)) [
    | inr e ↦ rw e (stays popping tt)
    | inl e ↦
        let (h, z) = same-info m.m_info oh ot e in
        rw e (record {
          core = pop_exchange-Core t m oh ot nh l h z c;
          claim = pop_exchange-Claim t m oh ot nh l h z c;
          frame = pop_exchange-Frame t m oh ot nh l h z c;
        })
  ]

  pub link_none : (nod ot : ℕ) → (ot == 0) ≡ true → link m nod ot ≡ m
  unfolding link
  link_none nod ot e = rw e refl

  writes_link :
      (nod ot : ℕ) → (ot ≡ 0) ⊎ Links m t nod ot → Stepped t m (link m nod ot, push_counts)
  writes_link nod ot l = elim (Bool-cases (ot == 0)) [
    | inl e ↦ rw (link_none nod ot e) (stays push_counts tt)
    | inr e ↦ elim l [
      | inl z ↦ absurd (ground (arith, e, z))
      | inr w ↦ record {
        core = link-Core t m nod ot w e c;
        claim = tt;
        frame = link-Frame t m nod ot w e c;
      }
    ]
  ]

  step-Stepped :
      (keeps : Bool) (n : ℕ) (x : A) (pc : Pc) → Claim m t pc → Stepped t m (step keeps n x t pc m)
  unfolding step
  step-Stepped keeps n x idle h = stays idle tt
  step-Stepped keeps n x (pushing nod) h = stays (push_head nod m.m_info.head) h
  step-Stepped keeps n x (push_head nod oh) h = stays (push_read nod oh m.m_info.tail) h
  step-Stepped keeps n x (push_read nod oh ot) h = exchanges_push nod oh ot h
  step-Stepped keeps n x (linking nod ot) h = writes_link nod ot h
  step-Stepped keeps n x push_counts h = counts _
  step-Stepped keeps n x popping h = stays (pop_head m.m_info.head) head-Seen
  step-Stepped keeps n x (pop_head oh) h = stays (pop_read oh m.m_info.tail) h
  step-Stepped keeps n x (pop_read oh ot) h = elim (Bool-cases (oh == 0)) [
    | inl e ↦ rw e (stays idle tt)
    | inr e ↦ elim h [
      | inl z ↦ absurd (ground (arith, e, z))
      | inr seen ↦ rw e (looks oh ot (ground (arith, e)) seen)
    ]
  ]
  step-Stepped keeps n x (pop_next oh ot nh) h = exchanges_pop oh ot nh h
  step-Stepped keeps n x (popped nod rank) (p, i, v) = record {
    core = hand_out-Core t m nod rank p i v keeps n x c;
    claim = tt;
    frame = hand_out-Frame t m nod rank p i v keeps n x c;
  }
  step-Stepped keeps n x pop_counts h = counts _

  pub turn-Stepped :
      (act : Act A) (pc : Pc) → Claim m t pc → Gives act m → Stepped t m (turn act t pc m)
  unfolding turn
  turn-Stepped (calls_push v nod) pc h (nz, f) = elim (Bool-cases (is_idle pc)) [
    | inr e ↦ rw e (stays pc h)
    | inl e ↦ rw e (record {
      core = new_node-Core t m v nod f c;
      claim = (nz, update_self m.place nod (mine t), update_self m.next nod 0);
      frame = new_node-Frame t m v nod f c;
    })
  ]
  turn-Stepped calls_pop pc h g = elim (Bool-cases (is_idle pc)) [
    | inr e ↦ rw e (stays pc h)
    | inl e ↦ rw e (stays popping tt)
  ]
  turn-Stepped (goes_on keeps n x) pc h g = step-Stepped keeps n x pc h
