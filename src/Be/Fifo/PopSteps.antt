-- ===== src/Be/Fifo/PopSteps.antt =====
-- The steps of pop that change the queue or a node keep what holds of them.
use eparallel.Common.{
  update, update_at, update_ne, update_self, if◌then◌else◌, ℕ, suc, ◌≤◌, ◌<◌, ◌≡◌, ◌≢◌, inl, inr,
  refl, sym, ap, ◌∙◌, arith, some, ◌==◌, dec_eq, Bool, true, false,
}
use eparallel.Be.Fifo.{Shared, inside, taken, gone, pop_exchange, hand_out}
use eparallel.Be.Fifo.Inv.{IsInside, Ends, Core, Links, Looked, Frame}
use eparallel.Be.Fifo.Kept.{Cell-Kept, apart_places, Links-Kept, Links-Inside}

module _ {A : Type 0} (t : ℕ) (m : Shared A) where
  module _ (oh ot nh : ℕ) (l : Looked m oh ot nh) (h : m.m_info.head ≡ oh)
      (z : m.m_info.tail ≡ ot) where
    -- The queue is not empty, and the node at its head has the rank of this pop.
    head-Rank :
        Core m
        → (oh ≡ m.pushed_node m.pops)
          × (r : ℕ) × (m.pops ≤ r)
          × (m.pushes ≡ suc r)
          × (ot ≡ m.pushed_node r)
    head-Rank c = elim c.ends [
      | inl (_, e, _) ↦ absurd (l.nonnull (sym h ∙ e))
      | inr (e, r, le, w, f) ↦ (sym h ∙ e, r, le, w, sym z ∙ f)
    ]

    at_head : Core m → (o : ℕ) × (m.place oh ≡ inside m.pops o) × (m.val oh ≡ m.pushed_val m.pops)
    at_head c =
        let (e, r, le, w, f) = head-Rank c in
        let cell = c.cells m.pops (omega arith) (omega (arith, le, w)) in
        (cell.owner, ap m.place e ∙ cell.placed, ap m.val e ∙ cell.value)

    last_one : Core m → oh ≡ ot → m.pushes ≡ suc m.pops
    last_one c same =
        let (e, r, le, w, f) = head-Rank c in
        let (o, p, _) = at_head c in
        let q = (c.cells r le (omega (arith, w))).placed in
        let k : m.pops ≡ r = ground (arith, sym p ∙ ap m.place (same ∙ f) ∙ q) in
        omega (arith, k, w)

    -- Where the queue has more than one node, `nh` is the second.
    second :
        Core m
        → oh ≢ ot
        → (m.next oh ≢ 0) × (suc m.pops < m.pushes) × (nh ≡ m.pushed_node (suc m.pops))
    second c d =
        let (e, r, le, w, f) = head-Rank c in
        let (o, p, _) = at_head c in
        let inner : IsInside (m.place oh) = rw p tt in
        let follows = l.follows d inner in
        let nonnull : m.next oh ≢ 0 = λ x. l.more d (sym follows ∙ x) in
        let cell = c.cells m.pops (omega arith) (omega (arith, le, w)) in
        elim cell.linked [
          | inl x ↦ absurd (nonnull (ap m.next e ∙ x))
          | inr (k, x) ↦ (nonnull, k, sym follows ∙ ap m.next e ∙ x)
        ]

    pop_exchange-Ends : Core m → Ends (pop_exchange m t oh nh)
    unfolding pop_exchange
    pop_exchange-Ends c =
        let (e, r, le, w, f) = head-Rank c in
        elim (dec_eq oh ot) [
          | inl same ↦
              let one : (m.m_info.head == m.m_info.tail) ≡ true =
                ground (arith, h ∙ same ∙ sym z) in
              rw one (inl (sym (last_one c same), refl, refl))
          | inr d ↦
              let more : (m.m_info.head == m.m_info.tail) ≡ false = ground (arith, d, h, z) in
              let (_, k, x) = second c d in rw more (inr (x, r, omega (arith, k, w), w, z ∙ f))
        ]

    pub pop_exchange-Core : Core m → Core (pop_exchange m t oh nh)
    unfolding pop_exchange
    pop_exchange-Core c =
        let (o, p, _) = at_head c in
        let (e, r, le, w, f) = head-Rank c in
        record {
          counted = omega (arith, le, w);
          cells = λ k lo hi.
              let q = c.cells k (omega (arith, lo)) hi in
              let d : m.pushed_node k ≢ oh =
                apart_places m q.placed p (λ x. ground (arith, x, lo)) in
              Cell-Kept k refl refl (update_ne m.place (taken t) d) refl refl (omega arith)
                (λ i. refl) q;
          ends = pop_exchange-Ends c;
          handed = λ k x g. let (i, j) = c.handed k x g in (omega (arith, i), j);
        }

    pub pop_exchange-Frame : Core m → Frame t m (pop_exchange m t oh nh)
    unfolding pop_exchange
    pop_exchange-Frame c =
        let (o, p, _) = at_head c in
        record {
          owned = λ s a d (nz, q, x).
              let n : a ≢ oh = apart_places m q p (λ y. ground (arith, y)) in
              (nz, update_ne m.place (taken t) n ∙ q, x);
          links = λ s nod ot' d w.
              let later = not_first c w in
              let n : nod ≢ oh = apart_places m w.own p (λ y. ground (arith, y, w.waits)) in
              Links-Kept w (omega (arith, w.waits, later)) w.within refl refl refl
                (update_ne m.place (taken t) n);
          passed = λ a q. elim (dec_eq a oh) [
            | inl e ↦ rw (update_at m.place (taken t) e) tt
            | inr n ↦ rw (update_ne m.place (taken t) n) q
          ];
          inner = λ a q i. elim (dec_eq a oh) [
            | inl e ↦ absurd (rw (update_at m.place (taken t) e) at i)
            | inr n ↦ (rw (update_ne m.place (taken t) n) at i, λ x. refl)
          ];
          took = λ s a d q.
              let n : a ≢ oh = apart_places m q p (λ y. ground (arith, y)) in
              (update_ne m.place (taken t) n ∙ q, refl);
          grows = omega arith;
          keeps = λ k i. refl;
        }
      where
        not_first : {s nod ot' : ℕ} → Core m → (w : Links m s nod ot') → w.rank ≢ m.pops
        not_first c w e =
            let g = (head-Rank c).0 in
            let x : m.next oh ≡ 0 = ap m.next (g ∙ ap m.pushed_node (sym e) ∙ w.before) ∙ w.unset in
            elim (dec_eq oh ot) [
              | inl same ↦ omega (arith, last_one c same, w.within, e)
              | inr d ↦ (second c d).0 x
            ]

    pub pop_exchange-Claim :
        Core m
        → let n = pop_exchange m t oh nh in
          (n.place oh ≡ taken t) × (m.pops < n.pops) × (n.val oh ≡ n.pushed_val m.pops)
    unfolding pop_exchange
    pop_exchange-Claim c =
        let (o, p, v) = at_head c in (update_self m.place oh (taken t), omega arith, v)

  -- A node that its pop frees, with any contents that the allocator leaves in it.
  module _ (nod rank : ℕ) (p : m.place nod ≡ taken t) (i : rank < m.pops)
      (v : m.val nod ≡ m.pushed_val rank) (keeps : Bool) (n : ℕ) (x : A) where
    handed_out :
        (b : Bool) (k : ℕ) (y : A)
        → (m.popped_val k ≡ some y → (k < m.pops) × (m.pushed_val k ≡ y))
        → (if b then update m.popped_val rank (some (m.val nod)) else m.popped_val) k ≡ some y
        → (k < m.pops) × (m.pushed_val k ≡ y)
    handed_out false k y c e = c e
    handed_out true k y c e = elim (dec_eq k rank) [
      | inl same ↦
          let f : some (m.val nod) ≡ some y =
            sym (update_at m.popped_val (some (m.val nod)) same) ∙ e in
          (omega (arith, same, i), ap m.pushed_val same ∙ sym v ∙ ground (arith, f))
      | inr other ↦ c (sym (update_ne m.popped_val (some (m.val nod)) other) ∙ e)
    ]

    pub hand_out-Core : Core m → Core (hand_out m nod rank keeps n x)
    unfolding hand_out
    hand_out-Core c = record {
      counted = c.counted;
      cells = λ k lo hi.
          let q = c.cells k lo hi in
          let d : m.pushed_node k ≢ nod = apart_places m q.placed p (λ y. ground (arith, y)) in
          Cell-Kept k refl refl (update_ne m.place gone d) (update_ne m.val x d)
            (update_ne m.next n d) (omega arith) (λ y. refl) q;
      ends = c.ends;
      handed = λ k y e. handed_out keeps k y (c.handed k y) e;
    }

    pub hand_out-Frame : Core m → Frame t m (hand_out m nod rank keeps n x)
    unfolding hand_out
    hand_out-Frame c = record {
      owned = λ s a d (nz, q, y).
          let f : a ≢ nod = apart_places m q p (λ y. ground (arith, y)) in
          (nz, update_ne m.place gone f ∙ q, update_ne m.next n f ∙ y);
      links = λ s nod' ot d w.
          let f : nod' ≢ nod = apart_places m w.own p (λ y. ground (arith, y)) in
          let (o, q) = Links-Inside c w in
          let g : ot ≢ nod = apart_places m q p (λ y. ground (arith, y)) in
          Links-Kept w w.waits w.within refl refl (update_ne m.next n g) (update_ne m.place gone f);
      passed = λ a q. elim (dec_eq a nod) [
        | inl e ↦ rw (update_at m.place gone e) tt
        | inr f ↦ rw (update_ne m.place gone f) q
      ];
      inner = λ a q i. elim (dec_eq a nod) [
        | inl e ↦ absurd (rw (update_at m.place gone e) at i)
        | inr f ↦ (rw (update_ne m.place gone f) at i, λ y. update_ne m.next n f)
      ];
      took = λ s a d q.
          let f : a ≢ nod = apart_places m q p (λ y. d (ground (arith, y))) in
          (update_ne m.place gone f ∙ q, update_ne m.val x f);
      grows = omega arith;
      keeps = λ k j. refl;
    }
