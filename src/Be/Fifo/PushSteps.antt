-- ===== src/Be/Fifo/PushSteps.antt =====
-- The steps of push that change the queue or a node keep what holds of them.
use eparallel.Common.{
  update_at, update_ne, update_self, ℕ, suc, ◌≤◌, ◌<◌, ◌≡◌, ◌≢◌, ◌⊎◌, inl, inr, refl, sym, ap, ◌∙◌,
  arith, ◌==◌, dec_eq, true, false,
}
use eparallel.Be.Fifo.{link, Shared, fresh, mine, inside, new_node, push_exchange}
use eparallel.Be.Fifo.Inv.{Core, Owned, Links, Frame}
use eparallel.Be.Fifo.Kept.{
  Cell-Kept, apart_places, Passed-NotFresh, Passed-NotMine, Links-Kept, Links-Inside,
}

module _ {A : Type 0} (t : ℕ) (m : Shared A) where
  module _ (v : A) (nod : ℕ) (e : m.place nod ≡ fresh) where
    away : (a : ℕ) → m.place a ≢ fresh → a ≢ nod
    away a d = apart_places m refl e d

    pub new_node-Core : Core m → Core (new_node m t v nod)
    unfolding new_node
    new_node-Core c = record {
      counted = c.counted;
      cells = λ k lo hi.
          let o = c.cells k lo hi in
          let d : m.pushed_node k ≢ nod = apart_places m o.placed e (λ z. ground (arith, z)) in
          Cell-Kept k refl refl (update_ne m.place (mine t) d) (update_ne m.val v d)
            (update_ne m.next 0 d) (omega arith) (λ w. refl) o;
      ends = c.ends;
      handed = c.handed;
    }

    pub new_node-Frame : Core m → Frame t m (new_node m t v nod)
    unfolding new_node
    new_node-Frame c = record {
      owned = λ s a d (nz, p, z).
          let n : a ≢ nod = apart_places m p e (λ z. ground (arith, z)) in
          (nz, update_ne m.place (mine t) n ∙ p, update_ne m.next 0 n ∙ z);
      links = λ s nod' ot d l.
          let n : nod' ≢ nod = apart_places m l.own e (λ z. ground (arith, z)) in
          let (o, p) = Links-Inside c l in
          let n' : ot ≢ nod = apart_places m p e (λ z. ground (arith, z)) in
          Links-Kept l l.waits l.within refl refl (update_ne m.next 0 n')
            (update_ne m.place (mine t) n);
      passed = λ a p.
          let n = away a (Passed-NotFresh (m.place a) p) in rw (update_ne m.place (mine t) n) p;
      inner = λ a p i.
          let n = away a (Passed-NotFresh (m.place a) p) in
          (rw (update_ne m.place (mine t) n) at i, λ z. update_ne m.next 0 n);
      took = λ s a d p.
          let n : a ≢ nod = apart_places m p e (λ z. ground (arith, z)) in
          (update_ne m.place (mine t) n ∙ p, update_ne m.val v n);
      grows = omega arith;
      keeps = λ k h. refl;
    }

  module _ (nod : ℕ) (own : Owned m t nod) where
    pub push_exchange-Core : Core m → Core (push_exchange m t nod)
    unfolding push_exchange
    push_exchange-Core c = record {
      counted = omega (arith, c.counted);
      cells = λ k lo hi. elim (dec_eq k m.pushes) [
        | inl last ↦
            let node = update_at m.pushed_node nod last in
            let val = update_at m.pushed_val (m.val nod) last in
            record {
              nonnull = rw node own.0;
              owner = t;
              placed = update_at m.place (inside m.pushes t) node ∙ ap (λ r. inside r t) (sym last);
              value = ap m.val node ∙ sym val;
              linked = inl (ap m.next node ∙ own.2);
            }
        | inr old ↦
            let o = c.cells k lo (omega (arith, hi, old)) in
            let d : m.pushed_node k ≢ nod =
              apart_places m o.placed own.1 (λ z. ground (arith, z)) in
            Cell-Kept k (update_ne m.pushed_node nod old) (update_ne m.pushed_val (m.val nod) old)
              (update_ne m.place (inside m.pushes t) d) refl refl (omega arith)
              (λ w. update_ne m.pushed_node nod (omega (arith, w))) o
      ];
      ends = elim c.ends [
        | inl (e, h, z) ↦
            let first : (m.m_info.head == 0) ≡ true = ground (arith, h) in
            inr (
              rw first (sym (update_at m.pushed_node nod e)),
              m.pushes,
              c.counted,
              refl,
              sym (update_self m.pushed_node m.pushes nod),
            )
        | inr (h, l, le, e, z) ↦
            let d : m.pops ≢ m.pushes = omega (arith, le, e) in
            let cell = c.cells m.pops (omega arith) (omega (arith, le, e)) in
            let some_head : (m.m_info.head == 0) ≡ false = ground (arith, h, cell.nonnull) in
            inr (
              rw some_head (h ∙ sym (update_ne m.pushed_node nod d)),
              m.pushes,
              c.counted,
              refl,
              sym (update_self m.pushed_node m.pushes nod),
            )
      ];
      handed = λ k x e.
          let (h, f) = c.handed k x e in
          (h, update_ne m.pushed_val (m.val nod) (omega (arith, h, c.counted)) ∙ f);
    }

    pub push_exchange-Frame : Core m → Frame t m (push_exchange m t nod)
    unfolding push_exchange
    push_exchange-Frame c = record {
      owned = λ s a d (nz, p, z).
          let n : a ≢ nod = apart_places m p own.1 (λ z. d (ground (arith, z))) in
          (nz, update_ne m.place (inside m.pushes t) n ∙ p, z);
      links = λ s nod' ot d l.
          let n : nod' ≢ nod = apart_places m l.own own.1 (λ z. ground (arith, z)) in
          Links-Kept l l.waits (omega (arith, l.within))
            (update_ne m.pushed_node nod (omega (arith, l.within)))
            (update_ne m.pushed_node nod (omega (arith, l.within))) refl
            (update_ne m.place (inside m.pushes t) n);
      passed = λ a p.
          let n = apart_places m refl own.1 (Passed-NotMine (m.place a) t p) in
          rw (update_ne m.place (inside m.pushes t) n) p;
      inner = λ a p i.
          let n = apart_places m refl own.1 (Passed-NotMine (m.place a) t p) in
          (rw (update_ne m.place (inside m.pushes t) n) at i, λ z. refl);
      took = λ s a d p.
          let n : a ≢ nod = apart_places m p own.1 (λ z. ground (arith, z)) in
          (update_ne m.place (inside m.pushes t) n ∙ p, refl);
      grows = omega arith;
      keeps = λ k h. update_ne m.pushed_val (m.val nod) (omega (arith, h, c.counted));
    }

    -- What the thread has to write once it has found `ot` at the tail.
    pub push_exchange-Links :
        Core m → (ot : ℕ) → m.m_info.tail ≡ ot → (ot ≡ 0) ⊎ Links (push_exchange m t nod) t nod ot
    unfolding push_exchange
    push_exchange-Links c ot e = elim c.ends [
      | inl (_, _, z) ↦ inl (sym e ∙ z)
      | inr (h, l, le, w, z) ↦
          let cell = c.cells l le (omega (arith, w)) in
          let d : l ≢ m.pushes = omega (arith, w) in
          let n : m.pushed_node l ≢ nod =
            apart_places m cell.placed own.1 (λ z. ground (arith, z)) in
          inr (record {
            rank = l;
            waits = le;
            within = omega (arith, w);
            before = update_ne m.pushed_node nod d ∙ sym z ∙ e;
            new = update_at m.pushed_node nod (sym w);
            unset = elim cell.linked [
              | inl f ↦ ap m.next (sym e ∙ z) ∙ f
              | inr (k, f) ↦ absurd (omega (arith, k, w))
            ];
            own = update_self m.place nod (inside m.pushes t) ∙ ap (λ r. inside r t) w;
          })
    ]

  module _ (nod ot : ℕ) (w : Links m t nod ot) (some_tail : (ot == 0) ≡ false) where
    rank-Inner : Core m → (k : ℕ) → m.pops ≤ k → k < m.pushes → m.pushed_node k ≡ ot → k ≡ w.rank
    rank-Inner c k lo hi e =
        let (o, p) = Links-Inside c w in
        let q = (c.cells k lo hi).placed in ground (arith, sym q ∙ ap m.place e ∙ p)

    pub link-Core : Core m → Core (link m nod ot)
    unfolding link
    link-Core c = rw some_tail (record {
      counted = c.counted;
      cells = λ k lo hi.
          let o = c.cells k lo hi in
          elim (dec_eq (m.pushed_node k) ot) [
            | inr d ↦
                Cell-Kept k refl refl refl refl (update_ne m.next nod d) (omega arith) (λ h. refl) o
            | inl e ↦
                let r = rank-Inner c k lo hi e in
                record {
                  nonnull = o.nonnull;
                  owner = o.owner;
                  placed = o.placed;
                  value = o.value;
                  linked = inr (
                    omega (arith, w.within, r),
                    update_at m.next nod e ∙ sym w.new ∙ ap (λ j. m.pushed_node (suc j)) (sym r),
                  );
                }
          ];
      ends = c.ends;
      handed = c.handed;
    })

    pub link-Frame : Core m → Frame t m (link m nod ot)
    unfolding link
    link-Frame c =
        let (o, p) = Links-Inside c w in
        rw some_tail (record {
          owned = λ s a d (nz, q, z).
              let n : a ≢ ot = apart_places m q p (λ z. ground (arith, z)) in
              (nz, q, update_ne m.next nod n ∙ z);
          links = λ s nod' ot' d l.
              let n : ot' ≢ ot = λ e. d (other_push c l e) in
              Links-Kept l l.waits l.within refl refl (update_ne m.next nod n) refl;
          passed = λ a q. q;
          inner = λ a q i. (i, λ z. update_ne m.next nod (λ e. z (ap m.next e ∙ w.unset)));
          took = λ s a d q. (q, refl);
          grows = omega arith;
          keeps = λ k h. refl;
        })
      where
        other_push : {s nod' ot' : ℕ} → Core m → (l : Links m s nod' ot') → ot' ≡ ot → s ≡ t
        other_push c l e =
            let r = rank-Inner c l.rank l.waits (omega (arith, l.within)) (l.before ∙ e) in
            let n = sym l.new ∙ ap (λ j. m.pushed_node (suc j)) r ∙ w.new in
            ground (arith, sym l.own ∙ ap m.place n ∙ w.own)
