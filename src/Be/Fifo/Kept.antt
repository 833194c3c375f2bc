-- ===== src/Be/Fifo/Kept.antt =====
-- What a step of a `fifo` keeps of a node in the queue and of a push that has to write its next.
use eparallel.Common.{ℕ, suc, ◌≤◌, ◌<◌, ◌≡◌, ◌≢◌, inl, inr, sym, ap, ◌∙◌, arith}
use eparallel.Be.Fifo.{Shared, Place, fresh, mine, inside, taken, gone}
use eparallel.Be.Fifo.Inv.{Passed, Cell, Core, Links}

-- A cell stays one where its node keeps its place, its value and its next.
pub Cell-Kept :
    {A : Type 0} {m n : Shared A} (k : ℕ)
    → n.pushed_node k ≡ m.pushed_node k
    → n.pushed_val k ≡ m.pushed_val k
    → n.place (m.pushed_node k) ≡ m.place (m.pushed_node k)
    → n.val (m.pushed_node k) ≡ m.val (m.pushed_node k)
    → n.next (m.pushed_node k) ≡ m.next (m.pushed_node k)
    → m.pushes ≤ n.pushes
    → (suc k < m.pushes → n.pushed_node (suc k) ≡ m.pushed_node (suc k))
    → Cell m k
    → Cell n k
Cell-Kept {A} {m} {n} k en ev p v x le follow c = record {
  nonnull = rw en c.nonnull;
  owner = c.owner;
  placed = rw en (p ∙ c.placed);
  value = rw en (v ∙ c.value ∙ sym ev);
  linked = rw en (elim c.linked [
    | inl z ↦ inl (x ∙ z)
    | inr (w, e) ↦ inr (omega (arith, w, le), x ∙ e ∙ sym (follow w))
  ]);
}

-- Two nodes at different places are different.
pub apart_places :
    {A : Type 0} (m : Shared A) {a b : ℕ} {p q : Place}
    → m.place a ≡ p
    → m.place b ≡ q
    → p ≢ q
    → a ≢ b
apart_places m e f d z = d (sym e ∙ ap m.place z ∙ f)

pub Passed-NotFresh : (p : Place) → Passed p → p ≢ fresh
Passed-NotFresh fresh h = elim h [ ]
Passed-NotFresh (mine s) h = elim h [ ]
Passed-NotFresh (inside k t) h = λ e. ground (arith, e)
Passed-NotFresh (taken t) h = λ e. ground (arith, e)
Passed-NotFresh gone h = λ e. ground (arith, e)

pub Passed-NotMine : (p : Place) (s : ℕ) → Passed p → p ≢ mine s
Passed-NotMine fresh s h = elim h [ ]
Passed-NotMine (mine r) s h = elim h [ ]
Passed-NotMine (inside k t) s h = λ e. ground (arith, e)
Passed-NotMine (taken t) s h = λ e. ground (arith, e)
Passed-NotMine gone s h = λ e. ground (arith, e)

pub Links-Kept :
    {A : Type 0} {m n : Shared A} {s nod ot : ℕ} (l : Links m s nod ot)
    → n.pops ≤ l.rank
    → suc l.rank < n.pushes
    → n.pushed_node l.rank ≡ m.pushed_node l.rank
    → n.pushed_node (suc l.rank) ≡ m.pushed_node (suc l.rank)
    → n.next ot ≡ m.next ot
    → n.place nod ≡ m.place nod
    → Links n s nod ot
Links-Kept l waits within before new unset own = record {
  rank = l.rank;
  waits = waits;
  within = within;
  before = before ∙ l.before;
  new = new ∙ l.new;
  unset = unset ∙ l.unset;
  own = own ∙ l.own;
}

-- The node that waits for its next is in the queue.
pub Links-Inside :
    {A : Type 0} {m : Shared A} {s nod ot : ℕ}
    → Core m
    → (l : Links m s nod ot) → (o : ℕ) × (m.place ot ≡ inside l.rank o)
Links-Inside {A} {m} c l =
    let cell = c.cells l.rank l.waits (omega (arith, l.within)) in
    (cell.owner, ap m.place (sym l.before) ∙ cell.placed)
