-- ===== src/Be/HashMap/Moved.antt =====
-- The loops of resize move every node to where the new block finds it.
use mathlib.Core.Path.{subst}
use native.Mathlib.Nat.{mod-eq_of_lt}
use eparallel.Common.{
  dec_eq, ℕ, zero, suc, ◌+◌, ◌%◌, ◌≤◌, ◌<◌, ◌≡◌, ◌≢◌, ◌⊎◌, inl, inr, refl, sym, ap, ap₂, ◌∙◌, arith,
  Bool, true, Option, none, some, List, [], ◌∷◌, length, if◌then◌else◌, ltb, Bool-cases,
}
use eparallel.Be.HashMap.{
  Node, Block, in_chain, bucket, set_bucket, move_node, move_chain, move_all,
}
use eparallel.Be.HashMap.Look.{
  IsEqual, total, lookup, look, ChainFits, Placed, Small, pushed, lookup_elsewhere, look-pushed,
  Placed-pushed, total-pushed,
}

pub mod_small : (a n : ℕ) → a < n → a % n ≡ a
mod_small a n h = mod-eq_of_lt h

abbrev pick : {A : Type 0} → Option A → Option A → Option A
pick (some a) o = some a
pick none o = o

pick-none : {A : Type 0} (o : Option A) → pick o none ≡ o
pick-none none = refl
pick-none (some a) = refl

module _ {K V : Type 0} (m_hash : K → ℕ) (m_equal : K → K → Bool) (same : IsEqual m_equal) where
  move_node-Small :
      (b : Block K V) (n : Node K V)
      → n.hash_val < b.len
      → move_node b n ≡ some (pushed m_hash m_equal b n.hash_val n)
  unfolding move_node bucket set_bucket
  move_node-Small b n h =
      let reduced : n.hash_val % b.len ≡ n.hash_val = mod_small n.hash_val b.len h in
      let inside : ltb n.hash_val b.len ≡ true = ground (arith, h) in
      rw (reduced, move_node) (rw (inside, move_node) (rw (inside, set_bucket) refl))

  -- No key of the chain is in the block.
  abbrev Apart : List (Node K V) → Block K V → Type 0
  Apart c b = (q : K) → (lookup m_hash m_equal q c ≡ none) ⊎ (look m_hash m_equal b q ≡ none)

  -- The block `r` is `b` with the nodes of `c`.
  record MovedChain (b : Block K V) (c : List (Node K V)) (r : Block K V) : Type 0 where
    pub len : r.len ≡ b.len
    pub placed : Placed m_hash m_equal r
    pub count : total r.len r.chains ≡ total b.len b.chains + length c
    pub reads :
        (q : K)
        → look m_hash m_equal r q ≡ pick (lookup m_hash m_equal q c) (look m_hash m_equal b q)

  Placed-step :
      (b : Block K V) (n : Node K V) (c : List (Node K V))
      → n.hash_val ≡ m_hash n.key
      → n.hash_val < b.len
      → Apart (n ∷ c) b
      → Placed m_hash m_equal b
      → Placed m_hash m_equal (pushed m_hash m_equal b n.hash_val n)
  unfolding in_chain
  Placed-step b n c e h apart p =
      let home : m_hash n.key % b.len ≡ n.hash_val =
        ap (λ j. j % b.len) (sym e) ∙ mod_small n.hash_val b.len h in
      let here : m_equal n.key n.key ≡ true = (same n.key n.key).1 refl in
      let absent : look m_hash m_equal b n.key ≡ none = elim (apart n.key) [
        | inl z ↦ absurd (ground (arith, rw here at z))
        | inr z ↦ z
      ] in
      Placed-pushed m_hash m_equal same b n.hash_val n home h e absent p

  look-step :
      (b : Block K V) (n : Node K V)
      → n.hash_val ≡ m_hash n.key
      → n.hash_val < b.len
      → (q : K)
      → look m_hash m_equal (pushed m_hash m_equal b n.hash_val n) q
        ≡ (if m_equal q n.key then some n else look m_hash m_equal b q)
  look-step b n e h q =
      let home : m_hash n.key % b.len ≡ n.hash_val =
        ap (λ j. j % b.len) (sym e) ∙ mod_small n.hash_val b.len h in
      look-pushed m_hash m_equal same b n.hash_val n home q

  Apart-step :
      (len i : ℕ) (b : Block K V) (n : Node K V) (c : List (Node K V))
      → ChainFits m_hash m_equal len i (n ∷ c)
      → n.hash_val < b.len
      → Apart (n ∷ c) b
      → Apart c (pushed m_hash m_equal b n.hash_val n)
  unfolding in_chain
  Apart-step len i b n c (e, p, u, f) h apart q = elim (Bool-cases (m_equal q n.key)) [
    | inl mine ↦ inl (ap (λ k. lookup m_hash m_equal k c) ((same q n.key).0 mine) ∙ u)
    | inr other ↦ elim (apart q) [
      | inl z ↦ inl (rw other at z)
      | inr z ↦ inr (look-step b n e h q ∙ rw other z)
    ]
  ]

  pick_step :
      (len i : ℕ) (b : Block K V) (n : Node K V) (c : List (Node K V))
      → ChainFits m_hash m_equal len i (n ∷ c)
      → n.hash_val < b.len
      → (q : K)
      → pick
          (lookup m_hash m_equal q c)
          (look m_hash m_equal (pushed m_hash m_equal b n.hash_val n) q)
        ≡ pick (lookup m_hash m_equal q (n ∷ c)) (look m_hash m_equal b q)
  unfolding in_chain
  pick_step len i b n c (e, p, u, f) h q = elim (Bool-cases (m_equal q n.key)) [
    | inl mine ↦
        let absent : lookup m_hash m_equal q c ≡ none =
          ap (λ k. lookup m_hash m_equal k c) ((same q n.key).0 mine) ∙ u in
        let now : look m_hash m_equal (pushed m_hash m_equal b n.hash_val n) q ≡ some n =
          look-step b n e h q ∙ rw mine refl in
        ap₂ pick absent now ∙ rw mine refl
    | inr other ↦
        let now : look m_hash m_equal (pushed m_hash m_equal b n.hash_val n) q
            ≡ look m_hash m_equal b q =
          look-step b n e h q ∙ rw other refl in
        ap (λ o. pick (lookup m_hash m_equal q c) o) now ∙ rw other refl
  ]

  move_chain-Moved :
      (len i : ℕ) (c : List (Node K V)) (b : Block K V)
      → ChainFits m_hash m_equal len i c
      → Small m_hash m_equal b.len c
      → Apart c b
      → Placed m_hash m_equal b
      → (r : Block K V) × (move_chain c b ≡ some r) × MovedChain b c r
  unfolding move_chain in_chain
  move_chain-Moved len i [] b f small apart p =
      (b, refl, record { len = refl; placed = p; count = omega arith; reads = λ q. refl })
  move_chain-Moved len i (n ∷ c) b (e, home, u, f) (h, small) apart p =
      let b1 = pushed m_hash m_equal b n.hash_val n in
      let p1 = Placed-step b n c e h apart p in
      let (r, run, t) =
        move_chain-Moved len i c b1 f small (Apart-step len i b n c (e, home, u, f) h apart) p1 in
      (
        r,
        rw (move_node-Small b n h, move_chain) run,
        record {
          len = t.len;
          placed = t.placed;
          count = omega (arith, t.count, total-pushed m_hash m_equal same b n.hash_val n h);
          reads = λ q. t.reads q ∙ pick_step len i b n c (e, home, u, f) h q;
        },
      )

  -- The block `b` holds what the first `i` buckets of `o` hold.
  pub record MovedTo (o : Block K V) (i : ℕ) (b : Block K V) : Type 0 where
    pub placed : Placed m_hash m_equal b
    pub count : total b.len b.chains ≡ total i o.chains
    pub moved : (q : K) → m_hash q % o.len < i → look m_hash m_equal b q ≡ look m_hash m_equal o q
    pub ahead : (q : K) → i ≤ m_hash q % o.len → look m_hash m_equal b q ≡ none

  MovedTo-next :
      (o b r : Block K V) (i : ℕ)
      → i < o.len
      → ChainFits m_hash m_equal o.len i (o.chains i)
      → MovedTo o i b
      → MovedChain b (o.chains i) r
      → MovedTo o (suc i) r
  MovedTo-next o b r i h f t m = record {
    placed = m.placed;
    count = omega (arith, m.count, t.count);
    moved = λ q w. elim (dec_eq (m_hash q % o.len) i) [
      | inl e ↦
          let before = t.ahead q (omega (arith, e)) in
          m.reads q
          ∙ ap (pick (lookup m_hash m_equal q (o.chains i))) before
          ∙ pick-none (lookup m_hash m_equal q (o.chains i))
          ∙ ap (λ j. lookup m_hash m_equal q (o.chains j)) (sym e)
      | inr d ↦
          let absent = lookup_elsewhere m_hash m_equal same o.len i q (o.chains i) f d in
          m.reads q
          ∙ ap (λ x. pick x (look m_hash m_equal b q)) absent
          ∙ t.moved q (omega (arith, w, d))
    ];
    ahead = λ q w.
        let d : m_hash q % o.len ≢ i = omega (arith, w) in
        let absent = lookup_elsewhere m_hash m_equal same o.len i q (o.chains i) f d in
        m.reads q
        ∙ ap (λ x. pick x (look m_hash m_equal b q)) absent
        ∙ t.ahead q (omega (arith, w));
  }

  pub move_all-Moved :
      (left i : ℕ) (o b : Block K V)
      → left + i ≡ o.len
      → Placed m_hash m_equal o
      → ((j : ℕ) → j < o.len → Small m_hash m_equal b.len (o.chains j))
      → MovedTo o i b
      → (r : Block K V) × (move_all left i (some o) b ≡ some r)
        × (r.len ≡ b.len)
        × MovedTo o o.len r
  unfolding move_all bucket
  move_all-Moved zero i o b e p small t =
      (b, refl, refl, subst (λ j. MovedTo o j b) (omega (arith, e)) t)
  move_all-Moved (suc left) i o b e p small t =
      let h : i < o.len = omega (arith, e) in
      let inside : ltb i o.len ≡ true = ground (arith, h) in
      let f = p.fits i h in
      let apart : Apart (o.chains i) b = λ q. elim (dec_eq (m_hash q % o.len) i) [
        | inl z ↦ inr (t.ahead q (omega (arith, z)))
        | inr d ↦ inl (lookup_elsewhere m_hash m_equal same o.len i q (o.chains i) f d)
      ] in
      let (r1, run1, m) = move_chain-Moved o.len i (o.chains i) b f (small i h) apart t.placed in
      let (r, run, len, u) =
        move_all-Moved left (suc i) o r1 (omega (arith, e)) p
          (λ j w. subst (λ l. Small m_hash m_equal l (o.chains j)) (sym m.len) (small j w))
          (MovedTo-next o b r1 i h f t m) in
      (r, rw (inside, move_all) (rw (run1, move_all) run), len ∙ m.len, u)
