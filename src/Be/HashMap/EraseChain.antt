-- ===== src/Be/HashMap/EraseChain.antt =====
-- The loop of erase by key over a chain: it takes out the node of the key, if there is one.
use eparallel.Common.{
  ℕ, suc, ◌≡◌, ◌⊎◌, inl, inr, refl, sym, ap, ◌∙◌, arith, Bool, false, none, some, List, [], ◌∷◌,
  length, if◌then◌else◌, Bool-cases,
}
use eparallel.Be.HashMap.{Node, HashMap, in_chain, erase_chain, drop_node}
use eparallel.Be.HashMap.Look.{IsEqual, lookup, ChainFits}

other_key :
    {K : Type 0} {m_equal : K → K → Bool}
    → IsEqual m_equal
    → (k n : K) → m_equal k n ≡ false
    → m_equal n k ≡ false
other_key {K} {m_equal} same k n e = elim (Bool-cases (m_equal n k)) [
  | inr f ↦ f
  | inl f ↦ absurd (ground (arith, sym e ∙ (same k n).1 (sym ((same n k).0 f))))
]

module _ {K V : Type 0} (m_hash : K → ℕ) (m_equal : K → K → Bool) (same : IsEqual m_equal) where
  -- What the loop makes of a chain: it has no node of the key, or one and that is gone.
  pub record Erased (len i : ℕ) (k : K) (c : List (Node K V)) (m : HashMap K V)
      (r : ℕ × (List (Node K V) × HashMap K V)) : Type 0 where
    pub fits : ChainFits m_hash m_equal len i r.1.0
    pub reads :
        (q : K)
        → lookup m_hash m_equal q r.1.0 ≡ (if m_equal q k then none else lookup m_hash m_equal q c)
    pub gone :
        ((lookup m_hash m_equal k c ≡ none) × (r ≡ (0, (c, m))))
        ⊎ ((n : Node K V) × (lookup m_hash m_equal k c ≡ some n)
            × (r ≡ (1, (r.1.0, drop_node m)))
            × (suc (length r.1.0) ≡ length c))

  pub erase_chain-Erased :
      (len i : ℕ) (k : K) (c : List (Node K V)) (m : HashMap K V)
      → ChainFits m_hash m_equal len i c
      → Erased len i k c m (erase_chain m_hash m_equal k c m)
  unfolding erase_chain in_chain
  erase_chain-Erased len i k [] m f = record {
    fits = tt;
    reads = λ q. elim (Bool-cases (m_equal q k)) [ inl e ↦ rw e refl | inr e ↦ rw e refl ];
    gone = inl (refl, refl);
  }
  erase_chain-Erased len i k (n ∷ c) m (h, p, u, f) = elim (Bool-cases (m_equal k n.key)) [
    | inl mine ↦
        let t = erase_chain-Erased len i k c (drop_node m) f in
        let key : k ≡ n.key = (same k n.key).0 mine in
        let absent : lookup m_hash m_equal k c ≡ none =
          ap (λ j. lookup m_hash m_equal j c) key ∙ u in
        let run : erase_chain m_hash m_equal k c (drop_node m) ≡ (0, (c, drop_node m)) =
          elim t.gone [
            | inl (_, e) ↦ e
            | inr (_, e, _, _) ↦ absurd (ground (arith, sym absent ∙ e))
          ] in
        rw mine (
          rw run (record {
            fits = f;
            reads = λ q. elim (Bool-cases (m_equal q k)) [
              | inl e ↦ ap (λ j. lookup m_hash m_equal j c) ((same q k).0 e) ∙ absent ∙ rw e refl
              | inr e ↦
                  let d : m_equal q n.key ≡ false = ap (m_equal q) (sym key) ∙ e in rw (e, d) refl
            ];
            gone = inr (n, rw mine refl, refl, refl);
          }))
    | inr other ↦
        let t = erase_chain-Erased len i k c m f in
        let d = other_key same k n.key other in
        let unique : lookup m_hash m_equal n.key (erase_chain m_hash m_equal k c m).1.0 ≡ none =
          t.reads n.key ∙ rw d u in
        rw other (record {
          fits = (h, p, unique, t.fits);
          reads = λ q. elim (Bool-cases (m_equal q n.key)) [
            | inl e ↦
                let g : m_equal q k ≡ false = ap (λ j. m_equal j k) ((same q n.key).0 e) ∙ d in
                rw (e, g) refl
            | inr e ↦ rw e (t.reads q)
          ];
          gone = elim t.gone [
            | inl (z, e) ↦ inl (rw other z, ap (λ r. (r.0, (n ∷ r.1.0, r.1.1))) e)
            | inr (a, z, e, l) ↦
                inr (a, rw other z, ap (λ r. (r.0, (n ∷ r.1.0, r.1.1))) e, ap suc l)
          ];
        })
  ]
