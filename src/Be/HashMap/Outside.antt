-- ===== src/Be/HashMap/Outside.antt =====
-- Where a hash is not below the new size, resize leaves the block.
use mathlib.Core.Path.{subst}
use eparallel.Common.{
  ℕ, zero, suc, ◌+◌, ◌%◌, ◌≤◌, ◌<◌, ◌≡◌, inl, inr, refl, sym, ap, ◌∙◌, arith, Bool, true, none,
  some, List, [], ◌∷◌, ltb, dec_eq, Bool-cases, Option-cases,
}
use eparallel.Be.HashMap.{
  Node, Block, HashMap, bucket, set_bucket, insert, move_node, move_chain, move_all, empty_block,
  resize, grow, hash_next_prime,
}
use eparallel.Be.HashMap.Look.{Small}
use eparallel.Be.HashMap.Valid.{Valid}

module _ {K V : Type 0} (m_hash : K → ℕ) (m_equal : K → K → Bool) where
  move_node-Result :
      (b r : Block K V) (n : Node K V)
      → move_node b n ≡ some r
      → (n.hash_val < b.len) × (r.len ≡ b.len)
  unfolding move_node bucket set_bucket
  move_node-Result b r n e = elim (Bool-cases (ltb (n.hash_val % b.len) b.len)) [
    | inr out ↦ absurd (ground (arith, rw (out, move_node) at e))
    | inl first ↦
        let e' = rw (first, move_node) at e in
        elim (Bool-cases (ltb n.hash_val b.len)) [
          | inr out ↦ absurd (ground (arith, rw (out, set_bucket) at e'))
          | inl inside ↦
              let f = rw (inside, set_bucket) at e' in (ground (arith, inside), ground (arith, f))
        ]
  ]

  move_chain-Result :
      (c : List (Node K V)) (b r : Block K V)
      → move_chain c b ≡ some r
      → Small m_hash m_equal b.len c × (r.len ≡ b.len)
  unfolding move_chain
  move_chain-Result [] b r e = (tt, ground (arith, e))
  move_chain-Result (n ∷ c) b r e = elim (Option-cases (move_node b n)) [
    | inl out ↦ absurd (ground (arith, rw (out, move_chain) at e))
    | inr (b1, run) ↦
        let (h, len) = move_node-Result b b1 n run in
        let (small, len') = move_chain-Result c b1 r (rw (run, move_chain) at e) in
        ((h, subst (λ l. Small m_hash m_equal l c) len small), len' ∙ len)
  ]

  move_all-Result :
      (left i : ℕ) (o b r : Block K V)
      → move_all left i (some o) b ≡ some r
      → (j : ℕ) → i ≤ j
      → j < left + i
      → Small m_hash m_equal b.len (o.chains j)
  unfolding move_all bucket
  move_all-Result zero i o b r e j lo hi = absurd (omega (arith, lo, hi))
  move_all-Result (suc left) i o b r e j lo hi = elim (Bool-cases (ltb i o.len)) [
    | inr out ↦ absurd (ground (arith, rw (out, move_all) at e))
    | inl inside ↦ elim (Option-cases (move_chain (o.chains i) b)) [
      | inl out ↦ absurd (ground (arith, rw (out, move_all) at (rw (inside, move_all) at e)))
      | inr (b1, run) ↦
          let (small, len) = move_chain-Result (o.chains i) b b1 run in
          elim (dec_eq j i) [
            | inl z ↦ subst (λ a. Small m_hash m_equal b.len (o.chains a)) (sym z) small
            | inr d ↦
                let rest =
                  move_all-Result left (suc i) o b1 r
                    (rw (run, move_all) at (rw (inside, move_all) at e)) j (omega (arith, lo, d))
                    (omega (arith, hi)) in
                subst (λ l. Small m_hash m_equal l (o.chains j)) len rest
          ]
    ]
  ]

  resize-Result :
      (m r : HashMap K V) (v : Valid m_hash m_equal m) (sz : ℕ)
      → resize m sz ≡ some r
      → (j : ℕ) → j < m.m_size
      → Small m_hash m_equal sz (v.block.chains j)
  unfolding resize
  resize-Result m r v sz e j h = elim (Bool-cases (ltb sz m.m_size)) [
    | inr fits ↦
        let e' = rw (fits, resize) at e in
        elim (Option-cases (move_all m.m_size 0 m.m_buck (empty_block sz))) [
          | inl out ↦ absurd (ground (arith, rw (out, resize) at e'))
          | inr (b, run) ↦
              move_all-Result m.m_size 0 v.block (empty_block sz) b
                (ap (λ o. move_all m.m_size 0 o (empty_block sz)) (sym v.is_block) ∙ run) j
                (omega arith) (omega (arith, h))
        ]
    | inl fails ↦ absurd (ground (arith, rw (fails, resize) at e))
  ]

  insert-grow :
      (m : HashMap K V) (k : K) (x : V) → grow m ≡ none → insert m_hash m_equal m k x ≡ none
  unfolding insert
  insert-grow m k x e = rw (e, insert) refl

-- Where insert into a full valid map has a result, every hash in the map is below the next size,
-- for any equality; so where some hash is not below it, insert leaves the new block.
pub insert-Inside :
    {K V : Type 0} (m_hash : K → ℕ) (m_equal : K → K → Bool) (m : HashMap K V) (k : K) (x : V)
    (out : Bool × HashMap K V) (j : ℕ) (v : Valid m_hash m_equal m)
    → m.m_size ≡ m.m_msxsize
    → insert m_hash m_equal m k x ≡ some out
    → j < v.block.len
    → Small m_hash m_equal (hash_next_prime (m.m_size + 1)) (v.block.chains j)
unfolding grow
insert-Inside m_hash m_equal m k x out j v full e h =
    let grows : ltb m.m_msxsize (m.m_size + 1) ≡ true = ground (arith, full) in
    elim (Option-cases (grow m)) [
      | inl fails ↦ absurd (ground (arith, sym (insert-grow m_hash m_equal m k x fails) ∙ e))
      | inr (r, run) ↦
          resize-Result m_hash m_equal m r v (hash_next_prime (m.m_size + 1))
            (rw (grows, grow) at run) j (omega (arith, h, full, v.sized))
    ]
