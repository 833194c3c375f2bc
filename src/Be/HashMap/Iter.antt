-- ===== src/Be/HashMap/Iter.antt =====
-- be/be_hash_map.h: the iterators of `hash_map`.
-- An iterator is the chain from its node on, and the end is the empty chain.
use native.Mathlib.Nat.{mod-lt}
use eparallel.Common.{
  ℕ, zero, suc, ◌+◌, ◌-◌, ◌%◌, ◌≤◌, ◌<◌, ◌≡◌, ◌≢◌, refl, sym, ap, ◌∙◌, arith, Bool, true, Option,
  none, some, List, [], ◌∷◌, length, if◌then◌else◌, ltb, update, update_ne,
}
use eparallel.Be.HashMap.{Node, Block, HashMap, in_chain, bucket, set_bucket, drop_node, find}
use eparallel.Be.HashMap.Look.{total, total-update, lookup, look}
use eparallel.Be.HashMap.Valid.{Valid, value, find-Look}

module _ {K V : Type 0} where
  -- The loop of begin, which goes over as many buckets as the map has nodes.
  unfoldable pub begin_from : ℕ → ℕ → Option (Block K V) → Option (List (Node K V))
  unfolding bucket
  begin_from zero i m_buck = some []
  begin_from (suc left) i m_buck = elim (bucket m_buck i) [
    | none ↦ none
    | some [] ↦ begin_from left (suc i) m_buck
    | some (n ∷ c) ↦ some (n ∷ c)
  ]

  unfoldable pub begin : HashMap K V → Option (List (Node K V))
  unfolding begin_from
  begin m = begin_from m.m_size 0 m.m_buck

  -- The loop of `++` over the buckets behind that of the node.
  unfoldable pub scan : ℕ → ℕ → Option (Block K V) → Option (List (Node K V))
  unfolding bucket
  scan zero i m_buck = some []
  scan (suc left) i m_buck = elim (bucket m_buck i) [
    | none ↦ none
    | some [] ↦ scan left (suc i) m_buck
    | some (n ∷ c) ↦ some (n ∷ c)
  ]

  -- `++`, which takes the hash itself for the bucket; at the end it reads NULL.
  unfoldable pub advance : (K → ℕ) → HashMap K V → List (Node K V) → Option (List (Node K V))
  unfolding scan
  advance m_hash m [] = none
  advance m_hash m (old ∷ n ∷ c) = some (n ∷ c)
  advance m_hash m (old ∷ []) =
      let first = m_hash old.key + 1 in scan (m.m_msxsize - first) first m.m_buck

  -- A chain without its first node of a key; nodes of a map have different keys, so this is the
  -- node itself.
  unfoldable pub unlink : (K → K → Bool) → K → List (Node K V) → Option (List (Node K V))
  unlink m_equal k [] = none
  unlink m_equal k (n ∷ c) =
      let rest = unlink m_equal k c in
      if m_equal k n.key then some c else elim rest [ none ↦ none | some c' ↦ some (n ∷ c') ]

  -- erase at an iterator, which takes the hash itself for the bucket, and reads NULL where that is
  -- empty.
  unfoldable pub erase_at :
      (K → ℕ) → (K → K → Bool) → HashMap K V → List (Node K V) → Option (HashMap K V)
  unfolding bucket set_bucket drop_node unlink
  erase_at m_hash m_equal m [] = some m
  erase_at m_hash m_equal m (p ∷ rest) = elim (bucket m.m_buck (m_hash p.key)) [
    | none ↦ none
    | some [] ↦ none
    | some (n ∷ c) ↦ elim (unlink m_equal p.key (n ∷ c)) [
      | none ↦ some m
      | some c' ↦ elim m.m_buck [
        | none ↦ none
        | some b ↦ elim (set_bucket b (m_hash p.key) c') [
          | none ↦ none
          | some b' ↦ some (record (drop_node m) { m_buck = some b' })
        ]
      ]
    ]
  ]

total_two :
    {A : Type 0} (n i j : ℕ) (f : ℕ → List A)
    → i < n
    → j < n
    → j ≢ i
    → length (f i) + length (f j) ≤ total n f
total_two n i j f hi hj d =
    let e = total-update n i f [] hi in
    let e' = total-update n j (update f i []) [] hj in
    let same = ap length (update_ne f {k = i} {q = j} [] d) in omega (arith, e, e', same)

module _ {K V : Type 0} (m_hash : K → ℕ) (m_equal : K → K → Bool) where
  lookup-length :
      (q : K) (c : List (Node K V)) {n : Node K V}
      → lookup m_hash m_equal q c ≡ some n
      → 0 < length c
  unfolding in_chain
  lookup-length q [] e = absurd (ground (arith, e))
  lookup-length q (n ∷ c) e = omega arith

  pub first_empty :
      (m : HashMap K V) (v : Valid m_hash m_equal m) (k : K) {n : Node K V}
      → m.m_size ≡ 1
      → m_hash k % m.m_msxsize ≢ 0
      → look m_hash m_equal v.block k ≡ some n
      → v.block.chains 0 ≡ []
  first_empty m v k one d e =
      let pos = m_hash k % v.block.len in
      let h = mod-lt (m_hash k) v.placed.some_bucket in
      let d' : pos ≢ 0 = λ z. d (ap (λ l. m_hash k % l) (sym v.sized) ∙ z) in
      let two = total_two v.block.len 0 pos v.block.chains v.placed.some_bucket h d' in
      let here = lookup-length k (v.block.chains pos) e in
      no_items (v.block.chains 0) (omega (arith, two, here, v.counted, one))
    where
      no_items : {B : Type 0} (c : List B) → length c ≡ 0 → c ≡ []
      no_items [] e = refl
      no_items (x ∷ c) e = absurd (omega (arith, e))

  begin_one :
      (m : HashMap K V) (v : Valid m_hash m_equal m)
      → m.m_size ≡ 1
      → v.block.chains 0 ≡ []
      → begin m ≡ some []
  unfolding begin
  begin_one m v one e =
      let inside : ltb 0 v.block.len ≡ true = ground (arith, v.placed.some_bucket) in
      rw one (rw (v.is_block, begin) (rw (inside, begin_from) (rw (e, begin_from) refl)))

-- In a valid map with one node, whose bucket is not the first, find answers the value of its key,
-- and begin answers the end.
pub begin-Misses :
    {K V : Type 0} (m_hash : K → ℕ) (m_equal : K → K → Bool) (m : HashMap K V) (k : K)
    (n : Node K V) (v : Valid m_hash m_equal m)
    → m.m_size ≡ 1
    → m_hash k % m.m_msxsize ≢ 0
    → look m_hash m_equal v.block k ≡ some n
    → (find m_hash m_equal m k ≡ some (some n.val)) × (begin m ≡ some [])
begin-Misses m_hash m_equal m k n v one d e = (
  find-Look m_hash m_equal m v k ∙ ap (λ o. some (value o)) e,
  begin_one m_hash m_equal m v one (first_empty m_hash m_equal m v k one d e),
)
