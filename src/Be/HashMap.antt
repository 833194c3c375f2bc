-- ===== src/Be/HashMap.antt =====
-- be/be_hash_map.h: `hash_map`, chains of nodes in a block of buckets.
-- A block is its length and its chains; the operations have no result, `none`, where the code uses
-- NULL or goes outside the block, or where its assertion fails. The hash function and the equality
-- of keys are parameters. Sizes are so small that `m_size + 1` is a size_t.
pub mod Look
pub mod Moved
pub mod Valid
pub mod Insert
pub mod Outside
pub mod EraseChain
pub mod Erase
pub mod Iter
use eparallel.Common.{
  ℕ, zero, suc, ◌+◌, ◌-◌, ◌%◌, ◌^◌, Bool, true, false, Option, none, some, List, [], ◌∷◌, ltb, leb,
  ◌==◌, if◌then◌else◌, update, get_or, length,
}

-- `hash_prime_list`
abbrev pub hash_prime_list : List ℕ
hash_prime_list =
    53 ∷ 97 ∷ 193 ∷ 389 ∷ 769 ∷ 1543 ∷ 3079 ∷ 6151 ∷ 12289 ∷ 24593 ∷ 49157 ∷ 98317 ∷ 196613 ∷ 393241
    ∷ 786433 ∷ 1572869 ∷ 3145739 ∷ 6291469 ∷ 12582917 ∷ 25165843 ∷ 50331653 ∷ 100663319 ∷ 201326611
    ∷ 402653189 ∷ 805306457 ∷ 1610612741 ∷ 3221225473 ∷ 4294967291 ∷ []

-- The first that is above `n`, or the last.
unfoldable pub first_above : ℕ → List ℕ → ℕ
first_above n [] = 0
first_above n (p ∷ []) = p
first_above n (p ∷ q ∷ ps) = if ltb n p then p else first_above n (q ∷ ps)

unfoldable pub hash_next_prime : ℕ → ℕ
unfolding first_above
hash_next_prime n = first_above n hash_prime_list

-- `hashnode`, in a chain
pub record Node (K V : Type 0) : Type 0 where
  pub key : K
  pub val : V
  pub hash_val : ℕ

pub record Block (K V : Type 0) : Type 0 where
  pub len : ℕ
  pub chains : ℕ → List (Node K V)

-- `m_cache` is the number of nodes that it keeps; `m_buck` is `none` for NULL.
pub record HashMap (K V : Type 0) : Type 0 where
  pub m_cache : ℕ
  pub m_buck : Option (Block K V)
  pub m_size : ℕ
  pub m_msxsize : ℕ

-- `--m_size`
unfoldable pub dec : ℕ → ℕ
dec n = if n == 0 then 2 ^ 64 - 1 else n - 1

module _ {K V : Type 0} where
  -- The constructor sets no bucket: the block that it allocates is lost.
  unfoldable pub new : ℕ → HashMap K V
  new sz = record { m_cache = 0; m_buck = none; m_size = 0; m_msxsize = sz }

  -- `m_buck[i]`
  unfoldable pub bucket : Option (Block K V) → ℕ → Option (List (Node K V))
  bucket none i = none
  bucket (some b) i = if ltb i b.len then some (b.chains i) else none

  -- `m_buck[i] = nod`
  unfoldable pub set_bucket : Block K V → ℕ → List (Node K V) → Option (Block K V)
  set_bucket b i c = if ltb i b.len then some (record b { chains = update b.chains i c }) else none

  -- The first node of a chain that passes a test.
  unfoldable pub in_chain : (Node K V → Bool) → List (Node K V) → Option (Node K V)
  in_chain test [] = none
  in_chain test (n ∷ c) = if test n then some n else in_chain test c

  -- One round of the inner loop of resize: the next is taken at the reduced hash, the node is put
  -- at the hash itself.
  unfoldable pub move_node : Block K V → Node K V → Option (Block K V)
  unfolding bucket set_bucket
  move_node newbuck cur = elim (bucket (some newbuck) (cur.hash_val % newbuck.len)) [
    | none ↦ none
    | some c ↦ set_bucket newbuck cur.hash_val (cur ∷ c)
  ]

  unfoldable pub move_chain : List (Node K V) → Block K V → Option (Block K V)
  unfolding move_node
  move_chain [] newbuck = some newbuck
  move_chain (cur ∷ c) newbuck = elim (move_node newbuck cur) [
    | none ↦ none
    | some b ↦ move_chain c b
  ]

  -- The outer loop, for the buckets from `i` on.
  unfoldable pub move_all : ℕ → ℕ → Option (Block K V) → Block K V → Option (Block K V)
  unfolding move_chain
  move_all zero i old newbuck = some newbuck
  move_all (suc left) i old newbuck = elim (bucket old i) [
    | none ↦ none
    | some c ↦ elim (move_chain c newbuck) [ none ↦ none | some b ↦ move_all left (suc i) old b ]
  ]

  abbrev pub empty_block : ℕ → Block K V
  empty_block sz = record { len = sz; chains = λ i. [] }

  unfoldable pub resize : HashMap K V → ℕ → Option (HashMap K V)
  unfolding move_all
  resize m sz =
      if ltb sz m.m_size then none else elim (move_all m.m_size 0 m.m_buck (empty_block sz)) [
        | none ↦ none
        | some b ↦ some (record m { m_buck = some b; m_msxsize = sz })
      ]

  -- What insert and operator[] begin with.
  unfoldable pub grow : HashMap K V → Option (HashMap K V)
  unfolding resize hash_next_prime
  grow m =
      if ltb m.m_msxsize (m.m_size + 1) then resize m (hash_next_prime (m.m_size + 1)) else some m

  -- A node goes to the allocator or into the cache.
  unfoldable pub drop_node : HashMap K V → HashMap K V
  unfolding dec
  drop_node m =
      let room =
        if leb m.m_size m.m_msxsize
        then m.m_msxsize - m.m_size
        else 2 ^ 64 - (m.m_size - m.m_msxsize) in
      record m {
        m_cache = if leb room m.m_cache then m.m_cache else m.m_cache + 1;
        m_size = dec m.m_size;
      }

  module _ (m_hash : K → ℕ) (m_equal : K → K → Bool) where
    -- A new node at the front of the chain of bucket `pos`.
    unfoldable pub add_node : HashMap K V → ℕ → List (Node K V) → K → V → Option (HashMap K V)
    unfolding set_bucket
    add_node m pos c k v = elim m.m_buck [
      | none ↦ none
      | some b ↦ elim (set_bucket b pos (record { key = k; val = v; hash_val = m_hash k } ∷ c)) [
        | none ↦ none
        | some b' ↦
            some (record m { m_cache = m.m_cache - 1; m_buck = some b'; m_size = m.m_size + 1 })
      ]
    ]

    -- The flag of the pair that insert returns, and the map.
    unfoldable pub insert : HashMap K V → K → V → Option (Bool × HashMap K V)
    unfolding grow add_node in_chain bucket
    insert m0 k v = elim (grow m0) [
      | none ↦ none
      | some m ↦
          let pos = m_hash k % m.m_msxsize in
          elim (bucket m.m_buck pos) [
            | none ↦ none
            | some c ↦ elim (in_chain (λ n. m_equal k n.key) c) [
              | some n ↦ some (false, m)
              | none ↦ elim (add_node m pos c k v) [ none ↦ none | some m' ↦ some (true, m') ]
            ]
          ]
    ]

    -- operator[], with the value that the type of the values has by default.
    unfoldable pub index : HashMap K V → K → V → Option (V × HashMap K V)
    unfolding grow add_node in_chain bucket
    index m0 k default = elim (grow m0) [
      | none ↦ none
      | some m ↦
          let pos = m_hash k % m.m_msxsize in
          elim (bucket m.m_buck pos) [
            | none ↦ none
            | some c ↦ elim (in_chain (λ n. m_equal n.key k) c) [
              | some n ↦ some (n.val, m)
              | none ↦ elim (add_node m pos c k default) [
                | none ↦ none
                | some m' ↦ some (default, m')
              ]
            ]
          ]
    ]

    -- find, of a map that is not const: the value at the iterator, if it is not the end.
    unfoldable pub find : HashMap K V → K → Option (Option V)
    unfolding in_chain bucket
    find m k =
        if m.m_size == 0 then some none else elim (bucket m.m_buck (m_hash k % m.m_msxsize)) [
          | none ↦ none
          | some c ↦ elim (in_chain (λ n. m_equal k n.key) c) [
            | none ↦ some none
            | some n ↦ some (some n.val)
          ]
        ]

    -- The loop of erase by key: how many nodes it has taken out, the chain and the map.
    unfoldable pub erase_chain :
        K → List (Node K V) → HashMap K V → ℕ × (List (Node K V) × HashMap K V)
    unfolding drop_node
    erase_chain k [] m = (0, ([], m))
    erase_chain k (n ∷ c) m =
        let same = m_equal k n.key in
        let (cnt, (c', m')) = erase_chain k c (if same then drop_node m else m) in
        if same then (suc cnt, (c', m')) else (cnt, (n ∷ c', m'))

    unfoldable pub erase : HashMap K V → K → Option (ℕ × HashMap K V)
    unfolding erase_chain bucket set_bucket
    erase m k =
        let pos = m_hash k % m.m_msxsize in
        elim (bucket m.m_buck pos) [
          | none ↦ none
          | some c ↦
              let (cnt, (c', m')) = erase_chain k c m in
              elim m.m_buck [
                | none ↦ none
                | some b ↦ elim (set_bucket b pos c') [
                  | none ↦ none
                  | some b' ↦ some (cnt, record m' { m_buck = some b' })
                ]
              ]
        ]
