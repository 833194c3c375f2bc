-- ===== src/Be/HashMap/Valid.antt =====
-- A `hash_map` whose nodes are where its operations look for them, and how it grows.
use native.Mathlib.Nat.{mod-lt}
use eparallel.Common.{
  Option-cases, ℕ, zero, suc, ◌+◌, ◌%◌, ◌≤◌, ◌<◌, ◌≡◌, ◌⊎◌, inl, inr, refl, sym, ap, ◌∙◌, arith,
  Bool, true, false, Option, none, some, List, [], ◌∷◌, length, ltb, dec_eq, Bool-cases, ◌==◌,
}
use eparallel.Be.HashMap.{
  Node, Block, HashMap, in_chain, bucket, empty_block, first_above, hash_next_prime,
  hash_prime_list, resize, grow, find,
}
use eparallel.Be.HashMap.Look.{IsEqual, total, lookup, look, Placed, Small}
use eparallel.Be.HashMap.Moved.{MovedTo, move_all-Moved}

abbrev last_of : List ℕ → ℕ
last_of [] = 0
last_of (p ∷ []) = p
last_of (p ∷ q ∷ ps) = last_of (q ∷ ps)

first_above-Above : (n : ℕ) (ps : List ℕ) → n < last_of ps → n < first_above n ps
unfolding first_above
first_above-Above n [] h = h
first_above-Above n (p ∷ []) h = h
first_above-Above n (p ∷ q ∷ ps) h = elim (Bool-cases (ltb n p)) [
  | inl e ↦ rw e (ground (arith, e))
  | inr e ↦ rw e (first_above-Above n (q ∷ ps) h)
]

hash_next_prime-Above : (n : ℕ) → n < 4294967291 → n < hash_next_prime n
unfolding hash_next_prime
hash_next_prime-Above n h = first_above-Above n hash_prime_list h

total-empty : (A : Type 0) (n : ℕ) → total {A = A} n (λ i. []) ≡ 0
total-empty A zero = refl
total-empty A (suc n) = omega (arith, total-empty A n)

total-zero : {A : Type 0} (n i : ℕ) (f : ℕ → List A) → total n f ≡ 0 → i < n → f i ≡ []
total-zero zero i f e h = absurd (omega arith)
total-zero (suc n) i f e h = elim (dec_eq i n) [
  | inr d ↦ total-zero n i f (omega (arith, e)) (omega (arith, d))
  | inl z ↦ ap f z ∙ no_items (f n) (omega (arith, e))
]
  where
    no_items : {B : Type 0} (c : List B) → length c ≡ 0 → c ≡ []
    no_items [] e = refl
    no_items (x ∷ c) e = absurd (omega (arith, e))

abbrev pub value : {K V : Type 0} → Option (Node K V) → Option V
value none = none
value (some n) = some n.val

module _ {K V : Type 0} (m_hash : K → ℕ) (m_equal : K → K → Bool) where
  pub record Valid (m : HashMap K V) : Type 0 where
    pub block : Block K V
    pub is_block : m.m_buck ≡ some block
    pub sized : block.len ≡ m.m_msxsize
    pub placed : Placed m_hash m_equal block
    pub counted : total block.len block.chains ≡ m.m_size
    pub roomy : m.m_size ≤ m.m_msxsize

  -- The next size is above every hash in the map, where the map is full.
  abbrev pub Grows : (m : HashMap K V) → Valid m → Type 0
  Grows m v =
      (m.m_size < m.m_msxsize)
      ⊎ ((m.m_size + 1 < 4294967291)
          × ((j : ℕ)
              → j < v.block.len
              → Small m_hash m_equal (hash_next_prime (m.m_size + 1)) (v.block.chains j)))

  -- A map that holds the same under every key.
  pub record Same (m : HashMap K V) (v : Valid m) (r : HashMap K V) : Type 0 where
    pub valid : Valid r
    pub count : r.m_size ≡ m.m_size
    pub room : r.m_size < r.m_msxsize
    pub reads : (q : K) → look m_hash m_equal valid.block q ≡ look m_hash m_equal v.block q

  module _ (same : IsEqual m_equal) where
    resize-Same :
        (m : HashMap K V) (v : Valid m) (sz : ℕ)
        → m.m_size ≡ m.m_msxsize
        → m.m_size < sz
        → ((j : ℕ) → j < v.block.len → Small m_hash m_equal sz (v.block.chains j))
        → (r : HashMap K V) × (resize m sz ≡ some r) × Same m v r
    unfolding resize in_chain
    resize-Same m v sz full h small =
        let fits : ltb sz m.m_size ≡ false = ground (arith, h) in
        let empty : MovedTo m_hash m_equal same v.block 0 (empty_block sz) = record {
          placed = record { some_bucket = omega (arith, h); fits = λ i w. tt };
          count = total-empty (Node K V) sz;
          moved = λ q w. absurd (omega (arith, w));
          ahead = λ q w. refl;
        } in
        let (b, run, len, t) =
          move_all-Moved m_hash m_equal same m.m_size 0 v.block (empty_block sz)
            (omega (arith, full, v.sized)) v.placed small empty in
        (
          record m { m_buck = some b; m_msxsize = sz },
          rw (fits, resize) (rw (v.is_block, resize) (rw (run, resize) refl)),
          record {
            valid = record {
              block = b;
              is_block = refl;
              sized = len;
              placed = t.placed;
              counted = t.count ∙ v.counted;
              roomy = omega (arith, h);
            };
            count = refl;
            room = h;
            reads = λ q. t.moved q (mod-lt (m_hash q) v.placed.some_bucket);
          },
        )

    pub grow-Same :
        (m : HashMap K V) (v : Valid m)
        → Grows m v
        → (r : HashMap K V) × (grow m ≡ some r) × Same m v r
    unfolding grow
    grow-Same m v g = elim (Bool-cases (ltb m.m_msxsize (m.m_size + 1))) [
      | inr e ↦ (
        m,
        rw (e, grow) refl,
        record { valid = v; count = refl; room = ground (arith, e); reads = λ q. refl },
      )
      | inl e ↦ elim g [
        | inl w ↦ absurd (ground (arith, e, w))
        | inr (bound, small) ↦
            let full : m.m_size ≡ m.m_msxsize = ground (arith, e, v.roomy) in
            let above = hash_next_prime-Above (m.m_size + 1) bound in
            let (r, run, t) =
              resize-Same m v (hash_next_prime (m.m_size + 1)) full (omega (arith, above)) small in
            (r, rw (e, grow) run, t)
      ]
    ]

  pub bucket-Home :
      (m : HashMap K V) (v : Valid m) (q : K)
      → bucket m.m_buck (m_hash q % m.m_msxsize) ≡ some (v.block.chains (m_hash q % v.block.len))
  unfolding bucket
  bucket-Home m v q =
      let inside : ltb (m_hash q % v.block.len) v.block.len ≡ true =
        ground (arith, mod-lt (m_hash q) v.placed.some_bucket) in
      ap (λ l. bucket m.m_buck (m_hash q % l)) (sym v.sized)
      ∙ rw (v.is_block, bucket) (rw (inside, bucket) refl)

  -- find answers what the block holds.
  pub find-Look :
      (m : HashMap K V) (v : Valid m) (q : K)
      → find m_hash m_equal m q ≡ some (value (look m_hash m_equal v.block q))
  unfolding find bucket in_chain
  find-Look m v q = elim (Bool-cases (m.m_size == 0)) [
    | inl e ↦
        let pos = m_hash q % v.block.len in
        let none_here : v.block.chains pos ≡ [] =
          total-zero v.block.len pos v.block.chains (ground (arith, v.counted, e))
            (mod-lt (m_hash q) v.placed.some_bucket) in
        rw (e, find) (rw none_here refl)
    | inr e ↦
        let c = v.block.chains (m_hash q % v.block.len) in
        elim (Option-cases (lookup m_hash m_equal q c)) [
          | inl f ↦ rw (e, find) (rw (bucket-Home m v q, find) (rw f refl))
          | inr (n, f) ↦ rw (e, find) (rw (bucket-Home m v q, find) (rw f refl))
        ]
  ]
