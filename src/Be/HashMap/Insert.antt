-- ===== src/Be/HashMap/Insert.antt =====
-- insert and operator[] are the update of a map at a key that is not in it, and resize leaves its
-- block where a hash is not below the new size.
use native.Mathlib.Nat.{mod-lt}
use eparallel.Common.{
  Option-cases, ℕ, suc, ◌+◌, ◌-◌, ◌%◌, ◌<◌, ◌≡◌, inl, inr, refl, sym, ap, ◌∙◌, arith, Bool, true,
  false, Option, none, some, List, [], ◌∷◌, if◌then◌else◌, ltb, Bool-cases,
}
use eparallel.Be.HashMap.{Node, HashMap, in_chain, set_bucket, add_node, insert, index, find}
use eparallel.Be.HashMap.Look.{IsEqual, look, pushed, Placed-pushed, look-pushed, total-pushed}
use eparallel.Be.HashMap.Valid.{Valid, Grows, grow-Same, find-Look, bucket-Home, value}

-- What a key holds after insert of `v`, by what it held.
abbrev pub kept : {V : Type 0} → Option V → V → V
kept none v = v
kept (some x) v = x

abbrev pub is_none : {A : Type 0} → Option A → Bool
is_none none = true
is_none (some a) = false

is_none-value : {K V : Type 0} (o : Option (Node K V)) → is_none o ≡ is_none (value o)
is_none-value none = refl
is_none-value (some n) = refl

value_if :
    {K V : Type 0} (e : Bool) (n : Node K V) (o : Option (Node K V))
    → value (if e then some n else o) ≡ (if e then some n.val else value o)
value_if true n o = refl
value_if false n o = refl

-- operator[] compares keys the other way round.
in_chain_flip :
    {K V : Type 0} {m_equal : K → K → Bool}
    → IsEqual m_equal
    → (k : K) (c : List (Node K V))
    → in_chain (λ n. m_equal n.key k) c ≡ in_chain (λ n. m_equal k n.key) c
unfolding in_chain
in_chain_flip same k [] = refl
in_chain_flip {m_equal = m_equal} same k (n ∷ c) = elim (Bool-cases (m_equal k n.key)) [
  | inl e ↦ let f = (same n.key k).1 (sym ((same k n.key).0 e)) in rw (e, f) refl
  | inr e ↦
      let f : m_equal n.key k ≡ false = elim (Bool-cases (m_equal n.key k)) [
        | inr f ↦ f
        | inl f ↦ absurd (ground (arith, sym e ∙ (same k n.key).1 (sym ((same n.key k).0 f))))
      ] in
      rw (e, f) (in_chain_flip same k c)
]

module _ {K V : Type 0} (m_hash : K → ℕ) (m_equal : K → K → Bool) (same : IsEqual m_equal) where
  -- A map with a key more.
  record Added (m : HashMap K V) (v : Valid m_hash m_equal m) (k : K) (x : V) (r : HashMap K V)
      : Type 0 where
    pub valid : Valid m_hash m_equal r
    pub count : r.m_size ≡ suc m.m_size
    pub reads :
        (q : K)
        → value (look m_hash m_equal valid.block q)
          ≡ (if m_equal q k then some x else value (look m_hash m_equal v.block q))

  add_node-Added :
      (m : HashMap K V) (v : Valid m_hash m_equal m) (k : K) (x : V)
      → m.m_size < m.m_msxsize
      → look m_hash m_equal v.block k ≡ none
      → (r : HashMap K V) × (add_node m_hash m_equal m
            (m_hash k % m.m_msxsize)
            (v.block.chains (m_hash k % v.block.len))
            k
            x
          ≡ some r)
        × Added m v k x r
  unfolding add_node set_bucket
  add_node-Added m v k x room absent =
      let n : Node K V = record { key = k; val = x; hash_val = m_hash k } in
      let i = m_hash k % v.block.len in
      let h = mod-lt (m_hash k) v.placed.some_bucket in
      let inside : ltb i v.block.len ≡ true = ground (arith, h) in
      let b = pushed m_hash m_equal v.block i n in
      (
        record m { m_cache = m.m_cache - 1; m_buck = some b; m_size = m.m_size + 1 },
        ap (λ l. add_node m_hash m_equal m (m_hash k % l) (v.block.chains i) k x) (sym v.sized)
            ∙ rw (v.is_block, add_node) (rw (inside, set_bucket) refl),
        record {
          valid = record {
            block = b;
            is_block = refl;
            sized = v.sized;
            placed = Placed-pushed m_hash m_equal same v.block i n refl h refl absent v.placed;
            counted = omega (arith, total-pushed m_hash m_equal same v.block i n h, v.counted);
            roomy = omega (arith, room);
          };
          count = omega arith;
          reads = λ q.
              ap value (look-pushed m_hash m_equal same v.block i n refl q)
              ∙ value_if (m_equal q k) n (look m_hash m_equal v.block q);
        },
      )

  -- What insert does to a map: the flag, and the map behind it.
  pub record Inserted (m : HashMap K V) (v : Valid m_hash m_equal m) (k : K) (x : V) (fresh : Bool)
      (r : HashMap K V) : Type 0 where
    pub valid : Valid m_hash m_equal r
    pub flag : fresh ≡ is_none (look m_hash m_equal v.block k)
    pub count : r.m_size ≡ (if fresh then suc m.m_size else m.m_size)
    pub reads :
        (q : K)
        → value (look m_hash m_equal valid.block q) ≡ (
            if m_equal q k
            then some (kept (value (look m_hash m_equal v.block k)) x)
            else value (look m_hash m_equal v.block q))

  unchanged :
      (m : HashMap K V) (v : Valid m_hash m_equal m) (k : K) (x : V) (q : K) (n : Node K V)
      → look m_hash m_equal v.block k ≡ some n
      → value (look m_hash m_equal v.block q) ≡ (
          if m_equal q k
          then some (kept (value (look m_hash m_equal v.block k)) x)
          else value (look m_hash m_equal v.block q))
  unchanged m v k x q n e = elim (Bool-cases (m_equal q k)) [
    | inr other ↦ rw other refl
    | inl mine ↦
        let here : look m_hash m_equal v.block q ≡ some n =
          ap (look m_hash m_equal v.block) ((same q k).0 mine) ∙ e in
        ap value here ∙ rw (mine, e) refl
  ]

  insert-Inserted :
      (m : HashMap K V) (v : Valid m_hash m_equal m) (k : K) (x : V)
      → Grows m_hash m_equal m v
      → (fresh : Bool) × (r : HashMap K V) × (insert m_hash m_equal m k x ≡ some (fresh, r))
        × (index m_hash m_equal m k x ≡ some (kept (value (look m_hash m_equal v.block k)) x, r))
        × Inserted m v k x fresh r
  unfolding insert index in_chain
  insert-Inserted m v k x g =
      let (m1, run1, t) = grow-Same m_hash m_equal same m v g in
      let b = t.valid.block in
      let home = bucket-Home m_hash m_equal m1 t.valid k in
      elim (Option-cases (look m_hash m_equal b k)) [
        | inr (n, found) ↦
            let before = sym (t.reads k) ∙ found in
            (
              false,
              m1,
              rw (run1, insert) (rw (home, insert) (rw (found, insert) refl)),
              rw (run1, index)
                  (rw (home, index)
                    (rw (in_chain_flip same k (b.chains (m_hash k % b.len)), index)
                      (rw (found, index) (rw before refl)))),
              record {
                valid = t.valid;
                flag = rw before refl;
                count = t.count;
                reads = λ q. ap value (t.reads q) ∙ unchanged m v k x q n before;
              },
            )
        | inl absent ↦
            let before = sym (t.reads k) ∙ absent in
            let (r, run, a) = add_node-Added m1 t.valid k x t.room absent in
            (
              true,
              r,
              rw (run1, insert) (rw (home, insert) (rw (absent, insert) (rw (run, insert) refl))),
              rw (run1, index)
                  (rw (home, index)
                    (rw (in_chain_flip same k (b.chains (m_hash k % b.len)), index)
                      (rw (absent, index) (rw (run, index) (rw before refl))))),
              record {
                valid = a.valid;
                flag = rw before refl;
                count = a.count ∙ ap suc t.count;
                reads = λ q.
                    a.reads q
                    ∙ ap (λ o. if m_equal q k then some x else value o) (t.reads q)
                    ∙ ap
                        (λ o.
                          if m_equal q k
                          then some (kept (value o) x)
                          else value (look m_hash m_equal v.block q))
                        (sym before);
              },
            )
      ]

-- For an equality that answers whether two keys are the same, and a valid map that is not full, or
-- all of whose hashes are below the next size: insert of a value at a key has a result, the map
-- is valid again, its flag says whether the key was not in the map, and the size grows by one
-- exactly then. operator[] leaves the same map and answers what it holds there, if the value that it
-- would put in is that of insert. find answers under every key what the map held before, and then the same, but
-- under the key of insert: there the value of insert if it held none.
pub insert-Map :
    {K V : Type 0} (m_hash : K → ℕ) (m_equal : K → K → Bool) (m : HashMap K V) (k : K) (x : V)
    (v : Valid m_hash m_equal m)
    → IsEqual m_equal
    → Grows m_hash m_equal m v
    → let held = λ (q : K). value (look m_hash m_equal v.block q) in
      (fresh : Bool) × (r : HashMap K V) × (insert m_hash m_equal m k x ≡ some (fresh, r))
      × (index m_hash m_equal m k x ≡ some (kept (held k) x, r))
      × Valid m_hash m_equal r
      × (fresh ≡ is_none (held k))
      × (r.m_size ≡ (if fresh then suc m.m_size else m.m_size))
      × ((q : K)
          → (find m_hash m_equal m q ≡ some (held q))
            × (find m_hash m_equal r q
                ≡ some (if m_equal q k then some (kept (held k) x) else held q)))
insert-Map m_hash m_equal m k x v same g =
    let (fresh, r, run, run', t) = insert-Inserted m_hash m_equal same m v k x g in
    (
      fresh,
      r,
      run,
      run',
      t.valid,
      t.flag ∙ is_none-value (look m_hash m_equal v.block k),
      t.count,
      λ q. (
        find-Look m_hash m_equal m v q,
        find-Look m_hash m_equal r t.valid q ∙ ap some (t.reads q),
      ),
    )
