-- ===== src/Be/HashMap/Erase.antt =====
-- erase by key takes the key out of a map and leaves the others.
use mathlib.Core.Path.{subst}
use native.Mathlib.Nat.{mod-lt}
use eparallel.Common.{
  ℕ, ◌+◌, ◌%◌, ◌<◌, ◌≡◌, ◌⊎◌, inl, inr, refl, sym, ap, ◌∙◌, arith, Bool, true, false, Option, none,
  some, List, [], length, if◌then◌else◌, ltb, update, update_at, update_ne, dec_eq, Bool-cases,
}
use eparallel.Be.HashMap.{
  Node, Block, HashMap, set_bucket, erase_chain, erase, drop_node, dec, find,
}
use eparallel.Be.HashMap.Look.{IsEqual, total, total-update, lookup, look, ChainFits, Placed}
use eparallel.Be.HashMap.Valid.{Valid, find-Look, bucket-Home, value}
use eparallel.Be.HashMap.EraseChain.{erase_chain-Erased}

value_unless :
    {K V : Type 0} (e : Bool) (o : Option (Node K V))
    → value (if e then none else o) ≡ (if e then none else value o)
value_unless true o = refl
value_unless false o = refl

dec_one : (n : ℕ) → 0 < n → dec n + 1 ≡ n
unfolding dec
dec_one n h = ground arith

module _ {K V : Type 0} (m_hash : K → ℕ) (m_equal : K → K → Bool) (same : IsEqual m_equal) where
  -- The block with a chain in place of that of a key.
  abbrev with_chain : Block K V → K → List (Node K V) → Block K V
  with_chain b k c = record b { chains = update b.chains (m_hash k % b.len) c }

  Placed-with_chain :
      (b : Block K V) (k : K) (c : List (Node K V))
      → ChainFits m_hash m_equal b.len (m_hash k % b.len) c
      → Placed m_hash m_equal b
      → Placed m_hash m_equal (with_chain b k c)
  Placed-with_chain b k c f p = record {
    some_bucket = p.some_bucket;
    fits = λ i w. elim (dec_eq i (m_hash k % b.len)) [
      | inl z ↦
          rw (update_at b.chains c z) (subst (λ j. ChainFits m_hash m_equal b.len j c) (sym z) f)
      | inr d ↦ rw (update_ne b.chains c d) (p.fits i w)
    ];
  }

  look-with_chain :
      (b : Block K V) (k : K) (c : List (Node K V))
      → ((q : K)
          → lookup m_hash m_equal q c
            ≡ (if m_equal q k then none else lookup m_hash m_equal q (b.chains (m_hash k % b.len))))
      → (q : K)
      → look m_hash m_equal (with_chain b k c) q
        ≡ (if m_equal q k then none else look m_hash m_equal b q)
  look-with_chain b k c reads q = elim (dec_eq (m_hash q % b.len) (m_hash k % b.len)) [
    | inl z ↦
        ap (λ d. lookup m_hash m_equal q d) (update_at b.chains c z)
        ∙ reads q
        ∙ ap (λ j. if m_equal q k then none else lookup m_hash m_equal q (b.chains j)) (sym z)
    | inr d ↦
        let other : m_equal q k ≡ false = elim (Bool-cases (m_equal q k)) [
          | inr e ↦ e
          | inl e ↦ absurd (d (ap (λ j. m_hash j % b.len) ((same q k).0 e)))
        ] in
        ap (λ e. lookup m_hash m_equal q e) (update_ne b.chains c d) ∙ rw other refl
  ]

  total-with_chain :
      (m : HashMap K V) (v : Valid m_hash m_equal m) (k : K) (c : List (Node K V)) (size : ℕ)
      → size + length (v.block.chains (m_hash k % v.block.len)) ≡ m.m_size + length c
      → total v.block.len (with_chain v.block k c).chains ≡ size
  total-with_chain m v k c size e = omega (
    arith,
    total-update v.block.len (m_hash k % v.block.len) v.block.chains c
        (mod-lt (m_hash k) v.placed.some_bucket),
    v.counted,
    e,
  )

  record ErasedMap (m : HashMap K V) (v : Valid m_hash m_equal m) (k : K) (cnt : ℕ)
      (r : HashMap K V) : Type 0 where
    pub valid : Valid m_hash m_equal r
    pub count :
        ((look m_hash m_equal v.block k ≡ none) × (cnt ≡ 0))
        ⊎ ((n : Node K V) × (look m_hash m_equal v.block k ≡ some n) × (cnt ≡ 1))
    pub size : r.m_size + cnt ≡ m.m_size
    pub reads :
        (q : K)
        → look m_hash m_equal valid.block q
          ≡ (if m_equal q k then none else look m_hash m_equal v.block q)

  erase_run :
      (m : HashMap K V) (v : Valid m_hash m_equal m) (k : K) {cnt : ℕ} {c : List (Node K V)}
      {r : HashMap K V}
      → erase_chain m_hash m_equal k (v.block.chains (m_hash k % v.block.len)) m ≡ (cnt, (c, r))
      → erase m_hash m_equal m k ≡ some (cnt, record r { m_buck = some (with_chain v.block k c) })
  unfolding erase set_bucket
  erase_run m v k e =
      let home = bucket-Home m_hash m_equal m v k in
      let pos : m_hash k % m.m_msxsize ≡ m_hash k % v.block.len =
        ap (λ l. m_hash k % l) (sym v.sized) in
      let inside : ltb (m_hash k % v.block.len) v.block.len ≡ true =
        ground (arith, mod-lt (m_hash k) v.placed.some_bucket) in
      rw (home, erase)
        (rw (v.is_block, erase)
          (rw pos (
            rw (inside, set_bucket)
              (ap
                (λ (r : ℕ × (List (Node K V) × HashMap K V)).
                  some (r.0, record r.1.1 { m_buck = some (with_chain v.block k r.1.0) }))
                e))))

  erase-Erased :
      (m : HashMap K V) (v : Valid m_hash m_equal m) (k : K)
      → (cnt : ℕ) × (r : HashMap K V) × (erase m_hash m_equal m k ≡ some (cnt, r))
        × ErasedMap m v k cnt r
  unfolding drop_node dec
  erase-Erased m v k =
      let b = v.block in
      let pos = m_hash k % b.len in
      let c = b.chains pos in
      let t =
        erase_chain-Erased m_hash m_equal same b.len pos k c m
          (v.placed.fits pos (mod-lt (m_hash k) v.placed.some_bucket)) in
      let out = erase_chain m_hash m_equal k c m in
      elim t.gone [
        | inl (z, e) ↦ (
          0,
          record m { m_buck = some (with_chain b k c) },
          erase_run m v k e,
          record {
            valid = record {
              block = with_chain b k c;
              is_block = refl;
              sized = v.sized;
              placed =
                  Placed-with_chain b k c
                    (v.placed.fits pos (mod-lt (m_hash k) v.placed.some_bucket)) v.placed;
              counted = total-with_chain m v k c m.m_size refl;
              roomy = v.roomy;
            };
            count = inl (z, refl);
            size = omega arith;
            reads =
                look-with_chain b k c
                  (λ q. ap (λ r. lookup m_hash m_equal q r.1.0) (sym e) ∙ t.reads q);
          },
        )
        | inr (n, z, e, l) ↦
            let some_node =
              total-update b.len pos b.chains [] (mod-lt (m_hash k) v.placed.some_bucket) in
            let less : dec m.m_size + 1 ≡ m.m_size =
              dec_one m.m_size (omega (arith, some_node, l, v.counted)) in
            (
              1,
              record (drop_node m) { m_buck = some (with_chain b k out.1.0) },
              erase_run m v k e,
              record {
                valid = record {
                  block = with_chain b k out.1.0;
                  is_block = refl;
                  sized = v.sized;
                  placed = Placed-with_chain b k out.1.0 t.fits v.placed;
                  counted = total-with_chain m v k out.1.0 (dec m.m_size) (omega (arith, less, l));
                  roomy = omega (arith, less, v.roomy);
                };
                count = inr (n, z, refl);
                size = less;
                reads = look-with_chain b k out.1.0 t.reads;
              },
            )
      ]

-- For an equality that answers whether two keys are the same, and a valid map: erase of a key has a
-- result, the map is valid again, and the number that it answers is 1 where the map held the key
-- and else 0, and is what the size shrinks by. find answers under every key what the map held
-- before, and then the same, but nothing under the key of erase.
pub erase-Map :
    {K V : Type 0} (m_hash : K → ℕ) (m_equal : K → K → Bool) (m : HashMap K V) (k : K)
    (v : Valid m_hash m_equal m)
    → IsEqual m_equal
    → let held = λ (q : K). value (look m_hash m_equal v.block q) in
      (cnt : ℕ) × (r : HashMap K V) × (erase m_hash m_equal m k ≡ some (cnt, r))
      × Valid m_hash m_equal r
      × (((held k ≡ none) × (cnt ≡ 0)) ⊎ ((x : V) × (held k ≡ some x) × (cnt ≡ 1)))
      × (r.m_size + cnt ≡ m.m_size)
      × ((q : K)
          → (find m_hash m_equal m q ≡ some (held q))
            × (find m_hash m_equal r q ≡ some (if m_equal q k then none else held q)))
erase-Map m_hash m_equal m k v same =
    let (cnt, r, run, t) = erase-Erased m_hash m_equal same m v k in
    (
      cnt,
      r,
      run,
      t.valid,
      elim t.count [
        | inl (z, e) ↦ inl (ap value z, e)
        | inr (n, z, e) ↦ inr (n.val, ap value z, e)
      ],
      t.size,
      λ q. (
        find-Look m_hash m_equal m v q,
        find-Look m_hash m_equal r t.valid q
            ∙ ap some
                (ap value (t.reads q) ∙ value_unless (m_equal q k) (look m_hash m_equal v.block q)),
      ),
    )
