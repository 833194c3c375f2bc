-- ===== src/Tests/HashMapTests.antt =====
-- be's `hash_map` with numbers as keys and as their own hashes.
use eparallel.Common.{
  ℕ, ◌+◌, ◌<◌, ◌≡◌, ◌⊎◌, inl, inr, refl, some, none, Option, Bool, true, [], ◌∷◌, arith, ◌==◌,
  ==_iff, if◌then◌else◌, Bool-cases, update,
}
use eparallel.Be.HashMap.{
  Node, Block, HashMap, new, insert, index, erase, find, in_chain, hash_next_prime,
}
use eparallel.Be.HashMap.Look.{look, Small}
use eparallel.Be.HashMap.Valid.{value, Valid}
use eparallel.Be.HashMap.Insert.{is_none, insert-Map, kept}
use eparallel.Be.HashMap.Erase.{erase-Map}
use eparallel.Be.HashMap.Iter.{begin, erase_at, begin-Misses}
use eparallel.Be.HashMap.Outside.{insert-Inside}

abbrev id : ℕ → ℕ
id k = k

abbrev eq : ℕ → ℕ → Bool
eq a b = a == b

abbrev Map : Type 0
Map = HashMap ℕ ℕ

-- A map that was made without buckets gets 53 of them, and works.
abbrev then_insert : Option (Bool × Map) → ℕ → ℕ → Option (Bool × Map)
then_insert none k x = none
then_insert (some (b, m)) k x = insert id eq m k x

abbrev answer : Option (Bool × Map) → ℕ → Option (Option ℕ)
answer none k = none
answer (some (b, m)) k = find id eq m k

three_keys :
    answer (then_insert (then_insert (insert id eq (new 0) 7 70) 60 600) 7 71) 7 ≡ some (some 70)
unfolding insert find new
three_keys = refl

-- One that was made with buckets has none.
no_bucket : then_insert (some (true, new 10)) 7 70 ≡ none
unfolding insert new
no_bucket = refl

-- Key 5 in the second of two buckets.
abbrev five : Node ℕ ℕ
five = record { key = 5; val = 50; hash_val = 5 }

abbrev one_key : Map
one_key = record {
  m_cache = 0;
  m_buck = some (record { len = 2; chains = λ i. if i == 1 then five ∷ [] else [] });
  m_size = 1;
  m_msxsize = 2;
}

one_key-Valid : Valid id eq one_key
unfolding in_chain
one_key-Valid = record {
  block = record { len = 2; chains = λ i. if i == 1 then five ∷ [] else [] };
  is_block = refl;
  sized = refl;
  placed = record {
    some_bucket = omega arith;
    fits = λ i w. elim (Bool-cases (i == 1)) [
      | inl e ↦ rw e (refl, ground (arith, e), refl, tt)
      | inr e ↦ rw e tt
    ];
  };
  counted = refl;
  roomy = omega arith;
}

abbrev held : ℕ → Option ℕ
held q = value (look id eq one_key-Valid.block q)

insert-Map_example :
    (fresh : Bool) × (r : Map) × (insert id eq one_key 8 80 ≡ some (fresh, r))
    × (index id eq one_key 8 80 ≡ some (kept (held 8) 80, r))
    × Valid id eq r
    × (fresh ≡ is_none (held 8))
    × (r.m_size ≡ (if fresh then 2 else 1))
    × ((q : ℕ)
        → (find id eq one_key q ≡ some (held q))
          × (find id eq r q ≡ some (if q == 8 then some (kept (held 8) 80) else held q)))
insert-Map_example = insert-Map id eq one_key 8 80 one_key-Valid ==_iff (inl (omega arith))

erase-Map_example :
    (cnt : ℕ) × (r : Map) × (erase id eq one_key 5 ≡ some (cnt, r))
    × Valid id eq r
    × (((held 5 ≡ none) × (cnt ≡ 0)) ⊎ ((x : ℕ) × (held 5 ≡ some x) × (cnt ≡ 1)))
    × (r.m_size + cnt ≡ 1)
    × ((q : ℕ)
        → (find id eq one_key q ≡ some (held q))
          × (find id eq r q ≡ some (if q == 5 then none else held q)))
erase-Map_example = erase-Map id eq one_key 5 one_key-Valid ==_iff

-- A full map, with one bucket; and one with a hash above the next size, which is 53.
abbrev full_block : Block ℕ ℕ
full_block = record { len = 1; chains = λ i. if i == 0 then five ∷ [] else [] }

abbrev full_map : Map
full_map = record { m_cache = 0; m_buck = some full_block; m_size = 1; m_msxsize = 1 }

full_map-Valid : Valid id eq full_map
unfolding in_chain
full_map-Valid = record {
  block = full_block;
  is_block = refl;
  sized = refl;
  placed = record {
    some_bucket = omega arith;
    fits = λ i w. elim (Bool-cases (i == 0)) [
      | inl e ↦ rw e (refl, ground (arith, e), refl, tt)
      | inr e ↦ rw e tt
    ];
  };
  counted = refl;
  roomy = omega arith;
}

abbrev grown : Map
grown = record {
  m_cache = 0;
  m_buck = some (record {
    len = 53;
    chains =
        update (update (λ i. []) 5 (five ∷ [])) 8 (record { key = 8; val = 80; hash_val = 8 } ∷ []);
  });
  m_size = 2;
  m_msxsize = 53;
}

grows : insert id eq full_map 8 80 ≡ some (true, grown)
unfolding insert
grows = refl

first_bucket : 0 < full_map-Valid.block.len
unfolding full_map-Valid
first_bucket = omega arith

insert-Inside_example : Small id eq (hash_next_prime 2) (full_map-Valid.block.chains 0)
insert-Inside_example =
    insert-Inside id eq full_map 8 80 (true, grown) 0 full_map-Valid refl grows first_bucket

abbrev far : Map
far = record {
  m_cache = 0;
  m_buck =
      some (record { len = 1; chains = λ i. record { key = 53; val = 50; hash_val = 53 } ∷ [] });
  m_size = 1;
  m_msxsize = 1;
}

outside : insert id eq far 8 80 ≡ none
unfolding insert
outside = refl

five_held : look id eq one_key-Valid.block 5 ≡ some five
unfolding one_key-Valid in_chain
five_held = refl

begin_misses_five : (find id eq one_key 5 ≡ some (some 50)) × (begin one_key ≡ some [])
begin_misses_five = begin-Misses id eq one_key 5 five one_key-Valid refl (omega arith) five_held

-- The same node, taken out at its iterator, is looked for in bucket 5 of 2.
erased_outside : erase_at id eq one_key (five ∷ []) ≡ none
unfolding erase_at
erased_outside = refl
