-- ===== src/Be/HashMap/Look.antt =====
-- What a block of a `hash_map` holds under a key.
use mathlib.Core.Path.{subst}
use eparallel.Common.{
  ℕ, zero, suc, ◌+◌, ◌%◌, ◌≤◌, ◌<◌, ◌≡◌, ◌≢◌, ◌↔◌, inl, inr, refl, sym, ap, ◌∙◌, arith, Bool, true,
  Option, none, some, List, [], ◌∷◌, length, if◌then◌else◌, update, update_at, update_ne, dec_eq,
  Bool-cases,
}
use eparallel.Be.HashMap.{Node, Block, in_chain}

-- `m_equal` answers whether two keys are the same.
abbrev pub IsEqual : {K : Type 0} → (K → K → Bool) → Type 0
IsEqual {K} equal = (a b : K) → (equal a b ≡ true) ↔ (a ≡ b)

-- The number of nodes in the first buckets.
abbrev pub total : {A : Type 0} → ℕ → (ℕ → List A) → ℕ
total zero f = 0
total (suc n) f = total n f + length (f n)

pub total-update_out :
    {A : Type 0} (n i : ℕ) (f : ℕ → List A) (c : List A)
    → n ≤ i
    → total n (update f i c) ≡ total n f
total-update_out zero i f c h = refl
total-update_out (suc n) i f c h =
    let e = total-update_out n i f c (omega arith) in
    let d = update_ne f {k = i} {q = n} c (omega arith) in rw (e, d) refl

pub total-update :
    {A : Type 0} (n i : ℕ) (f : ℕ → List A) (c : List A)
    → i < n
    → total n (update f i c) + length (f i) ≡ total n f + length c
total-update zero i f c h = absurd (omega arith)
total-update (suc n) i f c h = elim (dec_eq i n) [
  | inl e ↦
      let out = total-update_out n i f c (omega (arith, e)) in
      let at = update_at f {k = i} {q = n} c (sym e) in
      let same = ap (λ j. length (f j)) e in rw (out, at) (omega (arith, same))
  | inr d ↦
      let inner = total-update n i f c (omega (arith, d)) in
      let ne = update_ne f {k = i} {q = n} c (λ x. d (sym x)) in rw ne (omega (arith, inner))
]

module _ {K V : Type 0} (m_hash : K → ℕ) (m_equal : K → K → Bool) where
  abbrev pub lookup : K → List (Node K V) → Option (Node K V)
  lookup k c = in_chain (λ n. m_equal k n.key) c

  abbrev pub look : Block K V → K → Option (Node K V)
  look b k = lookup k (b.chains (m_hash k % b.len))

  -- A chain of nodes of different keys that belong into bucket `i` of `len`.
  abbrev pub ChainFits : ℕ → ℕ → List (Node K V) → Type 0
  ChainFits len i [] = Unit {0}
  ChainFits len i (n ∷ c) =
      (n.hash_val ≡ m_hash n.key)
      × (m_hash n.key % len ≡ i)
      × (lookup n.key c ≡ none)
      × ChainFits len i c

  pub record Placed (b : Block K V) : Type 0 where
    pub some_bucket : 0 < b.len
    pub fits : (i : ℕ) → i < b.len → ChainFits b.len i (b.chains i)

  -- Hashes below a size.
  abbrev pub Small : ℕ → List (Node K V) → Type 0
  Small sz [] = Unit {0}
  Small sz (n ∷ c) = (n.hash_val < sz) × Small sz c

  -- The block with a node in front of the chain at its hash.
  abbrev pub pushed : Block K V → ℕ → Node K V → Block K V
  pushed b i n = record b { chains = update b.chains i (n ∷ b.chains i) }

  module _ (same : IsEqual m_equal) where
    -- A key is not in the chain of another bucket.
    pub lookup_elsewhere :
        (len i : ℕ) (q : K) (c : List (Node K V))
        → ChainFits len i c
        → m_hash q % len ≢ i
        → lookup q c ≡ none
    unfolding in_chain
    lookup_elsewhere len i q [] f d = refl
    lookup_elsewhere len i q (n ∷ c) (h, p, u, f) d = elim (Bool-cases (m_equal q n.key)) [
      | inl e ↦ absurd (d (ap (λ k. m_hash k % len) ((same q n.key).0 e) ∙ p))
      | inr e ↦ rw e (lookup_elsewhere len i q c f d)
    ]

    module _ (b : Block K V) (i : ℕ) (n : Node K V) (home : m_hash n.key % b.len ≡ i) where
      pub look-pushed :
          (q : K) → look (pushed b i n) q ≡ (if m_equal q n.key then some n else look b q)
      unfolding in_chain
      look-pushed q = elim (Bool-cases (m_equal q n.key)) [
        | inl e ↦
            let p : m_hash q % b.len ≡ i = ap (λ k. m_hash k % b.len) ((same q n.key).0 e) ∙ home in
            let at = update_at b.chains (n ∷ b.chains i) p in ap (λ c. lookup q c) at ∙ rw e refl
        | inr e ↦ elim (dec_eq (m_hash q % b.len) i) [
          | inl p ↦
              let at = update_at b.chains (n ∷ b.chains i) p in
              ap (λ c. lookup q c) at ∙ rw e (ap (λ j. lookup q (b.chains j)) (sym p))
          | inr d ↦
              let ne = update_ne b.chains (n ∷ b.chains i) d in ap (λ c. lookup q c) ne ∙ rw e refl
        ]
      ]

      pub Placed-pushed :
          i < b.len
          → n.hash_val ≡ m_hash n.key
          → look b n.key ≡ none
          → Placed b
          → Placed (pushed b i n)
      Placed-pushed h e absent p = record {
        some_bucket = p.some_bucket;
        fits = λ j w. elim (dec_eq j i) [
          | inl z ↦
              let at = update_at b.chains (n ∷ b.chains i) z in
              let g : ChainFits b.len i (n ∷ b.chains i) =
                (e, home, rw home at absent, p.fits i h) in
              rw at (subst (λ r. ChainFits b.len r (n ∷ b.chains i)) (sym z) g)
          | inr d ↦ let ne = update_ne b.chains (n ∷ b.chains i) d in rw ne (p.fits j w)
        ];
      }

    pub total-pushed :
        (b : Block K V) (i : ℕ) (n : Node K V)
        → i < b.len
        → total b.len (pushed b i n).chains ≡ suc (total b.len b.chains)
    total-pushed b i n h = omega (arith, total-update b.len i b.chains (n ∷ b.chains i) h)
