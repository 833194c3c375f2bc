-- ===== src/Be/Des/Accept.antt =====
-- What DesDecrypt accepts: the ciphertexts of DesEncrypt, and no others.
use eparallel.Common.{
  Option-cases, ℕ, zero, suc, ◌+◌, ◌-◌, ◌*◌, ◌/◌, ◌%◌, ◌≤◌, ◌≡◌, refl, sym, ap, ap₂, ◌∙◌, arith,
  true, false, some, List, [], ◌∷◌, ◌++◌, take, drop, length, length-append, length-take,
  length-drop, take_all, ◌==◌, ltb, ◌||◌, Bool-cases, inl, inr, take-append-drop, pos, get_or,
}
use eparallel.Be.Des.{padding, same_bytes, unpad, decrypt_buf, encrypt_buf, crypt_groups}
use eparallel.Be.Des.Padding.{drop-append_self}
use eparallel.Be.Des.Groups.{Sized, TakesBack, length-crypt_groups, crypt_groups-inverse}

same_bytes-eq : (s t : List ℕ) → same_bytes s t ≡ true → s ≡ t
unfolding same_bytes
same_bytes-eq [] [] e = refl
same_bytes-eq [] (y ∷ t) e = absurd (ground (arith, e))
same_bytes-eq (x ∷ s) [] e = absurd (ground (arith, e))
same_bytes-eq (x ∷ s) (y ∷ t) e = elim (Bool-cases (x == y)) [
  | inl same ↦ ap₂ (λ a b. a ∷ b) (ground (arith, same)) (same_bytes-eq s t (rw same at e))
  | inr other ↦ absurd (ground (arith, rw other at e))
]

-- The bytes in front of the padding, and the padding.
group_parts :
    (buf : List ℕ) (p : ℕ)
    → length buf ≡ 8
    → p ≤ 8
    → same_bytes (take p (drop (8 - p) buf)) (padding p) ≡ true
    → buf ≡ take (8 - p) buf ++ padding p
group_parts buf p size small same =
    let back = drop (8 - p) buf in
    let whole : take p back ≡ back =
      take_all p back (omega (arith, size, length-drop (8 - p) buf)) in
    let eq : back ≡ padding p = sym whole ∙ same_bytes-eq (take p back) (padding p) same in
    sym (ap (λ t. take (8 - p) buf ++ t) (sym eq) ∙ take-append-drop (8 - p) buf)

abbrev Accepted : List ℕ → List ℕ → Type 0
Accepted buf rest = (n : ℕ) × (length rest + suc n ≡ 8) × (buf ≡ rest ++ padding (suc n))

accepted :
    (buf : List ℕ) (p : ℕ)
    → length buf ≡ 8
    → ((p == 0) || ltb 8 p) ≡ false
    → same_bytes (take p (drop (8 - p) buf)) (padding p) ≡ true
    → Accepted buf (take (8 - p) buf)
accepted buf zero size fine same = absurd (ground (arith, fine))
accepted buf (suc n) size fine same =
    let small : suc n ≤ 8 = ground (arith, fine) in
    (
      n,
      omega (arith, length-take (8 - suc n) buf, size, small),
      group_parts buf (suc n) size small same,
    )

-- A group that is accepted is what is left of it and its padding.
unpad-Some : (buf rest : List ℕ) → length buf ≡ 8 → unpad buf ≡ some rest → Accepted buf rest
unfolding unpad
unpad-Some buf rest size e =
    let p = get_or buf 7 0 in
    elim (Bool-cases ((p == 0) || ltb 8 p)) [
      | inl bad ↦ absurd (ground (arith, rw bad at e))
      | inr fine ↦ elim (Bool-cases (same_bytes (take p (drop (8 - p) buf)) (padding p))) [
        | inr other ↦ absurd (ground (arith, rw (fine, other) at e))
        | inl same ↦
            let f : take (8 - p) buf ≡ rest = ground (arith, rw (fine, same) at e) in
            rw f at (accepted buf p size fine same)
      ]
    ]

module _ {Ctx : Type 0} (ecb_crypt : Ctx → List ℕ → ℕ → List ℕ) (sized : Sized ecb_crypt)
    (inverse : TakesBack ecb_crypt 1 0) (ctx : Ctx) where
  -- The encryption of the bytes in front of the last group and of those left of that.
  encrypt_buf-Parts :
      (g n : ℕ) (done rest : List ℕ)
      → length done ≡ 8 * g
      → length rest + suc n ≡ 8
      → encrypt_buf ecb_crypt ctx (done ++ rest) (8 * g + length rest) ≡ (
        crypt_groups ecb_crypt ctx g (done ++ rest) 0 ++ ecb_crypt ctx (rest ++ padding (suc n)) 0,
        8 * (g + 1),
      )
  unfolding encrypt_buf
  encrypt_buf-Parts g n done rest hd hr =
      let l = 8 * g + length rest in
      let groups : l / 8 ≡ g = omega (arith, hr) in
      let remaining : l % 8 ≡ length rest = omega (arith, hr) in
      let padlen : 8 * (g + 1) - l ≡ suc n = omega (arith, hr) in
      let tail : take (length rest) (drop (8 * g) (done ++ rest)) ≡ rest =
        ap (take (length rest)) (drop-append_self done rest (8 * g) hd)
        ∙ take_all (length rest) rest (omega arith) in
      rw groups (rw remaining (rw padlen (rw tail refl)))

  -- Ciphertext of g + 1 groups, the last of which is accepted.
  encrypt_buf-Accepted :
      (g : ℕ) (c rest : List ℕ)
      → length c ≡ 8 * (g + 1)
      → Accepted (ecb_crypt ctx (drop (8 * g) c) 1) rest
      → encrypt_buf ecb_crypt ctx (crypt_groups ecb_crypt ctx g c 1 ++ rest) (8 * g + length rest)
        ≡ (c, length c)
  encrypt_buf-Accepted g c rest size (n, hr, e) =
      let done = crypt_groups ecb_crypt ctx g c 1 in
      let last = drop (8 * g) c in
      let fits : 8 * g ≤ length c = omega (arith, size) in
      let eight : length last ≡ 8 = omega (arith, size, length-drop (8 * g) c) in
      let front = crypt_groups-inverse ecb_crypt sized ctx 1 0 g c rest inverse fits in
      let back : ecb_crypt ctx (rest ++ padding (suc n)) 0 ≡ last =
        ap (λ t. ecb_crypt ctx t 0) (sym e) ∙ inverse ctx last eight in
      encrypt_buf-Parts g n done rest (length-crypt_groups ecb_crypt sized ctx g c 1 fits) hr
      ∙ ap₂ (λ a k. (a, k)) (ap₂ (λ a b. a ++ b) front back ∙ take-append-drop (8 * g) c) (sym size)

  abbrev Written : List ℕ → List ℕ → ℕ → Type 0
  Written c m n = (n ≡ length m) × (encrypt_buf ecb_crypt ctx m n ≡ (c, length c))

  accepted_whole :
      (c rest : List ℕ)
      → (length c % 8 == 0) ≡ true
      → (length c - 8 * (length c / 8 - 1) == 8) ≡ true
      → unpad (ecb_crypt ctx (take 8 (drop (8 * (length c / 8 - 1)) c)) 1) ≡ some rest
      → let g = length c / 8 - 1 in
        Written c (crypt_groups ecb_crypt ctx g c 1 ++ rest) (8 * g + length rest)
  accepted_whole c rest even one_left good =
      let g = length c / 8 - 1 in
      let last = drop (8 * g) c in
      let size : length c ≡ 8 * (g + 1) = ground (arith, even, one_left) in
      let fits : 8 * g ≤ length c = omega (arith, size) in
      let eight : length last ≡ 8 = omega (arith, size, length-drop (8 * g) c) in
      let whole : take 8 last ≡ last = take_all 8 last (omega (arith, eight)) in
      let good' : unpad (ecb_crypt ctx last 1) ≡ some rest = rw whole at good in
      (
        omega (
          arith,
          length-append (crypt_groups ecb_crypt ctx g c 1) rest,
          length-crypt_groups ecb_crypt sized ctx g c 1 fits,
        ),
        encrypt_buf-Accepted g c rest size
            (unpad-Some (ecb_crypt ctx last 1) rest (sized ctx last 1 eight) good'),
      )

  decrypt_buf-Written :
      (c m : List ℕ) (n : ℕ)
      → decrypt_buf ecb_crypt ctx c (length c) ≡ (pos 0, (m, some n))
      → Written c m n
  unfolding decrypt_buf
  decrypt_buf-Written c m n e =
      let g = length c / 8 - 1 in
      let done = crypt_groups ecb_crypt ctx g c 1 in
      let group = take 8 (drop (8 * g) c) in
      elim (Bool-cases (length c % 8 == 0)) [
        | inr odd ↦ absurd (ground (arith, rw odd at e))
        | inl even ↦ elim (Bool-cases (length c - 8 * g == 8)) [
          | inr none_left ↦ absurd (ground (arith, rw (even, none_left) at e))
          | inl one_left ↦ elim (Option-cases (unpad (ecb_crypt ctx group 1))) [
            | inl bad ↦ absurd (ground (arith, rw (even, one_left, bad) at e))
            | inr (rest, good) ↦
                let f = rw (even, one_left, good) at e in
                let fm : done ++ rest ≡ m = ap (λ r. r.1.0) f in
                let fn : 8 * g + length rest ≡ n = ground (arith, f) in
                rw (fm, fn) at (accepted_whole c rest even one_left good)
          ]
        ]
      ]

-- For a block cipher whose encryption takes its decryption back: where DesDecrypt, behind its test
-- for NULL, answers 0 for a whole ciphertext and reports a length, what it has written has that
-- length, and DesEncrypt makes of it the same ciphertext again.
pub decrypt_buf-Accepts :
    {Ctx : Type 0} (ecb_crypt : Ctx → List ℕ → ℕ → List ℕ) (ctx : Ctx) (c m : List ℕ) (n : ℕ)
    → Sized ecb_crypt
    → TakesBack ecb_crypt 1 0
    → decrypt_buf ecb_crypt ctx c (length c) ≡ (pos 0, (m, some n))
    → (n ≡ length m) × (encrypt_buf ecb_crypt ctx m n ≡ (c, length c))
decrypt_buf-Accepts ecb_crypt ctx c m n sized inverse e =
    decrypt_buf-Written ecb_crypt sized inverse ctx c m n e
