-- ===== src/Tests/BeTests.antt =====
-- be's DesEncrypt and DesDecrypt with a toy cipher.
use eparallel.Common.{
  inr, inl, ◌++◌, Bool-cases, ℕ, ◌+◌, ◌-◌, ◌≡◌, refl, ap₂, List, [], ◌∷◌, ◌==◌, if◌then◌else◌, map,
  length-map, some, pos, ◌∙◌, arith, length,
}
use eparallel.Be.Des.{encrypt_buf, decrypt_buf, encrypt, decrypt}
use eparallel.Be.Des.Accept.{decrypt_buf-Accepts}
use eparallel.Be.Des.RoundTrip.{decrypt-encrypt}

-- The key is added to each byte, and taken off again.
abbrev toy : ℕ → List ℕ → ℕ → List ℕ
toy k b mode = if mode == 0 then map (λ x. x + k) b else map (λ x. x - k) b

length-toy : (k : ℕ) (b : List ℕ) (mode : ℕ) → length b ≡ 8 → length (toy k b mode) ≡ 8
length-toy k b mode e = elim (Bool-cases (mode == 0)) [
  | inl z ↦ rw z (length-map b (λ x. x + k) ∙ e)
  | inr z ↦ rw z (length-map b (λ x. x - k) ∙ e)
]

toy-toy : (k : ℕ) (b : List ℕ) → map (λ x. x - k) (map (λ x. x + k) b) ≡ b
toy-toy k [] = refl
toy-toy k (x ∷ b) = let e : x + k - k ≡ x = omega arith in ap₂ (λ y t. y ∷ t) e (toy-toy k b)

-- Ten bytes.
abbrev message : List ℕ
message = 5 ∷ 6 ∷ 7 ∷ 8 ∷ 9 ∷ 10 ∷ 11 ∷ 12 ∷ 13 ∷ 0 ∷ []

decrypt-encrypt_example :
    (written : List ℕ) × (encrypt toy
        (some 3)
        (some message)
        10
        (record { outbuf = some []; poutlen = some 0 })
      ≡ (pos 0, record { outbuf = some (written ++ []); poutlen = some 16 }))
    × (length written ≡ 16)
    × (decrypt toy (some 3) (some written) 16 (record { outbuf = some []; poutlen = some 0 })
        ≡ (pos 0, record { outbuf = some (message ++ []); poutlen = some 10 }))
decrypt-encrypt_example = decrypt-encrypt toy 3 message [] [] 0 0 length-toy (λ k b e. toy-toy k b)

-- A cipher that turns a group around, both ways.
abbrev mirror : ℕ → List ℕ → ℕ → List ℕ
mirror k (a ∷ b ∷ c ∷ d ∷ s) mode = d ∷ c ∷ b ∷ a ∷ s
mirror k s mode = s

length-mirror : (k : ℕ) (b : List ℕ) (mode : ℕ) → length b ≡ 8 → length (mirror k b mode) ≡ 8
length-mirror k (a ∷ b ∷ c ∷ d ∷ s) mode e = e
length-mirror k [] mode e = e
length-mirror k (a ∷ []) mode e = e
length-mirror k (a ∷ b ∷ []) mode e = e
length-mirror k (a ∷ b ∷ c ∷ []) mode e = e

mirror-mirror : (k : ℕ) (b : List ℕ) → length b ≡ 8 → mirror k (mirror k b 1) 0 ≡ b
mirror-mirror k (a ∷ b ∷ c ∷ d ∷ s) e = refl
mirror-mirror k [] e = refl
mirror-mirror k (a ∷ []) e = refl
mirror-mirror k (a ∷ b ∷ []) e = refl
mirror-mirror k (a ∷ b ∷ c ∷ []) e = refl

abbrev two_bytes : List ℕ
two_bytes = 70 ∷ 71 ∷ []

abbrev ciphertext : List ℕ
ciphertext = 6 ∷ 6 ∷ 71 ∷ 70 ∷ 6 ∷ 6 ∷ 6 ∷ 6 ∷ []

opened : decrypt_buf mirror 0 ciphertext 8 ≡ (pos 0, (two_bytes, some 2))
unfolding decrypt_buf
opened = refl

decrypt_buf-Accepts_example :
    (2 ≡ length two_bytes) × (encrypt_buf mirror 0 two_bytes 2 ≡ (ciphertext, 8))
decrypt_buf-Accepts_example =
    decrypt_buf-Accepts mirror 0 ciphertext two_bytes 2 length-mirror mirror-mirror opened
