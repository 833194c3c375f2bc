-- ===== src/Be/Des.antt =====
-- be/be_des.cpp: DesEncrypt, DesDecrypt, the functions that set a key, and the same for Triple-DES.
-- The block ciphers, the key schedules and the table of weak keys are a copy of another library:
-- the definitions take them as parameters. A buffer is the list of its bytes, or `none` for NULL;
-- the block at `outbuf` has room for what is written. Lengths are not negative, and so small that
-- `len + 8` is an s32.
pub mod Padding
pub mod Groups
pub mod Accept
pub mod RoundTrip
use eparallel.Common.{
  ℕ, zero, suc, ◌+◌, ◌-◌, ◌*◌, ◌/◌, ◌%◌, Bool, true, false, not, ◌||◌, Option, none, some, List, [],
  ◌∷◌, ◌++◌, ltb, ◌==◌, if◌then◌else◌, take, drop, length, get_or, ℤ, pos, negsuc,
}
use eparallel.Errno.{fail}

-- `PADDING`
unfoldable pub padding : ℕ → List ℕ
padding n =
    get_or
      ([]
        ∷ (1 ∷ [])
        ∷ (2 ∷ 2 ∷ [])
        ∷ (3 ∷ 3 ∷ 3 ∷ [])
        ∷ (4 ∷ 4 ∷ 4 ∷ 4 ∷ [])
        ∷ (5 ∷ 5 ∷ 5 ∷ 5 ∷ 5 ∷ [])
        ∷ (6 ∷ 6 ∷ 6 ∷ 6 ∷ 6 ∷ 6 ∷ [])
        ∷ (7 ∷ 7 ∷ 7 ∷ 7 ∷ 7 ∷ 7 ∷ 7 ∷ [])
        ∷ (8 ∷ 8 ∷ 8 ∷ 8 ∷ 8 ∷ 8 ∷ 8 ∷ 8 ∷ [])
        ∷ [])
      n []

-- `memcmp` for 0
unfoldable pub same_bytes : List ℕ → List ℕ → Bool
same_bytes [] [] = true
same_bytes (x ∷ s) (y ∷ t) = if x == y then same_bytes s t else false
same_bytes _ _ = false

-- DESE_WRONG_KEYLEN
abbrev pub wrong_keylen : ℤ
wrong_keylen = negsuc 100

-- DESE_WEAK_KEY
abbrev pub weak_key : ℤ
weak_key = negsuc 101

-- What is in a block after a write at its start.
unfoldable pub over : List ℕ → List ℕ → List ℕ
over written block = written ++ drop (length written) block

abbrev get_or_else : Option ℕ → ℕ → ℕ
get_or_else none d = d
get_or_else (some n) d = n

-- The two pointers for results: `none` is NULL.
pub record Out : Type 0 where
  pub outbuf : Option (List ℕ)
  pub poutlen : Option ℕ

-- The last group of DesDecrypt: `none` where its padding is wrong.
unfoldable pub unpad : List ℕ → Option (List ℕ)
unfolding padding same_bytes
unpad buf =
    let padlen = get_or buf 7 0 in
    if (padlen == 0) || ltb 8 padlen
    then none
    else if not (same_bytes (take padlen (drop (8 - padlen) buf)) (padding padlen))
    then none
    else some (take (8 - padlen) buf)

module _ {Ctx : Type 0} (ecb_crypt : Ctx → List ℕ → ℕ → List ℕ) where
  -- The loop over the first groups of 8 bytes.
  unfoldable pub crypt_groups : Ctx → ℕ → List ℕ → ℕ → List ℕ
  crypt_groups ctx zero inbuf mode = []
  crypt_groups ctx (suc groups) inbuf mode =
      ecb_crypt ctx (take 8 inbuf) mode ++ crypt_groups ctx groups (drop 8 inbuf) mode

  -- DesEncrypt behind its test for NULL.
  unfoldable pub encrypt_buf : Ctx → List ℕ → ℕ → List ℕ × ℕ
  encrypt_buf ctx inbuf len =
      let outlen = 8 * (len / 8 + 1) in
      let groups = len / 8 in
      let remaining = len % 8 in
      let padlen = outlen - len in
      let bnum = 8 * groups in
      let buf = take remaining (drop bnum inbuf) ++ padding padlen in
      (crypt_groups ctx groups inbuf 0 ++ ecb_crypt ctx buf 0, outlen)

  -- DesDecrypt behind its test for NULL: the code, what it writes, and the length if it sets one.
  unfoldable pub decrypt_buf : Ctx → List ℕ → ℕ → ℤ × (List ℕ × Option ℕ)
  unfolding unpad crypt_groups
  decrypt_buf ctx inbuf len =
      let groups = len / 8 - 1 in
      let bnum = 8 * groups in
      let done = crypt_groups ctx groups inbuf 1 in
      if not (len % 8 == 0)
      then (fail, ([], none))
      else if not (len - bnum == 8)
      then (fail, (done, none))
      else elim (unpad (ecb_crypt ctx (take 8 (drop bnum inbuf)) 1)) [
        | none ↦ (fail, (done, none))
        | some rest ↦ (pos 0, (done ++ rest, some (bnum + length rest)))
      ]

  -- DesEncrypt
  unfoldable pub encrypt : Option Ctx → Option (List ℕ) → ℕ → Out → ℤ × Out
  unfolding encrypt_buf crypt_groups padding
  encrypt none inbuf len out = (fail, out)
  encrypt (some ctx) none len out = (fail, out)
  encrypt (some ctx) (some inbuf) len out = elim out.outbuf [
    | none ↦ (fail, out)
    | some b ↦ elim out.poutlen [
      | none ↦ (fail, out)
      | some n ↦
          let (written, outlen) = encrypt_buf ctx inbuf len in
          (pos 0, record { outbuf = some (over written b); poutlen = some outlen })
    ]
  ]

  -- DesDecrypt
  unfoldable pub decrypt : Option Ctx → Option (List ℕ) → ℕ → Out → ℤ × Out
  unfolding decrypt_buf
  decrypt none inbuf len out = (fail, out)
  decrypt (some ctx) none len out = (fail, out)
  decrypt (some ctx) (some inbuf) len out = elim out.outbuf [
    | none ↦ (fail, out)
    | some b ↦ elim out.poutlen [
      | none ↦ (fail, out)
      | some n ↦
          let (code, (written, outlen)) = decrypt_buf ctx inbuf len in
          (code, record { outbuf = some (over written b); poutlen = some (get_or_else outlen n) })
    ]
  ]

-- Des3Set2Key, with `tripledes_set2keys` and `is_weak_key`.
unfoldable pub set_2key :
    {Ctx : Type 0} → (Ctx → List ℕ → List ℕ → Ctx) → (List ℕ → Bool) → Ctx → List ℕ → ℕ → ℤ × Ctx
set_2key set_keys is_weak_key ctx key keylen = if not (keylen == 16) then (wrong_keylen, ctx) else (
  if is_weak_key (take 8 key) || is_weak_key (take 8 (drop 8 key)) then weak_key else pos 0,
  set_keys ctx (take 8 key) (take 8 (drop 8 key)),
)

-- Des3Set3Key, with `tripledes_set3keys` and `is_weak_key`; it also clears a part of the stack.
unfoldable pub set_3key :
    {Ctx : Type 0}
    → (Ctx → List ℕ → List ℕ → List ℕ → Ctx)
    → (List ℕ → Bool)
    → Ctx
    → List ℕ
    → ℕ
    → ℤ × Ctx
set_3key set_keys is_weak_key ctx key keylen =
    let a = take 8 key in
    let b = take 8 (drop 8 key) in
    let c = take 8 (drop 16 key) in
    if not (keylen == 24) then (wrong_keylen, ctx) else (
      if is_weak_key a || is_weak_key b || is_weak_key c then weak_key else pos 0,
      set_keys ctx a b c,
    )

-- Des3Encrypt and Des3Decrypt: the same code with `tripledes_ecb_crypt`.
unfoldable pub des3_encrypt :
    {Ctx : Type 0} → (Ctx → List ℕ → ℕ → List ℕ) → Option Ctx → Option (List ℕ) → ℕ → Out → ℤ × Out
unfolding encrypt
des3_encrypt tripledes_ecb_crypt = encrypt tripledes_ecb_crypt

unfoldable pub des3_decrypt :
    {Ctx : Type 0} → (Ctx → List ℕ → ℕ → List ℕ) → Option Ctx → Option (List ℕ) → ℕ → Out → ℤ × Out
unfolding decrypt
des3_decrypt tripledes_ecb_crypt = decrypt tripledes_ecb_crypt
