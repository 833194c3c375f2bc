-- ===== src/Be/Des/RoundTrip.antt =====
-- What DesEncrypt and Des3Encrypt write is what DesDecrypt and Des3Decrypt give back.
use eparallel.Common.{
  ◌==◌, ap₂, ℕ, suc, ◌+◌, ◌-◌, ◌*◌, ◌/◌, ◌%◌, ◌≤◌, ◌≡◌, refl, ap, ◌∙◌, arith, true, some, List,
  ◌++◌, take, drop, length, length-append, length-take, length-drop, take_all, take-append-drop,
  pos,
}
use eparallel.Be.Des.{
  padding, crypt_groups, encrypt_buf, unpad, decrypt_buf, encrypt, decrypt, over,
}
use eparallel.Be.Des.Padding.{length-padding, drop-append_self, unpad-padding}
use eparallel.Be.Des.Groups.{Sized, TakesBack, length-crypt_groups, crypt_groups-inverse}

module _ {Ctx : Type 0} (ecb_crypt : Ctx → List ℕ → ℕ → List ℕ) (sized : Sized ecb_crypt)
    (inverse : TakesBack ecb_crypt 0 1) (ctx : Ctx) where
  -- The last group of the ciphertext of `msg`.
  abbrev last_group : List ℕ → List ℕ
  last_group msg =
      let len = length msg in
      take (len % 8) (drop (8 * (len / 8)) msg) ++ padding (8 * (len / 8 + 1) - len)

  last_group-unpad :
      (msg : List ℕ) → unpad (last_group msg) ≡ some (drop (8 * (length msg / 8)) msg)
  last_group-unpad msg =
      let len = length msg in
      let tail = drop (8 * (len / 8)) msg in
      let size : length tail ≡ len % 8 = omega (arith, length-drop (8 * (len / 8)) msg) in
      let whole : take (len % 8) tail ≡ tail = take_all (len % 8) tail (omega (arith, size)) in
      let pad : 8 * (len / 8 + 1) - len ≡ suc (7 - len % 8) = omega arith in
      rw (whole, pad) (unpad-padding tail (7 - len % 8) (omega arith) (omega (arith, size)))

  length-last_group : (msg : List ℕ) → length (last_group msg) ≡ 8
  length-last_group msg =
      let len = length msg in
      let tail = drop (8 * (len / 8)) msg in
      omega (
        arith,
        length-append (take (len % 8) tail) (padding (8 * (len / 8 + 1) - len)),
        length-take (len % 8) tail,
        length-drop (8 * (len / 8)) msg,
        length-padding (8 * (len / 8 + 1) - len),
      )

  -- `decrypt_buf` of whole groups, by what its last group holds.
  decrypt_buf-Unpad :
      (g : ℕ) (inbuf rest : List ℕ)
      → unpad (ecb_crypt ctx (take 8 (drop (8 * g) inbuf)) 1) ≡ some rest
      → decrypt_buf ecb_crypt ctx inbuf (8 * (g + 1))
        ≡ (pos 0, (crypt_groups ecb_crypt ctx g inbuf 1 ++ rest, some (8 * g + length rest)))
  unfolding decrypt_buf
  decrypt_buf-Unpad g inbuf rest e =
      let groups : 8 * (g + 1) / 8 - 1 ≡ g = omega arith in
      let whole : (8 * (g + 1) % 8 == 0) ≡ true = ground arith in
      let last : (8 * (g + 1) - 8 * g == 8) ≡ true = ground arith in
      rw groups (rw (whole, last, e) (rw groups refl))

  decrypt_buf-encrypt_buf :
      (msg : List ℕ)
      → let (written, outlen) = encrypt_buf ecb_crypt ctx msg (length msg) in
        decrypt_buf ecb_crypt ctx written outlen ≡ (pos 0, (msg, some (length msg)))
  unfolding encrypt_buf
  decrypt_buf-encrypt_buf msg =
      let g = length msg / 8 in
      let done = crypt_groups ecb_crypt ctx g msg 0 in
      let last = ecb_crypt ctx (last_group msg) 0 in
      let tail = drop (8 * g) msg in
      let fits : 8 * g ≤ length msg = omega arith in
      let size : length done ≡ 8 * g = length-crypt_groups ecb_crypt sized ctx g msg 0 fits in
      let eight = sized ctx (last_group msg) 0 (length-last_group msg) in
      let group : take 8 (drop (8 * g) (done ++ last)) ≡ last =
        ap (take 8) (drop-append_self done last (8 * g) size)
        ∙ take_all 8 last (omega (arith, eight)) in
      let front = crypt_groups-inverse ecb_crypt sized ctx 0 1 g msg last inverse fits in
      let counted : 8 * g + length tail ≡ length msg = omega (arith, length-drop (8 * g) msg) in
      let opened : unpad (ecb_crypt ctx (take 8 (drop (8 * g) (done ++ last))) 1) ≡ some tail =
        ap (λ t. unpad (ecb_crypt ctx t 1)) group
        ∙ ap unpad (inverse ctx (last_group msg) (length-last_group msg))
        ∙ last_group-unpad msg in
      decrypt_buf-Unpad g (done ++ last) tail opened
      ∙ ap₂ (λ a n. (pos 0, (a, some n))) (ap (λ t. t ++ tail) front ∙ take-append-drop (8 * g) msg)
          counted

  length-encrypt_buf :
      (msg : List ℕ)
      → let (written, outlen) = encrypt_buf ecb_crypt ctx msg (length msg) in
        length written ≡ outlen
  unfolding encrypt_buf
  length-encrypt_buf msg =
      let g = length msg / 8 in
      omega (
        arith,
        length-append (crypt_groups ecb_crypt ctx g msg 0) (ecb_crypt ctx (last_group msg) 0),
        length-crypt_groups ecb_crypt sized ctx g msg 0 (omega arith),
        sized ctx (last_group msg) 0 (length-last_group msg),
      )

-- For a block cipher whose decryption takes its encryption back, any message and any two blocks
-- for the results: DesEncrypt answers 0 and writes 8 * (len / 8 + 1) bytes to the start of its
-- block, which it reports; DesDecrypt of those bytes answers 0, writes the message to the start of
-- its block, and reports the length of the message.
pub decrypt-encrypt :
    {Ctx : Type 0} (ecb_crypt : Ctx → List ℕ → ℕ → List ℕ) (ctx : Ctx) (msg block back : List ℕ)
    (m n : ℕ)
    → Sized ecb_crypt
    → TakesBack ecb_crypt 0 1
    → (written : List ℕ) × (encrypt ecb_crypt
          (some ctx)
          (some msg)
          (length msg)
          (record { outbuf = some block; poutlen = some m })
        ≡ (
          pos 0,
          record {
            outbuf = some (written ++ drop (8 * (length msg / 8 + 1)) block);
            poutlen = some (8 * (length msg / 8 + 1));
          },
        ))
      × (length written ≡ 8 * (length msg / 8 + 1))
      × (decrypt ecb_crypt
            (some ctx)
            (some written)
            (8 * (length msg / 8 + 1))
            (record { outbuf = some back; poutlen = some n })
          ≡ (
            pos 0,
            record { outbuf = some (msg ++ drop (length msg) back); poutlen = some (length msg) },
          ))
unfolding encrypt decrypt over encrypt_buf
decrypt-encrypt ecb_crypt ctx msg block back m n sized inverse =
    let (written, outlen) = encrypt_buf ecb_crypt ctx msg (length msg) in
    let size = length-encrypt_buf ecb_crypt sized inverse ctx msg in
    let again = decrypt_buf-encrypt_buf ecb_crypt sized inverse ctx msg in
    (written, rw size refl, size, rw again refl)
