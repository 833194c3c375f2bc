-- ===== src/Be/Des/Groups.antt =====
-- The loop of DesEncrypt and DesDecrypt over groups of 8 bytes.
use mathlib.Core.List.{append_assoc}
use eparallel.Common.{
  ap₂, ℕ, zero, suc, ◌+◌, ◌*◌, ◌≤◌, ◌≡◌, refl, sym, ap, ◌∙◌, arith, List, ◌++◌, take, drop, length,
  length-append, length-take, length-drop,
}
use eparallel.Be.Des.{crypt_groups}
use eparallel.Be.Des.Padding.{take-append_self, drop-append_self, take-drop_split}

-- What `ecb_crypt` writes for a group of 8 bytes is 8 bytes, and one mode takes back another.
abbrev pub Sized : {Ctx : Type 0} → (Ctx → List ℕ → ℕ → List ℕ) → Type 0
Sized {Ctx} ecb_crypt =
    (c : Ctx) (b : List ℕ) (mode : ℕ) → length b ≡ 8 → length (ecb_crypt c b mode) ≡ 8

abbrev pub TakesBack : {Ctx : Type 0} → (Ctx → List ℕ → ℕ → List ℕ) → ℕ → ℕ → Type 0
TakesBack {Ctx} ecb_crypt mode back =
    (c : Ctx) (b : List ℕ) → length b ≡ 8 → ecb_crypt c (ecb_crypt c b mode) back ≡ b

module _ {Ctx : Type 0} (ecb_crypt : Ctx → List ℕ → ℕ → List ℕ) (sized : Sized ecb_crypt)
    (ctx : Ctx) where
  pub length-group :
      (s : List ℕ) (mode : ℕ) → 8 ≤ length s → length (ecb_crypt ctx (take 8 s) mode) ≡ 8
  length-group s mode h = sized ctx (take 8 s) mode (omega (arith, length-take 8 s))

  pub length-crypt_groups :
      (g : ℕ) (s : List ℕ) (mode : ℕ)
      → 8 * g ≤ length s
      → length (crypt_groups ecb_crypt ctx g s mode) ≡ 8 * g
  unfolding crypt_groups
  length-crypt_groups zero s mode h = omega arith
  length-crypt_groups (suc g) s mode h = omega (
    arith,
    length-append (ecb_crypt ctx (take 8 s) mode) (crypt_groups ecb_crypt ctx g (drop 8 s) mode),
    length-group s mode,
    length-drop 8 s,
    length-crypt_groups g (drop 8 s) mode,
  )

  pub crypt_groups-Group :
      (g : ℕ) (group t : List ℕ) (mode : ℕ)
      → length group ≡ 8
      → crypt_groups ecb_crypt ctx (suc g) (group ++ t) mode
        ≡ ecb_crypt ctx group mode ++ crypt_groups ecb_crypt ctx g t mode
  unfolding crypt_groups
  crypt_groups-Group g group t mode e =
      ap₂ (λ a b. ecb_crypt ctx a mode ++ crypt_groups ecb_crypt ctx g b mode)
        (take-append_self group t 8 e) (drop-append_self group t 8 e)

  -- Groups come back, whatever follows what was made of them.
  pub crypt_groups-inverse :
      (mode back g : ℕ) (s rest : List ℕ)
      → TakesBack ecb_crypt mode back
      → 8 * g ≤ length s
      → crypt_groups ecb_crypt ctx g (crypt_groups ecb_crypt ctx g s mode ++ rest) back
        ≡ take (8 * g) s
  unfolding crypt_groups
  crypt_groups-inverse mode back zero s rest inv h = refl
  crypt_groups-inverse mode back (suc g) s rest inv h =
      let others = crypt_groups ecb_crypt ctx g (drop 8 s) mode in
      let group = ecb_crypt ctx (take 8 s) mode in
      let eight : length (take 8 s) ≡ 8 = omega (arith, length-take 8 s) in
      let count : 8 * suc g ≡ 8 + 8 * g = omega arith in
      ap (λ t. crypt_groups ecb_crypt ctx (suc g) t back) (append_assoc group others rest)
      ∙ crypt_groups-Group g group (others ++ rest) back (length-group s mode (omega arith))
      ∙ ap₂ (λ a b. a ++ b) (inv ctx (take 8 s) eight)
          (crypt_groups-inverse mode back g (drop 8 s) rest inv (omega (arith, length-drop 8 s)))
      ∙ sym (ap (λ n. take n s) count ∙ take-drop_split 8 (8 * g) s)
