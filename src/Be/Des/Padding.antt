-- ===== src/Be/Des/Padding.antt =====
-- PADDING behind a message that is not a whole number of groups, and lists cut at a length.
use eparallel.Common.{
  ◌==◌, take-nil, ltb, take-nil, ℕ, zero, suc, ◌+◌, ◌-◌, ◌≤◌, ◌<◌, ◌≡◌, refl, sym, ap, ◌∙◌, arith,
  true, false, some, List, [], ◌∷◌, ◌++◌, take, drop, length, get_or, take_all, take-append_le,
  drop-append_ge, ==_iff,
}
use eparallel.Be.Des.{ltb, padding, same_bytes, unpad}

pub length-padding : (n : ℕ) → n ≤ 8 → length (padding n) ≡ n
unfolding padding
length-padding zero h = refl
length-padding (suc zero) h = refl
length-padding (suc (suc zero)) h = refl
length-padding (suc (suc (suc zero))) h = refl
length-padding (suc (suc (suc (suc zero)))) h = refl
length-padding (suc (suc (suc (suc (suc zero))))) h = refl
length-padding (suc (suc (suc (suc (suc (suc zero)))))) h = refl
length-padding (suc (suc (suc (suc (suc (suc (suc zero))))))) h = refl
length-padding (suc (suc (suc (suc (suc (suc (suc (suc zero)))))))) h = refl
length-padding (suc (suc (suc (suc (suc (suc (suc (suc (suc n))))))))) h = absurd (omega arith)

pub last_padding : (n : ℕ) → n < 8 → get_or (padding (suc n)) n 0 ≡ suc n
unfolding padding
last_padding zero h = refl
last_padding (suc zero) h = refl
last_padding (suc (suc zero)) h = refl
last_padding (suc (suc (suc zero))) h = refl
last_padding (suc (suc (suc (suc zero)))) h = refl
last_padding (suc (suc (suc (suc (suc zero))))) h = refl
last_padding (suc (suc (suc (suc (suc (suc zero)))))) h = refl
last_padding (suc (suc (suc (suc (suc (suc (suc zero))))))) h = refl
last_padding (suc (suc (suc (suc (suc (suc (suc (suc n)))))))) h = absurd (omega arith)

pub same_bytes_refl : (s : List ℕ) → same_bytes s s ≡ true
unfolding same_bytes
same_bytes_refl [] = refl
same_bytes_refl (x ∷ s) = rw ((==_iff x x).1 refl) (same_bytes_refl s)

pub get_or-append : (s t : List ℕ) (i d : ℕ) → get_or (s ++ t) (length s + i) d ≡ get_or t i d
get_or-append [] t i d = let e : 0 + i ≡ i = omega arith in rw e refl
get_or-append (x ∷ s) t i d =
    let e : suc (length s) + i ≡ suc (length s + i) = omega arith in rw e (get_or-append s t i d)

pub take-append_self : (s t : List ℕ) (n : ℕ) → length s ≡ n → take n (s ++ t) ≡ s
take-append_self s t n e = take-append_le n s t (omega (arith, e)) ∙ take_all n s (omega (arith, e))

pub drop-append_self : (s t : List ℕ) (n : ℕ) → length s ≡ n → drop n (s ++ t) ≡ t
drop-append_self s t n e =
    drop-append_ge n s t (omega (arith, e))
    ∙ (let z : n - length s ≡ 0 = omega (arith, e) in rw z refl)

pub take-drop_split : (m n : ℕ) (s : List ℕ) → take (m + n) s ≡ take m s ++ take n (drop m s)
take-drop_split zero n s = let e : 0 + n ≡ n = omega arith in rw e refl
take-drop_split (suc m) n [] = take-nil (suc m + n) ∙ sym (take-nil n)
take-drop_split (suc m) n (x ∷ s) =
    let e : suc m + n ≡ suc (m + n) = omega arith in rw e (ap (λ t. x ∷ t) (take-drop_split m n s))

-- The padding behind fewer than 8 bytes is taken off again.
pub unpad-padding :
    (s : List ℕ) (n : ℕ) → n < 8 → length s + suc n ≡ 8 → unpad (s ++ padding (suc n)) ≡ some s
unfolding unpad
unpad-padding s n h e =
    let i : length s + n ≡ 7 = omega (arith, e) in
    let r : length s ≡ 8 - suc n = omega (arith, e) in
    let last : get_or (s ++ padding (suc n)) 7 0 ≡ suc n =
      rw i at (get_or-append s (padding (suc n)) n 0 ∙ last_padding n h) in
    let back : take (suc n) (drop (8 - suc n) (s ++ padding (suc n))) ≡ padding (suc n) =
      ap (take (suc n)) (drop-append_self s (padding (suc n)) (8 - suc n) r)
      ∙ take_all (suc n) (padding (suc n)) (omega (arith, length-padding (suc n))) in
    let front = take-append_self s (padding (suc n)) (8 - suc n) r in
    let fits : ltb 8 (suc n) ≡ false = ground arith in
    let some_pad : (suc n == 0) ≡ false = ground arith in
    rw (last, unpad) (rw (back, unpad, same_bytes_refl, fits, some_pad, front) refl)
