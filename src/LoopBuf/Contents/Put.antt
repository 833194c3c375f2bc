-- ===== src/LoopBuf/Contents/Put.antt =====
-- A block of bytes moved into others.
use eparallel.Common.{
  ℕ, ◌+◌, ◌-◌, ◌≤◌, ◌≡◌, refl, ap, ◌∙◌, some, List, ◌++◌, length, take, drop, arith, length-take,
  length-drop, take-append_le, take-append_ge, drop-append_le, drop-append_ge, drop-take, drop-drop,
  take_all, length-append,
}
use eparallel.LoopBuf.{memmove}

-- The bytes `w` put over those of `dst` from `i` on.
abbrev pub put : List ℕ → ℕ → List ℕ → List ℕ
put dst i w = take i dst ++ (w ++ drop (i + length w) dst)

pub memmove-Inside :
    (dst : List ℕ) (i : ℕ) (w : List ℕ)
    → i + length w ≤ length dst
    → memmove dst i w ≡ some (put dst i w)
unfolding memmove
memmove-Inside dst i w h = ground arith

pub length-put :
    (dst : List ℕ) (i : ℕ) (w : List ℕ)
    → i + length w ≤ length dst
    → length (put dst i w) ≡ length dst
length-put dst i w h = omega (
  arith,
  length-append (take i dst) (w ++ drop (i + length w) dst),
  length-append w (drop (i + length w) dst),
  length-take i dst,
  length-drop (i + length w) dst,
)

pub take-put :
    (dst : List ℕ) (i : ℕ) (w : List ℕ)
    → i + length w ≤ length dst
    → take (i + length w) (put dst i w) ≡ take i dst ++ w
take-put dst i w h =
    let l : length (take i dst) ≡ i = omega (arith, length-take i dst) in
    let rest = drop (i + length w) dst in
    let e : i + length w - i ≡ length w = omega arith in
    take-append_ge (i + length w) (take i dst) (w ++ rest) (omega (arith, l))
    ∙ rw (l, e)
        (ap (λ t. take i dst ++ t)
          (take-append_le (length w) w rest (omega arith) ∙ take_all (length w) w (omega arith)))

-- Behind the bytes that were put, nothing changed.
pub drop-put_past :
    (dst : List ℕ) (i k : ℕ) (w : List ℕ)
    → i + length w ≤ k
    → k ≤ length dst
    → drop k (put dst i w) ≡ drop k dst
drop-put_past dst i k w h s =
    let l : length (take i dst) ≡ i = omega (arith, length-take i dst) in
    let rest = drop (i + length w) dst in
    let e : i + length w + (k - i - length w) ≡ k = omega arith in
    drop-append_ge k (take i dst) (w ++ rest) (omega (arith, l))
    ∙ rw l (drop-append_ge (k - i) w rest (omega arith))
    ∙ drop-drop (k - i - length w) (i + length w) dst
    ∙ rw e refl

-- Before them, too.
pub drop-put_before :
    (dst : List ℕ) (i k : ℕ) (w : List ℕ)
    → k ≤ i
    → i + length w ≤ length dst
    → drop k (put dst i w) ≡ put (drop k dst) (i - k) w
drop-put_before dst i k w h s =
    let l : length (take i dst) ≡ i = omega (arith, length-take i dst) in
    let rest = drop (i + length w) dst in
    let e : k + (i - k + length w) ≡ i + length w = omega arith in
    drop-append_le k (take i dst) (w ++ rest) (omega (arith, l))
    ∙ rw (drop-take k i dst h, drop-drop (i - k + length w) k dst, e) refl
