-- ===== src/Base64.antt =====
-- elog/base64.cpp: `base64_encode` and `base64_decode`.
-- A string is the list of its bytes; the masks and shifts of the code on bytes are remainders and
-- quotients by powers of two. A string that is decoded is shorter than 2 ^ 31.
pub mod RoundTrip
use eparallel.Common.{
  ◌^◌, ℕ, zero, suc, ◌+◌, ◌-◌, ◌*◌, ◌/◌, ◌%◌, ◌<◌, ◌≡◌, Bool, true, false, ◌||◌, ◌&&◌, not, Option,
  none, some, List, [], ◌∷◌, ◌++◌, ltb, leb, ◌==◌, if◌then◌else◌, take, length,
}

-- `ch64`: the character of a number below 64.
unfoldable pub ch64 : ℕ → ℕ
ch64 n =
    if ltb n 26
    then 65 + n
    else if ltb n 52
    then 71 + n
    else if ltb n 62
    then n - 4
    else if n == 62
    then 43
    else 47

-- `b64_reverse_table`; `none` is its -1.
unfoldable pub b64_reverse_table : ℕ → Option ℕ
b64_reverse_table c =
    if c == 43
    then some 62
    else if c == 47
    then some 63
    else if leb 48 c && leb c 57
    then some (c + 4)
    else if leb 65 c && leb c 90
    then some (c - 65)
    else if leb 97 c && leb c 122
    then some (c - 71)
    else none

-- `=`
abbrev pub pad : ℕ
pad = 61

-- The characters that are written, a group of four for three bytes.
unfoldable pub encode_groups : List ℕ → List ℕ
unfolding ch64
encode_groups [] = []
encode_groups (x ∷ []) = ch64 (x / 4) ∷ ch64 (x % 4 * 16) ∷ pad ∷ pad ∷ []
encode_groups (x ∷ y ∷ []) =
    ch64 (x / 4) ∷ ch64 (x % 4 * 16 + y / 16) ∷ ch64 (y % 16 * 4) ∷ pad ∷ []
encode_groups (x ∷ y ∷ z ∷ s) =
    ch64 (x / 4)
    ∷ ch64 (x % 4 * 16 + y / 16)
    ∷ ch64 (y % 16 * 4 + z / 64)
    ∷ ch64 (z % 64)
    ∷ encode_groups s

-- `buflen`
unfoldable pub buflen : ℕ → ℕ
buflen n = if n % 3 == 0 then n else n + 3 - n % 3

-- `none`: `buflen * 4` is no `int`, and what is allotted is undefined.
unfoldable pub base64_encode : List ℕ → Option (List ℕ)
unfolding encode_groups buflen
base64_encode s = if ltb (buflen (length s) * 4) (2 ^ 31) then some (encode_groups s) else none

-- The number of a character in the third or fourth place: 0 for a `=`.
unfoldable pub padded : ℕ → Option ℕ
unfolding b64_reverse_table
padded c = if c == pad then some 0 else b64_reverse_table c

-- `pandcnt` behind a group of four characters.
unfoldable pub pads : ℕ → ℕ → ℕ → ℕ
pads pandcnt c d = if c == pad then 2 else if pandcnt == 0 && d == pad then 1 else pandcnt

-- The number of the fourth character, once `pandcnt` is what the third has made it.
unfoldable pub fourth : ℕ → ℕ → ℕ → Option ℕ
unfolding padded
fourth pandcnt c d = if c == pad || not (pandcnt == 0) then some 0 else padded d

-- The loop, with `pandcnt` and the bytes so far; bytes behind the last whole group are not read.
unfoldable pub decode_loop : ℕ → List ℕ → List ℕ → List ℕ
decode_loop pandcnt done (a ∷ b ∷ c ∷ d ∷ s) = elim (b64_reverse_table a) [
  | none ↦ done
  | some a' ↦ elim (b64_reverse_table b) [
    | none ↦ done
    | some b' ↦ elim (padded c) [
      | none ↦ done
      | some c' ↦ elim (fourth pandcnt c d) [
        | none ↦ done
        | some d' ↦
            decode_loop (pads pandcnt c d)
              (done
                ++ ((a' * 4 + b' / 16) % 256
                    ∷ (b' % 16 * 16 + c' / 4) % 256
                    ∷ (c' % 4 * 64 + d') % 256
                    ∷ []))
              s
      ]
    ]
  ]
]
decode_loop pandcnt done s = take (length done - pandcnt) done

unfoldable pub base64_decode : List ℕ → List ℕ
unfolding decode_loop
base64_decode s = decode_loop 0 [] s
