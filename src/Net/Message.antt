-- ===== src/Net/Message.antt =====
-- efnfw/ef_message.cpp: `message`, whose text is written in hexadecimal digits.
-- A text is the list of its bytes; sizes are size_t of 64 bits, and `none` is a read behind the
-- text.
use eparallel.Common.{
  ℕ, zero, suc, ◌+◌, ◌-◌, ◌*◌, ◌/◌, ◌%◌, ◌^◌, ◌≤◌, ◌<◌, ◌≡◌, ◌⊎◌, inl, inr, refl, arith, true,
  false, Option, none, some, List, [], ◌∷◌, ◌++◌, leb, if◌then◌else◌, length, take, drop,
  length-drop, length-take, Bool-cases,
}

unfoldable pub hex_char : ℕ → ℕ
hex_char i = if leb i 9 then 48 + i else if leb i 15 then 65 + i - 10 else 0

unfoldable pub byte_to_hex : ℕ → List ℕ
unfolding hex_char
byte_to_hex c = hex_char (c / 16) ∷ hex_char (c % 16) ∷ []

-- The first loop of to_hex, over so many bytes.
unfoldable pub hex_loop : ℕ → List ℕ → Option (List ℕ)
unfolding byte_to_hex
hex_loop zero s = some []
hex_loop (suc n) [] = none
hex_loop (suc n) (c ∷ s) = elim (hex_loop n s) [
  | none ↦ none
  | some rest ↦ some (byte_to_hex c ++ rest)
]

-- `buflen - 1`
unfoldable pub below : ℕ → ℕ
below n = if leb 1 n then n - 1 else 2 ^ 64 - 1

-- `real_sz`, of what is left of the text
unfoldable pub real_size : ℕ → ℕ → ℕ
unfolding below
real_size left buflen =
    let need_sz = left * 2 + 1 in if leb need_sz buflen then need_sz / 2 else below buflen / 2

-- to_hex into a buffer: how many bytes it takes, and what it writes.
unfoldable pub to_hex_buf : List ℕ → ℕ → ℕ → Option (ℕ × List ℕ)
unfolding hex_loop real_size
to_hex_buf m_msg buflen start =
    let real_sz = real_size (length m_msg - start) buflen in
    if leb (length m_msg) start
    then some (0, [])
    else elim (hex_loop real_sz (drop start m_msg)) [ none ↦ none | some out ↦ some (real_sz, out) ]

-- The second loop of to_hex, which appends to a string.
unfoldable pub append_hex : List ℕ → List ℕ → List ℕ
unfolding byte_to_hex
append_hex [] out = out
append_hex (c ∷ s) out = append_hex s (out ++ byte_to_hex c)

-- to_hex into a string: what it answers, and the string.
unfoldable pub to_hex : List ℕ → List ℕ → ℕ → ℕ × List ℕ
unfolding append_hex
to_hex m_msg out start =
    if leb (length m_msg) start
    then (0, out)
    else (let out' = append_hex (drop start m_msg) out in (length out', out'))

-- The digits of a text.
abbrev pub digits : List ℕ → List ℕ
digits [] = []
digits (c ∷ s) = hex_char (c / 16) ∷ hex_char (c % 16) ∷ digits s

hex_loop-digits : (n : ℕ) (s : List ℕ) → n ≤ length s → hex_loop n s ≡ some (digits (take n s))
unfolding hex_loop
hex_loop-digits zero s h = refl
hex_loop-digits (suc n) [] h = absurd (omega arith)
hex_loop-digits (suc n) (c ∷ s) h = rw (hex_loop-digits n s (omega arith), hex_loop) refl

length-digits : (s : List ℕ) → length (digits s) ≡ 2 * length s
length-digits [] = refl
length-digits (c ∷ s) = omega (arith, length-digits s)

real_size-Fits :
    (left buflen : ℕ)
    → 0 < buflen
    → 0 < left
    → let n = real_size left buflen in
      (n ≤ left) × (2 * n < buflen) × ((n ≡ left) ⊎ ((n < left) × (buflen ≤ 2 * n + 2)))
unfolding real_size below
real_size-Fits left buflen h k = elim (Bool-cases (leb (left * 2 + 1) buflen)) [
  | inl all ↦
      let e : (left * 2 + 1) / 2 ≡ left = omega arith in
      rw (all, real_size) (omega (arith, e), ground (arith, e, all), inl e)
  | inr part ↦
      let nonempty : leb 1 buflen ≡ true = ground (arith, h) in
      let few : (buflen - 1) / 2 < left = ground (arith, part, h) in
      rw (part, real_size)
        (rw (nonempty, below) (omega (arith, few), omega (arith, h), inr (few, omega arith)))
]

-- to_hex of a text from a place within it into a buffer that is not empty: it writes the digits of
-- as many bytes as it answers and leaves at least one byte of the buffer free; it takes all that
-- are left of the text, or as many as fit so.
pub to_hex_buf-Fits :
    (m_msg : List ℕ) (buflen start : ℕ)
    → 0 < buflen
    → start < length m_msg
    → (n : ℕ) × (to_hex_buf m_msg buflen start ≡ some (n, digits (take n (drop start m_msg))))
      × (length (digits (take n (drop start m_msg))) < buflen)
      × ((n ≡ length m_msg - start)
          ⊎ ((n < length m_msg - start)
              × (buflen ≤ length (digits (take n (drop start m_msg))) + 2)))
unfolding to_hex_buf
to_hex_buf-Fits m_msg buflen start some_room inside =
    let left = length m_msg - start in
    let n = real_size left buflen in
    let some_text : leb (length m_msg) start ≡ false = ground (arith, inside) in
    let rest = length-drop start m_msg in
    let (le, lt, which) = real_size-Fits left buflen some_room (omega (arith, inside)) in
    let size : length (digits (take n (drop start m_msg))) ≡ 2 * n = omega (
      arith,
      length-digits (take n (drop start m_msg)),
      length-take n (drop start m_msg),
      rest,
      le,
    ) in
    let run = hex_loop-digits n (drop start m_msg) (omega (arith, rest, le)) in
    (
      n,
      rw (some_text, to_hex_buf) (rw (run, to_hex_buf) refl),
      omega (arith, size, lt),
      elim which [ inl e ↦ inl e | inr (few, more) ↦ inr (few, omega (arith, size, more)) ],
    )
