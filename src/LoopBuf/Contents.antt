-- ===== src/LoopBuf/Contents.antt =====
-- The bytes in efnfw's `loop_buf`, oldest first, and what each operation does to them.
pub mod Put
pub mod Moved
pub mod Write
pub mod Run
pub mod Resize
use eparallel.Common.{
  drop_all, ℕ, zero, suc, ◌+◌, ◌-◌, ◌%◌, ◌≤◌, ◌<◌, ◌≡◌, refl, ap, sym, ◌∙◌, ◌⊎◌, inl, inr, Bool,
  true, false, Option, none, some, List, [], ◌∷◌, ◌++◌, ◌>>=◌, leb, ltb, if◌then◌else◌, length,
  take, drop, replicate, min, arith, length-take, length-drop, take-append_le, take-append_ge,
  drop-append_le, drop-append_ge, take-take, drop-take, drop-drop, take_all, Bool-cases,
  length-append,
}
use eparallel.LoopBuf.{LoopBuf, bytes_at, memmove, real_read, bytes_round, peek, read, clear}

pub record Valid (b : LoopBuf) : Type 0 where
  pub some_room : 0 < b.cap
  pub whole : length b.buf ≡ b.cap
  pub fits : b.size ≤ b.cap
  pub inside : b.start ≤ b.cap

abbrev pub contents : LoopBuf → List ℕ
contents b = take b.size (drop b.start b.buf ++ b.buf)

pub bytes_at-Inside :
    (src : List ℕ) (i n : ℕ) → i + n ≤ length src → bytes_at src i n ≡ some (take n (drop i src))
unfolding bytes_at
bytes_at-Inside src i n h = ground arith

-- The bytes that a read of `n` finds, when it goes round the end of the buffer.
bytes_round-Contents :
    (b : LoopBuf) (n : ℕ)
    → Valid b
    → n ≤ b.size
    → b.cap - b.start ≤ n
    → bytes_round b n ≡ some (take n (contents b))
unfolding bytes_round
bytes_round-Contents b n v h r =
    let f = b.cap - b.start in
    let d = drop b.start b.buf in
    let len : length d ≡ f = omega (arith, length-drop b.start b.buf, v.whole) in
    let w = v.whole in
    let i = v.inside in
    let e1 : bytes_at b.buf b.start f ≡ some (take f d) =
      bytes_at-Inside b.buf b.start f (omega (arith, v.whole, v.inside)) in
    let e2 : bytes_at b.buf 0 (n - f) ≡ some (take (n - f) b.buf) =
      bytes_at-Inside b.buf 0 (n - f) (omega (arith, v.whole, v.fits, h)) in
    let a : take n (contents b) ≡ d ++ take (n - f) b.buf =
      take-take n b.size (d ++ b.buf) h
      ∙ take-append_ge n d b.buf (omega (arith, len, r))
      ∙ rw len refl in
    let all : take f d ≡ d = take_all f d (omega (arith, len)) in
    rw (e1, bytes_round) (rw (e2, bytes_round) (rw (a, all) refl))

bytes_at-Contents :
    (b : LoopBuf) (n : ℕ)
    → Valid b
    → n ≤ b.size
    → n ≤ b.cap - b.start
    → bytes_at b.buf b.start n ≡ some (take n (contents b))
bytes_at-Contents b n v h r =
    let d = drop b.start b.buf in
    let len : length d ≡ b.cap - b.start = omega (arith, length-drop b.start b.buf, v.whole) in
    let a : take n (contents b) ≡ take n d =
      take-take n b.size (d ++ b.buf) h ∙ take-append_le n d b.buf (omega (arith, len, r)) in
    rw a (bytes_at-Inside b.buf b.start n (omega (arith, v.whole, v.inside, r)))

-- Reads never leave the buffer, and give the oldest bytes.
found :
    (b : LoopBuf) (n : ℕ)
    → Valid b
    → n ≤ b.size
    → (if ltb (b.cap - b.start) n then bytes_round b n else bytes_at b.buf b.start n)
      ≡ some (take n (contents b))
found b n v h = elim (Bool-cases (ltb (b.cap - b.start) n)) [
  | inl round ↦ rw round (bytes_round-Contents b n v h (ground (arith, round)))
  | inr flat ↦ rw flat (bytes_at-Contents b n v h (ground (arith, flat)))
]

pub length-contents : (b : LoopBuf) → Valid b → length (contents b) ≡ b.size
length-contents b v = omega (
  arith,
  length-take b.size (drop b.start b.buf ++ b.buf),
  length-append (drop b.start b.buf) b.buf,
  v.whole,
  v.fits,
)

real_read-le : (b : LoopBuf) (len : ℕ) → real_read b len ≤ b.size
real_read-le b len = ground arith

take-real_read :
    (b : LoopBuf) (len : ℕ) → Valid b → take (real_read b len) (contents b) ≡ take len (contents b)
take-real_read b len v =
    let l = length-contents b v in
    elim (Bool-cases (leb b.size len)) [
      | inl short ↦ rw short (
          take_all b.size (contents b) (omega (arith, l))
          ∙ sym (take_all len (contents b) (ground (arith, l, short))))
      | inr long ↦ rw long refl
    ]

-- `peek` gives the oldest bytes.
pub peek-Contents : (b : LoopBuf) (len : ℕ) → Valid b → peek b len ≡ some (take len (contents b))
unfolding peek
peek-Contents b len v =
    found b (real_read b len) v (real_read-le b len) ∙ ap some (take-real_read b len v)

-- The buffer after a read of `n` bytes.
abbrev after : LoopBuf → ℕ → LoopBuf
after b n =
    let firsthalf = b.cap - b.start in
    let size = b.size - n in
    let start = if ltb firsthalf n then n - firsthalf else b.start + n in
    record b { size = size; start = if leb size 0 then 0 else start }

after-Valid : (b : LoopBuf) (n : ℕ) → Valid b → n ≤ b.size → Valid (after b n)
after-Valid b n v h = ground arith

drop-real_read :
    (b : LoopBuf) (len : ℕ) → Valid b → drop (real_read b len) (contents b) ≡ drop len (contents b)
drop-real_read b len v =
    let l = length-contents b v in
    elim (Bool-cases (leb b.size len)) [
      | inl short ↦ rw short (
          drop_all b.size (contents b) (omega (arith, l))
          ∙ sym (drop_all len (contents b) (ground (arith, l, short))))
      | inr long ↦ rw long refl
    ]

after-Contents :
    (b : LoopBuf) (n : ℕ) → Valid b → n ≤ b.size → contents (after b n) ≡ drop n (contents b)
after-Contents b n v h =
    let d = drop b.start b.buf in
    let len : length d ≡ b.cap - b.start = omega (arith, length-drop b.start b.buf, v.whole) in
    let left : drop n (contents b) ≡ take (b.size - n) (drop n (d ++ b.buf)) =
      drop-take n b.size (d ++ b.buf) h in
    rw left (elim (Bool-cases (leb (b.size - n) 0)) [
      | inl none_left ↦ let z : b.size - n ≡ 0 = ground (arith, none_left) in rw z refl
      | inr some_left ↦ rw some_left (elim (Bool-cases (ltb (b.cap - b.start) n)) [
        | inl round ↦
            let f : b.cap - b.start < n = ground (arith, round) in
            let e = drop-append_ge n d b.buf (omega (arith, len, f)) in
            let rest = drop (n - (b.cap - b.start)) b.buf in
            let room : b.size - n ≤ length rest =
              omega (
                arith,
                length-drop (n - (b.cap - b.start)) b.buf,
                v.whole,
                v.fits,
                v.inside,
                f,
                h,
              ) in
            rw (round, e, len) (take-append_le (b.size - n) rest b.buf room)
        | inr flat ↦
            let f : n ≤ b.cap - b.start = ground (arith, flat) in
            let e : drop n (d ++ b.buf) ≡ drop (b.start + n) b.buf ++ b.buf =
              drop-append_le n d b.buf (omega (arith, len, f))
              ∙ ap (λ t. t ++ b.buf) (drop-drop n b.start b.buf) in
            rw (flat, e) refl
      ])
    ])

read-after :
    (b : LoopBuf) (len : ℕ)
    → Valid b
    → read b len ≡ some (take len (contents b), after b (real_read b len))
unfolding read
read-after b len v =
    let e = found b (real_read b len) v (real_read-le b len) in
    rw (e, read) (rw (take-real_read b len v) refl)

-- `read` gives the oldest bytes and leaves the others.
pub read-Contents :
    (b : LoopBuf) (len : ℕ)
    → Valid b
    → (b' : LoopBuf) × (read b len ≡ some (take len (contents b), b'))
      × Valid b'
      × (contents b' ≡ drop len (contents b))
      × (b'.cap ≡ b.cap)
read-Contents b len v =
    let n = real_read b len in
    let le = real_read-le b len in
    (
      after b n,
      read-after b len v,
      after-Valid b n v le,
      after-Contents b n v le ∙ drop-real_read b len v,
      refl,
    )

pub clear-Valid : (b : LoopBuf) → Valid b → Valid (clear b).1
unfolding clear
clear-Valid b v = ground arith
