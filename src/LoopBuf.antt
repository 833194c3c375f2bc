-- ===== src/LoopBuf.antt =====
-- efnfw/ef_loop_buf.cpp: the ring of bytes that a connection keeps its input in.
-- A length is not negative, and a capacity is below 2 ^ 30, so that no sum of two of the fields
-- leaves `int32`. A `memmove` that would leave its buffer has no result.
pub mod Contents
use eparallel.Common.{
  ℕ, zero, suc, ◌+◌, ◌-◌, ◌%◌, ◌≤◌, ◌<◌, ◌≡◌, Bool, true, false, ◌&&◌, Option, none, some, List, [],
  ◌>>=◌, ◌∷◌, ◌++◌, leb, ltb, if◌then◌else◌, length, take, drop, replicate, min,
}

pub record LoopBuf : Type 0 where
  pub buf : List ℕ
  pub cap : ℕ
  pub size : ℕ
  pub start : ℕ

-- The bytes of a new buffer are not set; `junk` stands for them.
unfoldable pub new_loop_buf : ℕ → ℕ → LoopBuf
new_loop_buf junk cap = record { buf = replicate cap junk; cap = cap; size = 0; start = 0 }

-- The source of a `memmove`: `n` bytes of `src` from `i` on.
unfoldable pub bytes_at : List ℕ → ℕ → ℕ → Option (List ℕ)
bytes_at src i n = if leb (i + n) (length src) then some (take n (drop i src)) else none

-- A `memmove` of `bytes` to `dst` at `i`.
unfoldable pub memmove : List ℕ → ℕ → List ℕ → Option (List ℕ)
memmove dst i bytes =
    if leb (i + length bytes) (length dst)
    then some (take i dst ++ (bytes ++ drop (i + length bytes) dst))
    else none

abbrev pub real_read : LoopBuf → ℕ → ℕ
real_read b len = if leb b.size len then b.size else len

-- The two moves of a read that goes round the end of the buffer.
unfoldable pub bytes_round : LoopBuf → ℕ → Option (List ℕ)
unfolding bytes_at
bytes_round b n =
    let firsthalf = b.cap - b.start in
    do
      first ← bytes_at b.buf b.start firsthalf
      rest ← bytes_at b.buf 0 (n - firsthalf)
      some (first ++ rest)

-- The bytes that `peek` gives its caller.
unfoldable pub peek : LoopBuf → ℕ → Option (List ℕ)
unfolding bytes_at bytes_round
peek b len =
    let n = real_read b len in
    if ltb (b.cap - b.start) n then bytes_round b n else bytes_at b.buf b.start n

-- `read`: the bytes given to the caller, and the buffer.
unfoldable pub read : LoopBuf → ℕ → Option (List ℕ × LoopBuf)
unfolding bytes_at bytes_round
read b len =
    let n = real_read b len in
    let firsthalf = b.cap - b.start in
    let size = b.size - n in
    do
      bytes ← if ltb firsthalf n then bytes_round b n else bytes_at b.buf b.start n
      let start = if ltb firsthalf n then n - firsthalf else b.start + n in
          some (bytes, record b { size = size; start = if leb size 0 then 0 else start })

-- The two moves of a write that goes round the end of the buffer.
unfoldable pub move_round : List ℕ → ℕ → ℕ → List ℕ → Option (List ℕ)
unfolding memmove
move_round buf stop firsthalf bytes = do
  first ← memmove buf stop (take firsthalf bytes)
  memmove first 0 (drop firsthalf bytes)

abbrev pub real_write : LoopBuf → ℕ → ℕ
real_write b len = if ltb (b.cap - b.size) len then b.cap - b.size else len

-- `write`: how many of the bytes found room, and the buffer.
unfoldable pub write : LoopBuf → List ℕ → Option (ℕ × LoopBuf)
unfolding memmove move_round
write b bytes =
    let n = real_write b (length bytes) in
    let stop = (b.start + b.size) % b.cap in
    let firsthalf = b.cap - stop in
    do
      buf ←
          if ltb firsthalf n
          then move_round b.buf stop firsthalf (take n bytes)
          else memmove b.buf stop (take n bytes)
      some (n, record b { buf = buf; size = b.size + n })

-- `resize`: `m_cap` is not set.
unfoldable pub resize : ℕ → LoopBuf → ℕ → Option (ℕ × LoopBuf)
unfolding read memmove
resize junk b new_cap = do
  (bytes, b') ← read b new_cap
  buf ← memmove (replicate new_cap junk) 0 bytes
  some (length bytes, record b' { buf = buf; size = length bytes; start = 0 })

unfoldable pub clear : LoopBuf → ℕ × LoopBuf
clear b = (b.size, record b { size = 0; start = 0 })

unfoldable pub capacity : LoopBuf → ℕ
capacity b = b.cap
