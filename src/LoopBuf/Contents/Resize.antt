-- ===== src/LoopBuf/Contents/Resize.antt =====
-- What `loop_buf::resize` leaves of the ring.
use native.Mathlib.Nat.{mod-eq_of_lt}
use eparallel.Common.{
  false, ℕ, ◌+◌, ◌-◌, ◌%◌, ◌≤◌, ◌<◌, ◌≡◌, refl, ap, sym, ◌∙◌, Option, none, some, List, ◌>>=◌,
  length, take, min, arith, replicate, length-replicate, length-take, ltb, if◌then◌else◌,
}
use eparallel.LoopBuf.{move_round, LoopBuf, write, memmove, resize, real_write}
use eparallel.LoopBuf.Contents.{Valid, contents, read-Contents, length-contents}
use eparallel.LoopBuf.Contents.Put.{put, memmove-Inside, length-put, take-put}

-- `resize` keeps the oldest bytes in a block of `new_cap` bytes; `m_cap` stays.
pub resize-Kept :
    (junk : ℕ) (b : LoopBuf) (new_cap : ℕ)
    → Valid b
    → (b' : LoopBuf) × (resize junk b new_cap ≡ some (min new_cap b.size, b'))
      × (length b'.buf ≡ new_cap)
      × (take b'.size b'.buf ≡ take new_cap (contents b))
      × (b'.size ≡ min new_cap b.size)
      × (b'.start ≡ 0)
      × (b'.cap ≡ b.cap)
unfolding resize
resize-Kept junk b new_cap v =
    let (r, e, v', c, same) = read-Contents b new_cap v in
    let w = take new_cap (contents b) in
    let l : length w ≡ min new_cap b.size =
      omega (arith, length-take new_cap (contents b), length-contents b v) in
    let block = replicate new_cap junk in
    let n = length-replicate new_cap junk in
    let room : 0 + length w ≤ length block = omega (arith, l, n) in
    let z : 0 + length w ≡ length w = omega arith in
    let m = memmove-Inside block 0 w room in
    let b' : LoopBuf = record r { buf = put block 0 w; size = length w; start = 0 } in
    let result : resize junk b new_cap ≡ some (length w, b') =
      rw (e, resize) (rw (m, resize) refl) in
    (
      b',
      result ∙ ap (λ k. some (k, b')) l,
      length-put block 0 w room ∙ n,
      ap (λ k. take k (put block 0 w)) (sym z) ∙ take-put block 0 w room,
      l,
      refl,
      same,
    )

-- A write in one move that leaves the block.
write-Outside :
    (b : LoopBuf) (w : List ℕ) (stop : ℕ)
    → (b.start + b.size) % b.cap ≡ stop
    → ltb (b.cap - stop) (real_write b (length w)) ≡ false
    → memmove b.buf stop (take (real_write b (length w)) w) ≡ none
    → write b w ≡ none
unfolding write
write-Outside b w stop s flat out =
    let moves : (if ltb (b.cap - (b.start + b.size) % b.cap) (real_write b (length w))
          then move_round b.buf ((b.start + b.size) % b.cap) (b.cap - (b.start + b.size) % b.cap)
              (take (real_write b (length w)) w)
          else memmove b.buf ((b.start + b.size) % b.cap) (take (real_write b (length w)) w))
        ≡ none =
      rw s (rw flat out) in
    ap
      (λ (r : Option (List ℕ)). r >>= (λ (m : List ℕ).
        some
          (real_write b (length w), record b { buf = m; size = b.size + real_write b (length w) })))
      moves

-- A ring that was made smaller still writes up to its old `m_cap`: as soon as there are so many
-- bytes to write, the write leaves the new block.
pub resize-Overflow :
    (junk : ℕ) (b : LoopBuf) (new_cap : ℕ) (w : List ℕ)
    → Valid b
    → new_cap < b.cap
    → b.cap ≤ min new_cap b.size + length w
    → (b' : LoopBuf) × (resize junk b new_cap ≡ some (min new_cap b.size, b')) × (write b' w ≡ none)
unfolding write memmove
resize-Overflow junk b new_cap w v small many =
    let (b', e, l, k, s, z, c) = resize-Kept junk b new_cap v in
    let stop : (b'.start + b'.size) % b'.cap ≡ b'.size =
      rw (z, c) (mod-eq_of_lt (omega (arith, s, small)) ∙ omega arith) in
    let n : real_write b' (length w) ≡ b.cap - b'.size = ground (arith, s, many, c) in
    let flat : ltb (b'.cap - b'.size) (real_write b' (length w)) ≡ false = ground (arith, n, c) in
    let lw : length (take (real_write b' (length w)) w) ≡ b.cap - b'.size =
      omega (arith, length-take (real_write b' (length w)) w, n, s, many) in
    let out : memmove b'.buf b'.size (take (real_write b' (length w)) w) ≡ none =
      ground (arith, lw, l, small, s) in
    (b', e, write-Outside b' w b'.size stop flat out)
