-- ===== src/Net/Read/Receive.antt =====
-- What is kept of the bytes that a connection receives.
use mathlib.Core.List.{append-nil}
use native.Mathlib.Nat.{mod-lt, mod-eq_of_lt}
use eparallel.Common.{
  ℕ, ◌+◌, ◌-◌, ◌%◌, ◌≤◌, ◌<◌, ◌≡◌, refl, ap, ap₂, sym, ◌∙◌, false, some, List, ◌++◌, length,
  length-take, take, take_all, take-append-drop, take-append_le, ltb, arith, Bool-cases, inl, inr,
}
use eparallel.LoopBuf.{LoopBuf, write, real_write}
use eparallel.LoopBuf.Contents.{Valid, contents, length-contents}
use eparallel.LoopBuf.Contents.Write.{write-Contents}
use eparallel.LoopBuf.Contents.Resize.{resize-Kept}
use eparallel.LoopBuf.Contents.Put.{put, memmove-Inside, length-put, take-put}
use eparallel.Net.Read.{receive}

-- A write in one move, of what there is room for up to `m_cap`.
write-Flat :
    (b : LoopBuf) (bytes : List ℕ) (stop n : ℕ)
    → (b.start + b.size) % b.cap ≡ stop
    → real_write b (length bytes) ≡ n
    → n ≤ b.cap - stop
    → stop + length (take n bytes) ≤ length b.buf
    → write b bytes ≡ some (n, record b { buf = put b.buf stop (take n bytes); size = b.size + n })
unfolding write
write-Flat b bytes stop n s r f room =
    let flat : ltb (b.cap - stop) n ≡ false = ground (arith, f) in
    rw (s, r, flat, memmove-Inside b.buf stop (take n bytes) room) refl

-- A ring of which the block is at least as large as `m_cap`, and that starts at its front, takes
-- what there is room for up to `m_cap`.
write-Larger :
    (b : LoopBuf) (bytes : List ℕ)
    → 0 < b.cap
    → b.start ≡ 0
    → b.size ≤ b.cap
    → b.cap < b.size + length bytes
    → b.cap ≤ length b.buf
    → (b' : LoopBuf) × (write b bytes ≡ some (b.cap - b.size, b'))
      × (take b'.size b'.buf ≡ take b.size b.buf ++ take (b.cap - b.size) bytes)
      × (b'.cap ≡ b.cap)
      × (b'.start ≡ 0)
      × (b'.size ≤ length b'.buf)
write-Larger b bytes p z s m l =
    let n = b.cap - b.size in
    let w = take n bytes in
    let r : real_write b (length bytes) ≡ n = ground (arith, m, s) in
    let lw : length w ≡ n = omega (arith, length-take n bytes, m, s) in
    elim (Bool-cases (ltb b.size b.cap)) [
      | inl up ↦
          let low : b.size < b.cap = ground (arith, up) in
          let stop : (b.start + b.size) % b.cap ≡ b.size =
            rw z (mod-eq_of_lt (omega (arith, low)) ∙ omega arith) in
          let room : b.size + length w ≤ length b.buf = omega (arith, lw, l, s) in
          (
            record b { buf = put b.buf b.size w; size = b.size + n },
            write-Flat b bytes b.size n stop r (omega (arith, s)) room,
            ap (λ k. take (b.size + k) (put b.buf b.size w)) (sym lw)
                ∙ take-put b.buf b.size w room,
            refl,
            z,
            omega (arith, length-put b.buf b.size w room, room, lw),
          )
      | inr full ↦
          let stop = (b.start + b.size) % b.cap in
          let low : stop < b.cap = mod-lt (b.start + b.size) p in
          let none_left : b.cap - b.size ≡ 0 = ground (arith, full, s) in
          let room : stop + length w ≤ length b.buf = omega (arith, lw, none_left, low, l) in
          (
            record b { buf = put b.buf stop w; size = b.size + n },
            write-Flat b bytes stop n refl r (omega (arith, none_left)) room,
            full_put b.buf stop b.size n none_left,
            refl,
            z,
            omega (arith, length-put b.buf stop w room, l, s),
          )
    ]
  where
    full_put :
        (buf : List ℕ) (stop size n : ℕ)
        → n ≡ 0
        → take (size + n) (put buf stop (take n bytes)) ≡ take size buf ++ take n bytes
    full_put buf stop size n e =
        let a : stop + 0 ≡ stop = omega arith in
        let c : size + 0 ≡ size = omega arith in
        rw e (rw (a, c, take-append-drop stop buf) (sym (append-nil (take size buf))))

-- A ring that starts at its front.
first_part : (b : LoopBuf) → b.start ≡ 0 → b.size ≤ length b.buf → contents b ≡ take b.size b.buf
first_part b z l = rw z (take-append_le b.size b.buf b.buf l)

-- Where the block of the ring has just `m_cap` bytes, as that of a ring that was never resized,
-- and whether it is resized now or not: a connection that receives bytes keeps all that was in its
-- ring and, behind it, as many of the new bytes as there is room for up to `m_cap`, which stays
-- what it was; the others are lost.
pub receive-Keeps :
    (junk : ℕ) (b : LoopBuf) (bytes : List ℕ)
    → Valid b
    → (b' : LoopBuf) × (receive junk b bytes ≡ some b')
      × (contents b' ≡ contents b ++ take (b.cap - b.size) bytes)
      × (b'.cap ≡ b.cap)
unfolding receive
receive-Keeps junk b bytes v = elim (Bool-cases (ltb b.cap (b.size + length bytes))) [
  | inr fits ↦
      let (b', e, v', c, same) = write-Contents b bytes v in
      (b', rw (receive, fits) (rw e refl), c, same)
  | inl more ↦
      let (r, e, block, kept, size, start, cap) = resize-Kept junk b (b.cap + length bytes) v in
      let same : r.size ≡ b.size = omega (arith, size, v.fits) in
      let old : take r.size r.buf ≡ contents b =
        kept
        ∙ take_all (b.cap + length bytes) (contents b)
            (omega (arith, length-contents b v, v.fits)) in
      let many : b.cap < b.size + length bytes = ground (arith, more) in
      let (b', w, c, k, front, inside) =
        write-Larger r bytes (omega (arith, cap, v.some_room)) start
          (omega (arith, cap, same, v.fits)) (omega (arith, cap, same, many))
          (omega (arith, cap, block)) in
      (
        b',
        rw (receive, more) (rw e (rw w refl)),
        first_part b' front inside
            ∙ c
            ∙ ap₂ (λ x n. x ++ take n bytes) old (ap₂ (λ x y. x - y) cap same),
        k ∙ cap,
      )
]
