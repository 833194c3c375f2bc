-- ===== src/LoopBuf/Contents/Moved.antt =====
-- The moves of `loop_buf::write`.
use mathlib.Core.List.{append_assoc}
use eparallel.Common.{
  ℕ, ◌+◌, ◌-◌, ◌≤◌, ◌<◌, ◌≡◌, refl, ap, sym, ◌∙◌, Option, some, List, ◌++◌, length, take, drop,
  arith, length-take, length-drop, take-append_le, take-append_ge, take_all, take-append-drop,
}
use eparallel.LoopBuf.{LoopBuf, memmove, move_round}
use eparallel.LoopBuf.Contents.{Valid, contents}
use eparallel.LoopBuf.Contents.Put.{
  put, memmove-Inside, length-put, take-put, drop-put_past, drop-put_before,
}

-- What the moves of a write leave in the memory of the buffer.
abbrev pub Moved : LoopBuf → List ℕ → Option (List ℕ) → Type 0
Moved b w result =
    (buf : List ℕ) × (result ≡ some buf)
    × (length buf ≡ length b.buf)
    × (take (b.size + length w) (drop b.start buf ++ buf) ≡ contents b ++ w)

-- The free room does not go round the end, and neither does what is in the buffer.
pub flat-Moved :
    (b : LoopBuf) (w : List ℕ)
    → Valid b
    → b.start + b.size + length w ≤ b.cap
    → Moved b w (memmove b.buf (b.start + b.size) w)
flat-Moved b w v h =
    let stop = b.start + b.size in
    let room : stop + length w ≤ length b.buf = omega (arith, h, v.whole) in
    let d = drop b.start b.buf in
    let len : length d ≡ b.cap - b.start = omega (arith, length-drop b.start b.buf, v.whole) in
    let new = put b.buf stop w in
    let e : stop - b.start ≡ b.size = omega arith in
    let tail : drop b.start new ≡ put d b.size w =
      drop-put_before b.buf stop b.start w (omega arith) room ∙ rw e refl in
    let fits : b.size + length w ≤ length d = omega (arith, len, h) in
    let inside : b.size + length w ≤ length (put d b.size w) =
      omega (arith, length-put d b.size w fits, fits) in
    (
      new,
      memmove-Inside b.buf stop w room,
      length-put b.buf stop w room,
      rw tail (
          take-append_le (b.size + length w) (put d b.size w) new inside
          ∙ take-put d b.size w fits
          ∙ ap (λ t. t ++ w) (sym (take-append_le b.size d b.buf (omega (arith, fits))))),
    )

-- The free room goes round the end.
pub round-Moved :
    (b : LoopBuf) (w : List ℕ)
    → Valid b
    → b.size + length w ≤ b.cap
    → b.start + b.size ≤ b.cap
    → b.cap < b.start + b.size + length w
    → Moved b w (move_round b.buf (b.start + b.size) (b.cap - (b.start + b.size)) w)
unfolding move_round
round-Moved b w v h s r =
    let stop = b.start + b.size in
    let f = b.cap - stop in
    let w1 = take f w in
    let w2 = drop f w in
    let l1 : length w1 ≡ f = omega (arith, length-take f w, r) in
    let l2 : length w2 ≡ length w - f = length-drop f w in
    let room : stop + length w1 ≤ length b.buf = omega (arith, l1, v.whole, s) in
    let first = put b.buf stop w1 in
    let lf : length first ≡ length b.buf = length-put b.buf stop w1 room in
    let room2 : 0 + length w2 ≤ length first = omega (arith, l2, lf, v.whole, h) in
    let new = put first 0 w2 in
    let ln : length new ≡ length b.buf = length-put first 0 w2 room2 ∙ lf in
    let d = drop b.start b.buf in
    let len : length d ≡ b.cap - b.start = omega (arith, length-drop b.start b.buf, v.whole) in
    let e : stop - b.start ≡ b.size = omega arith in
    let full : b.size + length w1 ≤ length d = omega (arith, len, l1, s) in
    let tail : drop b.start new ≡ put d b.size w1 =
      drop-put_past first 0 b.start w2 (omega (arith, l2, h, s))
        (omega (arith, lf, v.whole, v.inside))
      ∙ drop-put_before b.buf stop b.start w1 (omega arith) room
      ∙ rw e refl in
    let lp : length (put d b.size w1) ≡ b.size + length w1 =
      omega (arith, length-put d b.size w1 full, len, l1, s) in
    let n : b.size + length w - (b.size + length w1) ≡ 0 + length w2 = omega (arith, l1, l2, r) in
    let whole1 : put d b.size w1 ≡ contents b ++ w1 =
      sym (take_all (b.size + length w1) (put d b.size w1) (omega (arith, lp)))
      ∙ take-put d b.size w1 full
      ∙ ap (λ t. t ++ w1) (sym (take-append_le b.size d b.buf (omega (arith, full)))) in
    let m1 = memmove-Inside b.buf stop w1 room in
    let m2 = memmove-Inside first 0 w2 room2 in
    let all : take (b.size + length w) (put d b.size w1 ++ new) ≡ put d b.size w1 ++ w2 =
      take-append_ge (b.size + length w) (put d b.size w1) new (omega (arith, lp, l1, r))
      ∙ rw (lp, n) (ap (λ t. put d b.size w1 ++ t) (take-put first 0 w2 room2)) in
    (
      new,
      rw (m1, move_round) m2,
      ln,
      rw tail (
          all
          ∙ ap (λ t. t ++ w2) whole1
          ∙ append_assoc (contents b) w1 w2
          ∙ ap (λ t. contents b ++ t) (take-append-drop f w)),
    )

-- What is in the buffer goes round the end already.
pub low-Moved :
    (b : LoopBuf) (w : List ℕ) (stop : ℕ)
    → Valid b
    → b.size + length w ≤ b.cap
    → stop + b.cap ≡ b.start + b.size
    → Moved b w (memmove b.buf stop w)
low-Moved b w stop v h s =
    let room : stop + length w ≤ length b.buf = omega (arith, h, v.whole, s, v.inside) in
    let d = drop b.start b.buf in
    let len : length d ≡ b.cap - b.start = omega (arith, length-drop b.start b.buf, v.whole) in
    let new = put b.buf stop w in
    let ln = length-put b.buf stop w room in
    let tail : drop b.start new ≡ d =
      drop-put_past b.buf stop b.start w (omega (arith, s, h)) (omega (arith, v.whole, v.inside)) in
    let n : b.size + length w - (b.cap - b.start) ≡ stop + length w = omega (arith, s, v.inside) in
    let m : b.size - (b.cap - b.start) ≡ stop = omega (arith, s, v.inside) in
    let old : contents b ≡ d ++ take stop b.buf =
      take-append_ge b.size d b.buf (omega (arith, len, s)) ∙ rw (len, m) refl in
    let all : take (b.size + length w) (d ++ new) ≡ d ++ (take stop b.buf ++ w) =
      take-append_ge (b.size + length w) d new (omega (arith, len, s))
      ∙ rw (len, n) (ap (λ t. d ++ t) (take-put b.buf stop w room)) in
    (
      new,
      memmove-Inside b.buf stop w room,
      ln,
      rw tail (all ∙ sym (append_assoc d (take stop b.buf) w) ∙ ap (λ t. t ++ w) (sym old)),
    )
