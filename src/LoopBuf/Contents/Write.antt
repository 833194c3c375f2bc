-- ===== src/LoopBuf/Contents/Write.antt =====
-- What `loop_buf::write` does to the bytes in the buffer.
use mathlib.Core.Path.{subst}
use mathlib.Core.List.{append-nil}
use native.Mathlib.Nat.{mod-lt, mod-eq_of_lt, mod-eq-sub-mod}
use eparallel.Common.{
  min, ℕ, suc, ◌+◌, ◌-◌, ◌%◌, ◌≤◌, ◌<◌, ◌≡◌, refl, ap, sym, ◌∙◌, inl, inr, false, Option, some,
  List, [], ◌∷◌, ◌++◌, ◌>>=◌, ltb, if◌then◌else◌, length, take, drop, arith, length-take, take_all,
  Bool-cases, take-append-drop,
}
use eparallel.LoopBuf.{LoopBuf, memmove, move_round, real_write, write}
use eparallel.LoopBuf.Contents.{Valid, contents}
use eparallel.LoopBuf.Contents.Put.{put, memmove-Inside}
use eparallel.LoopBuf.Contents.Moved.{Moved, flat-Moved, round-Moved, low-Moved}

-- Nothing to be moved.
empty-Moved : (b : LoopBuf) (stop : ℕ) → Valid b → stop ≤ b.cap → Moved b [] (memmove b.buf stop [])
empty-Moved b stop v h =
    let room : stop + 0 ≤ length b.buf = omega (arith, v.whole, h) in
    let e : stop + 0 ≡ stop = omega arith in
    let same : put b.buf stop [] ≡ b.buf = rw e (take-append-drop stop b.buf) in
    let z : b.size + 0 ≡ b.size = omega arith in
    (
      b.buf,
      memmove-Inside b.buf stop [] room ∙ ap some same,
      refl,
      rw z (sym (append-nil (contents b))),
    )

-- The moves of `write`.
any-Moved :
    (b : LoopBuf) (w : List ℕ)
    → Valid b
    → b.size + length w ≤ b.cap
    → let stop = (b.start + b.size) % b.cap in
      Moved b w (
        if ltb (b.cap - stop) (length w)
        then move_round b.buf stop (b.cap - stop) w
        else memmove b.buf stop w)
any-Moved b [] v h =
    let stop = (b.start + b.size) % b.cap in
    let low : stop < b.cap = mod-lt (b.start + b.size) v.some_room in
    let flat : ltb (b.cap - stop) 0 ≡ false = ground arith in
    rw flat (empty-Moved b stop v (omega (arith, low)))
any-Moved b (x ∷ w) v h = elim (Bool-cases (ltb (b.start + b.size) b.cap)) [
  | inl up ↦
      let low : b.start + b.size < b.cap = ground (arith, up) in
      let stop = mod-eq_of_lt low in
      rw stop (elim (Bool-cases (ltb (b.cap - (b.start + b.size)) (suc (length w)))) [
        | inl round ↦
            rw round (round-Moved b (x ∷ w) v h (omega (arith, low)) (ground (arith, round)))
        | inr flat ↦ rw flat (flat-Moved b (x ∷ w) v (ground (arith, flat, low)))
      ])
  | inr over ↦
      let high : b.cap ≤ b.start + b.size = ground (arith, over) in
      let stop : (b.start + b.size) % b.cap ≡ b.start + b.size - b.cap =
        mod-eq-sub-mod high ∙ mod-eq_of_lt (omega (arith, high, h, v.inside)) in
      let flat : ltb (b.cap - (b.start + b.size - b.cap)) (suc (length w)) ≡ false =
        ground (arith, high, h, v.inside) in
      rw stop (rw flat (low-Moved b (x ∷ w) (b.start + b.size - b.cap) v h (omega (arith, high))))
]

take-real_write :
    (b : LoopBuf) (bytes : List ℕ)
    → take (real_write b (length bytes)) bytes ≡ take (b.cap - b.size) bytes
take-real_write b bytes = elim (Bool-cases (ltb (b.cap - b.size) (length bytes))) [
  | inl full ↦ rw full refl
  | inr room ↦ rw room (
      take_all (length bytes) bytes (omega arith)
      ∙ sym (take_all (b.cap - b.size) bytes (ground (arith, room))))
]

-- What the state after `write` is, once its moves are known.
stored :
    (b : LoopBuf) (bytes : List ℕ)
    → Valid b
    → let w = take (real_write b (length bytes)) bytes in
      let stop = (b.start + b.size) % b.cap in
      Moved b w (
        if ltb (b.cap - stop) (real_write b (length bytes))
        then move_round b.buf stop (b.cap - stop) w
        else memmove b.buf stop w)
      → (b' : LoopBuf) × (write b bytes ≡ some (min (b.cap - b.size) (length bytes), b'))
        × Valid b'
        × (contents b' ≡ contents b ++ take (b.cap - b.size) bytes)
        × (b'.cap ≡ b.cap)
unfolding write
stored b bytes v (buf, e, l, c) =
    let n = real_write b (length bytes) in
    let w = take n bytes in
    let len : length w ≡ n = ground (arith, length-take n bytes) in
    let le : n ≤ b.cap - b.size = ground arith in
    let count : n ≡ min (b.cap - b.size) (length bytes) = ground arith in
    let c' : take (b.size + n) (drop b.start buf ++ buf) ≡ contents b ++ w = rw len at c in
    let b' : LoopBuf = record b { buf = buf; size = b.size + n } in
    let result : write b bytes ≡ some (n, b') =
      ap
        (λ (r : Option (List ℕ)).
          r >>= (λ (m : List ℕ). some (n, record b { buf = m; size = b.size + n })))
        e in
    (
      b',
      result ∙ ap (λ m. some (m, b')) count,
      record {
        some_room = v.some_room;
        whole = l ∙ v.whole;
        fits = omega (arith, le, v.fits);
        inside = v.inside;
      },
      c' ∙ ap (λ t. contents b ++ t) (take-real_write b bytes),
      refl,
    )

-- `write` never leaves the buffer: it puts as many of the bytes as there is room for behind those
-- that are in it, and says how many these are.
pub write-Contents :
    (b : LoopBuf) (bytes : List ℕ)
    → Valid b
    → (b' : LoopBuf) × (write b bytes ≡ some (min (b.cap - b.size) (length bytes), b'))
      × Valid b'
      × (contents b' ≡ contents b ++ take (b.cap - b.size) bytes)
      × (b'.cap ≡ b.cap)
write-Contents b bytes v =
    let n = real_write b (length bytes) in
    let len : length (take n bytes) ≡ n = ground (arith, length-take n bytes) in
    let stop = (b.start + b.size) % b.cap in
    stored b bytes v (
      subst
        (λ m. Moved b (take n bytes) (
          if ltb (b.cap - stop) m
          then move_round b.buf stop (b.cap - stop) (take n bytes)
          else memmove b.buf stop (take n bytes)))
        len (any-Moved b (take n bytes) v (ground (arith, len, v.fits))))
