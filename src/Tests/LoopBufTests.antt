-- ===== src/Tests/LoopBufTests.antt =====
-- efnfw's `loop_buf` on a concrete ring.
use eparallel.Common.{take, ◌≡◌, refl, List, [], ◌∷◌, some, none, arith, length}
use eparallel.LoopBuf.{LoopBuf, write, resize}
use eparallel.LoopBuf.Contents.{Valid}
use eparallel.LoopBuf.Contents.Run.{
  Op, write_op, read_op, peek_op, clear_op, count, bytes, run, run-Queue,
}
use eparallel.LoopBuf.Contents.Resize.{resize-Kept, resize-Overflow}

-- Four bytes of room; two bytes go round the end.
abbrev ring : LoopBuf
ring = record { buf = 13 ∷ 9 ∷ 11 ∷ 12 ∷ []; cap = 4; size = 3; start = 2 }

ring-Valid : Valid ring
ring-Valid = record {
  some_room = omega arith;
  whole = refl;
  fits = omega arith;
  inside = omega arith;
}

abbrev calls : List Op
calls =
    write_op (14 ∷ 15 ∷ [])
    ∷ peek_op 2
    ∷ read_op 3
    ∷ write_op (16 ∷ 17 ∷ [])
    ∷ read_op 9
    ∷ clear_op
    ∷ []

run-Queue_example :
    run ring calls
    ≡ some (
        count 1
        ∷ bytes (11 ∷ 12 ∷ [])
        ∷ bytes (11 ∷ 12 ∷ 13 ∷ [])
        ∷ count 2
        ∷ bytes (14 ∷ 16 ∷ 17 ∷ [])
        ∷ count 0
        ∷ [])
run-Queue_example = run-Queue ring calls ring-Valid

resized_keeps :
    (b' : LoopBuf) × (resize 0 ring 6 ≡ some (3, b'))
    × (length b'.buf ≡ 6)
    × (take b'.size b'.buf ≡ 11 ∷ 12 ∷ 13 ∷ [])
    × (b'.size ≡ 3)
    × (b'.start ≡ 0)
    × (b'.cap ≡ 4)
resized_keeps = resize-Kept 0 ring 6 ring-Valid

overflows_smaller :
    (b' : LoopBuf) × (resize 0 ring 2 ≡ some (2, b')) × (write b' (21 ∷ 22 ∷ []) ≡ none)
overflows_smaller = resize-Overflow 0 ring 2 (21 ∷ 22 ∷ []) ring-Valid (omega arith) (omega arith)
