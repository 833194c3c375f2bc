-- ===== src/LoopBuf/Contents/Run.antt =====
-- efnfw's `loop_buf` as a bounded queue of bytes.
use eparallel.Common.{
  ℕ, ◌-◌, ◌≡◌, refl, Option, some, List, [], ◌∷◌, ◌++◌, ◌>>=◌, length, take, drop, min,
}
use eparallel.LoopBuf.{LoopBuf, write, read, peek, clear}
use eparallel.LoopBuf.Contents.{
  Valid, contents, peek-Contents, read-Contents, length-contents, clear-Valid,
}
use eparallel.LoopBuf.Contents.Write.{write-Contents}

pub data Op : Type 0 where
  write_op : List ℕ → Op
  read_op : ℕ → Op
  peek_op : ℕ → Op
  clear_op : Op

-- What a call gives its caller: a number or bytes.
pub data Answer : Type 0 where
  count : ℕ → Answer
  bytes : List ℕ → Answer

-- The calls on the ring, from first to last.
unfoldable pub run : LoopBuf → List Op → Option (List Answer)
unfolding write read peek clear
run b [] = some []
run b (write_op w ∷ ops) = do (n, b') ← write b w; rest ← run b' ops; some (count n ∷ rest)
run b (read_op len ∷ ops) = do (w, b') ← read b len; rest ← run b' ops; some (bytes w ∷ rest)
run b (peek_op len ∷ ops) = do w ← peek b len; rest ← run b ops; some (bytes w ∷ rest)
run b (clear_op ∷ ops) = do rest ← run (clear b).1 ops; some (count (clear b).0 ∷ rest)

-- The same calls on a queue of at most `cap` bytes.
abbrev pub queue_run : ℕ → List ℕ → List Op → List Answer
queue_run cap q [] = []
queue_run cap q (write_op w ∷ ops) =
    count (min (cap - length q) (length w)) ∷ queue_run cap (q ++ take (cap - length q) w) ops
queue_run cap q (read_op len ∷ ops) = bytes (take len q) ∷ queue_run cap (drop len q) ops
queue_run cap q (peek_op len ∷ ops) = bytes (take len q) ∷ queue_run cap q ops
queue_run cap q (clear_op ∷ ops) = count (length q) ∷ queue_run cap [] ops

-- Any sequence of calls on a valid ring stays within its memory and gives the answers of a queue
-- of at most `m_cap` bytes that begins with what is in the ring.
pub run-Queue :
    (b : LoopBuf) (ops : List Op) → Valid b → run b ops ≡ some (queue_run b.cap (contents b) ops)
unfolding run
run-Queue b [] v = refl
run-Queue b (write_op w ∷ ops) v =
    let (b', e, v', c, same) = write-Contents b w v in
    let l = length-contents b v in
    rw (e, run) (rw (run-Queue b' ops v', run) (rw (c, same, l) refl))
run-Queue b (read_op len ∷ ops) v =
    let (b', e, v', c, same) = read-Contents b len v in
    rw (e, run) (rw (run-Queue b' ops v', run) (rw (c, same) refl))
run-Queue b (peek_op len ∷ ops) v =
    rw (peek-Contents b len v, run) (rw (run-Queue b ops v, run) refl)
run-Queue b (clear_op ∷ ops) v =
    rw (run-Queue (clear b).1 ops (clear-Valid b v), run) (rw (length-contents b v) refl)
