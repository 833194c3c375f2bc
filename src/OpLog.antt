-- ===== src/OpLog.antt =====
-- equeue/equeue_imp.cpp: the binary form of an operation in the log files of the queue.
-- An `int` or `int64` is the natural number of its bits; it is stored with its lowest byte first.
pub mod Codec
use eparallel.Common.{
  ℕ, zero, suc, ◌+◌, ◌-◌, ◌*◌, ◌/◌, ◌%◌, ◌^◌, ◌<◌, ◌≡◌, Option, none, some, List, [], ◌∷◌, ◌++◌,
  ◌>>=◌, ltb, if◌then◌else◌, length, take, drop,
}

pub record Op : Type 0 where
  pub cmd : ℕ
  pub op_id : ℕ
  pub log_file_id : ℕ
  pub task_id : ℕ
  pub cont : List ℕ

-- The `width` bytes of a number.
unfoldable pub le_bytes : ℕ → ℕ → List ℕ
le_bytes zero n = []
le_bytes (suc width) n = n % 256 ∷ le_bytes width (n / 256)

unfoldable pub of_le : List ℕ → ℕ
of_le [] = 0
of_le (b ∷ bs) = b + 256 * of_le bs

-- A read of `width` bytes: the number and what is left, or `-1`.
unfoldable pub load_int : ℕ → List ℕ → Option (ℕ × List ℕ)
unfolding of_le
load_int width buf =
    if ltb (length buf) width then none else some (of_le (take width buf), drop width buf)

-- The operation and the length left; `throws`: the stored length is negative, and `append` throws.
pub data Loaded : Type 0 where
  loaded : Op → ℕ → Loaded
  throws : Loaded

unfoldable pub load_op_from_buf : List ℕ → Option Loaded
unfolding load_int
load_op_from_buf buf = do
  (cmd, buf) ← load_int 4 buf
  (op_id, buf) ← load_int 8 buf
  (log_file_id, buf) ← load_int 4 buf
  (task_id, buf) ← load_int 8 buf
  (contlen, buf) ← load_int 4 buf
  if ltb contlen (2 ^ 31)
      then if ltb (length buf) contlen
        then none
        else some (
            loaded
              (record {
                cmd = cmd;
                op_id = op_id;
                log_file_id = log_file_id;
                task_id = task_id;
                cont = take contlen buf;
              })
              (length buf - contlen))
      else some throws

-- A write of `width` bytes to a buffer with `len` left: the bytes and the length left, or `-1`.
unfoldable pub save_int : ℕ → ℕ → ℕ → Option (List ℕ × ℕ)
unfolding le_bytes
save_int width n len = if ltb len width then none else some (le_bytes width n, len - width)

unfoldable pub save_op_to_buf : Op → ℕ → Option (List ℕ × ℕ)
unfolding save_int
save_op_to_buf o len = do
  (b1, len) ← save_int 4 o.cmd len
  (b2, len) ← save_int 8 o.op_id len
  (b3, len) ← save_int 4 o.log_file_id len
  (b4, len) ← save_int 8 o.task_id len
  (b5, len) ← save_int 4 (length o.cont % 2 ^ 32) len
  if ltb len (length o.cont)
      then none
      else some (b1 ++ (b2 ++ (b3 ++ (b4 ++ (b5 ++ o.cont)))), len - length o.cont)
