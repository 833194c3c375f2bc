-- ===== src/Net/Read.antt =====
-- efnfw/ef_connection.cpp: what a connection does with its input, over the ring of LoopBuf.
-- `tcp_nb_receive` of efnfw/ef_sock.cpp is an argument, over a state of the system's own; so is
-- `handle_pack`, which a connection overrides. A ring's operation that leaves its block has no
-- result.
pub mod Receive
use eparallel.Common.{
  ℕ, zero, suc, ◌+◌, ◌≡◌, Bool, true, false, not, ◌&&◌, Option, none, some, ◌>>=◌, List, length,
  ltb, leb, ◌==◌, if◌then◌else◌, is_neg, ℤ, pos, negsuc,
}
use eparallel.LoopBuf.{LoopBuf, resize, write}

-- The bytes received are written to the ring, which is resized first when there is not room
-- enough.
unfoldable pub receive : ℕ → LoopBuf → List ℕ → Option LoopBuf
unfolding resize write
receive junk b bytes = do
  (_, b1) ←
      if ltb b.cap (b.size + length bytes)
      then resize junk b (b.cap + length bytes)
      else some (0, b)
  (_, b2) ← write b1 bytes
  some b2

-- The packs in the ring: the last result, and the ring; `none`: there are more after so many.
unfoldable pub handle_packs : (LoopBuf → ℤ × LoopBuf) → ℕ → ℕ → ℤ → LoopBuf → Option (ℤ × LoopBuf)
handle_packs pack noti_len zero ret b = none
handle_packs pack noti_len (suc fuel) ret b = elim (not (b.size == 0) && leb noti_len b.size) [
  | false ↦ some (ret, b)
  | true ↦
      let (ret1, b1) = pack b in
      elim (is_neg ret1) [
        | true ↦ some (ret1, b1)
        | false ↦ handle_packs pack noti_len fuel ret1 b1
      ]
]

-- `ret > 0`, and then the bytes of `actrcv` are there.
abbrev pub is_pos : ℤ → Bool
is_pos (pos n) = not (n == 0)
is_pos (negsuc n) = false

-- `handle_read`: the result, the ring and the system.
module _ {K : Type 0} (tcp_nb_receive : K → (ℤ × List ℕ) × K) (pack : LoopBuf → ℤ × LoopBuf) where
  unfoldable pub handle_read : ℕ → ℕ → ℕ → K → LoopBuf → Option (ℤ × LoopBuf × K)
  unfolding receive handle_packs
  handle_read junk noti_len zero k b = none
  handle_read junk noti_len (suc fuel) k b =
      let ((ret, bytes), k1) = tcp_nb_receive k in
      elim (is_pos ret) [
        | false ↦ some (ret, b, k1)
        | true ↦ elim (receive junk b bytes) [
          | none ↦ none
          | some b1 ↦ elim (handle_packs pack noti_len (suc fuel) ret b1) [
            | none ↦ none
            | some (ret1, b2) ↦ elim (is_neg ret1) [
              | true ↦ some (ret1, b2, k1)
              | false ↦ handle_read junk noti_len fuel k1 b2
            ]
          ]
        ]
      ]
