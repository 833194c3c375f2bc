-- ===== src/Tests/SockTests.antt =====
-- efnfw's `tcp_nb_receive` on concrete answers of recv.
use eparallel.Common.{
  ℕ, ◌≡◌, ◌≤◌, ◌⊎◌, inr, refl, true, some, List, [], ◌∷◌, ◌++◌, length, ℤ, pos, arith,
}
use eparallel.Errno.{fail}
use eparallel.Net.Sock.{
  Answer, bytes, closed, eintr, eagain, tcp_nb_receive, stream, tcp_nb_receive-Ends,
}

-- Bytes that come before the end of the connection are read, and the result is -1.
read_and_closed :
    tcp_nb_receive true true 4 (bytes (1 ∷ 2 ∷ []) ∷ closed ∷ []) ≡ some (fail, ((1 ∷ 2 ∷ []), []))
unfolding tcp_nb_receive
read_and_closed = refl

abbrev answers : List Answer
answers = bytes (1 ∷ 2 ∷ []) ∷ eintr ∷ bytes (3 ∷ []) ∷ eagain ∷ eagain ∷ eagain ∷ []

tcp_nb_receive-Ends_example :
    (ret : ℤ) × (read : List ℕ) × (left : List Answer) × (tcp_nb_receive true true 4 answers
      ≡ some (ret, (read, left)))
    × (length read ≤ 4)
    × (read ++ stream left ≡ stream answers)
    × ((ret ≡ pos (length read)) ⊎ (ret ≡ fail))
tcp_nb_receive-Ends_example =
    tcp_nb_receive-Ends 4 answers (omega arith) (omega arith)
      (omega arith, omega arith, inr (omega arith, omega arith, inr tt))
