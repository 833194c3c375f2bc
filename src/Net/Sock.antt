-- ===== src/Net/Sock.antt =====
-- efnfw/ef_sock.cpp: `tcp_nb_receive`, which reads from a socket until its buffer is full or recv
-- has nothing more. What recv answers, call by call, is an argument.
use mathlib.Core.List.{append_assoc}
use eparallel.Common.{
  ℕ, suc, ◌+◌, ◌-◌, ◌≤◌, ◌<◌, ◌≡◌, ◌⊎◌, inl, inr, refl, ◌∙◌, arith, Bool, true, false, not, ◌||◌,
  Option, none, some, List, [], ◌∷◌, ◌++◌, length, length-append, ltb, ◌==◌, if◌then◌else◌, ℤ, pos,
  Bool-cases,
}
use eparallel.Errno.{fail}

-- An answer of recv: bytes, the end of the connection, or an error with its code.
pub data Answer : Type 0 where
  bytes : List ℕ → Answer
  closed : Answer
  eintr : Answer
  eagain : Answer
  broken : Answer

-- The loop, with the room that is left and what has been read: the result, what is in the buffer,
-- and the answers that are left; `none` where recv has not answered.
unfoldable pub receive_loop : List Answer → ℕ → List ℕ → Option (ℤ × (List ℕ × List Answer))
receive_loop [] bufsize done = none
receive_loop (bytes s ∷ answers) bufsize done =
    let rest = receive_loop answers (bufsize - length s) (done ++ s) in
    if ltb 0 (bufsize - length s)
    then rest
    else some (pos (length (done ++ s)), (done ++ s, answers))
receive_loop (closed ∷ answers) bufsize done = some (fail, (done, answers))
receive_loop (eintr ∷ answers) bufsize done =
    let rest = receive_loop answers bufsize done in
    if ltb 0 bufsize then rest else some (pos (length done), (done, answers))
receive_loop (eagain ∷ answers) bufsize done = some (pos (length done), (done, answers))
receive_loop (broken ∷ answers) bufsize done = some (fail, (done, answers))

-- `tcp_nb_receive`, by whether the socket is one and the buffer is not NULL.
unfoldable pub tcp_nb_receive : Bool → Bool → ℕ → List Answer → Option (ℤ × (List ℕ × List Answer))
unfolding receive_loop
tcp_nb_receive is_socket is_buffer bufsize answers =
    if not is_socket || not is_buffer || (bufsize == 0)
    then some (fail, ([], answers))
    else receive_loop answers bufsize []

-- The bytes of all answers.
abbrev pub stream : List Answer → List ℕ
stream [] = []
stream (bytes s ∷ answers) = s ++ stream answers
stream (_ ∷ answers) = stream answers

-- The answers that are not interruptions.
abbrev pub calls : List Answer → ℕ
calls [] = 0
calls (eintr ∷ answers) = calls answers
calls (_ ∷ answers) = suc (calls answers)

-- recv answers at least one byte and at most as many as it is asked for.
abbrev pub Fits : ℕ → List Answer → Type 0
Fits bufsize [] = Unit {0}
Fits bufsize (bytes s ∷ answers) =
    (0 < length s)
    × (length s ≤ bufsize)
    × ((length s ≡ bufsize) ⊎ Fits (bufsize - length s) answers)
Fits bufsize (eintr ∷ answers) = Fits bufsize answers
Fits bufsize (_ ∷ answers) = Unit {0}

-- What comes of the loop from `done` on.
pub record Received (answers : List Answer) (bufsize : ℕ) (done : List ℕ) : Type 0 where
  pub ret : ℤ
  pub read : List ℕ
  pub left : List Answer
  pub run : receive_loop answers bufsize done ≡ some (ret, (read, left))
  pub within : length read ≤ length done + bufsize
  pub whole : read ++ stream left ≡ done ++ stream answers
  pub code : (ret ≡ pos (length read)) ⊎ (ret ≡ fail)

receive_loop-Received :
    (answers : List Answer) (bufsize : ℕ) (done : List ℕ)
    → 0 < bufsize
    → bufsize < calls answers
    → Fits bufsize answers
    → Received answers bufsize done
unfolding receive_loop
receive_loop-Received [] bufsize done h k f = absurd (omega (arith, k))
receive_loop-Received (bytes s ∷ answers) bufsize done h k (some_byte, le, f) =
    elim (Bool-cases (ltb 0 (bufsize - length s))) [
      | inr full ↦ record {
        ret = pos (length (done ++ s));
        read = done ++ s;
        left = answers;
        run = rw full refl;
        within = omega (arith, length-append done s, le);
        whole = append_assoc done s (stream answers);
        code = inl refl;
      }
      | inl room ↦ elim f [
        | inl e ↦ absurd (ground (arith, room, e))
        | inr fits ↦
            let t =
              receive_loop-Received answers (bufsize - length s) (done ++ s) (ground (arith, room))
                (omega (arith, k, some_byte)) fits in
            record {
              ret = t.ret;
              read = t.read;
              left = t.left;
              run = rw room t.run;
              within = omega (arith, t.within, length-append done s, le);
              whole = t.whole ∙ append_assoc done s (stream answers);
              code = t.code;
            }
      ]
    ]
receive_loop-Received (closed ∷ answers) bufsize done h k f = record {
  ret = fail;
  read = done;
  left = answers;
  run = refl;
  within = omega arith;
  whole = refl;
  code = inr refl;
}
receive_loop-Received (eintr ∷ answers) bufsize done h k f =
    let room : ltb 0 bufsize ≡ true = ground (arith, h) in
    let t = receive_loop-Received answers bufsize done h k f in
    record {
      ret = t.ret;
      read = t.read;
      left = t.left;
      run = rw room t.run;
      within = t.within;
      whole = t.whole;
      code = t.code;
    }
receive_loop-Received (eagain ∷ answers) bufsize done h k f = record {
  ret = pos (length done);
  read = done;
  left = answers;
  run = refl;
  within = omega arith;
  whole = refl;
  code = inl refl;
}
receive_loop-Received (broken ∷ answers) bufsize done h k f = record {
  ret = fail;
  read = done;
  left = answers;
  run = refl;
  within = omega arith;
  whole = refl;
  code = inr refl;
}

-- For a socket, a buffer that is not empty, and a recv that answers between one byte and as many
-- as it is asked for, or an error: once recv has answered more often than the buffer has bytes,
-- not counting its interruptions, tcp_nb_receive has come to its end. What it has read is not more
-- than the buffer takes, and with what the answers left over hold it is the bytes of all answers, in
-- order. It returns how many bytes it has read, or -1.
pub tcp_nb_receive-Ends :
    (bufsize : ℕ) (answers : List Answer)
    → 0 < bufsize
    → bufsize < calls answers
    → Fits bufsize answers
    → (ret : ℤ) × (read : List ℕ) × (left : List Answer) × (tcp_nb_receive true true bufsize answers
        ≡ some (ret, (read, left)))
      × (length read ≤ bufsize)
      × (read ++ stream left ≡ stream answers)
      × ((ret ≡ pos (length read)) ⊎ (ret ≡ fail))
unfolding tcp_nb_receive
tcp_nb_receive-Ends bufsize answers h k f =
    let t = receive_loop-Received answers bufsize [] h k f in
    let some_room : (bufsize == 0) ≡ false = ground (arith, h) in
    (
      t.ret,
      t.read,
      t.left,
      rw (some_room, tcp_nb_receive) t.run,
      omega (arith, t.within),
      t.whole,
      t.code,
    )
