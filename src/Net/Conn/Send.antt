-- ===== src/Net/Conn/Send.antt =====
-- What `send_` and the notifications of a connection do, whatever the socket answers.
use mathlib.Core.List.{append-nil}
use eparallel.Common.{
  is_neg, ℕ, zero, suc, ◌+◌, ◌%◌, ◌^◌, ◌≤◌, ◌<◌, ◌≡◌, refl, sym, ap, ◌∙◌, Bool, true, false, ◌||◌,
  some, List, ◌++◌, length, take, ◌==◌, if◌then◌else◌, ℤ, pos, negsuc, arith, Bool-cases, inl, inr,
}
use eparallel.Net.Conn.{
  ctl_del, epollout, epollin, events, and_del_write, or_write, add_read, add_write, has_bit, Ctl,
  Reply, sent, interrupted, would_block, failed, Os, Conn, send_, size_of_int32, int32_of,
  set_notify, thread_notify, all_sent, part_sent,
}

-- How many bytes a reply says were taken.
abbrev pub taken : Reply → ℕ
taken (sent n) = n
taken _ = 0

module _ {K : Type 0} (os : Os K) (out : K → List ℕ) where
  -- `out k` are the bytes that the socket has taken so far: `send` takes bytes at the front of
  -- what it is given, where it is asked for them all, and `epoll_ctl` takes none.
  pub record Lawful : Type 0 where
    pub at_most : (k : K) (buf : List ℕ) → taken (os.send k buf (length buf)).0 ≤ length buf
    pub takes :
        (k : K) (buf : List ℕ)
        → out (os.send k buf (length buf)).1
          ≡ out k ++ take (taken (os.send k buf (length buf)).0) buf
    pub keeps : (ctl : Ctl) (ev : ℕ) (k : K) → out (os.epoll_ctl ctl ev k).1 ≡ out k

-- A call that is interrupted is answered before it was so `n` times.
module _ {K : Type 0} (os : Os K) where
  abbrev pub answers : ℕ → K → List ℕ → Bool
  answers zero k buf = false
  answers (suc n) k buf =
      let rest = answers n (os.send k buf (length buf)).1 buf in
      elim (os.send k buf (length buf)).0 [ interrupted ↦ rest | _ ↦ true ]

abbrev pub count_of : ℤ → ℕ
count_of (pos n) = n
count_of (negsuc n) = 0

data ReplyCase (r : Reply) : Type 0 where
  is_sent : (n : ℕ) → r ≡ sent n → ReplyCase r
  is_interrupted : r ≡ interrupted → ReplyCase r
  is_would_block : r ≡ would_block → ReplyCase r
  is_failed : r ≡ failed → ReplyCase r

reply_case : (r : Reply) → ReplyCase r
reply_case (sent n) = is_sent n refl
reply_case interrupted = is_interrupted refl
reply_case would_block = is_would_block refl
reply_case failed = is_failed refl

module _ {K : Type 0} (os : Os K) (out : K → List ℕ) (law : Lawful os out) where
  -- What `send_` gives.
  pub record Taken (k : K) (buf : List ℕ) (ret : ℤ) (k1 : K) : Type 0 where
    pub some_bytes : count_of ret ≤ length buf
    pub bytes : out k1 ≡ out k ++ take (count_of ret) buf

  -- A reply that says that nothing was taken.
  nothing-taken :
      (k : K) (buf : List ℕ)
      → taken (os.send k buf (length buf)).0 ≡ 0
      → out (os.send k buf (length buf)).1 ≡ out k
  nothing-taken k buf e = law.takes k buf ∙ ap (λ n. out k ++ take n buf) e ∙ append-nil (out k)

  none-Taken :
      (k : K) (buf : List ℕ) (ret : ℤ) (k1 : K)
      → count_of ret ≡ 0
      → out k1 ≡ out k
      → Taken k buf ret k1
  none-Taken k buf ret k1 z e = record {
    some_bytes = omega (arith, z);
    bytes = rw z (e ∙ sym (append-nil (out k)));
  }

  size_of_int32-small : (n : ℕ) → n < 2 ^ 31 → size_of_int32 n ≡ n
  unfolding size_of_int32
  size_of_int32-small n h = ground (arith, h)

  int32_of-small : (n : ℕ) → n < 2 ^ 31 → int32_of n ≡ pos n
  unfolding int32_of
  int32_of-small n h = ground (arith, h)

  pub send_-Taken :
      (fuel : ℕ) (k : K) (buf : List ℕ)
      → length buf < 2 ^ 31
      → answers os fuel k buf ≡ true
      → (ret : ℤ) × (k1 : K) × (send_ os fuel k buf ≡ some (ret, k1)) × Taken k buf ret k1
  unfolding send_
  send_-Taken zero k buf b a = absurd (ground (arith, a))
  send_-Taken (suc fuel) k buf b a =
      let asked : size_of_int32 (length buf) ≡ length buf = size_of_int32-small (length buf) b in
      elim (reply_case (os.send k buf (length buf)).0) [
        | is_sent n e ↦
            let small : n < 2 ^ 31 = omega (arith, law.at_most k buf, ap taken e, b) in
            let ret : int32_of n ≡ pos n = int32_of-small n small in
            let low : n % 2 ^ 32 ≡ n = omega (arith, small) in
            elim (Bool-cases (n == 0)) [
              | inl z ↦ (
                negsuc 0,
                (os.send k buf (length buf)).1,
                simp (send_, asked, e, ret, low, z),
                none-Taken k buf (negsuc 0) _ refl
                    (nothing-taken k buf (ap taken e ∙ ground (arith, z))),
              )
              | inr s ↦ (
                pos n,
                (os.send k buf (length buf)).1,
                simp (send_, asked, e, ret, low, s),
                record {
                  some_bytes = omega (arith, law.at_most k buf, ap taken e);
                  bytes = law.takes k buf ∙ ap (λ m. out k ++ take m buf) (ap taken e);
                },
              )
            ]
        | is_interrupted e ↦
            let (ret, k1, g, t) =
              send_-Taken fuel (os.send k buf (length buf)).1 buf b (rw (answers, e) at a) in
            (
              ret,
              k1,
              rw (send_, asked) (rw (e, send_) (rw asked g)),
              record {
                some_bytes = t.some_bytes;
                bytes = rw (t.bytes, nothing-taken k buf (ap taken e)) refl;
              },
            )
        | is_would_block e ↦ (
          pos 0,
          (os.send k buf (length buf)).1,
          simp (send_, asked, e),
          none-Taken k buf (pos 0) _ refl (nothing-taken k buf (ap taken e)),
        )
        | is_failed e ↦ (
          negsuc 0,
          (os.send k buf (length buf)).1,
          simp (send_, asked, e),
          none-Taken k buf (negsuc 0) _ refl (nothing-taken k buf (ap taken e)),
        )
      ]

  -- A step that leaves what is to be sent, and what was sent, alone.
  pub record Same (k : K) (c : Conn) (r : ℤ × Conn × K) : Type 0 where
    pub same_msgs : r.1.msgs ≡ c.msgs
    pub same_start : r.1.cur_msg_start ≡ c.cur_msg_start
    pub same_size : r.1.send_queue_size ≡ c.send_queue_size
    pub same_out : out r.2 ≡ out k

  thread_notify-out : (k : K) (old noti : ℕ) → out (thread_notify os k old noti).1 ≡ out k
  unfolding thread_notify
  thread_notify-out k old noti =
      elim (Bool-cases (has_bit add_read noti || has_bit add_write noti)) [
        | inl n ↦ rw (thread_notify, n) (law.keeps _ (events noti) k)
        | inr n ↦ elim (Bool-cases (has_bit epollin old || has_bit epollout old)) [
          | inl w ↦ rw (thread_notify, n, w) (law.keeps ctl_del 0 k)
          | inr w ↦ rw (thread_notify, n, w) refl
        ]
      ]

  same : (k : K) (c : Conn) (ret : ℤ) → Same k c (ret, c, k)
  same k c ret = record { same_msgs = refl; same_start = refl; same_size = refl; same_out = refl }

  -- The result does not count.
  other-Same :
      (k : K) (c : Conn) (ret : ℤ) (r : ℤ × Conn × K) → Same k c r → Same k c (ret, r.1, r.2)
  other-Same k c ret r s = record {
    same_msgs = s.same_msgs;
    same_start = s.same_start;
    same_size = s.same_size;
    same_out = s.same_out;
  }

  if-Same :
      (k : K) (c : Conn) (t : Bool) (x y : ℤ × Conn × K)
      → Same k c x
      → Same k c y
      → Same k c (if t then x else y)
  if-Same k c true x y sx sy = sx
  if-Same k c false x y sx sy = sy

  pub set_notify-Same : (k : K) (c : Conn) (noti : ℕ) → Same k c (set_notify os k c noti)
  unfolding set_notify
  set_notify-Same k c noti =
      let sent_on = thread_notify-out k c.noti noti in
      if-Same k c c.has_thread _ _
        (if-Same k c (is_neg (thread_notify os k c.noti noti).0) _ _
          (record { same_msgs = refl; same_start = refl; same_size = refl; same_out = sent_on })
          (record { same_msgs = refl; same_start = refl; same_size = refl; same_out = sent_on }))
        (same k c (negsuc 1))

  pub all_sent-Same : (k : K) (c : Conn) → Same k c (all_sent os k c)
  unfolding all_sent
  all_sent-Same k c = if-Same k c c.flag_safe_close _ _ (same k c (negsuc 1)) (
      if-Same k c (has_bit add_write c.noti) _ _
        (other-Same k c (pos 0) _ (set_notify-Same k c (and_del_write c.noti))) (same k c (pos 0)))

  pub part_sent-Same :
      (k : K) (c : Conn) (ret : ℕ)
      → Same k
          (record c { cur_msg_start = (c.cur_msg_start + ret) % 2 ^ 32 })
          (part_sent os k c ret)
  unfolding part_sent
  part_sent-Same k c ret =
      let c1 : Conn = record c { cur_msg_start = (c.cur_msg_start + ret) % 2 ^ 32 } in
      if-Same k c1 (has_bit add_write c.noti) _ _ (same k c1 (pos 0))
        (other-Same k c1 (pos 0) _ (set_notify-Same k c1 (or_write c.noti)))
