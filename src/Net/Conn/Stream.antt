-- ===== src/Net/Conn/Stream.antt =====
-- The bytes that a connection sends are those of its messages, in their order.
use mathlib.Core.List.{append_assoc, append-nil}
use eparallel.Common.{
  ℕ, ◌+◌, ◌-◌, ◌%◌, ◌^◌, ◌≤◌, ◌<◌, ◌≡◌, refl, sym, ap, ap₂, ◌∙◌, true, Option, some, List, [], ◌∷◌,
  ◌++◌, length, length-append, length-drop, drop-drop, drop, take_all, ◌==◌, ℤ, pos, negsuc, arith,
  Bool-cases, inl, inr,
}
use eparallel.Net.Conn.{Os, Conn, send_, part_sent, send_msgs, do_send, send_message}
use eparallel.Net.Conn.Send.{
  Lawful, answers, Taken, Same, send_-Taken, all_sent-Same, part_sent-Same,
}
use eparallel.Net.Conn.Pending.{
  all_bytes, pending, Counts, pending_zero, Within-zero, joined, ==→≡, pending-append,
  Within-append, Short-append,
}

module _ {K : Type 0} (os : Os K) (out : K → List ℕ) (law : Lawful os out) where
  -- A result after which what was sent, and what is to be sent, are together what they were.
  abbrev pub Sends : K → List ℕ → Option (ℤ × Conn × K) → Type 0
  Sends k want r =
      (ret : ℤ) × (c1 : Conn) × (k1 : K) × (r ≡ some (ret, c1, k1))
      × (out k1 ++ pending c1.cur_msg_start c1.msgs ≡ out k ++ want)
      × Counts c1

  Same-Sends :
      (k : K) (c : Conn) (r : ℤ × Conn × K) (k0 : K) (want : List ℕ)
      → Same os out law k c r
      → Counts c
      → out k ++ pending c.cur_msg_start c.msgs ≡ out k0 ++ want
      → Sends k0 want (some r)
  Same-Sends k c r k0 want s n e =
      let p : pending r.1.cur_msg_start r.1.msgs ≡ pending c.cur_msg_start c.msgs =
        ap₂ pending s.same_start s.same_msgs in
      (
        r.0,
        r.1,
        r.2,
        refl,
        ap₂ (λ x y. x ++ y) s.same_out p ∙ e,
        record {
          within = rw (s.same_start, s.same_msgs) n.within;
          short = rw s.same_msgs n.short;
          counted = s.same_size ∙ n.counted ∙ ap length (sym p);
          bounded = rw s.same_size n.bounded;
        },
      )

  -- The count of what is left after `m` bytes of a message.
  left_count : ℕ → ℕ → ℕ
  left_count size m = (size + 2 ^ 32 - m % 2 ^ 32) % 2 ^ 32

  left_count-sub : (size m : ℕ) → m ≤ size → size < 2 ^ 32 → left_count size m ≡ size - m
  unfolding left_count
  left_count-sub size m h b = omega (arith, h, b)

  -- The rest of a message behind its start, as the code counts it.
  rest_length :
      (msg : List ℕ) (start : ℕ)
      → start ≤ length msg
      → length msg < 2 ^ 31
      → (length msg + 2 ^ 32 - start) % 2 ^ 32 ≡ length (drop start msg)
  rest_length msg start h b = omega (arith, h, b, length-drop start msg)

  -- A message of which `m` more bytes were taken, and these are all of it.
  whole-Sends :
      (fuel : ℕ) (k : K) (c : Conn) (msg : List ℕ) (msgs : List (List ℕ))
      → Counts (record c { msgs = msg ∷ msgs })
      → (m : ℕ) (k1 : K) → Taken os out law k (drop c.cur_msg_start msg) (pos m) k1
      → m ≡ length (drop c.cur_msg_start msg)
      → ((k2 : K) (c2 : Conn)
          → Counts (record c2 { msgs = msgs })
          → Sends k2 (pending c2.cur_msg_start msgs) (send_msgs os fuel k2 c2 msgs))
      → Sends k (pending c.cur_msg_start (msg ∷ msgs)) (
          send_msgs os fuel k1
            (record c { send_queue_size = left_count c.send_queue_size m; cur_msg_start = 0 })
            msgs)
  whole-Sends fuel k c msg msgs n m k1 t all ih =
      let buf = drop c.cur_msg_start msg in
      let whole = length-append buf (all_bytes msgs) in
      let sub =
        left_count-sub c.send_queue_size m (omega (arith, n.counted, all, whole)) n.bounded in
      let (r, c1, k2, e, b, cn) =
        ih k1 (record c { send_queue_size = left_count c.send_queue_size m; cur_msg_start = 0 })
          (record {
            within = Within-zero msgs;
            short = n.short.1;
            counted = rw (pending_zero msgs) (omega (arith, sub, all, n.counted, whole));
            bounded = omega (arith, sub, n.bounded);
          }) in
      let sent_all : out k1 ≡ out k ++ buf =
        t.bytes ∙ ap (λ x. out k ++ x) (take_all m buf (omega (arith, all))) in
      (
        r,
        c1,
        k2,
        e,
        b
            ∙ ap₂ (λ x w. x ++ w) sent_all (pending_zero msgs)
            ∙ append_assoc (out k) buf (all_bytes msgs),
        cn,
      )

  -- A message of which `m` more bytes were taken, and perhaps more are left.
  part-Sends :
      (k : K) (c : Conn) (msg : List ℕ) (msgs : List (List ℕ))
      → Counts (record c { msgs = msg ∷ msgs })
      → (m : ℕ) (k1 : K) → Taken os out law k (drop c.cur_msg_start msg) (pos m) k1
      → Sends k (pending c.cur_msg_start (msg ∷ msgs)) (
          some (
            part_sent os k1
              (record c { send_queue_size = left_count c.send_queue_size m; msgs = msg ∷ msgs })
              m))
  part-Sends k c msg msgs n m k1 t =
      let start = c.cur_msg_start in
      let buf = drop start msg in
      let fits : m ≤ length buf = t.some_bytes in
      let whole = length-append buf (all_bytes msgs) in
      let sub =
        left_count-sub c.send_queue_size m (omega (arith, n.counted, fits, whole)) n.bounded in
      let start1 : (start + m) % 2 ^ 32 ≡ start + m =
        omega (arith, fits, length-drop start msg, n.within, n.short.0) in
      let front : pending (start + m) (msg ∷ msgs) ≡ drop m buf ++ all_bytes msgs =
        ap (λ x. x ++ all_bytes msgs) (sym (drop-drop m start msg)) in
      let c1 : Conn = record c {
        send_queue_size = left_count c.send_queue_size m;
        msgs = msg ∷ msgs;
      } in
      Same-Sends k1 (record c1 { cur_msg_start = (start + m) % 2 ^ 32 }) _ k
        (pending start (msg ∷ msgs)) (part_sent-Same os out law k1 c1 m)
        (record {
          within = omega (arith, start1, fits, length-drop start msg, n.within);
          short = n.short;
          counted =
              rw (start1, front)
                (omega (
                  arith,
                  sub,
                  n.counted,
                  whole,
                  fits,
                  length-drop m buf,
                  length-append (drop m buf) (all_bytes msgs),
                ));
          bounded = omega (arith, sub, n.bounded);
        })
        (rw (start1, front) (joined (out k) (out k1) m buf (all_bytes msgs) t.bytes))

  -- What the loop does with a reply for the message in front.
  reply-Sends :
      (fuel : ℕ) (k : K) (c : Conn) (msg : List ℕ) (msgs : List (List ℕ))
      → Counts (record c { msgs = msg ∷ msgs })
      → (ret : ℤ) (k1 : K) → send_ os fuel k (drop c.cur_msg_start msg) ≡ some (ret, k1)
      → Taken os out law k (drop c.cur_msg_start msg) ret k1
      → ((k2 : K) (c2 : Conn)
          → Counts (record c2 { msgs = msgs })
          → Sends k2 (pending c2.cur_msg_start msgs) (send_msgs os fuel k2 c2 msgs))
      → Sends k (pending c.cur_msg_start (msg ∷ msgs)) (send_msgs os fuel k c (msg ∷ msgs))
  unfolding send_msgs left_count
  reply-Sends fuel k c msg msgs n (negsuc e) k1 g t ih = (
    negsuc e,
    record c { msgs = msg ∷ msgs },
    k1,
    rw (send_msgs, g) refl,
    ap (λ x. x ++ pending c.cur_msg_start (msg ∷ msgs)) (t.bytes ∙ append-nil (out k)),
    n,
  )
  reply-Sends fuel k c msg msgs n (pos m) k1 g t ih =
      let count = rest_length msg c.cur_msg_start n.within n.short.0 in
      elim (Bool-cases (m == (length msg + 2 ^ 32 - c.cur_msg_start) % 2 ^ 32)) [
        | inl y ↦
            let (r, c1, k2, e, b, cn) =
              whole-Sends fuel k c msg msgs n m k1 t (==→≡ _ _ y ∙ count) ih in
            (r, c1, k2, rw (send_msgs, g, y) e, b, cn)
        | inr y ↦
            let (r, c1, k2, e, b, cn) = part-Sends k c msg msgs n m k1 t in
            (r, c1, k2, rw (send_msgs, g, y) e, b, cn)
      ]

  send_msgs-Sends :
      (fuel : ℕ)
      → ((k : K) (buf : List ℕ) → answers os fuel k buf ≡ true)
      → (k : K) (c : Conn) (msgs : List (List ℕ)) → Counts (record c { msgs = msgs })
      → Sends k (pending c.cur_msg_start msgs) (send_msgs os fuel k c msgs)
  unfolding send_msgs
  send_msgs-Sends fuel a k c [] n =
      Same-Sends k (record c { msgs = [] }) _ k []
        (all_sent-Same os out law k (record c { msgs = [] })) n refl
  send_msgs-Sends fuel a k c (msg ∷ msgs) n =
      let (ret, k1, g, t) =
        send_-Taken os out law fuel k (drop c.cur_msg_start msg)
          (omega (arith, length-drop c.cur_msg_start msg, n.short.0)) (a k _) in
      reply-Sends fuel k c msg msgs n ret k1 g t (λ k2 c2 n2. send_msgs-Sends fuel a k2 c2 msgs n2)

-- Where the socket takes bytes at the front of what it is given, a call that is interrupted is
-- answered before it was so `fuel` times, each message is shorter than 2 ^ 31, and the connection
-- counts what is to be sent, which the new message leaves below 2 ^ 32: `send_message` returns,
-- with success or not; the bytes taken so far with those still to be sent are those taken before,
-- those to be sent before and the message; and the connection still counts what is to be sent.
pub send_message-Stream :
    {K : Type 0} (os : Os K) (out : K → List ℕ) (law : Lawful os out) (fuel : ℕ) (k : K) (c : Conn)
    (msg : List ℕ)
    → ((k2 : K) (buf : List ℕ) → answers os fuel k2 buf ≡ true)
    → Counts c
    → length msg < 2 ^ 31
    → c.send_queue_size + length msg < 2 ^ 32
    → Sends os out law k (pending c.cur_msg_start c.msgs ++ msg) (send_message os fuel k c msg)
unfolding send_message do_send
send_message-Stream os out law fuel k c msg a n l b =
    let size : (c.send_queue_size + length msg) % 2 ^ 32 ≡ c.send_queue_size + length msg =
      omega (arith, b) in
    let more = pending-append c.cur_msg_start c.msgs msg n.within in
    let (r, c1, k1, e, q, n1) =
      send_msgs-Sends os out law fuel a k
        (record c {
          send_queue_size = (c.send_queue_size + length msg) % 2 ^ 32;
          msgs = c.msgs ++ (msg ∷ []);
        })
        (c.msgs ++ (msg ∷ []))
        (record {
          within = Within-append c.cur_msg_start c.msgs msg n.within;
          short = Short-append c.msgs msg n.short l;
          counted =
              rw more (
                omega (arith, size, n.counted, length-append (pending c.cur_msg_start c.msgs) msg));
          bounded = omega (arith, size, b);
        }) in
    (r, c1, k1, e, q ∙ ap (λ x. out k ++ x) more, n1)
