-- ===== src/Tests/MessageTests.antt =====
-- efnfw's messages and their queue.
use eparallel.Common.{
  ℕ, ◌+◌, ◌<◌, ◌≤◌, ◌≡◌, ◌⊎◌, refl, none, some, [], ◌∷◌, ◌++◌, pos, arith, length, take,
}
use eparallel.Net.MsgQueue.{
  MsgQueue, System, Reach, here, next, start, pushes, gives, takes, push_locked, push_gives,
  get_takes, get_locked,
}
use eparallel.Net.MsgQueue.Order.{msg_queue_order}
use eparallel.Net.Message.{to_hex_buf, to_hex, digits, to_hex_buf-Fits}

-- 10 and 255 are 0A and FF.
two_bytes : to_hex (10 ∷ 255 ∷ []) [] 0 ≡ (4, 48 ∷ 65 ∷ 70 ∷ 70 ∷ [])
unfolding to_hex
two_bytes = refl

-- A buffer of no bytes.
empty_buffer : to_hex_buf (10 ∷ []) 0 0 ≡ none
unfolding to_hex_buf
empty_buffer = refl

to_hex_buf-Fits_example :
    (n : ℕ) × (to_hex_buf (7 ∷ 10 ∷ 255 ∷ []) 4 1 ≡ some (n, digits (take n (10 ∷ 255 ∷ []))))
    × (length (digits (take n (10 ∷ 255 ∷ []))) < 4)
    × ((n ≡ 2) ⊎ ((n < 2) × (4 ≤ length (digits (take n (10 ∷ 255 ∷ []))) + 2)))
to_hex_buf-Fits_example = to_hex_buf-Fits (7 ∷ 10 ∷ 255 ∷ []) 4 1 (omega arith) (omega arith)

-- One message pushed, and a thread that has passed the semaphore.
abbrev one_waits : System ℕ
one_waits = record {
  queue = record { m_msglist = 5 ∷ []; m_semp = 0; m_max_size = 3; m_size = 1 };
  giving = 0;
  getting = 1;
  pushed = 5 ∷ [];
  got = [];
}

one_waits-Reach : Reach (start 3) one_waits
unfolding push_locked push_gives get_takes
one_waits-Reach =
    next (next (next here (pushes 5 _ refl refl)) (gives (omega arith) refl)) (takes _ refl refl)

msg_queue_order_example :
    (one_waits.got ++ one_waits.queue.m_msglist ≡ one_waits.pushed)
    × (length one_waits.queue.m_msglist ≤ 4)
    × ((one_waits.giving ≡ 0) ⊎ ((push_gives one_waits.queue).0 ≡ pos 0))
    × ((one_waits.getting ≡ 0)
        ⊎ ((msg : ℕ) × (q : MsgQueue ℕ) × (get_locked one_waits.queue ≡ some (msg, q))))
msg_queue_order_example = msg_queue_order 3 one_waits (omega arith) one_waits-Reach
