-- ===== src/Net/Conn.antt =====
-- efnfw/ef_connection.cpp: what a connection sends, and its notifications, which the thread takes
-- to epoll (`set_notify` of efnfw/ef_net_thread.cpp).
-- `send` and `epoll_ctl` on the connection's socket are arguments, over a state of the system's
-- own. `m_noti` is an `int32` as a word below 2 ^ 32.
pub mod Pending
pub mod Send
pub mod Stream
pub mod Interest
use eparallel.Common.{
  ℕ, zero, suc, ◌+◌, ◌-◌, ◌/◌, ◌%◌, ◌^◌, ◌<◌, ◌≡◌, Bool, true, false, ◌||◌, not, Option, none, some,
  List, [], ◌∷◌, ◌++◌, length, ltb, drop, ◌==◌, if◌then◌else◌, is_neg, ℤ, pos, negsuc,
}
use eparallel.Net.Time.{Timer}
use eparallel.Net.Thread.{NetThread, del_timer, del_connection}

-- What `send` of the system returns: how many bytes it has taken, or the error.
pub data Reply : Type 0 where
  sent : ℕ → Reply
  interrupted would_block failed : Reply

pub data Ctl : Type 0 where
  ctl_add ctl_mod ctl_del : Ctl

-- `send` is given the bytes from the buffer on and the count that is asked for.
pub record Os (K : Type 0) : Type 0 where
  pub send : K → List ℕ → ℕ → Reply × K
  pub epoll_ctl : Ctl → ℕ → K → ℤ × K

pub record Conn : Type 0 where
  pub id : ℕ
  pub has_fd : Bool
  pub has_thread : Bool
  pub noti : ℕ
  pub timers : List Timer
  pub msgs : List (List ℕ)
  pub send_queue_size : ℕ
  pub cur_msg_start : ℕ
  pub flag_safe_close : Bool

-- `ADD_READ` and `ADD_WRITE`
abbrev pub add_read : ℕ
add_read = 1

abbrev pub add_write : ℕ
add_write = 2

-- `EPOLLIN` and `EPOLLOUT`
abbrev pub epollin : ℕ
epollin = 1

abbrev pub epollout : ℕ
epollout = 4

-- `noti & bit`, for a power of 2.
abbrev pub has_bit : ℕ → ℕ → Bool
has_bit bit noti = not ((noti / bit) % 2 == 0)

-- `noti | ADD_WRITE`, `noti & DEL_WRITE`, and `noti | DEL_READ`, which sets all bits but the first.
abbrev pub or_write : ℕ → ℕ
or_write noti = if has_bit add_write noti then noti else noti + add_write

abbrev pub and_del_write : ℕ → ℕ
and_del_write noti = if has_bit add_write noti then noti - add_write else noti

abbrev pub or_del_read : ℕ → ℕ
or_del_read noti = 2 ^ 32 - 2 + noti % 2

abbrev pub events : ℕ → ℕ
events noti =
    (if has_bit add_read noti then epollin else 0)
    + (if has_bit add_write noti then epollout else 0)

-- `(int32)len` as the `size_t` of `send`, for a `uint32`.
unfoldable pub size_of_int32 : ℕ → ℕ
size_of_int32 len =
    if ltb (len % 2 ^ 32) (2 ^ 31) then len % 2 ^ 32 else 2 ^ 64 - 2 ^ 32 + len % 2 ^ 32

-- A count as an `int32`.
unfoldable pub int32_of : ℕ → ℤ
int32_of n =
    if ltb (n % 2 ^ 32) (2 ^ 31) then pos (n % 2 ^ 32) else negsuc (2 ^ 32 - 1 - n % 2 ^ 32)

module _ {K : Type 0} (os : Os K) where
  -- `net_thread::set_notify`, which returns 0 whatever `epoll_ctl` returns. `old` is the
  -- notification of the connection so far.
  unfoldable pub thread_notify : K → ℕ → ℕ → ℤ × K
  thread_notify k old noti =
      let was = has_bit epollin old || has_bit epollout old in
      if has_bit add_read noti || has_bit add_write noti
      then (pos 0, (os.epoll_ctl (if was then ctl_mod else ctl_add) (events noti) k).1)
      else (pos 0, if was then (os.epoll_ctl ctl_del 0 k).1 else k)

  -- `connection::set_notify`
  unfoldable pub set_notify : K → Conn → ℕ → ℤ × Conn × K
  unfolding thread_notify
  set_notify k c noti =
      if c.has_thread
      then (let (ret, k1) = thread_notify k c.noti noti in
          if is_neg ret then (ret, c, k1) else (ret, record c { noti = noti }, k1))
      else (negsuc 1, c, k)

  -- `send_`, with fuel for the calls that are interrupted. A count that `ret` makes negative has
  -- no result: `errno` is then that of an earlier call.
  unfoldable pub send_ : ℕ → K → List ℕ → Option (ℤ × K)
  send_ zero k buf = none
  send_ (suc fuel) k buf =
      let (reply, k1) = os.send k buf (size_of_int32 (length buf)) in
      elim reply [
        | sent n ↦
            if is_neg (int32_of n)
            then none
            else some (if n % 2 ^ 32 == 0 then negsuc 0 else int32_of n, k1)
        | interrupted ↦ send_ fuel k1 buf
        | would_block ↦ some (pos 0, k1)
        | failed ↦ some (negsuc 0, k1)
      ]

  -- What `do_send` does when all is sent.
  unfoldable pub all_sent : K → Conn → ℤ × Conn × K
  unfolding set_notify
  all_sent k c =
      if c.flag_safe_close
      then (negsuc 1, c, k)
      else if has_bit add_write c.noti
      then (let (_, c1, k1) = set_notify k c (and_del_write c.noti) in (pos 0, c1, k1))
      else (pos 0, c, k)

  -- What it does when a part of a message is left.
  unfoldable pub part_sent : K → Conn → ℕ → ℤ × Conn × K
  unfolding set_notify
  part_sent k c ret =
      let c1 : Conn = record c { cur_msg_start = (c.cur_msg_start + ret) % 2 ^ 32 } in
      if has_bit add_write c1.noti
      then (pos 0, c1, k)
      else (let (_, c2, k2) = set_notify k c1 (or_write c1.noti) in (pos 0, c2, k2))

  -- The loop of `do_send` over `m_msgs`, which is the last argument.
  unfoldable pub send_msgs : ℕ → K → Conn → List (List ℕ) → Option (ℤ × Conn × K)
  unfolding send_ all_sent part_sent
  send_msgs fuel k c [] = some (all_sent k (record c { msgs = [] }))
  send_msgs fuel k c (msg ∷ msgs) =
      let len = (length msg + 2 ^ 32 - c.cur_msg_start) % 2 ^ 32 in
      elim (send_ fuel k (drop c.cur_msg_start msg)) [
        | none ↦ none
        | some (negsuc e, k1) ↦ some (negsuc e, record c { msgs = msg ∷ msgs }, k1)
        | some (pos ret, k1) ↦
            let size = (c.send_queue_size + 2 ^ 32 - ret % 2 ^ 32) % 2 ^ 32 in
            let c1 : Conn = record c { send_queue_size = size } in
            elim (ret == len) [
              | true ↦ send_msgs fuel k1 (record c1 { cur_msg_start = 0 }) msgs
              | false ↦ some (part_sent k1 (record c1 { msgs = msg ∷ msgs }) ret)
            ]
      ]

  unfoldable pub do_send : ℕ → K → Conn → Option (ℤ × Conn × K)
  unfolding send_msgs
  do_send fuel k c = send_msgs fuel k c c.msgs

  -- `connection::send_message`
  unfoldable pub send_message : ℕ → K → Conn → List ℕ → Option (ℤ × Conn × K)
  unfolding do_send
  send_message fuel k c msg = do_send fuel k (record c {
    send_queue_size = (c.send_queue_size + length msg) % 2 ^ 32;
    msgs = c.msgs ++ (msg ∷ []);
  })
