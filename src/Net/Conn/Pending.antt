-- ===== src/Net/Conn/Pending.antt =====
-- What a connection has still to send.
use mathlib.Core.List.{append_assoc, append-nil}
use eparallel.Common.{
  ℕ, ◌^◌, ◌≤◌, ◌<◌, ◌≡◌, refl, sym, ap, ◌∙◌, true, List, [], ◌∷◌, ◌++◌, length, take, drop,
  take-append-drop, ◌==◌, arith,
}
use eparallel.Net.Conn.{Conn}

abbrev pub all_bytes : List (List ℕ) → List ℕ
all_bytes [] = []
all_bytes (msg ∷ msgs) = msg ++ all_bytes msgs

-- What is to be sent: the messages, less what is sent of the first.
abbrev pub pending : ℕ → List (List ℕ) → List ℕ
pending start [] = []
pending start (msg ∷ msgs) = drop start msg ++ all_bytes msgs

-- The start is within the first message.
abbrev pub Within : ℕ → List (List ℕ) → Type 0
Within start [] = start ≡ 0
Within start (msg ∷ msgs) = start ≤ length msg

abbrev pub Short : List (List ℕ) → Type 0
Short [] = Unit {0}
Short (msg ∷ msgs) = (length msg < 2 ^ 31) × Short msgs

-- The connection counts what is to be sent, and that is below 2 ^ 32; each message is shorter
-- than 2 ^ 31.
pub record Counts (c : Conn) : Type 0 where
  pub within : Within c.cur_msg_start c.msgs
  pub short : Short c.msgs
  pub counted : c.send_queue_size ≡ length (pending c.cur_msg_start c.msgs)
  pub bounded : c.send_queue_size < 2 ^ 32

pub pending_zero : (msgs : List (List ℕ)) → pending 0 msgs ≡ all_bytes msgs
pending_zero [] = refl
pending_zero (msg ∷ msgs) = refl

pub Within-zero : (msgs : List (List ℕ)) → Within 0 msgs
Within-zero [] = refl
Within-zero (msg ∷ msgs) = omega arith

pub ==→≡ : (a b : ℕ) → (a == b) ≡ true → a ≡ b
==→≡ a b h = ground arith

-- The bytes taken and those left, behind what was sent before.
pub joined :
    (out out1 : List ℕ) (m : ℕ) (buf rest : List ℕ)
    → out1 ≡ out ++ take m buf
    → out1 ++ (drop m buf ++ rest) ≡ out ++ (buf ++ rest)
joined out out1 m buf rest e =
    ap (λ x. x ++ (drop m buf ++ rest)) e
    ∙ append_assoc out (take m buf) (drop m buf ++ rest)
    ∙ ap (λ x. out ++ x)
        (sym (append_assoc (take m buf) (drop m buf) rest)
          ∙ ap (λ x. x ++ rest) (take-append-drop m buf))

pub all_bytes-append :
    (msgs : List (List ℕ)) (msg : List ℕ) → all_bytes (msgs ++ (msg ∷ [])) ≡ all_bytes msgs ++ msg
all_bytes-append [] msg = append-nil msg
all_bytes-append (x ∷ msgs) msg =
    ap (λ y. x ++ y) (all_bytes-append msgs msg) ∙ sym (append_assoc x (all_bytes msgs) msg)

pub pending-append :
    (start : ℕ) (msgs : List (List ℕ)) (msg : List ℕ)
    → Within start msgs
    → pending start (msgs ++ (msg ∷ [])) ≡ pending start msgs ++ msg
pending-append start [] msg w = rw w (append-nil msg)
pending-append start (x ∷ msgs) msg w =
    ap (λ y. drop start x ++ y) (all_bytes-append msgs msg)
    ∙ sym (append_assoc (drop start x) (all_bytes msgs) msg)

pub Within-append :
    (start : ℕ) (msgs : List (List ℕ)) (msg : List ℕ)
    → Within start msgs
    → Within start (msgs ++ (msg ∷ []))
Within-append start [] msg w = omega (arith, w)
Within-append start (x ∷ msgs) msg w = w

pub Short-append :
    (msgs : List (List ℕ)) (msg : List ℕ)
    → Short msgs
    → length msg < 2 ^ 31
    → Short (msgs ++ (msg ∷ []))
Short-append [] msg s b = (b, tt)
Short-append (x ∷ msgs) msg s b = (s.0, Short-append msgs msg s.1 b)
