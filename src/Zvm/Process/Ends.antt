-- ===== src/Zvm/Process/Ends.antt =====
-- `process` of code whose jumps go forward.
use eparallel.Common.{
  Option-cases, Bool-cases, ℕ, zero, suc, ◌+◌, ◌-◌, refl, ◌%◌, [], ◌==◌, ◌^◌, ◌≤◌, ◌<◌, ◌≡◌, ◌≢◌,
  ◌⊎◌, inl, inr, false, Option, none, some, List, ◌∷◌, length, get_elem?, ℤ, arith,
}
use eparallel.Zvm.Heap.{◌>>=◌, allocate, allocate, Res, ok, waits, fault}
use eparallel.Zvm.Machine.{
  excep_get, LocalType, Op, acatch, Reg, a, b, c, d, Machine, Setting, put, stack_push, frame_push,
  op_process, success, last_pc,
}
use eparallel.Zvm.Machine.Closed.{
  >>=-Ensures, if-Ensures, through-Ensures, Ensures, Targets, Closed, is_init, op_process-Keeps,
}
use eparallel.Zvm.Process.{finish, carry, is_success, function_ops, next_pc, rounds, process}

-- No handler of exceptions takes one.
abbrev pub NoHandlers : Setting → Type 0
NoHandlers z = (m : Machine) → z.handler_excp m ≡ (false, m)

-- A jump of the operations from `k` goes on behind its operation, and does not wrap around; none
-- of the operations is `AINIT`, which runs another function on the stack and leaves its `pc`.
abbrev pub Forward : ℕ → List Op → Type 0
Forward k [] = Unit {0}
Forward k (op ∷ ops) =
    (Targets (λ t. (k ≤ t) × (t < 2 ^ 32 - 1)) op × (is_init op ≡ false)) × Forward (suc k) ops

Forward-at :
    (k : ℕ) (ops : List Op)
    → Forward k ops
    → (i : ℕ) (op : Op) → get_elem? ops i ≡ some op
    → (n : ℕ) → n ≡ k + i
    → Targets (λ t. (n ≤ t) × (t < 2 ^ 32 - 1)) op × (is_init op ≡ false)
Forward-at k [] f i op e n p = absurd (ground (arith, e))
Forward-at k (x ∷ ops) f zero op e n p =
    let here : op ≡ x = ground (arith, e) in
    let first : n ≡ k = omega (arith, p) in rw (here, first) f.0
Forward-at k (x ∷ ops) f (suc i) op e n p = Forward-at (suc k) ops f.1 i op e n (omega (arith, p))

abbrev Ahead : ℕ → Machine → Type 0
Ahead i m = (i ≤ m.pc) × (m.pc < 2 ^ 32 - 1)

put-pc : (r : Reg) (v : ℕ) (m : Machine) → (put r v m).pc ≡ m.pc
put-pc a v m = refl
put-pc b v m = refl
put-pc c v m = refl
put-pc d v m = refl

push-Ahead : (i v : ℕ) (m : Machine) → Ahead i m → Ahead i (stack_push v m).1
unfolding stack_push
push-Ahead i v m s = ground arith

frame-Ahead : (i v : ℕ) (t : LocalType) (m : Machine) → Ahead i m → Ahead i (frame_push v t m).1
unfolding frame_push
frame-Ahead i v t m s = ground arith

Ahead-Closed :
    (z : Setting) (i : ℕ)
    → NoHandlers z
    → i < 2 ^ 32 - 1
    → Closed z (Ahead i) (λ t. (i ≤ t) × (t < 2 ^ 32 - 1))
Ahead-Closed z i n h = record {
  of_put = λ r v m s. rw (put-pc r v m) s;
  of_heap = λ m h s. s;
  of_excp = λ m v s. s;
  of_pc = λ m t j s. j;
  of_last = (omega (arith, h), omega arith);
  of_push = push-Ahead i;
  of_pop = λ m s. s;
  of_frame = frame-Ahead i;
  of_locals = λ j x m s. s;
  of_handler = λ m s. rw (n m) s;
}

-- The operation at the program counter, whatever it is.
ahead :
    (z : Setting) (ops : List Op) (m : Machine) (op : Op) (e : ℤ)
    → NoHandlers z
    → Forward 0 ops
    → m.pc < 2 ^ 32 - 1
    → get_elem? ops m.pc ≡ some op
    → Ensures (λ (e1, m1). Ahead m.pc m1) (op_process z op m e)
ahead z ops m op e n f h g =
    let (jumps, no_init) = Forward-at 0 ops f m.pc op g m.pc (omega arith) in
    op_process-Keeps z (Ahead m.pc) _ (Ahead-Closed z m.pc n h) op m e
      (λ i. absurd (ground (arith, i, no_init))) jumps (omega arith, h)

-- `ACATCH` without a handler ends the loop.
acatch-Ends :
    (z : Setting) (m : Machine) (e : ℤ)
    → NoHandlers z
    → Ensures (λ (e1, m1). (e1 ≡ success) × (m1.pc ≡ last_pc)) (op_process z acatch m e)
unfolding op_process
acatch-Ends z m e n =
    through-Ensures (λ (e1, m1). (e1 ≡ success) × (m1.pc ≡ last_pc)) (λ _. Unit {0}) _ _
      (if-Ensures (λ _. Unit {0}) (m.excp == 0) _ _
        (>>=-Ensures (λ _. Unit {0}) (allocate z.self m.heap (excep_get e)) _ (λ x. tt)) tt)
      (λ m1 s1. rw (n m1) (refl, refl))

get_elem?-some-lt {ℓ} :
    {A : Type ℓ} (xs : List A) (i : ℕ) (x : A) → get_elem? xs i ≡ some x → i < length xs
get_elem?-some-lt [] i x e = absurd (ground (arith, e))
get_elem?-some-lt (y ∷ xs) zero x e = omega arith
get_elem?-some-lt (y ∷ xs) (suc i) x e = omega (arith, get_elem?-some-lt xs i x e)

-- Rounds enough from a program counter: 0 is followed by the end.
abbrev Enough : ℕ → ℕ → ℕ → Type 0
Enough cnt f zero = 2 ≤ f
Enough cnt f (suc p) = (0 < f) × (cnt + 2 ≤ f + suc p)

Enough-next :
    (cnt f p : ℕ) (e : ℤ) (q : ℕ)
    → p < cnt
    → 0 < p
    → cnt + 2 ≤ suc f + p
    → p ≤ q
    → q < 2 ^ 32 - 1
    → Enough cnt f (next_pc e q)
Enough-next cnt f p e q h z g l w = elim (Bool-cases (is_success e)) [
  | inl y ↦
      rw y (let w1 : (q + 1) % 2 ^ 32 ≡ suc q = omega arith in rw w1 (omega arith, omega arith))
  | inr n ↦ rw n (omega arith)
]

Enough-cases :
    (cnt f p : ℕ) → Enough cnt f p → ((p ≡ 0) × (2 ≤ f)) ⊎ ((0 < p) × (0 < f) × (cnt + 2 ≤ f + p))
Enough-cases cnt f zero g = inl (refl, g)
Enough-cases cnt f (suc p) g = inr (omega arith, g.0, g.1)

carry-Goes {κ} :
    (Q : ℤ × Machine → Type κ) (k : Machine → ℤ → Option (Res (ℤ × Machine)))
    (r : Res (ℤ × Machine))
    → Ensures Q r
    → ((e : ℤ) (m1 : Machine) → Q (e, m1) → k (record m1 { pc = next_pc e m1.pc }) e ≢ none)
    → carry k r ≢ none
carry-Goes Q k (ok (e, m1)) q h = h e m1 q
carry-Goes Q k waits q h = λ e. absurd (ground (arith, e))
carry-Goes Q k fault q h = λ e. absurd (ground (arith, e))

Enough-last :
    (cnt f : ℕ) (e : ℤ) (q : ℕ)
    → cnt < 2 ^ 32 - 1
    → 0 < f
    → e ≡ success
    → q ≡ last_pc
    → Enough cnt f (next_pc e q)
Enough-last cnt f e q h g s l =
    rw (s, l)
      (let last : (last_pc + 1) % 2 ^ 32 ≡ suc (2 ^ 32 - 2) = omega arith in
        rw last (g, omega arith))

get_elem?-start {ℓ} :
    {A : Type ℓ} (x y : A) (xs : List A) (i : ℕ) → i ≡ 0 → get_elem? (x ∷ xs) i ≡ some y → y ≡ x
get_elem?-start x y xs zero z e = ground (arith, e)
get_elem?-start x y xs (suc i) z e = absurd (omega (arith, z))

rounds-Ends :
    (z : Setting) (code : List Op)
    → NoHandlers z
    → Forward 0 (function_ops code)
    → length (function_ops code) < 2 ^ 32 - 1
    → (f : ℕ) (m : Machine) (e : ℤ) → Enough (length (function_ops code)) f m.pc
    → rounds z (function_ops code) f m e ≢ none
unfolding rounds
rounds-Ends z code n w h zero m e g = elim (Enough-cases _ 0 m.pc g) [
  | inl (x, y) ↦ absurd (omega (arith, y))
  | inr (x, y, v) ↦ absurd (omega (arith, y))
]
rounds-Ends z code n w h (suc f) m e g = elim (Option-cases (get_elem? (function_ops code) m.pc)) [
  | inl past ↦ rw past (λ q. absurd (ground (arith, q)))
  | inr (op, at) ↦
      let lt = get_elem?-some-lt (function_ops code) m.pc op at in
      rw at (elim (Enough-cases _ (suc f) m.pc g) [
        | inl (start, two) ↦
            carry-Goes (λ (e1, m1). (e1 ≡ success) × (m1.pc ≡ last_pc))
              (rounds z (function_ops code) f) _
              (rw (get_elem?-start acatch op code m.pc start at) (acatch-Ends z m e n))
              (λ e1 m1 (i, j).
                rounds-Ends z code n w h f _ e1
                  (Enough-last (length (function_ops code)) f e1 m1.pc h (omega (arith, two)) i j))
        | inr (p, q, l) ↦
            carry-Goes (λ (e1, m1). Ahead m.pc m1) (rounds z (function_ops code) f) _
              (ahead z (function_ops code) m op e n w (omega (arith, lt, h)) at)
              (λ e1 m1 (i, j).
                rounds-Ends z code n w h f _ e1
                  (Enough-next (length (function_ops code)) f m.pc e1 m1.pc lt p l i j))
      ])
]

-- Where no handler takes an exception, no jump of the code goes before its own operation or wraps
-- around, none of its operations is `AINIT`, and there are fewer than `2 ^ 32 - 2` of them: the
-- loop of `process` begins at most so many rounds as the code has operations and two, however
-- the operations fail and whatever the classes and the objects are. It is then left with a
-- result, or one of the operations waits for a lock, or is undefined.
pub process-Ends :
    (z : Setting) (code : List Op) (fuel : ℕ) (m : Machine)
    → NoHandlers z
    → Forward 0 (function_ops code)
    → length code < 2 ^ 32 - 2
    → length code + 2 ≤ fuel
    → process z (function_ops code) fuel m ≢ none
unfolding process
process-Ends z code fuel m n w h g =
    some-none (rounds z (function_ops code) fuel (record m { pc = 1 }) success) (finish z)
      (rounds-Ends z code n w (omega arith) fuel _ success (omega arith, omega arith))
  where
    some-none :
        (r : Option (Res (ℤ × Machine))) (k : ℤ × Machine → Res (ℤ × Machine))
        → r ≢ none
        → elim r [ none ↦ none | some x ↦ some (x >>= k) ] ≢ none
    some-none none k h = λ e. h refl
    some-none (some x) k h = λ e. absurd (ground (arith, e))
