-- ===== src/Zvm/Process.antt =====
-- zvm/zvm_function.cpp: `function::process`, which runs the operations of a function. The first of
-- them is `ACATCH`, which the constructor puts there.
-- The locals that `frame::pop` takes off are of zvm/zvm_frame.h.
pub mod Ends
use eparallel.Common.{
  ℕ, zero, suc, ◌+◌, ◌%◌, ◌^◌, ◌≡◌, Bool, true, false, Option, none, some, List, [], ◌∷◌, ◌++◌, leb,
  ◌==◌, if◌then◌else◌, length, get_elem?, ℤ, pos, negsuc,
}
use eparallel.Zvm.Heap.{Res, ok, waits, fault, ◌>>=◌, Heap, deallocate}
use eparallel.Zvm.Machine.{
  Op, acatch, LocalType, local_int, local_obj, Machine, Setting, success, ret_athrow, op_process,
}

-- The operations of a function that is given `code`.
abbrev pub function_ops : List Op → List Op
function_ops code = acatch ∷ code

abbrev pub is_success : ℤ → Bool
is_success (pos n) = n == 0
is_success (negsuc n) = false

-- `pc = (0 - (ret == SUCCESS)) & (pc + 1)`
abbrev pub next_pc : ℤ → ℕ → ℕ
next_pc ret pc = if is_success ret then (pc + 1) % 2 ^ 32 else 0

-- What the loop goes on with after an operation. One that waits for a lock, or is undefined, is not
-- followed by another.
abbrev pub carry :
    (Machine → ℤ → Option (Res (ℤ × Machine))) → Res (ℤ × Machine) → Option (Res (ℤ × Machine))
carry k (ok (e, m1)) = k (record m1 { pc = next_pc e m1.pc }) e
carry k waits = some waits
carry k fault = some fault

-- The loop of `process`; `none`: it goes on after so many rounds; `some waits`: it stays in an
-- operation that waits for a lock, which is no end of the loop.
unfoldable pub rounds : Setting → List Op → ℕ → Machine → ℤ → Option (Res (ℤ × Machine))
unfolding op_process
rounds z ops zero m ret = none
rounds z ops (suc fuel) m ret = elim (get_elem? ops m.pc) [
  | none ↦ some (ok (ret, m))
  | some op ↦ carry (rounds z ops fuel) (op_process z op m ret)
]

-- The locals are popped, the last first, and the objects among them are given back.
abbrev pub clear_locals : ℕ → List (ℕ × LocalType) → Heap → Res Heap
clear_locals s [] h = ok h
clear_locals s ((v, local_int) ∷ ls) h = clear_locals s ls h
clear_locals s ((v, local_obj) ∷ ls) h = do h1 ← clear_locals s ls h; deallocate s h1 v

-- What follows the loop.
abbrev pub finish : Setting → ℤ × Machine → Res (ℤ × Machine)
finish z (ret, m) = do
  h ← clear_locals z.self m.locals m.heap
  ok (if m.excp == 0 then ret else ret_athrow, record m { locals = []; heap = h })

unfoldable pub process : Setting → List Op → ℕ → Machine → Option (Res (ℤ × Machine))
unfolding rounds
process z ops fuel m = elim (rounds z ops fuel (record m { pc = 1 }) success) [
  | none ↦ none
  | some r ↦ some (r >>= finish z)
]
