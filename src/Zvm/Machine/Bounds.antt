-- ===== src/Zvm/Machine/Bounds.antt =====
-- What stays in bounds whatever operation is processed.
use eparallel.Common.{ℕ, ◌^◌, ◌<◌, ◌≤◌, List, [], ◌∷◌, length, length-set, length-append, ℤ, arith}
use eparallel.Zvm.Machine.Closed.{Ensures, Targets, Closed, InitKeeps, op_process-Keeps}
use eparallel.Zvm.Machine.{
  stack_top, put, Reg, a, b, c, d, Op, Machine, Setting, op_process, stack_push, frame_push,
  LocalType,
}

-- The operand stack and the locals are within their arrays, and `m_pc` is a `u32`.
pub record Sized (m : Machine) : Type 0 where
  pub op_fits : length m.op_stack ≤ 32
  pub locals_fit : length m.locals ≤ m.max_size
  pub pc_fits : m.pc < 2 ^ 32

-- The handlers of exceptions keep to that, and so do the functions that `AINIT` runs.
pub record Lawful (z : Setting) : Type 0 where
  pub of_handlers : (m : Machine) → Sized m → Sized (z.handler_excp m).1
  pub of_inits : InitKeeps z Sized

stack_push-Sized : (v : ℕ) (m : Machine) → Sized m → Sized (stack_push v m).1
unfolding stack_push
stack_push-Sized v m s = ground arith

frame_push-Sized : (v : ℕ) (t : LocalType) (m : Machine) → Sized m → Sized (frame_push v t m).1
unfolding frame_push
frame_push-Sized v t m s = ground (arith, length-append m.locals ((v, t) ∷ []))

put-Sized : (r : Reg) (v : ℕ) (m : Machine) → Sized m → Sized (put r v m)
put-Sized a v m s = ground arith
put-Sized b v m s = ground arith
put-Sized c v m s = ground arith
put-Sized d v m s = ground arith

pop-Sized : (m : Machine) → Sized m → Sized (record m { op_stack = (stack_top m.op_stack).1 })
pop-Sized m s = record {
  op_fits = omega (arith, s.op_fits, stack_top-le m.op_stack);
  locals_fit = s.locals_fit;
  pc_fits = s.pc_fits;
}
  where
    stack_top-le : (vs : List ℕ) → length (stack_top vs).1 ≤ length vs
    stack_top-le [] = omega arith
    stack_top-le (v ∷ vs) = omega arith

Sized-Closed : (z : Setting) → Lawful z → Closed z Sized (λ t. t < 2 ^ 32)
Sized-Closed z w = record {
  of_put = put-Sized;
  of_heap = λ m h s. ground arith;
  of_excp = λ m v s. ground arith;
  of_pc = λ m t h s. ground arith;
  of_last = omega arith;
  of_push = stack_push-Sized;
  of_pop = pop-Sized;
  of_frame = frame_push-Sized;
  of_locals = λ i x m s. record {
    op_fits = s.op_fits;
    locals_fit = omega (arith, s.locals_fit, length-set m.locals i x);
    pc_fits = s.pc_fits;
  };
  of_handler = w.of_handlers;
}

-- Whatever operation is processed whose targets are `u32`, where the handlers of exceptions and
-- the functions that `AINIT` runs on the stack keep to the bounds: a result leaves the operand stack within its 32
-- places, the locals within their array and the program counter a `u32`, if they were so before.
pub op_process-Sized :
    (z : Setting) (op : Op) (m : Machine) (status : ℤ)
    → Lawful z
    → Targets (λ t. t < 2 ^ 32) op
    → Sized m
    → Ensures (λ (e, m1). Sized m1) (op_process z op m status)
op_process-Sized z op m status w r s =
    op_process-Keeps z Sized (λ t. t < 2 ^ 32) (Sized-Closed z w) op m status (λ e. w.of_inits) r s
