-- ===== src/Zvm/Machine.antt =====
-- zvm/zvm_op_proc.h: `op_process`, over the stack of zvm/zvm_stack.h with its operand stack
-- (zvm/zvm_op_stack.h) and its current frame (zvm/zvm_frame.h).
-- Classes and the handlers of exceptions are arguments: they are zvm/zvm_class.cpp, and
-- `excp_handler::handle`, which the repository declares and does not define.
pub mod Closed
pub mod Bounds
pub mod Monitor
use eparallel.Common.{
  ℕ, zero, suc, ◌+◌, ◌-◌, ◌%◌, ◌^◌, ◌<◌, ◌≡◌, Bool, true, false, not, ◌&&◌, ◌||◌, Option, none,
  some, List, [], ◌∷◌, ◌++◌, ltb, leb, ◌==◌, if◌then◌else◌, length, get_elem?, set, take, ℤ, pos,
  negsuc,
}
use eparallel.Zvm.Heap.{
  Res, ok, waits, fault, ◌>>=◌, Heap, obj_lock, allocate, deallocate, entry_reference, is_null,
  assign,
}
use eparallel.Zvm.Word.{
  word, add64, sub64, mul64, neg64, not64, div64, rem64, shl64, shr64, lt64, of_bool,
}

pub data Reg : Type 0 where
  a b c d : Reg

-- The operations. A register in an operation stands for the letters of the source's name: `AB` is
-- `mov a b`, `ILOADC` is `iload_to c`, and so on.
pub data Op : Type 0 where
  mov : Reg → Reg → Op
  push_op pop_op : Reg → Op
  iconst : ℕ → Op
  iconst_to : Reg → ℕ → Op
  iload aload : ℕ → Op
  iload_to aload_to : Reg → ℕ → Op
  istore : ℕ → Op
  istore_from : Reg → ℕ → Op
  iadd isub imut idiv irem ishl ishr ineg ixnot iinc : Op
  lnot land lor : Op
  monenter monexit : Op
  push_i push_o push_null athrow acatch : Op
  push_iconst : ℕ → Op
  jump je jne jlg jsm jlge jsme jnull jnnull : ℕ → Op
  aret iret ret : Op
  anew : ℕ → Op
  anothor ainit null_op : Op

pub data LocalType : Type 0 where
  local_int local_obj : LocalType

pub record Machine : Type 0 where
  pub eax : ℕ
  pub ebx : ℕ
  pub ecx : ℕ
  pub edx : ℕ
  pub excp : ℕ
  pub ths : ℕ
  pub cls : ℕ
  pub pc : ℕ
  pub op_stack : List ℕ
  pub locals : List (ℕ × LocalType)
  pub max_size : ℕ
  pub heap : Heap

-- What is not modelled of the stack: its identity for locks, the address of the register for
-- results, and the classes and handlers. `init` is `obj::init`, which runs a function of the class
-- on this stack: it may leave any machine, with another `pc` and without locals, wait or fail.
pub record Setting : Type 0 where
  pub self : ℕ
  pub ret_reg : ℕ
  pub get_class : ℕ → ℕ → ℕ
  pub create_entry_obj : ℕ → Machine → ℕ × Heap
  pub init : ℕ → Machine → Res (ℤ × Machine)
  pub handler_excp : Machine → Bool × Machine

abbrev pub success : ℤ
success = pos 0

abbrev pub ret_athrow : ℤ
ret_athrow = negsuc 0

abbrev pub over_flow : ℤ
over_flow = negsuc 10000

abbrev pub div_zero : ℤ
div_zero = negsuc 10001

abbrev pub lock_null_obj : ℤ
lock_null_obj = negsuc 10003

abbrev pub access_null : ℤ
access_null = negsuc 10007

-- `OP_STACK_DEFAULT_SIZE`
abbrev pub op_stack_size : ℕ
op_stack_size = 32

-- `(u32)(-1) - 1`
abbrev pub last_pc : ℕ
last_pc = 2 ^ 32 - 2

abbrev pub get : Reg → Machine → ℕ
get a m = m.eax
get b m = m.ebx
get c m = m.ecx
get d m = m.edx

abbrev pub put : Reg → ℕ → Machine → Machine
put a v m = record m { eax = v }
put b v m = record m { ebx = v }
put c v m = record m { ecx = v }
put d v m = record m { edx = v }

-- `op_stack::push` and `op_stack::pop`, the top first.
unfoldable pub stack_push : ℕ → Machine → ℤ × Machine
stack_push v m =
    if ltb (length m.op_stack) op_stack_size
    then (success, record m { op_stack = v ∷ m.op_stack })
    else (over_flow, m)

abbrev pub stack_top : List ℕ → ℕ × List ℕ
stack_top [] = (0, [])
stack_top (v ∷ vs) = (v, vs)

-- `frame::push`, `frame::get_local` and `frame::set_local`, the first local first.
unfoldable pub frame_push : ℕ → LocalType → Machine → ℤ × Machine
frame_push v t m =
    if leb m.max_size (length m.locals)
    then (over_flow, m)
    else (success, record m { locals = m.locals ++ ((v, t) ∷ []) })

unfoldable pub get_local : ℕ → Machine → Res ℕ
get_local idx m = elim (get_elem? m.locals idx) [ none ↦ fault | some (v, t) ↦ ok v ]

unfoldable pub set_local : ℕ → ℕ → Machine → Res (ℤ × Machine)
set_local idx v m = elim (get_elem? m.locals idx) [
  | none ↦ fault
  | some (old, t) ↦ ok (success, record m { locals = set m.locals idx (v, t) })
]

-- `excep_manager::get`: the number of the exception's entry.
unfoldable pub excep_get : ℤ → ℕ
excep_get (pos n) = 6
excep_get (negsuc n) =
    if n == 10000
    then 1
    else if n == 10004
    then 2
    else if n == 10001
    then 3
    else if n == 10002
    then 4
    else if n == 10006
    then 5
    else 6

-- `dup`: an object for the entry of the one in `eax`.
unfoldable pub dup : ℕ → Machine → Res (ℕ × Heap)
unfolding entry_reference allocate
dup s m = do (e, h) ← entry_reference s m.heap m.eax; allocate s h e

-- A result for `eax`.
abbrev pub computed : Machine → Option ℕ → Res (ℤ × Machine)
computed m none = fault
computed m (some v) = ok (success, record m { eax = v })

-- A conditional jump.
abbrev pub jump_if : Bool → ℕ → Machine → Res (ℤ × Machine)
jump_if t pc m = ok (success, if t then record m { pc = pc } else m)

-- An `s32` status in a register.
abbrev pub word_of : ℤ → ℕ
word_of (pos n) = n
word_of (negsuc n) = 2 ^ 64 - 1 - n

-- `op_process`: the status, and the machine. `status` is that of the operation before.
unfoldable pub op_process : Setting → Op → Machine → ℤ → Res (ℤ × Machine)
unfolding stack_push frame_push get_local set_local excep_get
op_process z (mov from to) m status = ok (success, put to (get from m) m)
op_process z (push_op r) m status = ok (stack_push (get r m) m)
op_process z (pop_op r) m status =
    let (v, vs) = stack_top m.op_stack in ok (success, put r v (record m { op_stack = vs }))
op_process z (iconst i) m status = ok (stack_push i m)
op_process z (iconst_to r i) m status = ok (success, put r i m)
op_process z (iload idx) m status = do v ← get_local idx m; ok (stack_push v m)
op_process z (aload idx) m status = do v ← get_local idx m; ok (stack_push v m)
op_process z (iload_to r idx) m status = do v ← get_local idx m; ok (success, put r v m)
op_process z (aload_to r idx) m status = do v ← get_local idx m; ok (success, put r v m)
op_process z (istore idx) m status =
    let (v, vs) = stack_top m.op_stack in
    if length m.op_stack == 1 then set_local idx v (record m { op_stack = vs }) else fault
op_process z (istore_from r idx) m status = set_local idx (get r m) m
op_process z iadd m status = ok (success, record m { eax = add64 m.eax m.ebx })
op_process z isub m status = ok (success, record m { eax = sub64 m.eax m.ebx })
op_process z imut m status = ok (success, record m { eax = mul64 m.eax m.ebx })
op_process z idiv m status = if m.ebx == 0 then ok (div_zero, m) else computed m (div64 m.eax m.ebx)
op_process z irem m status = if m.ebx == 0 then ok (div_zero, m) else computed m (rem64 m.eax m.ebx)
op_process z ishl m status = computed m (shl64 m.eax m.ebx)
op_process z ishr m status = computed m (shr64 m.eax m.ebx)
op_process z ineg m status = ok (success, record m { eax = neg64 m.eax })
op_process z ixnot m status = ok (success, record m { eax = not64 m.eax })
op_process z iinc m status = ok (success, record m { eax = add64 m.eax 1 })
op_process z lnot m status = ok (success, record m { eax = of_bool (m.eax == 0) })
op_process z land m status =
    ok (success, record m { eax = of_bool (not (m.eax == 0) && not (m.ebx == 0)) })
op_process z lor m status =
    ok (success, record m { eax = of_bool (not (m.eax == 0) || not (m.ebx == 0)) })
op_process z monenter m status =
    if m.eax == 0
    then ok (lock_null_obj, m)
    else (do (e, h) ← obj_lock z.self m.heap m.eax; ok (e, record m { heap = h }))
op_process z monexit m status =
    if m.eax == 0
    then ok (lock_null_obj, m)
    else (do (e, h) ← obj_lock z.self m.heap m.eax; ok (e, record m { heap = h }))
op_process z push_i m status = ok (frame_push m.eax local_int m)
op_process z push_o m status = do
  (o, h) ← dup z.self m
  ok (frame_push o local_obj (record m { heap = h }))
op_process z (push_iconst i) m status = ok (frame_push i local_int m)
op_process z push_null m status = do
  (o, h) ← allocate z.self m.heap 0
  ok (frame_push o local_obj (record m { heap = h }))
op_process z athrow m status =
    if length m.op_stack == 1
    then (do (o, h) ← dup z.self m; ok (ret_athrow, record m { excp = o; heap = h }))
    else fault
op_process z acatch m status = do
  m1 ←
      if m.excp == 0
      then (do
        (o, h) ← allocate z.self m.heap (excep_get status)
        ok (record m { excp = o; heap = h }))
      else ok m
  let (caught, m2) = z.handler_excp m1
  ok (success, if caught then m2 else record m2 { pc = last_pc })
op_process z (jump pc) m status = ok (success, record m { pc = pc })
op_process z (je pc) m status = jump_if (m.eax == m.ebx) pc m
op_process z (jne pc) m status = jump_if (not (m.eax == m.ebx)) pc m
op_process z (jlg pc) m status = jump_if (lt64 m.ebx m.eax) pc m
op_process z (jsm pc) m status = jump_if (lt64 m.eax m.ebx) pc m
op_process z (jlge pc) m status = jump_if (not (lt64 m.eax m.ebx)) pc m
op_process z (jsme pc) m status = jump_if (not (lt64 m.ebx m.eax)) pc m
op_process z (jnull pc) m status = do n ← is_null m.heap m.eax; jump_if n pc m
op_process z (jnnull pc) m status = do n ← is_null m.heap m.eax; jump_if (not n) pc m
op_process z aret m status = do
  (e, h) ← assign z.self m.heap z.ret_reg m.eax
  ok (e, record m { pc = last_pc; eax = z.ret_reg; heap = h })
op_process z iret m status = ok (success, record m { pc = last_pc })
op_process z ret m status = ok (success, record m { pc = last_pc })
op_process z (anew idx) m status =
    if m.cls == 0
    then fault
    else if z.get_class m.cls idx == 0
    then fault
    else ok (access_null, record m { excp = word (2 ^ 64 - 10008) })
op_process z anothor m status =
    if m.cls == 0
    then fault
    else (let (o, h) = z.create_entry_obj m.cls m in ok (success, record m { eax = o; heap = h }))
op_process z ainit m status = do
  n ← is_null m.heap m.ths
  if n
      then ok (access_null, record m { excp = word (2 ^ 64 - 10008) })
      else (do (e, m1) ← z.init m.ths m; ok (success, put a (word_of e) m1))
op_process z null_op m status = ok (success, m)
