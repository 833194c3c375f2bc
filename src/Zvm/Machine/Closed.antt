-- ===== src/Zvm/Machine/Closed.antt =====
-- A predicate on machines that every operation keeps.
use eparallel.Common.{
  inr, inl, Option-cases, ℕ, Bool, true, false, Option, none, some, ◌==◌, if◌then◌else◌, length,
  get_elem?, set, ℤ, ◌≡◌, refl,
}
use eparallel.Zvm.Word.{shl64, shr64, div64, rem64}
use eparallel.Zvm.Heap.{is_null, assign, allocate, obj_lock, Heap, Res, ok, waits, fault, ◌>>=◌}
use eparallel.Zvm.Machine.{
  iadd, isub, imut, ineg, ixnot, iinc, lnot, land, lor, idiv, irem, ishl, ishr, monenter, monexit,
  push_i, push_o, push_iconst, push_null, athrow, jump, je, jne, jlg, jsm, jlge, jsme, jnull,
  jnnull, aret, iret, ret, anew, anothor, ainit, null_op, local_int, local_obj, dup, istore_from,
  istore, aload_to, iload_to, aload, iload, excep_get, iconst_to, iconst, lock_null_obj, computed,
  last_pc, stack_top, get, jump_if, put, acatch, Reg, a, Op, Machine, Setting, op_process,
  stack_push, frame_push, get_local, set_local, mov, push_op, pop_op, LocalType,
}

-- What holds of a result, if there is one.
abbrev pub Ensures {ℓ κ} : {A : Type ℓ} → (A → Type κ) → Res A → Type κ
Ensures P (ok x) = P x
Ensures P waits = Unit
Ensures P fault = Unit

pub >>=-Ensures {ℓ κ μ} :
    {A : Type ℓ} {B : Type κ} (P : B → Type μ) (r : Res A) (f : A → Res B)
    → ((x : A) → Ensures P (f x))
    → Ensures P (r >>= f)
>>=-Ensures P (ok x) f h = h x
>>=-Ensures P waits f h = tt
>>=-Ensures P fault f h = tt

-- With what holds of the first result.
pub through-Ensures {ℓ κ μ} :
    {A : Type ℓ} {B : Type κ} (P : B → Type μ) (Q : A → Type μ) (r : Res A) (f : A → Res B)
    → Ensures Q r
    → ((x : A) → Q x → Ensures P (f x))
    → Ensures P (r >>= f)
through-Ensures P Q (ok x) f q h = h x q
through-Ensures P Q waits f q h = tt
through-Ensures P Q fault f q h = tt

-- What is true of the targets of an operation.
abbrev pub Targets : (ℕ → Type 0) → Op → Type 0
Targets J (Op.jump t) = J t
Targets J (Op.je t) = J t
Targets J (Op.jne t) = J t
Targets J (Op.jlg t) = J t
Targets J (Op.jsm t) = J t
Targets J (Op.jlge t) = J t
Targets J (Op.jsme t) = J t
Targets J (Op.jnull t) = J t
Targets J (Op.jnnull t) = J t
Targets J _ = Unit {0}

-- The changes that operations make keep the predicate, where the targets of jumps are in `J`.
pub record Closed (z : Setting) (P : Machine → Type 0) (J : ℕ → Type 0) : Type 0 where
  pub of_put : (r : Reg) (v : ℕ) (m : Machine) → P m → P (put r v m)
  pub of_heap : (m : Machine) (h : Heap) → P m → P (record m { heap = h })
  pub of_excp : (m : Machine) (v : ℕ) → P m → P (record m { excp = v })
  pub of_pc : (m : Machine) (t : ℕ) → J t → P m → P (record m { pc = t })
  pub of_last : J last_pc
  pub of_push : (v : ℕ) (m : Machine) → P m → P (stack_push v m).1
  pub of_pop : (m : Machine) → P m → P (record m { op_stack = (stack_top m.op_stack).1 })
  pub of_frame : (v : ℕ) (t : LocalType) (m : Machine) → P m → P (frame_push v t m).1
  pub of_locals :
      (i : ℕ) (x : ℕ × LocalType) (m : Machine) → P m → P (record m { locals = set m.locals i x })
  pub of_handler : (m : Machine) → P m → P (z.handler_excp m).1

abbrev pub is_init : Op → Bool
is_init ainit = true
is_init _ = false

-- The functions that `AINIT` runs keep the predicate.
abbrev pub InitKeeps : Setting → (Machine → Type 0) → Type 0
InitKeeps z P = (o : ℕ) (m : Machine) → P m → Ensures (λ x. P x.1) (z.init o m)

-- Either branch of a test.
pub if-Ensures {ℓ κ} :
    {A : Type ℓ} (P : A → Type κ) (t : Bool) (x y : Res A)
    → Ensures P x
    → Ensures P y
    → Ensures P (if t then x else y)
if-Ensures P true x y hx hy = hx
if-Ensures P false x y hx hy = hy

module _ (z : Setting) (P : Machine → Type 0) (J : ℕ → Type 0) (k : Closed z P J) where
  -- A status and a machine in `P`.
  abbrev Keeps : Res (ℤ × Machine) → Type 0
  Keeps r = Ensures (λ x. P x.1) r

  set_local-Keeps : (idx v : ℕ) (m : Machine) → P m → Keeps (set_local idx v m)
  unfolding set_local
  set_local-Keeps idx v m s = elim (Option-cases (get_elem? m.locals idx)) [
    | inl e ↦ rw (e, set_local) tt
    | inr ((old, t), e) ↦ rw (e, set_local) (k.of_locals idx (v, t) m s)
  ]

  computed-Keeps : (m : Machine) (o : Option ℕ) → P m → Keeps (computed m o)
  computed-Keeps m none s = tt
  computed-Keeps m (some v) s = k.of_put a v m s

  jump_if-Keeps : (t : Bool) (pc : ℕ) (m : Machine) → J pc → P m → Keeps (jump_if t pc m)
  jump_if-Keeps true pc m h s = k.of_pc m pc h s
  jump_if-Keeps false pc m h s = s

  local-Keeps :
      (idx : ℕ) (m : Machine) (f : ℕ → Res (ℤ × Machine))
      → ((v : ℕ) → Keeps (f v))
      → Keeps (get_local idx m >>= f)
  local-Keeps idx m f h = >>=-Ensures (λ x. P x.1) (get_local idx m) f h

  -- A lock, which leaves all but the heap.
  lock-Keeps :
      (m : Machine)
      → P m
      → Keeps (
          if m.eax == 0
          then ok (lock_null_obj, m)
          else (do (e, h) ← obj_lock z.self m.heap m.eax; ok (e, record m { heap = h })))
  lock-Keeps m s =
      if-Ensures (λ x. P x.1) (m.eax == 0) _ _ s
        (>>=-Ensures (λ x. P x.1) (obj_lock z.self m.heap m.eax) _ (λ x. k.of_heap m x.1 s))

  thrown : (m : Machine) (v : ℕ) (h : Heap) → P m → P (record m { excp = v; heap = h })
  thrown m v h s = k.of_heap _ h (k.of_excp m v s)

  caught-Keeps :
      (caught : Bool) (m : Machine) → P m → P (if caught then m else record m { pc = last_pc })
  caught-Keeps true m s = s
  caught-Keeps false m s = k.of_pc m last_pc k.of_last s

  acatch-Keeps : (m : Machine) (e : ℤ) → P m → Keeps (op_process z acatch m e)
  unfolding op_process
  acatch-Keeps m e s =
      through-Ensures (λ x. P x.1) P _ _
        (if-Ensures P (m.excp == 0) _ _
          (>>=-Ensures P (allocate z.self m.heap (excep_get e)) _ (λ x. thrown m x.0 x.1 s)) s)
        (λ m1 s1. caught-Keeps _ _ (k.of_handler m1 s1))

  pub op_process-Keeps :
      (op : Op) (m : Machine) (status : ℤ)
      → (is_init op ≡ true → InitKeeps z P)
      → Targets J op
      → P m
      → Keeps (op_process z op m status)
  unfolding op_process
  op_process-Keeps (mov x y) m e _ r s = k.of_put y (get x m) m s
  op_process-Keeps (push_op x) m e _ r s = k.of_push (get x m) m s
  op_process-Keeps (pop_op x) m e _ r s = k.of_put x _ _ (k.of_pop m s)
  op_process-Keeps (iconst i) m e _ r s = k.of_push i m s
  op_process-Keeps (iconst_to x i) m e _ r s = k.of_put x i m s
  op_process-Keeps (iload i) m e _ r s = local-Keeps i m _ (λ v. k.of_push v m s)
  op_process-Keeps (aload i) m e _ r s = local-Keeps i m _ (λ v. k.of_push v m s)
  op_process-Keeps (iload_to x i) m e _ r s = local-Keeps i m _ (λ v. k.of_put x v m s)
  op_process-Keeps (aload_to x i) m e _ r s = local-Keeps i m _ (λ v. k.of_put x v m s)
  op_process-Keeps (istore i) m e _ r s =
      if-Ensures (λ x. P x.1) (length m.op_stack == 1) _ _ (set_local-Keeps i _ _ (k.of_pop m s)) tt
  op_process-Keeps (istore_from x i) m e _ r s = set_local-Keeps i (get x m) m s
  op_process-Keeps iadd m e _ r s = k.of_put a _ m s
  op_process-Keeps isub m e _ r s = k.of_put a _ m s
  op_process-Keeps imut m e _ r s = k.of_put a _ m s
  op_process-Keeps ineg m e _ r s = k.of_put a _ m s
  op_process-Keeps ixnot m e _ r s = k.of_put a _ m s
  op_process-Keeps iinc m e _ r s = k.of_put a _ m s
  op_process-Keeps lnot m e _ r s = k.of_put a _ m s
  op_process-Keeps land m e _ r s = k.of_put a _ m s
  op_process-Keeps lor m e _ r s = k.of_put a _ m s
  op_process-Keeps idiv m e _ r s =
      if-Ensures (λ x. P x.1) (m.ebx == 0) _ _ s (computed-Keeps m (div64 m.eax m.ebx) s)
  op_process-Keeps irem m e _ r s =
      if-Ensures (λ x. P x.1) (m.ebx == 0) _ _ s (computed-Keeps m (rem64 m.eax m.ebx) s)
  op_process-Keeps ishl m e _ r s = computed-Keeps m (shl64 m.eax m.ebx) s
  op_process-Keeps ishr m e _ r s = computed-Keeps m (shr64 m.eax m.ebx) s
  op_process-Keeps monenter m e _ r s = lock-Keeps m s
  op_process-Keeps monexit m e _ r s = lock-Keeps m s
  op_process-Keeps push_i m e _ r s = k.of_frame m.eax local_int m s
  op_process-Keeps push_o m e _ r s =
      >>=-Ensures (λ x. P x.1) (dup z.self m) _
        (λ x. k.of_frame x.0 local_obj _ (k.of_heap m x.1 s))
  op_process-Keeps (push_iconst i) m e _ r s = k.of_frame i local_int m s
  op_process-Keeps push_null m e _ r s =
      >>=-Ensures (λ x. P x.1) (allocate z.self m.heap 0) _
        (λ x. k.of_frame x.0 local_obj _ (k.of_heap m x.1 s))
  op_process-Keeps athrow m e _ r s =
      if-Ensures (λ x. P x.1) (length m.op_stack == 1) _ _
        (>>=-Ensures (λ x. P x.1) (dup z.self m) _ (λ x. thrown m x.0 x.1 s)) tt
  op_process-Keeps acatch m e _ r s = acatch-Keeps m e s
  op_process-Keeps (jump t) m e _ r s = k.of_pc m t r s
  op_process-Keeps (je t) m e _ r s = jump_if-Keeps _ t m r s
  op_process-Keeps (jne t) m e _ r s = jump_if-Keeps _ t m r s
  op_process-Keeps (jlg t) m e _ r s = jump_if-Keeps _ t m r s
  op_process-Keeps (jsm t) m e _ r s = jump_if-Keeps _ t m r s
  op_process-Keeps (jlge t) m e _ r s = jump_if-Keeps _ t m r s
  op_process-Keeps (jsme t) m e _ r s = jump_if-Keeps _ t m r s
  op_process-Keeps (jnull t) m e _ r s =
      >>=-Ensures (λ x. P x.1) (is_null m.heap m.eax) _ (λ n. jump_if-Keeps _ t m r s)
  op_process-Keeps (jnnull t) m e _ r s =
      >>=-Ensures (λ x. P x.1) (is_null m.heap m.eax) _ (λ n. jump_if-Keeps _ t m r s)
  op_process-Keeps aret m e _ r s =
      >>=-Ensures (λ x. P x.1) (assign z.self m.heap z.ret_reg m.eax) _
        (λ x. k.of_heap _ x.1 (k.of_put a z.ret_reg _ (k.of_pc m last_pc k.of_last s)))
  op_process-Keeps iret m e _ r s = k.of_pc m last_pc k.of_last s
  op_process-Keeps ret m e _ r s = k.of_pc m last_pc k.of_last s
  op_process-Keeps (anew i) m e _ r s =
      if-Ensures (λ x. P x.1) (m.cls == 0) _ _ tt
        (if-Ensures (λ x. P x.1) (z.get_class m.cls i == 0) _ _ tt (k.of_excp m _ s))
  op_process-Keeps anothor m e _ r s =
      if-Ensures (λ x. P x.1) (m.cls == 0) _ _ tt (k.of_heap _ _ (k.of_put a _ m s))
  op_process-Keeps ainit m e i r s =
      >>=-Ensures (λ x. P x.1) (is_null m.heap m.ths) _
        (λ n.
          if-Ensures (λ x. P x.1) n _ _ (k.of_excp m _ s)
            (through-Ensures (λ x. P x.1) (λ x. P x.1) (z.init m.ths m) _ (i refl m.ths m s)
              (λ x s1. k.of_put a _ x.1 s1)))
  op_process-Keeps null_op m e _ r s = s
