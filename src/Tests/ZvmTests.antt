-- ===== src/Tests/ZvmTests.antt =====
-- The register machine on concrete code.
use eparallel.Common.{
  ℕ, suc, ◌<◌, ◌≡◌, ◌≢◌, refl, true, false, Option, none, some, List, [], ◌∷◌, length, ℤ, pos,
  negsuc, arith, ◌==◌, if◌then◌else◌,
}
use eparallel.Zvm.Lock.{free_lock}
use eparallel.Zvm.Lock.Access.{
  Stacks, nobody, go, locks, moves, here, next, inside, spin, aborted, access,
}
use eparallel.Zvm.Lock.Exclusion.{holds, lock_excludes}
use eparallel.Zvm.Word.{lt64, mul64}
use eparallel.Zvm.Heap.{allocate, Res, ok, waits, fault, ◌>>=◌, Heap, obj_lock}
use eparallel.Zvm.Machine.{
  Op, a, b, iconst_to, push_iconst, imut, idiv, jlg, iret, push_op, Machine, Setting, op_process,
  success,
}
use eparallel.Zvm.Machine.Closed.{Ensures}
use eparallel.Zvm.Machine.Bounds.{Sized, Lawful, op_process-Sized}
use eparallel.Zvm.Machine.Monitor.{critical, critical-Held}
use eparallel.Zvm.Process.{process, function_ops}
use eparallel.Zvm.Process.Ends.{Forward, process-Ends}

abbrev one_object : Heap
one_object = record {
  objs = λ q. if q == 1 then some (record { mutex = free_lock; ent = 7 }) else none;
  refs = λ q. 0;
  pool = [];
  fresh = 2;
}

abbrev sample : Machine
sample = record {
  eax = 1;
  ebx = 0;
  ecx = 0;
  edx = 0;
  excp = 0;
  ths = 0;
  cls = 0;
  pc = 1;
  op_stack = [];
  locals = [];
  max_size = 2;
  heap = one_object;
}

abbrev no_classes : Setting
no_classes = record {
  self = 5;
  ret_reg = 1;
  get_class = λ c i. 0;
  create_entry_obj = λ c m. (0, m.heap);
  init = λ o m. ok (pos 0, m);
  handler_excp = λ m. (false, m);
}

-- 6 * 7, which is kept in a local and left where it is over 40.
abbrev product : List Op
product =
    iconst_to a 6
    ∷ iconst_to b 7
    ∷ imut
    ∷ push_iconst 42
    ∷ iconst_to b 40
    ∷ jlg 7
    ∷ iconst_to a 0
    ∷ iret
    ∷ []

abbrev result : Option (Res (ℤ × Machine)) → List ℕ
result none = []
result (some waits) = []
result (some fault) = []
result (some (ok (pos e, m))) = e ∷ m.eax ∷ m.excp ∷ length m.locals ∷ []
result (some (ok (negsuc e, m))) = suc e ∷ m.eax ∷ m.excp ∷ length m.locals ∷ []

product_runs : result (process no_classes (function_ops product) 10 sample) ≡ 0 ∷ 42 ∷ 0 ∷ 0 ∷ []
unfolding process lt64 mul64
product_runs = refl

-- A division by 0: the exception is of entry 3, and is the result.
abbrev division : List Op
division = iconst_to b 0 ∷ idiv ∷ iret ∷ []

division_throws : result (process no_classes (function_ops division) 5 sample) ≡ 1 ∷ 1 ∷ 2 ∷ 0 ∷ []
unfolding process allocate
division_throws = refl

-- The object is held by nobody to begin with.
critical-Held_example :
    ((critical no_classes sample success >>= λ (e, m2). ok e) ≡ ok success)
    × ((critical no_classes sample success >>= λ (e, m2). obj_lock 6 m2.heap m2.eax) ≡ waits)
critical-Held_example =
    critical-Held no_classes sample (record { mutex = free_lock; ent = 7 }) success 6 (omega arith)
      refl refl (omega arith) (λ e. absurd (omega (arith, e)))

-- Stack 4 takes the lock, and stack 9 goes round before it.
abbrev two_stacks : Stacks
two_stacks = go locks 9 (go locks 9 (go locks 4 (go locks 4 (go locks 4 (go locks 4 nobody)))))

lock_excludes_example :
    ((p q : ℕ)
      → 0 < p
      → 0 < q
      → holds (two_stacks.at p) ≡ true
      → holds (two_stacks.at q) ≡ true
      → p ≡ q)
    × ((q n : ℕ)
        → 0 < q
        → two_stacks.at q ≡ inside (suc n)
        → two_stacks.mutex ≡ record { owner = q; cnt = suc n })
    × ((q : ℕ) → 0 < q → two_stacks.at q ≢ aborted)
    × (two_stacks.mutex.owner ≡ 0 → two_stacks.mutex ≡ free_lock)
lock_excludes_example = lock_excludes (
    next
      (next
        (next
          (next (next (next here (moves locks 4 (omega arith))) (moves locks 4 (omega arith)))
            (moves locks 4 (omega arith)))
          (moves locks 4 (omega arith)))
        (moves locks 9 (omega arith)))
      (moves locks 9 (omega arith)))

-- Stack 4 holds it once, and stack 9 waits.
stack_4_holds : (two_stacks.at 4 ≡ inside 1) × (two_stacks.at 9 ≡ spin)
unfolding access
stack_4_holds = (refl, refl)

sample-Sized : Sized sample
sample-Sized = record { op_fits = omega arith; locals_fit = omega arith; pc_fits = omega arith }

no_classes-Lawful : Lawful no_classes
no_classes-Lawful = record { of_handlers = λ m s. s; of_inits = λ o m s. s }

op_process-Sized_example :
    Ensures (λ (e, m1). Sized m1) (op_process no_classes (push_op a) sample success)
op_process-Sized_example =
    op_process-Sized no_classes (push_op a) sample success no_classes-Lawful tt sample-Sized

product-Forward : Forward 0 (function_ops product)
product-Forward = ground arith

process-Ends_example : process no_classes (function_ops product) 10 sample ≢ none
process-Ends_example =
    process-Ends no_classes product 10 sample (λ m. refl) product-Forward (omega arith)
      (omega arith)
