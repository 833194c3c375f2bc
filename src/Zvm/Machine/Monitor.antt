-- ===== src/Zvm/Machine/Monitor.antt =====
-- What `MONENTER` and `MONEXIT` leave of an object's lock.
use eparallel.Common.{ℕ, ◌<◌, ◌≡◌, ◌≢◌, ℤ, arith, some}
use eparallel.Zvm.Lock.{free_lock, lock, compare_exchange}
use eparallel.Zvm.Heap.{Res, ok, waits, ◌>>=◌, Obj, obj_lock}
use eparallel.Zvm.Machine.{Machine, Setting, op_process, monenter, monexit, success}

-- A stack enters and leaves the monitor of the object in `eax`.
abbrev pub critical : Setting → Machine → ℤ → Res (ℤ × Machine)
critical z m status = do (e, m1) ← op_process z monenter m status; op_process z monexit m1 e

-- `MONEXIT` takes the lock once more where `MONENTER` took it: a stack enters and leaves the
-- monitor of an object that nobody holds, both with success, and from there every other stack
-- that goes for the lock of the object waits.
pub critical-Held :
    (z : Setting) (m : Machine) (o : Obj) (status : ℤ) (other : ℕ)
    → 0 < m.eax
    → m.heap.objs m.eax ≡ some o
    → o.mutex ≡ free_lock
    → 0 < z.self
    → other ≢ z.self
    → ((critical z m status >>= λ (e, m2). ok e) ≡ ok success)
      × ((critical z m status >>= λ (e, m2). obj_lock other m2.heap m2.eax) ≡ waits)
unfolding op_process obj_lock lock compare_exchange
critical-Held z m o status other p e free s n =
    (ground (arith, e, free, p, s, n), ground (arith, e, free, p, s, n))
