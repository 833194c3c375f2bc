-- ===== src/Net/Thread/Drain.antt =====
-- How many operations a `process_op` takes.
use eparallel.Common.{ℕ, zero, suc, ◌<◌, ◌≡◌, refl, some, List, [], ◌∷◌, length, arith}
use eparallel.Net.Thread.{NetThread, NetOp, process_op, op_loop}

-- The operations one after the other.
abbrev pub all_ops : (NetOp → NetThread → NetThread) → List NetOp → NetThread → NetThread
all_ops h [] t = t
all_ops h (op ∷ ops) t = all_ops h ops (h op (record t { ops = ops }))

op_loop-all :
    (h : NetOp → NetThread → NetThread)
    → ((op : NetOp) (u : NetThread) → (h op u).ops ≡ u.ops)
    → (fuel : ℕ) (ops : List NetOp) (t : NetThread) → t.ops ≡ ops
    → length ops < fuel
    → (op_loop h 32 fuel 0 t ≡ some (ops, all_ops h ops t)) × ((all_ops h ops t).ops ≡ [])
unfolding op_loop
op_loop-all h q zero ops t e l = absurd (omega (arith, l))
op_loop-all h q (suc fuel) [] t e l = (simp (op_loop, e), e)
op_loop-all h q (suc fuel) (op ∷ ops) t e l =
    let (done, none_left) =
      op_loop-all h q fuel ops (h op (record t { ops = ops })) (q op _) (omega (arith, l)) in
    (rw (e, op_loop) (rw done refl), none_left)

-- Where the operations do not put in others: `process_op` takes all that wait, in their order,
-- also more than the 32 that its loop is to take at most, and leaves none; one round more than
-- there are is enough.
pub process_op-Drains :
    (h : NetOp → NetThread → NetThread) (fuel : ℕ) (t : NetThread)
    → ((op : NetOp) (u : NetThread) → (h op u).ops ≡ u.ops)
    → length t.ops < fuel
    → (process_op h fuel t ≡ some (t.ops, all_ops h t.ops t)) × ((all_ops h t.ops t).ops ≡ [])
unfolding process_op
process_op-Drains h fuel t q l = op_loop-all h q fuel t.ops t refl l
