-- ===== src/Be/Fifo/Order.antt =====
-- Any threads that push and pop in any order.
use eparallel.Common.{update_at, update_ne, ℕ, ◌≤◌, ◌<◌, ◌≡◌, inl, inr, refl, arith, some, dec_eq}
use eparallel.Be.Fifo.{Act, turn, start, Gives, World, run, Reach, here, then_run}
use eparallel.Be.Fifo.Inv.{Core, Claim, Claim-Frame}
use eparallel.Be.Fifo.Turns.{turn-Stepped}

pub record Inv {A : Type 0} (w : World A) : Type 0 where
  pub core : Core w.shared
  pub claims : (t : ℕ) → Claim w.shared t (w.threads t)

pub run-Inv :
    {A : Type 0} (act : Act A) (t : ℕ) (w : World A)
    → Gives act w.shared
    → Inv w
    → Inv (run act t w)
unfolding run
run-Inv act t w g v =
    let r = turn-Stepped t w.shared v.core act (w.threads t) (v.claims t) g in
    record {
      core = r.core;
      claims = λ s. elim (dec_eq s t) [
        | inl same ↦
            rw (update_at w.threads (turn act t (w.threads t) w.shared).1 same, same) r.claim
        | inr other ↦
            rw (update_ne w.threads (turn act t (w.threads t) w.shared).1 other)
              (Claim-Frame r.frame s (w.threads s) other (v.claims s))
      ];
    }

pub Reach-Inv : {A : Type 0} {w u : World A} → Inv w → Reach w u → Inv u
Reach-Inv v here = v
Reach-Inv v (then_run {u = u} r act t g) = run-Inv act t u g (Reach-Inv v r)

pub start-Inv : {A : Type 0} (sz : ℕ) (next : ℕ → ℕ) (val : ℕ → A) → Inv (start sz next val)
start-Inv sz next val = record {
  core = record {
    counted = omega arith;
    cells = λ k lo hi. absurd (omega (arith, hi));
    ends = inl (refl, refl, refl);
    handed = λ k x e. absurd (ground (arith, e));
  };
  claims = λ t. tt;
}

-- However threads push and pop, from an empty queue and with an allocator that gives no address
-- twice: where the exchange of rank `k` among the pops has handed out a value, it is the value of
-- the push whose exchange has rank `k` among the pushes, `k` is below the number of exchanges of
-- pops, and there are no more of these than of pushes.
pub fifo_order :
    {A : Type 0} (sz : ℕ) (next : ℕ → ℕ) (val : ℕ → A) (w : World A) (k : ℕ) (x : A)
    → Reach (start sz next val) w
    → w.shared.popped_val k ≡ some x
    → (w.shared.pushed_val k ≡ x) × (k < w.shared.pops) × (w.shared.pops ≤ w.shared.pushes)
fifo_order sz next val w k x r e =
    let v = Reach-Inv (start-Inv sz next val) r in
    let (h, f) = v.core.handed k x e in (f, h, v.core.counted)
