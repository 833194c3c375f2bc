-- ===== src/Be/Fifo/Settled.antt =====
-- The nodes of a `fifo` hang together, but for what pushes have yet to write.
use eparallel.Common.{
  update_at, update_ne, update_self, ℕ, suc, ◌≤◌, ◌<◌, ◌≡◌, ◌⊎◌, inl, inr, sym, ap, ap₂, ◌∙◌, arith,
  dec_eq,
}
use eparallel.Be.Fifo.{linking, Act, turn, start, Gives, World, run, Reach, here, then_run}
use eparallel.Be.Fifo.Order.{Inv, start-Inv, Reach-Inv}
use eparallel.Be.Fifo.Open.{Pending, turn-Settles}

run-Pending :
    {A : Type 0} (act : Act A) (t : ℕ) (w : World A)
    → Gives act w.shared
    → Inv w
    → Pending w
    → Pending (run act t w)
unfolding run
run-Pending act t w g v p k o =
    let pc = w.threads t in
    let after = (turn act t pc w.shared).1 in
    elim (turn-Settles t w.shared v.core act pc (v.claims t) g k o) [
      | inl e ↦ (t, update_self w.threads t after ∙ e)
      | inr was ↦
          let (s, q) = p k was.opened in
          let q' = q ∙ sym (ap₂ linking was.follow was.node) in
          elim (dec_eq s t) [
            | inr other ↦ (s, update_ne w.threads after other ∙ q')
            | inl same ↦ elim was.other [
              | inl never ↦ absurd (never (sym (ap w.threads same) ∙ q))
              | inr kept ↦ (s, update_at w.threads after same ∙ kept ∙ sym (ap w.threads same) ∙ q')
            ]
          ]
    ]

Reach-Pending : {A : Type 0} {w u : World A} → Inv w → Pending w → Reach w u → Pending u
Reach-Pending v p here = p
Reach-Pending v p (then_run {u = u} r act t g) =
    run-Pending act t u g (Reach-Inv v r) (Reach-Pending v p r)

-- However threads push and pop, from an empty queue and with an allocator that gives no address
-- twice: a node that no pop has taken holds the value of its push, and where a later push has made
-- its exchange, the next of the node is the node of that push, or it is NULL and some thread
-- is in that push between its exchange and the write of this next.
pub fifo_links :
    {A : Type 0} (sz : ℕ) (next : ℕ → ℕ) (val : ℕ → A) (w : World A) (k : ℕ)
    → Reach (start sz next val) w
    → w.shared.pops ≤ k
    → suc k < w.shared.pushes
    → (w.shared.val (w.shared.pushed_node k) ≡ w.shared.pushed_val k)
      × ((w.shared.next (w.shared.pushed_node k) ≡ w.shared.pushed_node (suc k))
          ⊎ ((w.shared.next (w.shared.pushed_node k) ≡ 0)
              × (s : ℕ) × (w.threads s
                  ≡ linking (w.shared.pushed_node (suc k)) (w.shared.pushed_node k))))
fifo_links sz next val w k r lo hi =
    let v = Reach-Inv (start-Inv sz next val) r in
    let p = Reach-Pending (start-Inv sz next val) (λ j (_, i, _). absurd (omega (arith, i))) r in
    let cell = v.core.cells k lo (omega (arith, hi)) in
    (
      cell.value,
      elim cell.linked [
        | inl z ↦ (let (s, e) = p k (lo, hi, z) in inr (z, s, e))
        | inr (_, e) ↦ inl e
      ],
    )
