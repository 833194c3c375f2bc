-- ===== src/Worker/Life.antt =====
-- The life of an ep `thread`: when its loop ends, and what a second `run` does.
use eparallel.Common.{
  Bool-cases, ◌≡◌, refl, ◌⊎◌, inl, inr, Bool, true, false, List, [], ◌∷◌, none, some, arith, ℤ, pos,
  is_neg,
}
use eparallel.Errno.{ep_thread_has_start}
use eparallel.Worker.{Thread, running, stopped, is_running, run_worker, run_rounds, run_thread}

-- A round that ends the loop: `m_run` was cleared, or `run_process` failed.
abbrev pub Ends : List (Bool × ℤ) → Type 0
Ends [] = ⊥
Ends ((false, r) ∷ rounds) = Unit {0}
Ends ((true, r) ∷ rounds) = (is_neg r ≡ true) ⊎ Ends rounds

rounds_end :
    (t : Thread) (ret : ℤ) (rounds : List (Bool × ℤ))
    → (Ends rounds
        → (r : ℤ) × (run_rounds t ret rounds
            ≡ some (r, record t { run = false; status = stopped })))
      × (¬ Ends rounds → run_rounds t ret rounds ≡ none)
unfolding run_rounds
rounds_end t ret [] = (λ e. absurd e, λ n. refl)
rounds_end t ret ((false, r) ∷ rounds) = (λ e. (ret, refl), λ n. absurd (n tt))
rounds_end t ret ((true, r) ∷ rounds) = elim (Bool-cases (is_neg r)) [
  | inl bad ↦ (λ e. (r, rw (bad, run_rounds)), λ n. absurd (n (inl bad)))
  | inr good ↦
      let ih = rounds_end t r rounds in
      (
        λ e. rw (good, run_rounds) (ih.0 (elim e [ inl bad ↦ cc | inr more ↦ more ])),
        λ n. rw (good, run_rounds) (ih.1 (λ e. n (inr e))),
      )
]

-- The loop of a thread ends exactly when `m_run` is cleared or `run_process` fails, and then the
-- thread stands as stopped, with `m_run` cleared and the rest as it was.
pub run_thread-Ends :
    (t : Thread) (rounds : List (Bool × ℤ))
    → (Ends rounds
        → (r : ℤ) × (run_thread t rounds ≡ some (r, record t { run = false; status = stopped })))
      × (¬ Ends rounds → run_thread t rounds ≡ none)
unfolding run_thread
run_thread-Ends t rounds = rounds_end (record t { status = running }) (pos 0) rounds

-- `run` looks at `m_status`, which only the new thread itself sets: a thread that was started and
-- has not reached its loop is started once more by a second `run`, for any two creations that do
-- not fail; once it has reached the loop, `run` is refused and changes nothing.
pub run_worker_again :
    (t : Thread) (c d : ℤ)
    → is_running t.status ≡ false
    → is_neg c ≡ false
    → is_neg d ≡ false
    → let t' = (run_worker t c).1 in
      ((run_worker t' d).0 ≡ d)
      × (run_worker (record t' { status = running }) d
          ≡ (ep_thread_has_start, record t' { status = running }))
unfolding run_worker
run_worker_again t c d s h k = (ground arith, ground arith)
