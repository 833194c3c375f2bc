-- ===== src/Parallel/Destroy.antt =====
-- What an id that is not known does to the end of a `parallel`.
use eparallel.Common.{
  ℕ, ◌≡◌, ◌≢◌, refl, true, none, List, [], ◌∷◌, ltb, ◌==◌, arith, Bool-cases, inl, inr,
}
use eparallel.Errno.{ep_invalid_argu}
use eparallel.Parallel.{
  Parallel, JobCall, at_id, call_job, destroy_job, erase_job, recycle_all, destroy,
}

-- No job has the id.
abbrev pub Absent : ℕ → List (ℕ × ℕ) → Type 0
Absent id [] = Unit {0}
Absent id ((q, j) ∷ m) = (q ≢ id) × Absent id m

same_id : (id : ℕ) → (id == id) ≡ true
same_id id = ground arith

at_id-Absent :
    (id : ℕ) (m : List (ℕ × ℕ))
    → Absent id m
    → ((at_id id m).0 ≡ 0) × (recycle_all (at_id id m).1 ≡ none) × (erase_job id (at_id id m).1 ≡ m)
unfolding at_id recycle_all erase_job
at_id-Absent id [] a = (refl, refl, rw (same_id id) refl)
at_id-Absent id ((q, j) ∷ m) a = elim (Bool-cases (q == id)) [
  | inl y ↦ absurd (a.0 (ground (arith, y)))
  | inr n ↦ elim (Bool-cases (ltb id q)) [
    | inl l ↦ rw (n, l) (refl, refl, rw (same_id id) refl)
    | inr g ↦
        let (z, r, e) = at_id-Absent id m a.1 in
        rw (n, g)
          (
            z,
            elim (Bool-cases (j == 0)) [ inl i ↦ rw i refl | inr i ↦ rw (i, r) refl ],
            rw (n, e) refl,
          )
  ]
]

-- Where no job has the id: `run_job` and `cancel_job` call nothing and answer that the argument is
-- invalid, and then `destroy` has no result, since it uses a job that is NULL; `destroy_job`
-- answers the same, calls nothing, and leaves the jobs as they were.
pub call_job-Absent :
    (f : ℕ → JobCall) (p : Parallel) (id : ℕ)
    → Absent id p.jobs
    → ((call_job f p id).0 ≡ ep_invalid_argu)
      × ((call_job f p id).1 ≡ [])
      × (destroy (call_job f p id).2 ≡ none)
      × (destroy_job p id ≡ (ep_invalid_argu, [], p))
unfolding call_job destroy destroy_job
call_job-Absent f p id a =
    let (z, n, e) = at_id-Absent id p.jobs a in
    (rw z refl, rw z refl, rw (destroy, n) refl, simp (destroy_job, z, e))
