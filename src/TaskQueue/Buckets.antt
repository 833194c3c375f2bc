-- ===== src/TaskQueue/Buckets.antt =====
-- The array of lists of `task_queue`, read as one list of entries.
use eparallel.Common.{
  ℕ, zero, suc, ◌+◌, ◌≤◌, ◌<◌, ◌≡◌, refl, ap, sym, ◌∙◌, List, [], ◌∷◌, ◌++◌, arith, length, get_or,
  set,
}
use eparallel.TaskQueue.Spec.{Entry, tag, enqueue}

-- The lists from priority `p` on, most urgent first.
abbrev pub entries : ℕ → List (List ℕ) → List Entry
entries p [] = []
entries p (l ∷ ls) = tag p l ++ entries (suc p) ls

abbrev pub total : List (List ℕ) → ℕ
total [] = 0
total (l ∷ ls) = length l + total ls

-- No list holds NULL.
abbrev pub NoNull : List ℕ → Type 0
NoNull [] = Unit {0}
NoNull (t ∷ ts) = (0 < t) × NoNull ts

abbrev pub NoNulls : List (List ℕ) → Type 0
NoNulls [] = Unit {0}
NoNulls (l ∷ ls) = NoNull l × NoNulls ls

abbrev pub AllEmpty : List (List ℕ) → Type 0
AllEmpty [] = Unit {0}
AllEmpty (l ∷ ls) = (l ≡ []) × AllEmpty ls

enqueue-tag :
    (p t b : ℕ) (l : List ℕ) (v : List Entry)
    → b ≤ p
    → enqueue p t (tag b l ++ v) ≡ tag b l ++ enqueue p t v
unfolding enqueue
enqueue-tag p t b [] v h = refl
enqueue-tag p t b (x ∷ l) v h = ground (arith, enqueue-tag p t b l v h)

enqueue-entries :
    (p t b : ℕ) (ls : List (List ℕ)) → p < b → enqueue p t (entries b ls) ≡ (p, t) ∷ entries b ls
unfolding enqueue
enqueue-entries p t b [] h = refl
enqueue-entries p t b ([] ∷ ls) h = enqueue-entries p t (suc b) ls (omega arith)
enqueue-entries p t b ((x ∷ l) ∷ ls) h = ground arith

tag-append :
    (b : ℕ) (l : List ℕ) (t : ℕ) (v : List Entry)
    → tag b (l ++ (t ∷ [])) ++ v ≡ tag b l ++ ((b, t) ∷ v)
tag-append b [] t v = refl
tag-append b (x ∷ l) t v = ap (◌∷◌ (b, x)) (tag-append b l t v)

-- A task put behind list number `i` is an entry enqueued at that priority.
pub entries-set_append :
    (ls : List (List ℕ)) (b i p t : ℕ)
    → p ≡ b + i
    → i < length ls
    → entries b (set ls i (get_or ls i [] ++ (t ∷ []))) ≡ enqueue p t (entries b ls)
entries-set_append [] b i p t e h = absurd (omega arith)
entries-set_append (l ∷ ls) b zero p t e h =
    let e' : p ≡ b = omega arith in
    rw e' (
      tag-append b l t (entries (suc b) ls)
      ∙ ap (◌++◌ (tag b l)) (sym (enqueue-entries b t (suc b) ls (omega arith)))
      ∙ sym (enqueue-tag b t b l (entries (suc b) ls) (omega arith)))
entries-set_append (l ∷ ls) b (suc i) p t e h =
    ap (◌++◌ (tag b l)) (entries-set_append ls (suc b) i p t (omega arith) (omega arith))
    ∙ sym (enqueue-tag p t b l (entries (suc b) ls) (omega arith))

pub total-set_append :
    (ls : List (List ℕ)) (i t : ℕ)
    → i < length ls
    → total (set ls i (get_or ls i [] ++ (t ∷ []))) ≡ suc (total ls)
total-set_append [] i t h = absurd (omega arith)
total-set_append (l ∷ ls) zero t h = omega (arith, length-snoc l t)
  where
    length-snoc : (l : List ℕ) (t : ℕ) → length (l ++ (t ∷ [])) ≡ suc (length l)
    length-snoc [] t = refl
    length-snoc (x ∷ l) t = ap suc (length-snoc l t)
total-set_append (l ∷ ls) (suc i) t h = omega (arith, total-set_append ls i t (omega arith))

pub NoNulls-set_append :
    (ls : List (List ℕ)) (i t : ℕ)
    → 0 < t
    → NoNulls ls
    → NoNulls (set ls i (get_or ls i [] ++ (t ∷ [])))
NoNulls-set_append [] i t h n = tt
NoNulls-set_append (l ∷ ls) zero t h n = (snoc l n.0, n.1)
  where
    snoc : (l : List ℕ) → NoNull l → NoNull (l ++ (t ∷ []))
    snoc [] m = (h, tt)
    snoc (x ∷ l) m = (m.0, snoc l m.1)
NoNulls-set_append (l ∷ ls) (suc i) t h n = (n.0, NoNulls-set_append ls i t h n.1)

pub AllEmpty-snoc : (pre : List (List ℕ)) → AllEmpty pre → AllEmpty (pre ++ ([] ∷ []))
AllEmpty-snoc [] h = (refl, tt)
AllEmpty-snoc (l ∷ pre) h = (h.0, AllEmpty-snoc pre h.1)

-- Behind a prefix of empty lists stands the first task.
pub entries-AllEmpty :
    (pre post : List (List ℕ)) (b : ℕ)
    → AllEmpty pre
    → entries b (pre ++ post) ≡ entries (b + length pre) post
entries-AllEmpty [] post b h = ap (λ k. entries k post) (omega arith)
entries-AllEmpty (l ∷ pre) post b h =
    rw (h.0) (entries-AllEmpty pre post (suc b) h.1 ∙ ap (λ k. entries k post) (omega arith))

pub get_or-append :
    (pre : List (List ℕ)) (l : List ℕ) (post : List (List ℕ))
    → get_or (pre ++ (l ∷ post)) (length pre) [] ≡ l
get_or-append [] l post = refl
get_or-append (x ∷ pre) l post = get_or-append pre l post

pub set-append :
    (pre : List (List ℕ)) (l m : List ℕ) (post : List (List ℕ))
    → set (pre ++ (l ∷ post)) (length pre) m ≡ pre ++ (m ∷ post)
set-append [] l m post = refl
set-append (x ∷ pre) l m post = ap (◌∷◌ x) (set-append pre l m post)

pub total-append : (pre post : List (List ℕ)) → total (pre ++ post) ≡ total pre + total post
total-append [] post = omega arith
total-append (l ∷ pre) post = omega (arith, total-append pre post)

length-tag-append :
    (b : ℕ) (l : List ℕ) (v : List Entry) → length (tag b l ++ v) ≡ length l + length v
length-tag-append b [] v = omega arith
length-tag-append b (x ∷ l) v = omega (arith, length-tag-append b l v)

pub length-entries : (ls : List (List ℕ)) (b : ℕ) → length (entries b ls) ≡ total ls
length-entries [] b = refl
length-entries (l ∷ ls) b =
    omega (arith, length-tag-append b l (entries (suc b) ls), length-entries ls (suc b))
