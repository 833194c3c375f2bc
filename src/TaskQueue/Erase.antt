-- ===== src/TaskQueue/Erase.antt =====
-- The search and erase of ep's `del_task`, against the removal of an entry.
use eparallel.Common.{
  ℕ, zero, suc, ◌+◌, ◌<◌, ◌≡◌, refl, ◌≢◌, List, [], ◌∷◌, ◌++◌, none, some, arith, length, get_elem?,
  set, inl, inr, Option-cases,
}
use eparallel.TaskQueue.Buckets.{entries, total, NoNull, NoNulls}
use eparallel.TaskQueue.{Entry, tag, remove_entry, erase_op}

-- The outcomes of the search of one list.
erase_op-remove_some :
    (b op : ℕ) (l : List ℕ) (v : List Entry) (r : List ℕ)
    → erase_op op l ≡ some r
    → remove_entry b op (tag b l ++ v) ≡ some (tag b r ++ v)
unfolding erase_op remove_entry
erase_op-remove_some b op [] v r e = cc
erase_op-remove_some b op (x ∷ l) v r e = elim (Option-cases (erase_op op l)) [
  | inl n ↦ ground arith
  | inr (r', s) ↦ ground (arith, erase_op-remove_some b op l v r' s)
]

erase_op-remove_none :
    (b op : ℕ) (l : List ℕ) (v : List Entry)
    → erase_op op l ≡ none
    → remove_entry b op v ≡ none
    → remove_entry b op (tag b l ++ v) ≡ none
unfolding erase_op remove_entry
erase_op-remove_none b op [] v e h = h
erase_op-remove_none b op (x ∷ l) v e h = elim (Option-cases (erase_op op l)) [
  | inl n ↦ ground (arith, erase_op-remove_none b op l v n h)
  | inr (r', s) ↦ ground arith
]

remove_entry-skip :
    (b p op : ℕ) (l : List ℕ) (v : List Entry)
    → b ≢ p
    → ((w : List Entry)
        → remove_entry p op v ≡ some w
        → remove_entry p op (tag b l ++ v) ≡ some (tag b l ++ w))
      × (remove_entry p op v ≡ none → remove_entry p op (tag b l ++ v) ≡ none)
unfolding remove_entry
remove_entry-skip b p op [] v h = (λ w e. e, λ e. e)
remove_entry-skip b p op (x ∷ l) v h =
    let ih = remove_entry-skip b p op l v h in
    (λ w e. ground (arith, ih.0 w e), λ e. ground (arith, ih.1 e))

remove_entry-above :
    (b p op : ℕ) (ls : List (List ℕ)) → p < b → remove_entry p op (entries b ls) ≡ none
unfolding remove_entry
remove_entry-above b p op [] h = refl
remove_entry-above b p op (l ∷ ls) h =
    (remove_entry-skip b p op l (entries (suc b) ls) (λ e. omega arith)).1
      (remove_entry-above (suc b) p op ls (omega arith))

-- A task erased from list number `i` is the entry of that priority removed.
pub remove_entry-set :
    (ls : List (List ℕ)) (b i p op : ℕ) (l r : List ℕ)
    → p ≡ b + i
    → get_elem? ls i ≡ some l
    → erase_op op l ≡ some r
    → remove_entry p op (entries b ls) ≡ some (entries b (set ls i r))
remove_entry-set [] b i p op l r e g s = cc
remove_entry-set (m ∷ ls) b zero p op l r e g s =
    let e' : p ≡ b = omega arith in
    rw e' (erase_op-remove_some b op m (entries (suc b) ls) r (ground (arith, g, s)))
remove_entry-set (m ∷ ls) b (suc i) p op l r e g s =
    (remove_entry-skip b p op m (entries (suc b) ls) (λ k. omega arith)).0
      (entries (suc b) (set ls i r)) (remove_entry-set ls (suc b) i p op l r (omega arith) g s)

-- A task that the search does not find has no entry of that priority.
pub remove_entry-missing :
    (ls : List (List ℕ)) (b i p op : ℕ) (l : List ℕ)
    → p ≡ b + i
    → get_elem? ls i ≡ some l
    → erase_op op l ≡ none
    → remove_entry p op (entries b ls) ≡ none
remove_entry-missing [] b i p op l e g s = cc
remove_entry-missing (m ∷ ls) b zero p op l e g s =
    let e' : p ≡ b = omega arith in
    rw e' (
      erase_op-remove_none b op m (entries (suc b) ls) (ground (arith, g, s))
        (remove_entry-above (suc b) b op ls (omega arith)))
remove_entry-missing (m ∷ ls) b (suc i) p op l e g s =
    (remove_entry-skip b p op m (entries (suc b) ls) (λ k. omega arith)).1
      (remove_entry-missing ls (suc b) i p op l (omega arith) g s)

erase_op-length :
    (op : ℕ) (l r : List ℕ)
    → erase_op op l ≡ some r
    → (length l ≡ suc (length r)) × (NoNull l → NoNull r)
unfolding erase_op
erase_op-length op [] r e = cc
erase_op-length op (x ∷ l) r e = elim (Option-cases (erase_op op l)) [
  | inl n ↦ (ground arith, λ k. ground arith)
  | inr (r', s) ↦
      let ih = erase_op-length op l r' s in (ground arith, λ k. ground (arith, ih.1 k.1))
]

pub erased_total :
    (ls : List (List ℕ)) (i op : ℕ) (l r : List ℕ)
    → get_elem? ls i ≡ some l
    → erase_op op l ≡ some r
    → (total ls ≡ suc (total (set ls i r))) × (NoNulls ls → NoNulls (set ls i r))
erased_total [] i op l r g s = cc
erased_total (m ∷ ls) zero op l r g s =
    let h = erase_op-length op m r (ground (arith, g, s)) in
    (omega (arith, h.0), λ k. (h.1 k.0, k.1))
erased_total (m ∷ ls) (suc i) op l r g s =
    let ih = erased_total ls i op l r g s in (omega (arith, ih.0), λ k. (k.0, ih.1 k.1))
