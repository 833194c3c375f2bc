-- ===== src/TaskQueue/Spec.antt =====
-- The contract of ep's `task_queue`: a list of entries, in the order in which they leave.
use eparallel.Common.{
  ℕ, ℤ, pos, Bool, true, List, [], ◌∷◌, Option, none, some, leb, ◌==◌, ◌&&◌, if◌then◌else◌,
}
use eparallel.Errno.{fail, ep_invalid_task_priority, ep_task_not_in_queue}

abbrev pub null : ℕ
null = 0

-- `task_queue::MAX_PRIORITY_NUM`
abbrev pub max_priority_num : ℕ
max_priority_num = 32

-- A priority and a task.
abbrev pub Entry : Type 0
Entry = ℕ × ℕ

abbrev pub tag : ℕ → List ℕ → List Entry
tag p [] = []
tag p (t ∷ ts) = (p, t) ∷ tag p ts

abbrev pub tasks : List Entry → List ℕ
tasks [] = []
tasks ((p, t) ∷ v) = t ∷ tasks v

-- A new entry goes behind all those of its own and of more urgent (lower) priorities.
unfoldable pub enqueue : ℕ → ℕ → List Entry → List Entry
enqueue p t [] = (p, t) ∷ []
enqueue p t ((k, x) ∷ v) =
    let rest = (k, x) ∷ enqueue p t v in if leb k p then rest else (p, t) ∷ (k, x) ∷ v

-- The first entry of this priority and task is taken out; `none` when there is none.
unfoldable pub remove_entry : ℕ → ℕ → List Entry → Option (List Entry)
remove_entry p t [] = none
remove_entry p t ((k, x) ∷ v) =
    let rest = remove_entry p t v in
    if k == p && x == t then some v else elim rest [ none ↦ none | some r ↦ some ((k, x) ∷ r) ]

-- The calls of a client: a task and its priority, where the call has them.
pub data Op : Type 0 where
  add : ℕ → ℕ → Op
  take : Op
  del : ℕ → ℕ → Op
  shut : Op

-- What a call returns: a code, a task (NULL for none), or an access outside an array.
pub data Reply : Type 0 where
  code : ℤ → Reply
  got : ℕ → Reply
  fault : Reply

pub record Contract : Type 0 where
  pub waiting : List Entry
  pub closed : Bool

abbrev first_out : List Entry → Bool → Reply × Contract
first_out [] c = (got null, record { waiting = []; closed = c })
first_out ((k, t) ∷ v) c = (got t, record { waiting = v; closed = c })

unfoldable pub contract_step : Contract → Op → Reply × Contract
unfolding enqueue remove_entry
contract_step s (add t p) =
    if leb max_priority_num p
    then (code ep_invalid_task_priority, s)
    else if s.closed
    then (code fail, s)
    else (code (pos 0), record s { waiting = enqueue p t s.waiting })
contract_step s take = first_out s.waiting s.closed
contract_step s (del t p) = elim (remove_entry p t s.waiting) [
  | none ↦ (code ep_task_not_in_queue, s)
  | some v ↦ (code (pos 0), record s { waiting = v })
]
contract_step s shut = (code (pos 0), record s { closed = true })

unfoldable pub contract_run : Contract → List Op → List Reply
unfolding contract_step
contract_run s [] = []
contract_run s (o ∷ os) = let (r, s') = contract_step s o in r ∷ contract_run s' os
