-- ===== src/PanExec.antt =====
-- `PanExec` of src/PanExec.cc: the queue of entries to execute.
pub mod Laws
mod Tests
use rev.Prelude.{
  ℕ, ◌+◌, ◌==◌, leb, Bool, true, false, List, [], ◌∷◌, ◌++◌, length, Option, some, none, ◌>>=◌,
  if◌then◌else◌,
}

-- `PanStatus`.
pub data PanStatus : Type 0 where
  q_exec q_valid q_null q_error : PanStatus

-- An element of `ExecQueue`.
pub record Entry : Type 0 where
  pub idx : ℕ
  pub status : PanStatus
  pub addr : ℕ

pub record PanExec : Type 0 where
  pub cur_entry : ℕ
  pub exec_queue : List Entry

-- `_PANEXEC_MAX_ENTRY_`.
abbrev pub max_entry : ℕ
max_entry = 64

unfoldable pub get_new_entry : ℕ → ℕ
get_new_entry cur = let next = cur + 1 in if leb max_entry next then 0 else next

-- The index of the new entry, and the queue; `none` stands for `false`.
unfoldable pub add_entry : ℕ → PanExec → Option (ℕ × PanExec)
unfolding get_new_entry
add_entry addr s =
    let entry = get_new_entry s.cur_entry in
    let new : Entry = record { idx = entry; status = PanStatus.q_valid; addr = addr } in
    if length s.exec_queue == max_entry
    then none
    else some (entry, record { cur_entry = entry; exec_queue = s.exec_queue ++ (new ∷ []) })

unfoldable pub erase_entry : ℕ → List Entry → Option (List Entry)
erase_entry idx [] = none
erase_entry idx (e ∷ es) =
    let rest = erase_entry idx es in
    if idx == e.idx then some es else rest >>= (λ others. some (e ∷ others))

unfoldable pub remove_entry : ℕ → PanExec → Option PanExec
unfolding erase_entry
remove_entry idx s = erase_entry idx s.exec_queue >>= (λ es. some (record s { exec_queue = es }))

unfoldable pub find_status : ℕ → List Entry → PanStatus
find_status idx [] = PanStatus.q_error
find_status idx (e ∷ es) = let rest = find_status idx es in if idx == e.idx then e.status else rest

unfoldable pub status_entry : ℕ → PanExec → PanStatus
unfolding find_status
status_entry idx s = find_status idx s.exec_queue

abbrev pub is_valid : PanStatus → Bool
is_valid PanStatus.q_valid = true
is_valid _ = false

-- The first entry that is valid, before it was marked, and the queue with the mark.
unfoldable pub mark_first : List Entry → Option (Entry × List Entry)
mark_first [] = none
mark_first (e ∷ es) =
    let rest = mark_first es in
    if is_valid e.status
    then some (e, record e { status = PanStatus.q_exec } ∷ es)
    else rest >>= (λ (found, others). some (found, e ∷ others))

-- The status, and with QExec the index, the address and the queue.
unfoldable pub get_next_entry : PanExec → PanStatus × Option (ℕ × ℕ × PanExec)
unfolding mark_first
get_next_entry s =
    let none_valid : PanStatus × Option (ℕ × ℕ × PanExec) =
      (if length s.exec_queue == 0 then PanStatus.q_null else PanStatus.q_error, none) in
    elim (mark_first s.exec_queue) [
      | none ↦ none_valid
      | some (e, es) ↦ (PanStatus.q_exec, some (e.idx, e.addr, record s { exec_queue = es }))
    ]

-- The operations, with the state that each leaves; a call that returns no entry changes nothing.
pub data Operation : Type 0 where
  adds : ℕ → Operation
  removes : ℕ → Operation
  takes_next : Operation

unfoldable pub run : Operation → PanExec → Option PanExec
unfolding add_entry remove_entry get_next_entry
run (Operation.adds addr) s = add_entry addr s >>= (λ (i, s'). some s')
run (Operation.removes idx) s = remove_entry idx s
run Operation.takes_next s = (get_next_entry s).1 >>= (λ (i, addr, s'). some s')
