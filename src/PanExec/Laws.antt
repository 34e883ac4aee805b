-- ===== src/PanExec/Laws.antt =====
-- The queue of entries stays bounded, and its entries are taken in order.
use rev.Prelude.{
  ℕ, suc, ◌<◌, ◌≤◌, ◌≡◌, inl, inr, refl, sym, ap, arith, ◌==◌, Bool, true, false, Bool-cases, List,
  [], ◌∷◌, ◌++◌, All, All-append, length, length-append, Option, some, none, ◌>>=◌, if◌then◌else◌,
  bind-some, some-injective,
}
use mathlib.Core.Path.{subst}
use rev.PanExec.{
  PanStatus, Entry, PanExec, max_entry, get_new_entry, add_entry, erase_entry, remove_entry,
  is_valid, mark_first, get_next_entry, Operation, run,
}

-- An index of the queue.
abbrev IsIndex : Entry → Type 0
IsIndex e = e.idx < max_entry

-- No more entries than there are indexes, and every index is one.
pub record IsBounded (s : PanExec) : Type 0 where
  pub current : s.cur_entry < max_entry
  pub few : length s.exec_queue ≤ max_entry
  pub indexes : All IsIndex s.exec_queue

new_index : (cur : ℕ) → get_new_entry cur < max_entry
unfolding get_new_entry
new_index cur = ground arith

added-IsBounded :
    (addr i : ℕ) (s s' : PanExec) → IsBounded s → add_entry addr s ≡ some (i, s') → IsBounded s'
unfolding add_entry
added-IsBounded addr i s s' ok h =
    let entry = get_new_entry s.cur_entry in
    let new : Entry = record { idx = entry; status = PanStatus.q_valid; addr = addr } in
    let s1 : PanExec = record { cur_entry = entry; exec_queue = s.exec_queue ++ (new ∷ []) } in
    elim (Bool-cases (length s.exec_queue == max_entry)) [
      | inl full ↦ absurd (ground (arith, h, full))
      | inr room ↦
          let pair = some-injective (entry, s1) (i, s') (rw room at h) in
          subst (λ (p : ℕ × PanExec). IsBounded p.1) pair
            (record {
              current = new_index s.cur_entry;
              few = ground (arith, length-append s.exec_queue (new ∷ []), room, ok.few);
              indexes =
                  All-append IsIndex s.exec_queue (new ∷ []) ok.indexes (new_index s.cur_entry, tt);
            })
    ]

erased_lem :
    (idx : ℕ) (es others : List Entry)
    → erase_entry idx es ≡ some others
    → All IsIndex es
    → (length others ≤ length es) × All IsIndex others
unfolding erase_entry
erased_lem idx [] others h known = absurd (ground (arith, h))
erased_lem idx (e ∷ es) others h (known, knowns) = elim (Bool-cases (idx == e.idx)) [
  | inl here ↦
      subst (λ l. (length l ≤ suc (length es)) × All IsIndex l)
        (some-injective es others (rw here at h)) (omega arith, knowns)
  | inr there ↦
      let (l, found, last) =
        bind-some (erase_entry idx es) (λ l. some (e ∷ l)) others (rw there at h) in
      let (fewer, rest) = erased_lem idx es l found knowns in
      subst (λ l. (length l ≤ suc (length es)) × All IsIndex l) (some-injective (e ∷ l) others last)
        (omega (arith, fewer), (known, rest))
]

removed-IsBounded :
    (idx : ℕ) (s s' : PanExec) → IsBounded s → remove_entry idx s ≡ some s' → IsBounded s'
unfolding remove_entry
removed-IsBounded idx s s' ok h =
    let (es, found, last) =
      bind-some (erase_entry idx s.exec_queue) (λ es. some (record s { exec_queue = es })) s' h in
    let (fewer, rest) = erased_lem idx s.exec_queue es found ok.indexes in
    subst IsBounded (some-injective (record s { exec_queue = es }) s' last)
      (record { current = ok.current; few = omega (arith, fewer, ok.few); indexes = rest })

-- No entry of a list is valid.
abbrev pub Waits : Entry → Type 0
Waits e = is_valid e.status ≡ false

-- What `GetNextEntry` does: there is no entry at all, none is valid, or it takes the oldest valid one,
-- and nothing else of the queue changes.
pub data Served (s : PanExec) : PanStatus × Option (ℕ × ℕ × PanExec) → Type 0 where
  idle : s.exec_queue ≡ [] → Served s (PanStatus.q_null, none)
  busy : All Waits s.exec_queue → Served s (PanStatus.q_error, none)
  takes :
      (before : List Entry) (e : Entry) (after : List Entry)
      → s.exec_queue ≡ before ++ (e ∷ after)
      → All Waits before
      → e.status ≡ PanStatus.q_valid
      → Served s (
        PanStatus.q_exec,
        some (
          e.idx,
          e.addr,
          record s { exec_queue = before ++ (record e { status = PanStatus.q_exec } ∷ after) },
        ),
      )

-- The search of the oldest valid entry.
abbrev Marked : List Entry → Option (Entry × List Entry) → Type 0
Marked es none = All Waits es
Marked es (some (e, others)) =
    (before : List Entry) × (after : List Entry) × (es ≡ before ++ (e ∷ after))
    × All Waits before
    × (e.status ≡ PanStatus.q_valid)
    × (others ≡ before ++ (record e { status = PanStatus.q_exec } ∷ after))

valid_status : (p : PanStatus) → is_valid p ≡ true → p ≡ PanStatus.q_valid
valid_status PanStatus.q_valid h = refl
valid_status PanStatus.q_exec h = absurd (ground (arith, h))
valid_status PanStatus.q_null h = absurd (ground (arith, h))
valid_status PanStatus.q_error h = absurd (ground (arith, h))

behind_first :
    (e : Entry) (es : List Entry) (o : Option (Entry × List Entry))
    → Waits e
    → Marked es o
    → Marked (e ∷ es) (o >>= (λ (found, others). some (found, e ∷ others)))
behind_first e es none w h = (w, h)
behind_first e es (some (x, others)) w (before, after, q, ws, valid, q') =
    (e ∷ before, after, ap (λ l. e ∷ l) q, (w, ws), valid, ap (λ l. e ∷ l) q')

mark_first-Marked : (es : List Entry) → Marked es (mark_first es)
unfolding mark_first
mark_first-Marked [] = tt
mark_first-Marked (e ∷ es) = elim (Bool-cases (is_valid e.status)) [
  | inl valid ↦ rw valid ([], es, refl, tt, valid_status e.status valid, refl)
  | inr other ↦ rw other (behind_first e es (mark_first es) other (mark_first-Marked es))
]

empty_queue : (q : List Entry) → (length q == 0) ≡ true → q ≡ []
empty_queue [] h = refl
empty_queue (e ∷ es) h = absurd (ground (arith, h))

without_valid :
    (s : PanExec) (b : Bool)
    → (length s.exec_queue == 0) ≡ b
    → All Waits s.exec_queue
    → Served s (if b then PanStatus.q_null else PanStatus.q_error, none)
without_valid s true h waits = idle (empty_queue s.exec_queue h)
without_valid s false h waits = busy waits

next-Served :
    (s : PanExec) (o : Option (Entry × List Entry))
    → mark_first s.exec_queue ≡ o
    → Marked s.exec_queue o
    → Served s (get_next_entry s)
unfolding get_next_entry
next-Served s none e waits =
    rw (get_next_entry, e) (without_valid s (length s.exec_queue == 0) refl waits)
next-Served s (some (x, others)) e (before, after, q, ws, valid, q') =
    rw (get_next_entry, e)
      (subst (λ l. Served s (PanStatus.q_exec, some (x.idx, x.addr, record s { exec_queue = l })))
        (sym q') (takes before x after q ws valid))

-- GetNextEntry returns QNull for an empty queue and QError where no entry is valid. Otherwise it returns
-- QExec with the index and the address of the oldest valid entry, marks this entry as executing, and
-- changes nothing else.
pub get_next_entry-Served : (s : PanExec) → Served s (get_next_entry s)
get_next_entry-Served s =
    next-Served s (mark_first s.exec_queue) refl (mark_first-Marked s.exec_queue)

replaced_lem :
    (before : List Entry) (e : Entry) (after : List Entry)
    → All IsIndex (before ++ (e ∷ after))
    → (length (before ++ (record e { status = PanStatus.q_exec } ∷ after))
        ≡ length (before ++ (e ∷ after)))
      × All IsIndex (before ++ (record e { status = PanStatus.q_exec } ∷ after))
replaced_lem [] e after known = (refl, known)
replaced_lem (x ∷ before) e after (known, knowns) =
    let (same, rest) = replaced_lem before e after knowns in (ap suc same, (known, rest))

executing-IsBounded :
    (s s' : PanExec) (status : PanStatus) (o : Option (ℕ × ℕ × PanExec))
    → IsBounded s
    → Served s (status, o)
    → (o >>= (λ (i, addr, s'). some s')) ≡ some s'
    → IsBounded s'
executing-IsBounded s s' status o ok (Served.idle q) h = absurd (ground (arith, h))
executing-IsBounded s s' status o ok (Served.busy ws) h = absurd (ground (arith, h))
executing-IsBounded s s' status o ok (Served.takes before e after q ws valid) h =
    let s1 : PanExec = record s {
      exec_queue = before ++ (record e { status = PanStatus.q_exec } ∷ after);
    } in
    let (same, rest) = replaced_lem before e after (subst (All IsIndex) q ok.indexes) in
    subst IsBounded (some-injective s1 s' h) (record {
      current = ok.current;
      few = omega (arith, same, ap length q, ok.few);
      indexes = rest;
    })

-- A queue of 64 entries at most, whose indexes are below 64, stays so under AddEntry, RemoveEntry and
-- GetNextEntry.
pub run-IsBounded :
    (o : Operation) (s s' : PanExec) → IsBounded s → run o s ≡ some s' → IsBounded s'
unfolding run
run-IsBounded (Operation.adds addr) s s' ok h =
    let ((i, s1), e, last) = bind-some (add_entry addr s) (λ (i, s'). some s') s' h in
    subst IsBounded (some-injective s1 s' last) (added-IsBounded addr i s s1 ok e)
run-IsBounded (Operation.removes idx) s s' ok h = removed-IsBounded idx s s' ok h
run-IsBounded Operation.takes_next s s' ok h =
    executing-IsBounded s s' ((get_next_entry s).0) ((get_next_entry s).1) ok
      (get_next_entry-Served s) h
