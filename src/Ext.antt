-- ===== src/Ext.antt =====
-- `EnableExt` of src/RevProc.cc and the choice of the function in `Execute` of src/RevExt.cc: which
-- row of an extension an entry of the instruction table runs.
mod Entries
pub mod Laws
pub mod Enable
pub mod Seed
mod Tests
use rev.Prelude.{
  ℕ, zero, suc, ◌+◌, ◌-◌, ◌^◌, Bool, true, false, List, [], ◌∷◌, ◌++◌, Option, none, some, ◌==◌,
  ltb, if◌then◌else◌, length, get_elem?,
}
use rev.Inst.{RevInstEntry}
use rev.RegFile.{RevFeature}
use rev.Decode.Compressed.{has_compressed}

pub record RevExt : Type 0 where
  pub table : List RevInstEntry
  pub c_table : List RevInstEntry
  pub o_table : List RevInstEntry

-- `InstTable`, `Extensions` and `EntryToExt`.
pub record Enabled : Type 0 where
  pub inst_table : List RevInstEntry
  pub extensions : List RevExt
  pub entry_to_ext : ℕ → Option (ℕ × ℕ)

-- `EntryToExt.insert`, by what the key has: an old pair stays.
unfoldable pub keep_pair : Option (ℕ × ℕ) → ℕ → ℕ × ℕ → (ℕ → Option (ℕ × ℕ)) → ℕ → Option (ℕ × ℕ)
keep_pair none key p entries = λ k. if k == key then some p else entries k
keep_pair (some old) key p entries = entries

-- A round of a loop.
unfoldable pub push_row : ℕ → RevInstEntry → Enabled → Enabled
unfolding keep_pair
push_row i row s =
    let rows = s.inst_table ++ (row ∷ []) in
    let key = length rows - 1 in
    record s {
      inst_table = rows;
      entry_to_ext = keep_pair (s.entry_to_ext key) key (length s.extensions - 1, i) s.entry_to_ext;
    }

unfoldable pub push_rows : ℕ → List RevInstEntry → Enabled → Enabled
unfolding push_row
push_rows i [] s = s
push_rows i (row ∷ rows) s = push_rows (i + 1) rows (push_row i row s)

unfoldable pub enable_ext : RevFeature → RevExt → Bool → Enabled → Enabled
unfolding push_rows
enable_ext f ext opt s =
    let s1 = push_rows 0 ext.table (record s { extensions = s.extensions ++ (ext ∷ []) }) in
    let s2 = push_rows 0 ext.c_table s1 in
    if has_compressed f then (if opt then push_rows 0 ext.o_table s2 else s2) else s1

-- `table.size()-1` on 64 bits.
abbrev pub last_index : List RevInstEntry → ℕ
last_index [] = 2 ^ 64 - 1
last_index (row ∷ rows) = length rows

-- The row whose function `Execute` calls; an index out of range is fatal or undefined.
unfoldable pub execute : RevExt → ℕ → Bool → Option RevInstEntry
execute ext i compressed =
    if ltb (last_index ext.table) i
    then none
    else if compressed
    then get_elem? ext.c_table i
    else get_elem? ext.table i

unfoldable pub execute_in : Option RevExt → ℕ → Bool → Option RevInstEntry
unfolding execute
execute_in none i compressed = none
execute_in (some ext) i compressed = execute ext i compressed

-- The search of `EntryToExt` in `ClockTick`, and `Execute` of the extension.
unfoldable pub reach : List RevExt → Option (ℕ × ℕ) → Bool → Option RevInstEntry
unfolding execute_in
reach extensions none compressed = none
reach extensions (some (x, i)) compressed = execute_in (get_elem? extensions x) i compressed
