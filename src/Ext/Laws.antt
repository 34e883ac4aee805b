-- ===== src/Ext/Laws.antt =====
-- A row that `EnableExt` adds runs from the index that it is mapped to.
use rev.Prelude.{
  ℕ, ◌+◌, ◌-◌, ◌<◌, ◌≤◌, ◌≡◌, ◌≢◌, inl, inr, refl, ap, ◌∙◌, sym, arith, Bool, true, false, ne→==,
  eq→==, Bool-cases, List, [], ◌∷◌, ◌++◌, Option, none, some, ◌==◌, ltb, if◌then◌else◌, length,
  get_elem?, length-append,
}
use rev.Inst.{RevInstEntry}
use rev.Ext.Entries.{get_elem?-bound, get_elem?-last, get_elem?-before}
use rev.Ext.{RevExt, Enabled, keep_pair, push_row, last_index, execute, execute_in, reach}

-- The rows of an extension are marked as their table asks, and no compressed row has an index past
-- the table of the others.
pub record FitsExt (ext : RevExt) : Type 0 where
  pub table_long :
      (i : ℕ) (row : RevInstEntry) → get_elem? ext.table i ≡ some row → row.compressed ≡ false
  pub c_table_short :
      (i : ℕ) (row : RevInstEntry) → get_elem? ext.c_table i ≡ some row → row.compressed ≡ true
  pub c_table_bounded : length ext.c_table ≤ length ext.table

last_index_lem :
    (rows : List RevInstEntry) (i : ℕ) → i < length rows → ltb (last_index rows) i ≡ false
last_index_lem [] i below = absurd (omega (arith, below))
last_index_lem (row ∷ rows) i below = ground (arith, below)

-- The rows from `i` on have the flag and run from their indices.
unfoldable pub Runs : RevExt → Bool → ℕ → List RevInstEntry → Type 0
Runs ext compressed i rows =
    (k j : ℕ) (row : RevInstEntry)
    → get_elem? rows k ≡ some row
    → j ≡ i + k
    → (row.compressed ≡ compressed) × (execute ext j compressed ≡ some row)

pub table-Runs : (ext : RevExt) → FitsExt ext → Runs ext false 0 ext.table
unfolding execute Runs
table-Runs ext fits k j row e at =
    let same : j ≡ k = omega (arith, at) in
    (
      fits.table_long k row e,
      rw (same, last_index_lem ext.table k (get_elem?-bound ext.table k row e)) e,
    )

pub c_table-Runs : (ext : RevExt) → FitsExt ext → Runs ext true 0 ext.c_table
unfolding execute Runs
c_table-Runs ext fits k j row e at =
    let bound = get_elem?-bound ext.c_table k row e in
    let most = fits.c_table_bounded in
    let same : j ≡ k = omega (arith, at) in
    (
      fits.c_table_short k row e,
      rw (same, last_index_lem ext.table k (omega (arith, bound, most))) e,
    )

-- Entries past the table have no pair, and each entry runs the function of its row.
pub record IsMapped (s : Enabled) : Type 0 where
  pub past : (n : ℕ) → length s.inst_table ≤ n → s.entry_to_ext n ≡ none
  pub runs :
      (n : ℕ) (row : RevInstEntry)
      → get_elem? s.inst_table n ≡ some row
      → reach s.extensions (s.entry_to_ext n) row.compressed ≡ some row

unfoldable pub IsLast : Enabled → RevExt → Type 0
IsLast s ext = get_elem? s.extensions (length s.extensions - 1) ≡ some ext

keep_pair_lem :
    (o : Option (ℕ × ℕ)) (key n : ℕ) (p : ℕ × ℕ) (entries : ℕ → Option (ℕ × ℕ))
    → o ≡ none
    → keep_pair o key p entries n ≡ (if n == key then some p else entries n)
unfolding keep_pair
keep_pair_lem none key n p entries e = refl
keep_pair_lem (some old) key n p entries e = absurd (ground (arith, e))

push_row-entry :
    (i n : ℕ) (row : RevInstEntry) (s : Enabled)
    → IsMapped s
    → (push_row i row s).entry_to_ext n
      ≡ (if n == length s.inst_table then some (length s.extensions - 1, i) else s.entry_to_ext n)
unfolding push_row
push_row-entry i n row s ok =
    let key : length (s.inst_table ++ (row ∷ [])) - 1 ≡ length s.inst_table =
      omega (arith, length-append s.inst_table (row ∷ [])) in
    rw key (
      keep_pair_lem (s.entry_to_ext (length s.inst_table)) (length s.inst_table) n
        (length s.extensions - 1, i) s.entry_to_ext (ok.past (length s.inst_table) (omega arith)))

pub push_row-IsMapped :
    (ext : RevExt) (i : ℕ) (row : RevInstEntry) (s : Enabled)
    → IsLast s ext
    → execute ext i row.compressed ≡ some row
    → IsMapped s
    → IsMapped (push_row i row s)
unfolding push_row reach execute_in IsLast
push_row-IsMapped ext i row s last run ok = record {
  past = λ n beyond.
      let len = length-append s.inst_table (row ∷ []) in
      let other : n ≢ length s.inst_table = λ e. omega (arith, e, len, beyond) in
      push_row-entry i n row s ok
      ∙ rw (ne→== n (length s.inst_table) other) (ok.past n (omega (arith, len, beyond)));
  runs = λ n other e.
      ap (λ o. reach s.extensions o other.compressed) (push_row-entry i n row s ok)
      ∙ elim (Bool-cases (n == length s.inst_table)) [
        | inl here ↦
            let at : n ≡ length s.inst_table = ground (arith, here) in
            let same : some row ≡ some other =
              sym (get_elem?-last s.inst_table row)
              ∙ ap (get_elem? (s.inst_table ++ (row ∷ []))) (sym at)
              ∙ e in
            let equal : row ≡ other = ground (arith, same) in rw (here, sym equal, last) run
        | inr elsewhere ↦
            let away : n ≢ length s.inst_table =
              λ at. ground (arith, eq→== n (length s.inst_table) at, elsewhere) in
            rw elsewhere (ok.runs n other (sym (get_elem?-before s.inst_table row n away) ∙ e))
      ];
}
