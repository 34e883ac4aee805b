-- ===== src/Ext/Enable.antt =====
-- Each entry of the instruction table runs the function of its own row.
use rev.Prelude.{
  ℕ, suc, ◌+◌, ◌-◌, ◌≡◌, inl, inr, refl, ap, ◌∙◌, arith, Bool, true, false, Bool-cases, List, [],
  ◌∷◌, ◌++◌, Option, none, some, length, get_elem?, length-append,
}
use rev.Inst.{RevInstEntry}
use rev.RegFile.{RevFeature}
use rev.Decode.Compressed.{has_compressed}
use rev.Ext.Entries.{get_elem?-append, get_elem?-last}
use rev.Ext.Laws.{FitsExt, Runs, table-Runs, c_table-Runs, IsMapped, IsLast, push_row-IsMapped}
use rev.Ext.{RevExt, Enabled, push_row, push_rows, enable_ext, execute, execute_in, reach}

push_rows-extensions :
    (i : ℕ) (rows : List RevInstEntry) (s : Enabled)
    → (push_rows i rows s).extensions ≡ s.extensions
unfolding push_rows push_row
push_rows-extensions i [] s = refl
push_rows-extensions i (row ∷ rows) s = push_rows-extensions (i + 1) rows (push_row i row s)

push_rows-IsMapped :
    (ext : RevExt) (compressed : Bool) (i : ℕ) (rows : List RevInstEntry) (s : Enabled)
    → IsLast s ext
    → Runs ext compressed i rows
    → IsMapped s
    → IsMapped (push_rows i rows s)
unfolding push_rows push_row Runs IsLast
push_rows-IsMapped ext compressed i [] s last run ok = ok
push_rows-IsMapped ext compressed i (row ∷ rows) s last run ok =
    let (flag, first) = run 0 i row refl (omega arith) in
    push_rows-IsMapped ext compressed (i + 1) rows (push_row i row s) last
      (λ k j other e at. run (suc k) j other e (omega (arith, at)))
      (push_row-IsMapped ext i row s last (ap (execute ext i) flag ∙ first) ok)

execute_in-append :
    (extensions : List RevExt) (ext : RevExt) (x i : ℕ) (compressed : Bool) (row : RevInstEntry)
    → (o : Option RevExt) → get_elem? extensions x ≡ o
    → execute_in (get_elem? extensions x) i compressed ≡ some row
    → execute_in (get_elem? (extensions ++ (ext ∷ [])) x) i compressed ≡ some row
unfolding execute_in
execute_in-append extensions ext x i compressed row none e run =
    absurd (ground (arith, rw e at run))
execute_in-append extensions ext x i compressed row (some old) e run =
    rw (get_elem?-append extensions (ext ∷ []) x old e) (rw e at run)

reach-append :
    (extensions : List RevExt) (ext : RevExt) (o : Option (ℕ × ℕ)) (compressed : Bool)
    (row : RevInstEntry)
    → reach extensions o compressed ≡ some row
    → reach (extensions ++ (ext ∷ [])) o compressed ≡ some row
unfolding reach
reach-append extensions ext none compressed row run = run
reach-append extensions ext (some (x, i)) compressed row run =
    execute_in-append extensions ext x i compressed row (get_elem? extensions x) refl run

add_ext-IsMapped :
    (ext : RevExt) (s : Enabled)
    → IsMapped s
    → IsMapped (record s { extensions = s.extensions ++ (ext ∷ []) })
add_ext-IsMapped ext s ok = record {
  past = ok.past;
  runs = λ n row e.
      reach-append s.extensions ext (s.entry_to_ext n) row.compressed row (ok.runs n row e);
}

add_ext-IsLast :
    (ext : RevExt) (s : Enabled) → IsLast (record s { extensions = s.extensions ++ (ext ∷ []) }) ext
unfolding IsLast
add_ext-IsLast ext s =
    let last : length (s.extensions ++ (ext ∷ [])) - 1 ≡ length s.extensions =
      omega (arith, length-append s.extensions (ext ∷ [])) in
    rw last (get_elem?-last s.extensions ext)

-- EnableExt without the optional table keeps the instruction table mapped: each entry leads to the
-- extension and the index at which Execute runs the function of that entry's own row, and no entry
-- past the table has a pair. The rows of the extension's first table are not compressed, those of its
-- compressed table are, and the compressed table is not longer than the first.
pub enable_ext-IsMapped :
    (f : RevFeature) (ext : RevExt) (s : Enabled)
    → FitsExt ext
    → IsMapped s
    → IsMapped (enable_ext f ext false s)
unfolding enable_ext IsLast
enable_ext-IsMapped f ext s fits ok =
    let s0 : Enabled = record s { extensions = s.extensions ++ (ext ∷ []) } in
    let last = add_ext-IsLast ext s in
    let s1 =
      push_rows-IsMapped ext false 0 ext.table s0 last (table-Runs ext fits)
        (add_ext-IsMapped ext s ok) in
    let kept = push_rows-extensions 0 ext.table s0 in
    elim (Bool-cases (has_compressed f)) [
      | inl on ↦ rw on (
          push_rows-IsMapped ext true 0 ext.c_table (push_rows 0 ext.table s0) (rw kept last)
            (c_table-Runs ext fits) s1)
      | inr off ↦ rw off s1
    ]
