-- ===== src/Ext/Tests.antt =====
-- An extension with one row of each kind.
use rev.Prelude.{ℕ, zero, suc, ◌≡◌, refl, sym, arith, true, false, [], ◌∷◌, none, some, get_elem?}
use rev.Inst.{RevInstEntry, rev_inst_defaults, Func}
use rev.RegFile.{RevFeature}
use rev.Fixtures.{feature}
use rev.Ext.{RevExt, Enabled, enable_ext, reach}
use rev.Ext.Laws.{FitsExt, IsMapped}
use rev.Ext.Enable.{enable_ext-IsMapped}
use rev.Ext.Seed.{Exts, FitsExts, seed_inst_table, seed_inst_table-IsMapped}

abbrev add_row : RevInstEntry
add_row = rev_inst_defaults Func.add

abbrev c_row : Func → RevInstEntry
c_row f = record (rev_inst_defaults f) { compressed = true }

abbrev ext : RevExt
ext = record {
  table = add_row ∷ [];
  c_table = c_row Func.caddi4spn ∷ [];
  o_table = c_row Func.jal ∷ [];
}

abbrev rv32c : RevFeature
rv32c = record (feature 32) { features = 0x42 }

abbrev nothing : Enabled
nothing = record { inst_table = []; extensions = []; entry_to_ext = λ _. none }

fits : FitsExt ext
fits = record { table_long = long; c_table_short = short; c_table_bounded = omega arith }
  where
    long :
        (i : ℕ) (row : RevInstEntry)
        → get_elem? (add_row ∷ []) i ≡ some row
        → row.compressed ≡ false
    long zero row e = let same : add_row ≡ row = ground (arith, e) in rw (sym same) refl
    long (suc i) row e = absurd (ground (arith, e))

    short :
        (i : ℕ) (row : RevInstEntry)
        → get_elem? (c_row Func.caddi4spn ∷ []) i ≡ some row
        → row.compressed ≡ true
    short zero row e =
        let same : c_row Func.caddi4spn ≡ row = ground (arith, e) in rw (sym same) refl
    short (suc i) row e = absurd (ground (arith, e))

nothing-IsMapped : IsMapped nothing
nothing-IsMapped = record { past = λ n h. refl; runs = λ n row e. absurd (ground (arith, e)) }

enable_ext-IsMapped_example : IsMapped (enable_ext rv32c ext false nothing)
enable_ext-IsMapped_example = enable_ext-IsMapped rv32c ext nothing fits nothing-IsMapped

abbrev exts : Exts
exts = record {
  rv32i = ext;
  rv64i = ext;
  rv32m = ext;
  rv64m = ext;
  rv32a = ext;
  rv64a = ext;
  rv32f = ext;
  rv64f = ext;
  rv32d = ext;
  rv64d = ext;
  rv64p = ext;
}

exts_fit : FitsExts exts
exts_fit = record {
  rv32i_fits = fits;
  rv64i_fits = fits;
  rv32m_fits = fits;
  rv64m_fits = fits;
  rv32a_fits = fits;
  rv64a_fits = fits;
  rv32f_fits = fits;
  rv64f_fits = fits;
  rv32d_fits = fits;
  rv64d_fits = fits;
  rv64p_fits = fits;
}

-- RV64IMC
abbrev rv64imc : RevFeature
rv64imc = record (feature 64) { features = 0x46 }

seed_inst_table-IsMapped_example : IsMapped (seed_inst_table rv64imc exts nothing)
seed_inst_table-IsMapped_example =
    seed_inst_table-IsMapped rv64imc exts refl nothing exts_fit nothing-IsMapped

-- An optional row runs the function of a compressed one.
optional_runs :
    (let s = enable_ext rv32c ext true nothing in reach s.extensions (s.entry_to_ext 2) true)
    ≡ some (c_row Func.caddi4spn)
unfolding enable_ext reach
optional_runs = refl
