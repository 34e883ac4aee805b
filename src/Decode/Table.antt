-- ===== src/Decode/Table.antt =====
-- `CompressEncoding`, `CompressCEncoding` and the maps of `InitTableMapping` in src/RevProc.cc. The
-- map from mnemonics is left out: the override tables alone read it.
pub mod Laws
use rev.Prelude.{
  ℕ, zero, suc, ◌+◌, ◌*◌, ◌^◌, bit_or, List, [], ◌∷◌, Option, none, some, ◌==◌, if◌then◌else◌,
}
use rev.Word.{u32}
use rev.Inst.{RevInstEntry}

-- The fields that make a key: shifted to their places on 32 bits.
abbrev pub pack : ℕ → ℕ → ℕ → ℕ → ℕ → ℕ
pack opcode funct3 funct7 imm12 fpcvt_op =
    bit_or
      (bit_or (bit_or (bit_or opcode (u32 (funct3 * 2 ^ 8))) (u32 (funct7 * 2 ^ 11)))
        (u32 (imm12 * 2 ^ 18)))
      (u32 (fpcvt_op * 2 ^ 30))

unfoldable pub compress_encoding : RevInstEntry → ℕ
compress_encoding e = pack e.opcode e.funct3 e.funct7 e.imm12 e.fpcvt_op

abbrev pub pack_c : ℕ → ℕ → ℕ → ℕ → ℕ → ℕ
pack_c opcode funct2 funct3 funct4 funct6 =
    bit_or
      (bit_or (bit_or (bit_or opcode (u32 (funct2 * 2 ^ 2))) (u32 (funct3 * 2 ^ 4)))
        (u32 (funct4 * 2 ^ 8)))
      (u32 (funct6 * 2 ^ 12))

unfoldable pub compress_c_encoding : RevInstEntry → ℕ
compress_c_encoding e = pack_c e.opcode e.funct2 e.funct3 e.funct4 e.funct6

-- `EncToEntry` and `CEncToEntry`.
pub record Maps : Type 0 where
  pub enc_to_entry : ℕ → Option ℕ
  pub c_enc_to_entry : ℕ → Option ℕ

-- `insert` of a map, by what the key has: an old entry stays.
unfoldable pub keep : Option ℕ → ℕ → ℕ → (ℕ → Option ℕ) → ℕ → Option ℕ
keep none key i entries = λ k. if k == key then some i else entries k
keep (some old) key i entries = entries

unfoldable pub insert : ℕ → ℕ → (ℕ → Option ℕ) → ℕ → Option ℕ
unfolding keep
insert key i entries = keep (entries key) key i entries

-- A round of the loop.
unfoldable pub map_row : ℕ → RevInstEntry → Maps → Maps
unfolding insert compress_encoding compress_c_encoding
map_row i e maps =
    if e.compressed
    then record maps { c_enc_to_entry = insert (compress_c_encoding e) i maps.c_enc_to_entry }
    else record maps { enc_to_entry = insert (compress_encoding e) i maps.enc_to_entry }

unfoldable pub map_rows : ℕ → List RevInstEntry → Maps → Maps
unfolding map_row
map_rows i [] maps = maps
map_rows i (e ∷ es) maps = map_rows (i + 1) es (map_row i e maps)

unfoldable pub init_table_mapping : List RevInstEntry → Maps
unfolding map_rows
init_table_mapping table =
    map_rows 0 table (record { enc_to_entry = λ _. none; c_enc_to_entry = λ _. none })
