-- ===== src/Decode/Tests.antt =====
-- Instances of the round trips of the decoder.
use rev.Prelude.{
  ℕ, ◌≡◌, ◌≢◌, true, false, refl, arith, ap, List, [], ◌∷◌, Option, some, none, ◌>>=◌,
}
use rev.Inst.{
  RevInst, RevInstEntry, RevInstF, RevRegClass, reg_gpr, reg_unknown, rev_inst_defaults, Func,
}
use rev.RegFile.{RevRegFile, RevFeature}
use rev.Fixtures.{start, inst, feature}
use rev.Decode.Table.{init_table_mapping, compress_encoding, compress_c_encoding}
use rev.Decode.Table.Laws.{first_row, init_table_mapping_lem}
use rev.Decode.Dispatch.{decode_inst}
use rev.Decode.Dispatch.Encoded.{IsRegisterRow, op, decode_inst-encode_r}
use rev.Decode.Compressed.{c_encoding_of, decode_compressed}
use rev.Decode.Compressed.Laws.{first_c_row, by_c_row, decode_inst-decode_compressed}

abbrev is_known : RevRegClass → ℕ
is_known reg_unknown = 0
is_known _ = 1

gpr-known : reg_gpr ≢ reg_unknown
gpr-known e = absurd (omega (arith, ap is_known e))

-- The rows of `add` and `ebreak`.
abbrev add_row : RevInstEntry
add_row = record (rev_inst_defaults Func.add) { opcode = 0x33; format = RevInstF.type_r }

abbrev ebreak_row : RevInstEntry
ebreak_row = record (rev_inst_defaults Func.ebreak) {
  opcode = 0x73;
  imm12 = 1;
  format = RevInstF.type_i;
}

abbrev table : List RevInstEntry
table = ebreak_row ∷ add_row ∷ ebreak_row ∷ []

abbrev no_compressed : RevRegFile → ℕ → Option (RevRegFile × RevInst)
no_compressed r inst = none

init_table_mapping_lem_example :
    (init_table_mapping table).enc_to_entry 0x33 ≡ first_row 0x33 0 table
init_table_mapping_lem_example = init_table_mapping_lem 0x33 table

add_row-IsRegisterRow : IsRegisterRow table (inst 0) no_compressed add_row 1
unfolding first_row compress_encoding
add_row-IsRegisterRow = record {
  register_op = op;
  narrow_funct3 = omega arith;
  narrow_funct7 = omega arith;
  no_imm12 = refl;
  no_fpcvt_op = refl;
  first = refl;
  there = refl;
  type_r = refl;
  rd_known = gpr-known;
  rs1_known = gpr-known;
  rs2_known = gpr-known;
}

-- add x5, x6, x7
decode_inst-encode_r_example :
    (r' : RevRegFile) × (d : RevInst) × (decode_inst
        (init_table_mapping table)
        table
        none
        (inst 0)
        no_compressed
        start
        none
        0x0073_02B3
      ≡ some (r', d))
    × (r'.entry ≡ 1)
    × (r'.trigger ≡ false)
    × (d.opcode ≡ 0x33)
    × (d.funct3 ≡ 0)
    × (d.funct7 ≡ 0)
    × (d.rd ≡ 5)
    × (d.rs1 ≡ 6)
    × (d.rs2 ≡ 7)
decode_inst-encode_r_example =
    decode_inst-encode_r table (inst 0) no_compressed add_row 1 start 5 6 7 add_row-IsRegisterRow
      (omega arith) (omega arith) (omega arith)

-- c.add x5, x6
abbrev c_add_row : RevInstEntry
c_add_row = record (rev_inst_defaults Func.add) {
  opcode = 2;
  funct4 = 9;
  format = RevInstF.type_cr;
  compressed = true;
}

abbrev c_table : List RevInstEntry
c_table = add_row ∷ c_add_row ∷ []

abbrev rv64c : RevFeature
rv64c = record (feature 64) { features = 0x4A }

decode_inst-decode_compressed_example :
    decode_inst
      (init_table_mapping c_table)
      c_table
      none
      (inst 0)
      (decode_compressed rv64c (init_table_mapping c_table) c_table none (inst 0))
      start
      none
      0x929A
    ≡ (first_c_row (c_encoding_of 0x929A) 0 c_table
        >>= by_c_row rv64c c_table (inst 0) start 0x929A)
decode_inst-decode_compressed_example =
    decode_inst-decode_compressed rv64c c_table (inst 0) start 0x929A refl
      (λ e. absurd (omega (arith, e))) (λ e. absurd (omega (arith, e)))

c_add_decoded : first_c_row (c_encoding_of 0x929A) 0 c_table ≡ some 1
unfolding first_c_row c_encoding_of compress_c_encoding
c_add_decoded = refl

-- The word of `ebreak` has no row.
ebreak_undecoded :
    decode_inst (init_table_mapping table) table none (inst 0) no_compressed start none 0x0010_0073
    ≡ none
unfolding decode_inst init_table_mapping
ebreak_undecoded = refl
