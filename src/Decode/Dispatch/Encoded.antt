-- ===== src/Decode/Dispatch/Encoded.antt =====
-- What the words of the register instructions of the base sets decode to, without a coprocessor.
use rev.Prelude.{
  ℕ, ◌/◌, ◌^◌, ◌<◌, ◌≡◌, ◌≢◌, refl, ◌∙◌, arith, bit_and, false, List, Option, none, some, get_elem?,
}
use rev.Bits.{bit_and_mask, bit_and_field}
use rev.Inst.{RevInst, RevInstEntry, RevInstF, reg_unknown}
use rev.RegFile.{RevRegFile}
use rev.Decode.Encode.{encode_r}
use rev.Decode.Standard.{decode_r}
use rev.Decode.RoundTrip.{decode_r-encode_r}
use rev.Decode.Table.{pack, compress_encoding, init_table_mapping}
use rev.Decode.Table.Laws.{first_row}
use rev.Decode.Dispatch.{
  opcode_of, funct3_of, funct7_of, fcvt_op_of, imm12_of, encoding_of, decode_format, decode_inst,
}
use rev.Decode.Dispatch.Laws.{by_row, decode_inst_lem}

-- The opcodes OP and OP-32 of the manual.
pub data IsRegisterOp : ℕ → Type 0 where
  op : IsRegisterOp 0b0110011
  op_32 : IsRegisterOp 0b0111011

module _ (funct3 funct7 rd rs1 rs2 : ℕ) (h3 : funct3 < 2 ^ 3) (h7 : funct7 < 2 ^ 7)
    (hd : rd < 2 ^ 5) (h1 : rs1 < 2 ^ 5) (h2 : rs2 < 2 ^ 5) where
  opcode_lem : (o : ℕ) → o < 2 ^ 7 → opcode_of (encode_r o funct3 funct7 rd rs1 rs2) ≡ o
  opcode_lem o h = bit_and_mask 7 (encode_r o funct3 funct7 rd rs1 rs2) ∙ omega arith

  funct3_lem :
      (o : ℕ)
      → o < 2 ^ 7
      → bit_and (encode_r o funct3 funct7 rd rs1 rs2) 0b111000000000000 / 2 ^ 12 ≡ funct3
  funct3_lem o h =
      let word = encode_r o funct3 funct7 rd rs1 rs2 in omega (arith, bit_and_field 3 12 word)

  funct7_lem :
      (o : ℕ)
      → o < 2 ^ 7
      → bit_and (encode_r o funct3 funct7 rd rs1 rs2 / 2 ^ 25) 0b1111111 ≡ funct7
  funct7_lem o h = bit_and_mask 7 (encode_r o funct3 funct7 rd rs1 rs2 / 2 ^ 25) ∙ omega arith

  encoding_of-encode_r :
      (o : ℕ)
      → IsRegisterOp o
      → encoding_of (encode_r o funct3 funct7 rd rs1 rs2) ≡ pack o funct3 funct7 0 0
  unfolding encoding_of funct3_of funct7_of fcvt_op_of imm12_of
  encoding_of-encode_r _ op =
      rw
        (
          opcode_lem 0b0110011 (omega arith),
          funct3_lem 0b0110011 (omega arith),
          funct7_lem 0b0110011 (omega arith),
        )
        refl
  encoding_of-encode_r _ op_32 =
      rw
        (
          opcode_lem 0b0111011 (omega arith),
          funct3_lem 0b0111011 (omega arith),
          funct7_lem 0b0111011 (omega arith),
        )
        refl

module _ (table : List RevInstEntry) (u : RevInst)
    (compressed : RevRegFile → ℕ → Option (RevRegFile × RevInst)) (e : RevInstEntry) (n : ℕ) where
  -- The row number `n` of the table, the first with its key, for a register instruction of the base
  -- sets: its format has registers that are known, and its key no other fields than the functs.
  pub record IsRegisterRow : Type 0 where
    pub register_op : IsRegisterOp e.opcode
    pub narrow_funct3 : e.funct3 < 2 ^ 3
    pub narrow_funct7 : e.funct7 < 2 ^ 7
    pub no_imm12 : e.imm12 ≡ 0
    pub no_fpcvt_op : e.fpcvt_op ≡ 0
    pub first : first_row (compress_encoding e) 0 table ≡ some n
    pub there : get_elem? table n ≡ some e
    pub type_r : e.format ≡ RevInstF.type_r
    pub rd_known : e.rd_class ≢ reg_unknown
    pub rs1_known : e.rs1_class ≢ reg_unknown
    pub rs2_known : e.rs2_class ≢ reg_unknown

  narrow_op : (o : ℕ) → IsRegisterOp o → o < 2 ^ 7
  narrow_op _ op = omega arith
  narrow_op _ op_32 = omega arith

  op_positive : (o : ℕ) → IsRegisterOp o → 0 < o
  op_positive _ op = omega arith
  op_positive _ op_32 = omega arith

  long_word : (o : ℕ) → IsRegisterOp o → bit_and o 0b11 ≡ 0b11
  long_word _ op = refl
  long_word _ op_32 = refl

  not_float : (o : ℕ) → IsRegisterOp o → bit_and o 0b1100000 / 2 ^ 5 ≢ 0b10
  not_float _ op h = omega (arith, h)
  not_float _ op_32 h = omega (arith, h)

  keyed :
      (rd rs1 rs2 : ℕ)
      → IsRegisterRow
      → rd < 2 ^ 5
      → rs1 < 2 ^ 5
      → rs2 < 2 ^ 5
      → encoding_of (encode_r e.opcode e.funct3 e.funct7 rd rs1 rs2) ≡ compress_encoding e
  unfolding compress_encoding
  keyed rd rs1 rs2 row hd h1 h2 =
      rw (row.no_imm12, row.no_fpcvt_op)
        (encoding_of-encode_r e.funct3 e.funct7 rd rs1 rs2 row.narrow_funct3 row.narrow_funct7 hd h1
          h2 e.opcode row.register_op)

  -- Let a row of the table be the first with its key, have the opcode of OP or OP-32, functs of 3 and
  -- 7 bits, no other field in its key, the format R and known register classes. The word that the
  -- manual gives its instruction for three registers decodes, with no crack fault and no
  -- coprocessor, to that row and to these registers: the entry is the row's number and the trigger
  -- is cleared.
  pub decode_inst-encode_r :
      (r : RevRegFile) (rd rs1 rs2 : ℕ)
      → IsRegisterRow
      → rd < 2 ^ 5
      → rs1 < 2 ^ 5
      → rs2 < 2 ^ 5
      → (r' : RevRegFile) × (d : RevInst) × (decode_inst
            (init_table_mapping table)
            table
            none
            u
            compressed
            r
            none
            (encode_r e.opcode e.funct3 e.funct7 rd rs1 rs2)
          ≡ some (r', d))
        × (r'.entry ≡ n)
        × (r'.trigger ≡ false)
        × (d.opcode ≡ e.opcode)
        × (d.funct3 ≡ e.funct3)
        × (d.funct7 ≡ e.funct7)
        × (d.rd ≡ rd)
        × (d.rs1 ≡ rs1)
        × (d.rs2 ≡ rs2)
  unfolding decode_r decode_format by_row
  decode_inst-encode_r r rd rs1 rs2 row hd h1 h2 =
      let word = encode_r e.opcode e.funct3 e.funct7 rd rs1 rs2 in
      let r1 : RevRegFile = record r { entry = n; trigger = false } in
      let same =
        opcode_lem e.funct3 e.funct7 rd rs1 rs2 row.narrow_funct3 row.narrow_funct7 hd h1 h2
          e.opcode (narrow_op e.opcode row.register_op) in
      let key : encoding_of word ≡ compress_encoding e = keyed rd rs1 rs2 row hd h1 h2 in
      let found =
        decode_inst_lem table u compressed r word
          (λ h. omega (arith, h, op_positive e.opcode row.register_op))
          (rw same (long_word e.opcode row.register_op))
          (rw same (not_float e.opcode row.register_op)) in
      let (same_rd, same_rs1, same_rs2) =
        decode_r-encode_r r1 e u e.opcode e.funct3 e.funct7 rd rs1 rs2
          (narrow_op e.opcode row.register_op) row.narrow_funct3 row.narrow_funct7 hd h1 h2
          row.rd_known row.rs1_known row.rs2_known in
      (
        (decode_r r1 e u word).0,
        (decode_r r1 e u word).1,
        found ∙ rw (key, row.first, row.there, row.type_r) refl,
        refl,
        refl,
        refl,
        refl,
        refl,
        same_rd,
        same_rs1,
        same_rs2,
      )
