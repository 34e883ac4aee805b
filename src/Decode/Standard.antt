-- ===== src/Decode/Standard.antt =====
-- `IsFloat` and the seven decoders of 32-bit formats in src/RevProc.cc. Each takes the register
-- file, the table row of `Entry`, the local `RevInst DInst` with the indeterminate values that it
-- starts from, and the instruction word. A field that a decoder does not write keeps such a value.
use rev.Prelude.{
  ℕ, ◌*◌, ◌/◌, ◌^◌, Bool, true, false, ◌&&◌, ◌||◌, bit_and, bit_or, ◌==◌, if◌then◌else◌,
}
use rev.Word.{u32}
use rev.Inst.{RevInst, RevInstEntry, RevRegClass, reg_unknown, reg_float, RevImmFunc, f_imm}
use rev.RegFile.{RevRegFile}
use rev.Decode.Macros.{
  decode_rd, decode_rs1, decode_rs2, decode_rs3, decode_imm12, decode_imm20, decode_funct7,
  decode_funct2, decode_funct3, decode_rl, decode_aq,
}

abbrev pub is_reg_float : RevRegClass → Bool
is_reg_float reg_float = true
is_reg_float _ = false

abbrev pub is_reg_unknown : RevRegClass → Bool
is_reg_unknown reg_unknown = true
is_reg_unknown _ = false

abbrev pub is_f_imm : RevImmFunc → Bool
is_f_imm f_imm = true
is_f_imm _ = false

unfoldable pub is_float : RevInstEntry → Bool
is_float e =
    is_reg_float e.rd_class
    || is_reg_float e.rs1_class
    || is_reg_float e.rs2_class
    || is_reg_float e.rs3_class

-- `DInst.rX = 0x0; if( class != RegUNKNOWN ) DInst.rX = field;`
abbrev pub reg_field : RevRegClass → ℕ → ℕ
reg_field c field = if is_reg_unknown c then 0 else field

-- `RegFile->cost = InstTable[Entry].cost`
abbrev pub charge : RevRegFile → RevInstEntry → RevRegFile
charge r e = record r { cost = e.cost }

module _ (r : RevRegFile) (e : RevInstEntry) (u : RevInst) (inst : ℕ) where
  unfoldable pub decode_r : RevRegFile × RevInst
  unfolding is_float
  decode_r =
      let atomic = e.opcode == 0b0101111 in
      (
        charge r e,
        record u {
          opcode = e.opcode;
          funct3 = e.funct3;
          funct2 = 0;
          funct7 = e.funct7;
          rd = reg_field e.rd_class (decode_rd inst);
          rs1 = reg_field e.rs1_class (decode_rs1 inst);
          rs2 = reg_field e.rs2_class (decode_rs2 inst);
          rs3 = 0;
          imm =
              if is_f_imm e.imm && is_reg_unknown e.rs2_class
              then bit_and (decode_imm12 inst) 0b011111
              else 0;
          fmt = 0;
          rm = if is_float e then decode_funct3 inst else 0;
          inst_size = 4;
          rl = if atomic then decode_rl inst else u.rl;
          aq = if atomic then decode_aq inst else u.aq;
          compressed = false;
        },
      )

  unfoldable pub decode_i : RevRegFile × RevInst
  unfolding is_float
  decode_i = (
    charge r e,
    record u {
      opcode = e.opcode;
      funct3 = e.funct3;
      funct2 = 0;
      funct7 = 0;
      rd = reg_field e.rd_class (decode_rd inst);
      rs1 = reg_field e.rs1_class (decode_rs1 inst);
      rs2 = 0;
      rs3 = 0;
      imm = decode_imm12 inst;
      fmt = 0;
      rm = if is_float e then decode_funct3 inst else 0;
      inst_size = 4;
      compressed = false;
    },
  )

  unfoldable pub decode_s : RevRegFile × RevInst
  unfolding is_float
  decode_s = (
    charge r e,
    record u {
      opcode = e.opcode;
      funct3 = e.funct3;
      funct2 = 0;
      funct7 = 0;
      rd = 0;
      rs1 = reg_field e.rs1_class (decode_rs1 inst);
      rs2 = reg_field e.rs2_class (decode_rs2 inst);
      rs3 = 0;
      imm = bit_or (decode_rd inst) (decode_funct7 inst * 2 ^ 5);
      fmt = 0;
      rm = if is_float e then decode_funct3 inst else 0;
      inst_size = 4;
      compressed = false;
    },
  )

  unfoldable pub decode_u : RevRegFile × RevInst
  decode_u = (
    charge r e,
    record u {
      opcode = e.opcode;
      funct3 = 0;
      funct2 = 0;
      funct7 = 0;
      rd = reg_field e.rd_class (decode_rd inst);
      rs1 = 0;
      rs2 = 0;
      rs3 = 0;
      imm = decode_imm20 inst;
      fmt = 0;
      rm = 0;
      inst_size = 4;
      compressed = false;
    },
  )

  unfoldable pub decode_b : RevRegFile × RevInst
  decode_b = (
    charge r e,
    record u {
      opcode = e.opcode;
      funct3 = e.funct3;
      funct2 = 0;
      funct7 = 0;
      rd = 0;
      rs1 = reg_field e.rs1_class (decode_rs1 inst);
      rs2 = reg_field e.rs2_class (decode_rs2 inst);
      rs3 = 0;
      imm =
          bit_or
            (bit_or
              (bit_or (bit_and (u32 (inst * 2 ^ 4)) 0b100000000000)
                (bit_and inst 0b111100000000 / 2 ^ 7))
              (bit_and (inst / 2 ^ 20) 0b11111100000))
            (bit_and (inst / 2 ^ 19) 0b1000000000000);
      fmt = 0;
      rm = 0;
      inst_size = 4;
      compressed = false;
    },
  )

  unfoldable pub decode_j : RevRegFile × RevInst
  decode_j = (
    charge r e,
    record u {
      opcode = e.opcode;
      funct3 = e.funct3;
      funct2 = 0;
      funct7 = 0;
      rd = reg_field e.rd_class (decode_rd inst);
      rs1 = 0;
      rs2 = 0;
      rs3 = 0;
      imm =
          bit_or
            (bit_or
              (bit_or (bit_and (inst / 2 ^ 20) 0b11111111110) (bit_and inst 0b11111111000000000000))
              (bit_and (inst / 2 ^ 9) 0b100000000000))
            (bit_and (inst / 2 ^ 11) 0b100000000000000000000);
      fmt = 0;
      rm = 0;
      inst_size = 4;
      compressed = false;
    },
  )

  unfoldable pub decode_r4 : RevRegFile × RevInst
  decode_r4 = (
    charge r e,
    record u {
      opcode = e.opcode;
      funct3 = e.funct3;
      funct2 = decode_funct2 inst;
      funct7 = e.funct7;
      rd = reg_field e.rd_class (decode_rd inst);
      rs1 = reg_field e.rs1_class (decode_rs1 inst);
      rs2 = reg_field e.rs2_class (decode_rs2 inst);
      rs3 = reg_field e.rs3_class (decode_rs3 inst);
      imm = 0;
      fmt = 0;
      rm = 0;
      inst_size = 4;
      compressed = false;
    },
  )
