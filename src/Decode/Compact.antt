-- ===== src/Decode/Compact.antt =====
-- The nine decoders of compressed formats in src/RevProc.cc. `inst` is the uint16_t `Inst`; as in
-- `Standard`, `u` holds the indeterminate values of the local `CompInst`.
use rev.Prelude.{
  ℕ, ◌+◌, ◌*◌, ◌/◌, ◌%◌, ◌^◌, true, ◌&&◌, bit_and, bit_or, leb, ltb, ◌==◌, ◌!=◌, if◌then◌else◌,
}
use rev.Word.{u16}
use rev.Inst.{RevInst, RevInstEntry}
use rev.RegFile.{RevRegFile, RevFeature}
use rev.Decode.Macros.{decode_rd, decode_lower_crs2}
use rev.Decode.Standard.{charge}

infixl 75 ◌>>>◌ ◌<<<◌
abbrev pub ◌>>>◌ : ℕ → ℕ → ℕ
x >>> k = x / 2 ^ k

abbrev pub ◌<<<◌ : ℕ → ℕ → ℕ
x <<< k = x * 2 ^ k

-- `std::bitset::operator[]`, as 0 or 1.
abbrev pub bit_at : ℕ → ℕ → ℕ
bit_at x i = x / 2 ^ i % 2

-- `CompInst.imm` of DecodeCIInst, by the row's `opcode` and `funct3`. The mask 1100 of `c.lwsp`
-- and `c.flwsp` is decimal in the source.
pub ci_imm : RevFeature → RevInstEntry → ℕ → ℕ
ci_imm f e inst =
    let rd = decode_rd inst in
    let plain = bit_or (decode_lower_crs2 inst) (bit_and inst 0b1000000000000 >>> 7) in
    let scaled8 =
      bit_or (bit_or (bit_and inst 0b1100000 >>> 2) (bit_and inst 0b1000000000000 >>> 7))
        (bit_and inst 0b11100 <<< 4) in
    let scaled4 =
      bit_or (bit_or (bit_and inst 0b1110000 >>> 2) (bit_and inst 0b1000000000000 >>> 7))
        (bit_and inst 1100 <<< 4) in
    let addi16sp =
      bit_or
        (bit_or
          (bit_or (bit_or (bit_and inst 0b1000000 >>> 2) (bit_and inst 0b100 <<< 3))
            (bit_and inst 0b100000 <<< 1))
          (bit_and inst 0b11000 <<< 4))
        (bit_and inst 0b1000000000000 >>> 3) in
    let lui = bit_or (bit_and inst 0b1111100 <<< 10) (bit_and inst 0b1000000000000 <<< 5) in
    let li = bit_or (bit_and inst 0b1111100 >>> 2) (bit_and inst 0b1000000000000 >>> 7) in
    if e.opcode == 0b10 && e.funct3 == 0b001
    then scaled8
    else if e.opcode == 0b10 && e.funct3 == 0b010
    then scaled4
    else if e.opcode == 0b10 && e.funct3 == 0b011
    then (if f.xlen == 64 then scaled8 else scaled4)
    else if e.opcode == 0b01 && e.funct3 == 0b011 && rd == 2
    then (if ltb 0 (bit_and addi16sp 0b1000000000)
        then bit_or addi16sp 0b11111111111111111111111000000000
        else addi16sp)
    else if e.opcode == 0b01 && e.funct3 == 0b011 && rd != 0 && rd != 2
    then (if ltb 0 (bit_and lui 0b100000000000000000)
        then bit_or lui 0b11111111111111000000000000000000
        else lui)
      >>> 12
    else if e.opcode == 0b01 && e.funct3 == 0b010 && rd != 0
    then (if ltb 0 (bit_and li 0b100000) then bit_or li 0b11111111111111111111111111000000 else li)
    else if ltb 0 (bit_and plain 0b100000)
    then bit_or plain 0b11111111111111111111111111100000
    else plain

-- `CompInst.imm` of DecodeCSSInst.
pub css_imm : RevFeature → RevInstEntry → ℕ → ℕ
css_imm f e inst =
    let scaled8 = bit_or (bit_and inst 0b1110000000000 >>> 7) (bit_and inst 0b1110000000 >>> 1) in
    let scaled4 = bit_or (bit_and inst 0b1111000000000 >>> 7) (bit_and inst 0b110000000 >>> 1) in
    if e.funct3 == 0b101
    then scaled8
    else if e.funct3 == 0b110
    then scaled4
    else if e.funct3 == 0b111
    then (if f.xlen == 64 then scaled8 else scaled4)
    else bit_and inst 0b1111110000000 >>> 7

-- The swizzle nzuimm[5:4|9:6|2|3] of DecodeCIWInst.
pub ciw_imm : ℕ → ℕ
ciw_imm inst =
    let imm = bit_and inst 0b1111111100000 >>> 5 in
    bit_at imm 1
    + bit_at imm 0 * 2 ^ 1
    + bit_at imm 6 * 2 ^ 2
    + bit_at imm 7 * 2 ^ 3
    + bit_at imm 2 * 2 ^ 4
    + bit_at imm 3 * 2 ^ 5
    + bit_at imm 4 * 2 ^ 6
    + bit_at imm 5 * 2 ^ 7

-- `CompInst.imm` of DecodeCLInst; it is not written for the other values of `funct3`.
pub cl_imm : RevFeature → RevInstEntry → RevInst → ℕ → ℕ
cl_imm f e u inst =
    let scaled8 = bit_or (bit_and inst 0b1100000 <<< 1) (bit_and inst 0b1110000000000 >>> 7) in
    let scaled4 =
      bit_or (bit_or (bit_and inst 0b100000 <<< 1) (bit_and inst 0b1000000 >>> 4))
        (bit_and inst 0b1110000000000 >>> 7) in
    if e.funct3 == 0b001
    then scaled8
    else if e.funct3 == 0b010
    then scaled4
    else if e.funct3 == 0b011
    then (if f.xlen == 64 then scaled8 else scaled4)
    else if e.funct3 == 0b101
    then scaled8
    else if e.funct3 == 0b110
    then scaled4
    else if e.funct3 == 0b111
    then (if f.xlen == 64 then scaled8 else scaled4)
    else u.imm

-- `CompInst.imm` of DecodeCSInst. For `c.fsw` the second assignment drops the first.
pub cs_imm : RevFeature → RevInstEntry → ℕ → ℕ
cs_imm f e inst =
    if e.funct3 == 0b110
    then bit_or (bit_or (bit_and inst 0b0100000 <<< 1) (bit_and inst 0b01110000000000 >>> 6))
        (bit_and inst 0b01000000 >>> 4)
    else if f.xlen == 32
    then bit_or (bit_and inst 0b01000000 <<< 4) (bit_and inst 0b01110000000000 >>> 7)
    else bit_or (bit_and inst 0b01100000 <<< 1) (bit_and inst 0b01110000000000 >>> 7)

-- `CompInst.offset` of DecodeCBInst: the swizzle offset[8|4:3] offset[7:6|2:1|5], for branches.
pub cb_offset : RevInstEntry → ℕ → ℕ
cb_offset e inst =
    let o = bit_or (bit_and inst 0b1111100 >>> 2) (bit_and inst 0b1110000000000 >>> 5) in
    let tmp =
      if e.opcode == 0b01 && leb 0b110 e.funct3
      then bit_at o 1
        + bit_at o 2 * 2 ^ 1
        + bit_at o 5 * 2 ^ 2
        + bit_at o 6 * 2 ^ 3
        + bit_at o 0 * 2 ^ 4
        + bit_at o 3 * 2 ^ 5
        + bit_at o 4 * 2 ^ 6
        + bit_at o 7 * 2 ^ 7
      else 0 in
    u16 (tmp <<< 1)

-- `CompInst.jumpTarget` of DecodeCJInst: the swizzle offset[11|4|9:8|10|6|7|3:1|5].
pub cj_target : ℕ → ℕ
cj_target inst =
    let offset = bit_and inst 0b1111111111100 >>> 2 in
    let target =
      bit_at offset 1
      + bit_at offset 2 * 2 ^ 1
      + bit_at offset 3 * 2 ^ 2
      + bit_at offset 9 * 2 ^ 3
      + bit_at offset 0 * 2 ^ 4
      + bit_at offset 5 * 2 ^ 5
      + bit_at offset 4 * 2 ^ 6
      + bit_at offset 7 * 2 ^ 7
      + bit_at offset 8 * 2 ^ 8
      + bit_at offset 6 * 2 ^ 9
      + bit_at offset 10 * 2 ^ 10 in
    u16 (target <<< 1)

module _ (f : RevFeature) (r : RevRegFile) (e : RevInstEntry) (u : RevInst) (inst : ℕ) where
  unfoldable pub decode_cr : RevRegFile × RevInst
  decode_cr = (
    charge r e,
    record u {
      opcode = e.opcode;
      funct4 = e.funct4;
      rd = decode_rd inst;
      rs1 = decode_rd inst;
      rs2 = decode_lower_crs2 inst;
      imm = 0;
      inst_size = 2;
      compressed = true;
    },
  )

  unfoldable pub decode_ci : RevRegFile × RevInst
  unfolding ci_imm
  decode_ci = (
    charge r e,
    record u {
      opcode = e.opcode;
      funct3 = e.funct3;
      rd = decode_rd inst;
      rs1 = decode_rd inst;
      imm = ci_imm f e inst;
      inst_size = 2;
      compressed = true;
    },
  )

  unfoldable pub decode_css : RevRegFile × RevInst
  unfolding css_imm
  decode_css = (
    charge r e,
    record u {
      opcode = e.opcode;
      funct3 = e.funct3;
      rs2 = decode_lower_crs2 inst;
      imm = css_imm f e inst;
      inst_size = 2;
      compressed = true;
    },
  )

  unfoldable pub decode_ciw : RevRegFile × RevInst
  unfolding ciw_imm
  decode_ciw = (
    charge r e,
    record u {
      opcode = e.opcode;
      funct3 = e.funct3;
      rd = bit_and inst 0b11100 >>> 2;
      imm = ciw_imm inst;
      inst_size = 2;
      compressed = true;
    },
  )

  unfoldable pub decode_cl : RevRegFile × RevInst
  unfolding cl_imm
  decode_cl = (
    charge r e,
    record u {
      opcode = e.opcode;
      funct3 = e.funct3;
      rd = bit_and inst 0b11100 >>> 2;
      rs1 = bit_and inst 0b1110000000 >>> 7;
      imm = cl_imm f e u inst;
      inst_size = 2;
      compressed = true;
    },
  )

  unfoldable pub decode_cs : RevRegFile × RevInst
  unfolding cs_imm
  decode_cs = (
    charge r e,
    record u {
      opcode = e.opcode;
      funct3 = e.funct3;
      rs2 = bit_and inst 0b011100 >>> 2;
      rs1 = bit_and inst 0b01110000000 >>> 7;
      imm = cs_imm f e inst;
      inst_size = 2;
      compressed = true;
    },
  )

  unfoldable pub decode_ca : RevRegFile × RevInst
  decode_ca = (
    charge r e,
    record u {
      opcode = e.opcode;
      funct2 = e.funct2;
      funct6 = e.funct6;
      rs2 = bit_and inst 0b11100 >>> 2;
      rs1 = bit_and inst 0b1110000000 >>> 7;
      rd = bit_and inst 0b1110000000 >>> 7;
      inst_size = 2;
      compressed = true;
    },
  )

  -- A shift or `c.andi` sets `rd` too.
  unfoldable pub decode_cb : RevRegFile × RevInst
  unfolding cb_offset
  decode_cb =
      let branch = e.opcode == 0b01 && leb 0b110 e.funct3 in
      (
        charge r e,
        record u {
          opcode = e.opcode;
          funct3 = e.funct3;
          rs1 = bit_and inst 0b1110000000 >>> 7;
          rd =
              if branch
              then u.rd
              else if e.opcode == 0b01 && e.funct3 == 0b100
              then bit_and inst 0b1110000000 >>> 7
              else u.rd;
          offset = cb_offset e inst;
          imm = bit_or (bit_and inst 0b01111100 >>> 2) (bit_and inst 0b01000000000000 >>> 7);
          inst_size = 2;
          compressed = true;
        },
      )

  unfoldable pub decode_cj : RevRegFile × RevInst
  unfolding cj_target
  decode_cj = (
    charge r e,
    record u {
      opcode = e.opcode;
      funct3 = e.funct3;
      jump_target = cj_target inst;
      inst_size = 2;
      compressed = true;
    },
  )
