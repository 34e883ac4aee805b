-- ===== src/Rv32i/Alu.antt =====
-- The register and immediate instructions of include/insns/RV32I.h.
use rev.Prelude.{◌+◌, ◌*◌, ◌/◌, ◌^◌, bit_and, bit_or, bit_xor, ltb, if◌then◌else◌}
use rev.Word.{
  u32, u64, signed, sext, zext, td_u32, td_u64, dt_u32, dt_u64, shift_ℤ, to_word, minus, lt_signed,
}
use rev.Inst.{RevInst}
use rev.RegFile.{RevFeature, RevRegFile, is_rv32, x32, x64, set32, set64, step32, step64}

module _ (f : RevFeature) (r : RevRegFile) (i : RevInst) where
  unfoldable pub lui : RevRegFile
  lui =
      if is_rv32 f
      then step32 i (set32 i.rd (i.imm * 2 ^ 12) (set32 i.rd 0 r))
      else step64 i (set64 i.rd (sext (u32 (i.imm * 2 ^ 12)) 32) (set64 i.rd 0 r))

  unfoldable pub auipc : RevRegFile
  auipc =
      if is_rv32 f
      then step32 i (set32 i.rd (u32 (i.imm * 2 ^ 12) + dt_u32 r.rv32_pc 32) (set32 i.rd 0 r))
      else let tmp = sext (u32 (i.imm * 2 ^ 12)) 32 in
        step64 i (set64 i.rd (tmp + dt_u64 r.rv64_pc 64) (set64 i.rd 0 r))

  unfoldable pub addi : RevRegFile
  addi =
      if is_rv32 f
      then step32 i (set32 i.rd (dt_u32 (u32 (td_u32 (x32 r i.rs1) 32 + td_u32 i.imm 12)) 32) r)
      else step64 i (set64 i.rd (dt_u64 (u64 (td_u64 (x64 r i.rs1) 64 + td_u64 i.imm 12)) 64) r)

  unfoldable pub slti : RevRegFile
  slti =
      if is_rv32 f
      then step32 i (
          if lt_signed 32 (td_u32 (x32 r i.rs1) 32) (td_u32 i.imm 12)
          then set32 i.rd 1 r
          else set32 i.rd 0 r)
      else step64 i (
          if lt_signed 64 (td_u64 (x64 r i.rs1) 64) (td_u64 i.imm 12)
          then set64 i.rd 1 r
          else set64 i.rd 0 r)

  unfoldable pub sltiu : RevRegFile
  sltiu =
      let tmp = u32 (sext i.imm 12) in
      let tmp64 = sext i.imm 12 in
      if is_rv32 f
      then step32 i (if ltb (x32 r i.rs1) tmp then set32 i.rd 1 r else set32 i.rd 0 r)
      else step64 i (if ltb (x64 r i.rs1) tmp64 then set64 i.rd 1 r else set64 i.rd 0 r)

  unfoldable pub xori : RevRegFile
  xori =
      if is_rv32 f
      then step32 i (set32 i.rd (bit_xor (x32 r i.rs1) (u32 (sext i.imm 12))) r)
      else step64 i (set64 i.rd (bit_xor (x64 r i.rs1) (sext i.imm 12)) r)

  unfoldable pub ori : RevRegFile
  ori =
      if is_rv32 f
      then step32 i (set32 i.rd (bit_or (x32 r i.rs1) (u32 (sext i.imm 12))) r)
      else step64 i (set64 i.rd (bit_or (x64 r i.rs1) (sext i.imm 12)) r)

  unfoldable pub andi : RevRegFile
  andi =
      if is_rv32 f
      then step32 i (set32 i.rd (bit_and (x32 r i.rs1) (u32 (sext i.imm 12))) r)
      else step64 i (set64 i.rd (bit_and (x64 r i.rs1) (sext i.imm 12)) r)

  unfoldable pub slli : RevRegFile
  slli =
      if is_rv32 f
      then step32 i (set32 i.rd (x32 r i.rs1 * 2 ^ bit_and i.imm 0x1F) r)
      else step64 i (set64 i.rd (x64 r i.rs1 * 2 ^ bit_and i.imm 0x3F) r)

  unfoldable pub srli : RevRegFile
  srli =
      if is_rv32 f
      then step32 i (set32 i.rd (x32 r i.rs1 / 2 ^ bit_and i.imm 0x1F) r)
      else step64 i (set64 i.rd (x64 r i.rs1 / 2 ^ bit_and i.imm 0x3F) r)

  -- `SEXT` takes the shifted int32_t as an unsigned long, and `SEXTI` the register again.
  unfoldable pub srai : RevRegFile
  srai =
      if is_rv32 f
      then (let shifted = to_word 64 (shift_ℤ (signed 32 (x32 r i.rs1)) (bit_and i.imm 0x1F)) in
          let r' = set32 i.rd (sext shifted 32) r in
          step32 i (set32 i.rd (sext (x32 r' i.rd) 32) r'))
      else let shifted = to_word 64 (shift_ℤ (signed 64 (x64 r i.rs1)) (bit_and i.imm 0x3F)) in
        let r' = set64 i.rd (sext shifted 64) r in step64 i (set64 i.rd (sext (x64 r' i.rd) 64) r')

  unfoldable pub add : RevRegFile
  add =
      if is_rv32 f
      then step32 i
          (set32 i.rd (dt_u32 (u32 (td_u32 (x32 r i.rs1) 32 + td_u32 (x32 r i.rs2) 32)) 32) r)
      else step64 i
          (set64 i.rd (dt_u64 (u64 (td_u64 (x64 r i.rs1) 64 + td_u64 (x64 r i.rs2) 64)) 64) r)

  unfoldable pub sub : RevRegFile
  sub =
      if is_rv32 f
      then step32 i
          (set32 i.rd (dt_u32 (minus 32 (td_u32 (x32 r i.rs1) 32) (td_u32 (x32 r i.rs2) 32)) 32) r)
      else step64 i
          (set64 i.rd (dt_u64 (minus 64 (td_u64 (x64 r i.rs1) 64) (td_u64 (x64 r i.rs2) 64)) 64) r)

  unfoldable pub sll : RevRegFile
  sll =
      if is_rv32 f
      then step32 i (set32 i.rd (x32 r i.rs1 * 2 ^ bit_and (x32 r i.rs2) 0b11111) r)
      else step64 i (set64 i.rd (x64 r i.rs1 * 2 ^ bit_and (x64 r i.rs2) 0b111111) r)

  -- The 64-bit comparison passes its operands to a helper on 32 bits.
  unfoldable pub slt : RevRegFile
  slt =
      if is_rv32 f
      then step32 i (
          if lt_signed 32 (td_u32 (x32 r i.rs1) 32) (td_u32 (x32 r i.rs2) 32)
          then set32 i.rd 1 r
          else set32 i.rd 0 r)
      else step64 i (
          if lt_signed 32 (td_u32 (u32 (x64 r i.rs1)) 32) (td_u32 (u32 (x64 r i.rs2)) 32)
          then set64 i.rd 1 r
          else set64 i.rd 0 r)

  unfoldable pub sltu : RevRegFile
  sltu =
      if is_rv32 f
      then step32 i (if ltb (x32 r i.rs1) (x32 r i.rs2) then set32 i.rd 1 r else set32 i.rd 0 r)
      else step64 i (if ltb (x64 r i.rs1) (x64 r i.rs2) then set64 i.rd 1 r else set64 i.rd 0 r)

  unfoldable pub f_xor : RevRegFile
  f_xor =
      if is_rv32 f
      then step32 i (set32 i.rd (sext (bit_xor (x32 r i.rs1) (x32 r i.rs2)) 32) r)
      else step64 i (set64 i.rd (sext (bit_xor (x64 r i.rs1) (x64 r i.rs2)) 64) r)

  -- The 64-bit shift masks its count to five bits.
  unfoldable pub srl : RevRegFile
  srl =
      if is_rv32 f
      then (let r' = set32 i.rd (zext (x32 r i.rs1 / 2 ^ bit_and (x32 r i.rs2) 0b11111) 32) r in
          step32 i (set32 i.rd (sext (x32 r' i.rd) 32) r'))
      else let r' = set64 i.rd (zext (x64 r i.rs1 / 2 ^ bit_and (x64 r i.rs2) 0b11111) 64) r in
        step64 i (set64 i.rd (sext (x64 r' i.rd) 64) r')

  unfoldable pub sra : RevRegFile
  sra =
      if is_rv32 f
      then (let shifted =
            to_word 64 (shift_ℤ (signed 32 (x32 r i.rs1)) (bit_and (x32 r i.rs2) 0b11111)) in
          let r' = set32 i.rd (sext shifted 32) r in
          step32 i (set32 i.rd (sext (x32 r' i.rd) 32) r'))
      else let shifted =
          to_word 64 (shift_ℤ (signed 64 (x64 r i.rs1)) (bit_and (x64 r i.rs2) 0b111111)) in
        let r' = set64 i.rd (sext shifted 64) r in step64 i (set64 i.rd (sext (x64 r' i.rd) 64) r')

  unfoldable pub f_or : RevRegFile
  f_or =
      if is_rv32 f
      then step32 i (set32 i.rd (bit_or (x32 r i.rs1) (x32 r i.rs2)) r)
      else step64 i (set64 i.rd (bit_or (x64 r i.rs1) (x64 r i.rs2)) r)

  unfoldable pub f_and : RevRegFile
  f_and =
      if is_rv32 f
      then step32 i (set32 i.rd (sext (bit_and (x32 r i.rs1) (x32 r i.rs2)) 32) r)
      else step64 i (set64 i.rd (sext (bit_and (x64 r i.rs1) (x64 r i.rs2)) 64) r)
