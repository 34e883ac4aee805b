-- ===== src/Rv32i/Compact.antt =====
-- The compressed instructions of include/insns/RV32I.h: each rewrites the decoded instruction and
-- calls the full one.
use rev.Prelude.{◌*◌, bit_and, ◌==◌, ◌&&◌, not, if◌then◌else◌, Option}
use rev.Word.{u32, sext}
use rev.Inst.{RevInst, c_reg_map}
use rev.RegFile.{RevFeature, RevRegFile, is_rv32, step32, step64}
use rev.MemPort.{MemPort}
use rev.Rv32i.Alu
use rev.Rv32i.Branch
use rev.Rv32i.Memory
use rev.Rv32i.System

module _ (f : RevFeature) (r : RevRegFile) (i : RevInst) where
  -- A zero immediate is a hint.
  unfoldable pub caddi4spn : RevRegFile
  caddi4spn =
      let i' = record i { rs1 = 2; rd = c_reg_map i.rd } in
      if i'.imm == 0
      then (if is_rv32 f then step32 i' r else step64 i' r)
      else Alu.addi f r (record i' { imm = bit_and i'.imm 0b11111111 * 4 })

  unfoldable pub cj : RevRegFile
  cj =
      Branch.jal f r
        (record i { rd = 0; imm = u32 (sext (bit_and i.jump_target 0b111111111111) 12) })

  unfoldable pub cjal : RevRegFile
  cjal = Branch.jal f r (record i { rd = 1; imm = i.jump_target })

  unfoldable pub cjr : RevRegFile
  cjr = Branch.jalr f r (record i { rs2 = 0 })

  unfoldable pub cmv : RevRegFile
  cmv = Alu.add f r (record i { rs1 = 0 })

  unfoldable pub cadd : RevRegFile
  cadd = Alu.add f r (record i { rs1 = i.rd })

  unfoldable pub cjalr : RevRegFile
  cjalr = Branch.jalr f r (record i { rs2 = 1 })

  unfoldable pub cr_func_1000 : RevRegFile
  unfolding cmv cjr
  cr_func_1000 = if not (i.rs2 == 0) then cmv else cjr

  unfoldable pub cr_func_1001 : RevRegFile
  cr_func_1001 =
      if (i.rs1 == 0) && (i.rd == 0)
      then System.ebreak f r i
      else if (i.rs2 == 0) && not (i.rd == 0)
      then Branch.jalr f r (record i { rd = 1 })
      else Alu.add f r i

  unfoldable pub cbeqz : RevRegFile
  cbeqz = Branch.beq f r (record i {
    rs2 = 0;
    rs1 = c_reg_map i.rs1;
    imm = u32 (sext (bit_and i.offset 0b111111111) 9);
  })

  unfoldable pub cbnez : RevRegFile
  cbnez = Branch.bne f r (record i {
    rs2 = 0;
    rs1 = c_reg_map i.rs1;
    imm = u32 (sext (bit_and i.offset 0b111111111) 9);
  })

  unfoldable pub cli : RevRegFile
  cli = Alu.addi f r (record i { rs1 = 0; imm = u32 (sext (bit_and i.imm 0b111111) 6) })

  unfoldable pub ci_func : RevRegFile
  ci_func =
      if i.rd == 2
      then Alu.addi f r (record i { imm = u32 (sext (bit_and i.imm 0b1111111111) 10) })
      else Alu.lui f r (record i { imm = u32 (sext (bit_and i.imm 0b111111) 6) })

  unfoldable pub caddi : RevRegFile
  caddi =
      let tmp = bit_and i.imm 0b111111 in
      Alu.addi f r (record i { imm = u32 (sext tmp 6); rs1 = i.rd })

  unfoldable pub cslli : RevRegFile
  cslli = Alu.slli f r (record i { rs1 = i.rd })

  unfoldable pub csrli : RevRegFile
  csrli = Alu.srli f r (record i { rd = c_reg_map i.rd; rs1 = c_reg_map i.rd })

  unfoldable pub csrai : RevRegFile
  csrai = Alu.srai f r (record i { rd = c_reg_map i.rd; rs1 = c_reg_map i.rd })

  unfoldable pub candi : RevRegFile
  candi = Alu.andi f r (record i {
    rd = c_reg_map i.rd;
    rs1 = c_reg_map i.rd;
    imm = u32 (sext (bit_and i.imm 0b0111111) 6);
  })

  -- `Inst.rd = CRegMap[Inst.rd]; Inst.rs1 = Inst.rd; Inst.rs2 = CRegMap[Inst.rs2]`.
  ca_inst : RevInst
  ca_inst = record i { rd = c_reg_map i.rd; rs1 = c_reg_map i.rd; rs2 = c_reg_map i.rs2 }

  unfoldable pub cand : RevRegFile
  unfolding ca_inst
  cand = Alu.f_and f r ca_inst

  unfoldable pub cor : RevRegFile
  unfolding ca_inst
  cor = Alu.f_or f r ca_inst

  unfoldable pub cxor : RevRegFile
  unfolding ca_inst
  cxor = Alu.f_xor f r ca_inst

  unfoldable pub csub : RevRegFile
  unfolding ca_inst
  csub = Alu.sub f r ca_inst

  module _ {ℓ} {Mem : Type ℓ} (port : MemPort Mem) (m : Mem) where
    unfoldable pub clwsp : Option (Mem × RevRegFile)
    clwsp = Memory.lw port f m r (record i { rs1 = 2; imm = bit_and i.imm 0b11111111 })

    unfoldable pub cswsp : Option (Mem × RevRegFile)
    cswsp = Memory.sw port f m r (record i { rs1 = 2; imm = bit_and i.imm 0b11111111 })

    unfoldable pub clw : Option (Mem × RevRegFile)
    clw =
        Memory.lw port f m r
          (record i { rd = c_reg_map i.rd; rs1 = c_reg_map i.rs1; imm = bit_and i.imm 0b1111111 })

    -- `rs2` comes from `rd`.
    unfoldable pub csw : Option (Mem × RevRegFile)
    csw =
        Memory.sw port f m r
          (record i { rs2 = c_reg_map i.rd; rs1 = c_reg_map i.rs1; imm = bit_and i.imm 0b1111111 })
