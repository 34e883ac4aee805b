-- ===== src/Rv64i/Compact.antt =====
-- The compressed instructions of include/insns/RV64I.h: each rewrites the decoded instruction and
-- calls the full one.
use rev.Prelude.{◌*◌, bit_and, Option}
use rev.Word.{u32, sext}
use rev.Inst.{RevInst, c_reg_map}
use rev.RegFile.{RevFeature, RevRegFile}
use rev.MemPort.{MemPort}
use rev.Rv64i.Alu
use rev.Rv64i.Memory

module _ (f : RevFeature) (r : RevRegFile) (i : RevInst) where
  unfoldable pub caddiw : RevRegFile
  caddiw = Alu.addiw f r (record i { rs1 = i.rd; imm = u32 (sext (bit_and i.imm 0b111111) 6) })

  unfoldable pub caddw : RevRegFile
  caddw =
      let rd = c_reg_map i.rd in
      Alu.addw f r (record i { rd = rd; rs1 = rd; rs2 = c_reg_map i.rs2 })

  unfoldable pub csubw : RevRegFile
  csubw =
      let rd = c_reg_map i.rd in
      Alu.subw f r (record i { rd = rd; rs1 = rd; rs2 = c_reg_map i.rs2 })

module _ {ℓ} {Mem : Type ℓ} (port : MemPort Mem) (f : RevFeature) (m : Mem) (r : RevRegFile)
    (i : RevInst) where
  -- The decoder has scaled the immediate, and these two scale it again.
  unfoldable pub cldsp : Option (Mem × RevRegFile)
  cldsp = Memory.ld port f m r (record i { rs1 = 2; imm = bit_and i.imm 0b111111 * 8 })

  unfoldable pub csdsp : Option (Mem × RevRegFile)
  csdsp = Memory.sd port f m r (record i { rs1 = 2; imm = bit_and i.imm 0b111111 * 8 })

  unfoldable pub cld : Option (Mem × RevRegFile)
  cld =
      Memory.ld port f m r
        (record i { rd = c_reg_map i.rd; rs1 = c_reg_map i.rs1; imm = bit_and i.imm 0b11111111 })

  unfoldable pub csd : Option (Mem × RevRegFile)
  csd =
      Memory.sd port f m r
        (record i { rs2 = c_reg_map i.rs2; rs1 = c_reg_map i.rs1; imm = bit_and i.imm 0b11111111 })
