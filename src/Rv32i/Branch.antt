-- ===== src/Rv32i/Branch.antt =====
-- The jumps and the conditional branches of include/insns/RV32I.h.
use rev.Prelude.{◌+◌, ◌-◌, ◌^◌, bit_and, ltb, ◌==◌, not, if◌then◌else◌}
use rev.Word.{u32, u64, td_u32, td_u64, lt_signed}
use rev.Inst.{RevInst}
use rev.RegFile.{RevFeature, RevRegFile, is_rv32, x32, x64, set32, set64, jump32, jump64}

module _ (f : RevFeature) (r : RevRegFile) (i : RevInst) where
  -- `R->RV32[rd] = R->RV32_PC + Inst.instSize`, the target of 20 bits, then `R->RV32[0] = 0`.
  unfoldable pub jal : RevRegFile
  jal =
      if is_rv32 f
      then (let linked = set32 i.rd (r.rv32_pc + i.inst_size) r in
          set32 0 0 (jump32 (linked.rv32_pc + td_u32 i.imm 20) linked))
      else let linked = set64 i.rd (r.rv64_pc + i.inst_size) r in
        set64 0 0 (jump64 (linked.rv64_pc + td_u64 i.imm 20) linked)

  -- The target is computed before the link register is written; `& ~(1<<0)` clears bit 0.
  unfoldable pub jalr : RevRegFile
  jalr =
      if is_rv32 f
      then (let link = u32 (r.rv32_pc + i.inst_size) in
          let target = bit_and (u32 (td_u32 (x32 r i.rs1) 32 + td_u32 i.imm 12)) (2 ^ 32 - 2) in
          set32 0 0 (set32 i.rd link (jump32 target r)))
      else let link = u64 (r.rv64_pc + i.inst_size) in
        let target = bit_and (u64 (td_u64 (x64 r i.rs1) 64 + td_u64 i.imm 12)) (2 ^ 64 - 2) in
        set64 0 0 (set64 i.rd link (jump64 target r))

  unfoldable pub beq : RevRegFile
  beq =
      if is_rv32 f
      then (if x32 r i.rs1 == x32 r i.rs2
          then jump32 (r.rv32_pc + td_u32 i.imm 13) r
          else jump32 (r.rv32_pc + i.inst_size) r)
      else if x64 r i.rs1 == x64 r i.rs2
      then jump64 (r.rv64_pc + td_u64 i.imm 13) r
      else jump64 (r.rv64_pc + i.inst_size) r

  unfoldable pub bne : RevRegFile
  bne =
      if is_rv32 f
      then (if not (x32 r i.rs1 == x32 r i.rs2)
          then jump32 (r.rv32_pc + td_u32 i.imm 13) r
          else jump32 (r.rv32_pc + i.inst_size) r)
      else if not (x64 r i.rs1 == x64 r i.rs2)
      then jump64 (r.rv64_pc + td_u64 i.imm 13) r
      else jump64 (r.rv64_pc + i.inst_size) r

  unfoldable pub blt : RevRegFile
  blt =
      if is_rv32 f
      then (if lt_signed 32 (x32 r i.rs1) (x32 r i.rs2)
          then jump32 (r.rv32_pc + td_u32 i.imm 13) r
          else jump32 (r.rv32_pc + i.inst_size) r)
      else if lt_signed 64 (x64 r i.rs1) (x64 r i.rs2)
      then jump64 (r.rv64_pc + td_u64 i.imm 13) r
      else jump64 (r.rv64_pc + i.inst_size) r

  unfoldable pub bge : RevRegFile
  bge =
      if is_rv32 f
      then (if not (lt_signed 32 (x32 r i.rs1) (x32 r i.rs2))
          then jump32 (r.rv32_pc + td_u32 i.imm 13) r
          else jump32 (r.rv32_pc + i.inst_size) r)
      else if not (lt_signed 64 (x64 r i.rs1) (x64 r i.rs2))
      then jump64 (r.rv64_pc + td_u64 i.imm 13) r
      else jump64 (r.rv64_pc + i.inst_size) r

  unfoldable pub bltu : RevRegFile
  bltu =
      if is_rv32 f
      then (if ltb (x32 r i.rs1) (x32 r i.rs2)
          then jump32 (r.rv32_pc + td_u32 i.imm 13) r
          else jump32 (r.rv32_pc + i.inst_size) r)
      else if ltb (x64 r i.rs1) (x64 r i.rs2)
      then jump64 (r.rv64_pc + td_u64 i.imm 13) r
      else jump64 (r.rv64_pc + i.inst_size) r

  unfoldable pub bgeu : RevRegFile
  bgeu =
      if is_rv32 f
      then (if not (ltb (x32 r i.rs1) (x32 r i.rs2))
          then jump32 (r.rv32_pc + td_u32 i.imm 13) r
          else jump32 (r.rv32_pc + i.inst_size) r)
      else if not (ltb (x64 r i.rs1) (x64 r i.rs2))
      then jump64 (r.rv64_pc + td_u64 i.imm 13) r
      else jump64 (r.rv64_pc + i.inst_size) r
