-- ===== src/Rv32i/Control.antt =====
-- Branches go to their target or to the next instruction; jumps link and go to theirs.
use rev.Prelude.{
  ℕ, ◌+◌, ◌-◌, ◌*◌, ◌/◌, ◌^◌, ◌<◌, ◌≡◌, refl, ◌∙◌, arith, bit_and, ltb, leb, ◌==◌, ◌&&◌, ◌||◌,
  if◌then◌else◌, true, false,
}
use rev.Bits.{bit_and_field}
use rev.Word.{u32, u64, td_u32, td_u64}
use rev.Word.Extend.{sign_extend, td_u32_lem, td_u64_lem, extended-eq-sign_extend}
use rev.Inst.{RevInst}
use rev.RegFile.{RevFeature, RevRegFile, get, put, is_rv32, x32, x64, set32, set64, jump32, jump64}
use rev.Isa.{BranchOp, taken}
use rev.Rv32i.Branch
use rev.Rv32i.Writes.{td_u32_full, td_u64_full}

-- The function that the tables name for a branch.
unfoldable pub run_branch : BranchOp → RevFeature → RevRegFile → RevInst → RevRegFile
run_branch BranchOp.beq = Branch.beq
run_branch BranchOp.bne = Branch.bne
run_branch BranchOp.blt = Branch.blt
run_branch BranchOp.bge = Branch.bge
run_branch BranchOp.bltu = Branch.bltu
run_branch BranchOp.bgeu = Branch.bgeu

module _ (imm : ℕ) (short : imm < 2 ^ 13) where
  offset_32 : td_u32 imm 13 ≡ sign_extend 32 13 imm
  offset_32 =
      td_u32_lem 12 imm (omega arith) (omega arith)
      ∙ extended-eq-sign_extend 32 12 imm (omega arith) short

  offset_64 : td_u64 imm 13 ≡ sign_extend 64 13 imm
  offset_64 =
      td_u64_lem 12 imm (omega arith) (omega arith)
      ∙ extended-eq-sign_extend 64 12 imm (omega arith) short

-- On RV32 each of the six conditional branches sets the program counter to itself plus the sign
-- extended offset of 13 bits where the manual's condition on `rs1` and `rs2` holds, and to the
-- next instruction where it does not, and changes nothing else.
pub branch_32 :
    (f : RevFeature) (r : RevRegFile) (i : RevInst)
    → is_rv32 f ≡ true
    → i.imm < 2 ^ 13
    → (op : BranchOp)
    → run_branch op f r i ≡ record r {
      rv32_pc = u32 (
          if taken 32 op (x32 r i.rs1) (x32 r i.rs2)
          then r.rv32_pc + sign_extend 32 13 i.imm
          else r.rv32_pc + i.inst_size);
    }
unfolding run_branch jump32 Branch.beq Branch.bne Branch.blt Branch.bge Branch.bltu Branch.bgeu
branch_32 f r i narrow short BranchOp.beq = rw (narrow, offset_32 i.imm short) (ground arith)
branch_32 f r i narrow short BranchOp.bne = rw (narrow, offset_32 i.imm short) (ground arith)
branch_32 f r i narrow short BranchOp.blt = rw (narrow, offset_32 i.imm short) (ground arith)
branch_32 f r i narrow short BranchOp.bge = rw (narrow, offset_32 i.imm short) (ground arith)
branch_32 f r i narrow short BranchOp.bltu = rw (narrow, offset_32 i.imm short) (ground arith)
branch_32 f r i narrow short BranchOp.bgeu = rw (narrow, offset_32 i.imm short) (ground arith)

-- On RV64 each of the six conditional branches sets the program counter to itself plus the sign
-- extended offset of 13 bits where the manual's condition on `rs1` and `rs2` holds, and to the
-- next instruction where it does not, and changes nothing else.
pub branch_64 :
    (f : RevFeature) (r : RevRegFile) (i : RevInst)
    → is_rv32 f ≡ false
    → i.imm < 2 ^ 13
    → (op : BranchOp)
    → run_branch op f r i ≡ record r {
      rv64_pc = u64 (
          if taken 64 op (x64 r i.rs1) (x64 r i.rs2)
          then r.rv64_pc + sign_extend 64 13 i.imm
          else r.rv64_pc + i.inst_size);
    }
unfolding run_branch jump64 Branch.beq Branch.bne Branch.blt Branch.bge Branch.bltu Branch.bgeu
branch_64 f r i wide short BranchOp.beq = rw (wide, offset_64 i.imm short) (ground arith)
branch_64 f r i wide short BranchOp.bne = rw (wide, offset_64 i.imm short) (ground arith)
branch_64 f r i wide short BranchOp.blt = rw (wide, offset_64 i.imm short) (ground arith)
branch_64 f r i wide short BranchOp.bge = rw (wide, offset_64 i.imm short) (ground arith)
branch_64 f r i wide short BranchOp.bltu = rw (wide, offset_64 i.imm short) (ground arith)
branch_64 f r i wide short BranchOp.bgeu = rw (wide, offset_64 i.imm short) (ground arith)

-- Register `j` of `r'` holds the address behind the instruction if it is `rd`, and its old value if
-- not; the program counter is `target`; no other field has changed.
abbrev pub Jumped32 : RevInst → RevRegFile → RevRegFile → ℕ → ℕ → Type 0
Jumped32 i r r' target j =
    (x32 r' j ≡ (if ltb 0 j && j == i.rd then u32 (r.rv32_pc + i.inst_size) else x32 r j))
    × (r'.rv32_pc ≡ target)
    × (record r' { rv32 = r.rv32; rv32_pc = r.rv32_pc } ≡ r)

abbrev pub Jumped64 : RevInst → RevRegFile → RevRegFile → ℕ → ℕ → Type 0
Jumped64 i r r' target j =
    (x64 r' j ≡ (if ltb 0 j && j == i.rd then u64 (r.rv64_pc + i.inst_size) else x64 r j))
    × (r'.rv64_pc ≡ target)
    × (record r' { rv64 = r.rv64; rv64_pc = r.rv64_pc } ≡ r)

-- `jal` extends from bit 19: right for an offset in [-2^19, 2^19).
module _ (imm : ℕ) (near : ltb imm (2 ^ 19) || leb (2 ^ 21 - 2 ^ 19) imm ≡ true)
    (short : imm < 2 ^ 21) where
  jal_offset_32 : td_u32 imm 20 ≡ sign_extend 32 21 imm
  jal_offset_32 = ground (arith, td_u32_lem 19 imm (omega arith) (omega arith))

  jal_offset_64 : td_u64 imm 20 ≡ sign_extend 64 21 imm
  jal_offset_64 = ground (arith, td_u64_lem 19 imm (omega arith) (omega arith))

-- On RV32 `jal` writes the address of the next instruction to `rd`, adds the sign extended offset of
-- 21 bits to the program counter and changes nothing else, for an offset in [-2^19, 2^19).
pub jal_32 :
    (f : RevFeature) (r : RevRegFile) (i : RevInst)
    → is_rv32 f ≡ true
    → i.imm < 2 ^ 21
    → ltb i.imm (2 ^ 19) || leb (2 ^ 21 - 2 ^ 19) i.imm ≡ true
    → (j : ℕ) → Jumped32 i r (Branch.jal f r i) (u32 (r.rv32_pc + sign_extend 32 21 i.imm)) j
unfolding Branch.jal set32 jump32 get put
jal_32 f r i narrow short near j =
    rw (narrow, jal_offset_32 i.imm near short) (ground arith, refl, refl)

-- On RV64 `jal` writes the address of the next instruction to `rd`, adds the sign extended offset of
-- 21 bits to the program counter and changes nothing else, for an offset in [-2^19, 2^19).
pub jal_64 :
    (f : RevFeature) (r : RevRegFile) (i : RevInst)
    → is_rv32 f ≡ false
    → i.imm < 2 ^ 21
    → ltb i.imm (2 ^ 19) || leb (2 ^ 21 - 2 ^ 19) i.imm ≡ true
    → (j : ℕ) → Jumped64 i r (Branch.jal f r i) (u64 (r.rv64_pc + sign_extend 64 21 i.imm)) j
unfolding Branch.jal set64 jump64 get put
jal_64 f r i wide short near j =
    rw (wide, jal_offset_64 i.imm near short) (ground arith, refl, refl)

-- Clearing bit 0.
even_32 : (x : ℕ) → x < 2 ^ 32 → bit_and x (2 ^ 32 - 2) ≡ x / 2 * 2
even_32 x h = omega (arith, bit_and_field 31 1 x)

even_64 : (x : ℕ) → x < 2 ^ 64 → bit_and x (2 ^ 64 - 2) ≡ x / 2 * 2
even_64 x h = omega (arith, bit_and_field 63 1 x)

target_32 :
    (a imm : ℕ)
    → a < 2 ^ 32
    → imm < 2 ^ 12
    → u32 (bit_and (u32 (td_u32 a 32 + td_u32 imm 12)) (2 ^ 32 - 2))
      ≡ u32 (a + sign_extend 32 12 imm) / 2 * 2
target_32 a imm ha short =
    let e : td_u32 imm 12 ≡ sign_extend 32 12 imm =
      td_u32_lem 11 imm (omega arith) (omega arith)
      ∙ extended-eq-sign_extend 32 11 imm (omega arith) short in
    rw (td_u32_full a ha, e, even_32 (u32 (a + sign_extend 32 12 imm)) (omega arith)) (omega arith)

target_64 :
    (a imm : ℕ)
    → a < 2 ^ 64
    → imm < 2 ^ 12
    → u64 (bit_and (u64 (td_u64 a 64 + td_u64 imm 12)) (2 ^ 64 - 2))
      ≡ u64 (a + sign_extend 64 12 imm) / 2 * 2
target_64 a imm ha short =
    let e : td_u64 imm 12 ≡ sign_extend 64 12 imm =
      td_u64_lem 11 imm (omega arith) (omega arith)
      ∙ extended-eq-sign_extend 64 11 imm (omega arith) short in
    rw (td_u64_full a ha, e, even_64 (u64 (a + sign_extend 64 12 imm)) (omega arith)) (omega arith)

-- On RV32 `jalr` writes the address of the next instruction to `rd` and jumps to the old value of
-- `rs1` plus the sign extended immediate of 12 bits, with bit 0 cleared, also where `rd` is `rs1`.
pub jalr_32 :
    (f : RevFeature) (r : RevRegFile) (i : RevInst)
    → is_rv32 f ≡ true
    → x32 r i.rs1 < 2 ^ 32
    → i.imm < 2 ^ 12
    → (j : ℕ)
    → Jumped32 i r (Branch.jalr f r i) (u32 (x32 r i.rs1 + sign_extend 32 12 i.imm) / 2 * 2) j
unfolding Branch.jalr set32 jump32 get put
jalr_32 f r i narrow fits short j =
    rw narrow (ground arith, target_32 (x32 r i.rs1) i.imm fits short, refl)

-- On RV64 `jalr` writes the address of the next instruction to `rd` and jumps to the old value of
-- `rs1` plus the sign extended immediate of 12 bits, with bit 0 cleared, also where `rd` is `rs1`.
pub jalr_64 :
    (f : RevFeature) (r : RevRegFile) (i : RevInst)
    → is_rv32 f ≡ false
    → x64 r i.rs1 < 2 ^ 64
    → i.imm < 2 ^ 12
    → (j : ℕ)
    → Jumped64 i r (Branch.jalr f r i) (u64 (x64 r i.rs1 + sign_extend 64 12 i.imm) / 2 * 2) j
unfolding Branch.jalr set64 jump64 get put
jalr_64 f r i wide fits short j =
    rw wide (ground arith, target_64 (x64 r i.rs1) i.imm fits short, refl)
