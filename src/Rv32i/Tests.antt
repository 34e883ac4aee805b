-- ===== src/Rv32i/Tests.antt =====
-- Instances of the laws of the base integer instructions: registers 5 and 6 hold 7 and 10.
use rev.Prelude.{ℕ, ◌+◌, ◌≡◌, refl, arith, ◌^◌, ◌<◌, ◌-◌, some}
use rev.RegFile.{get, put, set64, step64, x32, x64}
use rev.Isa.{AluOp, ImmOp, BranchOp, LoadOp}
use rev.MemPort.{MemPort}
use rev.Fixtures.{start, inst, feature}
use rev.Word.{sext, td_u32}
use rev.Inst.{RevInst}
use rev.Rv32i.Alu
use rev.Rv32i.Compact
use rev.Rv32i.Writes.{Wrote64}
use rev.Rv32i.Refines.{run, alu_64}
use rev.Rv32i.Immediate.{run_imm, imm_64}
use rev.Rv32i.Control.{run_branch, branch_64}
use rev.Rv32i.Loads.{run_load, Loaded64, load_64}

start_fits_32 : (k : ℕ) → x32 start k < 2 ^ 32
unfolding get
start_fits_32 k = ground arith

start_fits_64 : (k : ℕ) → x64 start k < 2 ^ 64
unfolding get
start_fits_64 k = ground arith

-- 7 - 10 wraps around.
alu_64_example : Wrote64 (inst 0) start (run AluOp.sub (feature 64) start (inst 0)) (2 ^ 64 - 3) 7
unfolding get
alu_64_example = alu_64 (feature 64) start (inst 0) refl start_fits_64 AluOp.sub 7

-- 2^32 + 1 is not below 2, but its low word is.
slt_low_words : x64 (Alu.slt (feature 64) (set64 6 2 (set64 5 (2 ^ 32 + 1) start)) (inst 0)) 7 ≡ 1
unfolding Alu.slt get step64 td_u32 set64 put
slt_low_words = refl

-- 7 + -1.
imm_64_example : Wrote64 (inst 0xFFF) start (run_imm ImmOp.addi (feature 64) start (inst 0xFFF)) 6 7
unfolding get
imm_64_example =
    imm_64 (feature 64) start (inst 0xFFF) refl start_fits_64 (omega arith) ImmOp.addi 7

-- 7 is below 10, and the offset is -4.
branch_64_example :
    run_branch BranchOp.blt (feature 64) start (inst 0x1FFC) ≡ record start { rv64_pc = 0xFFC }
unfolding get
branch_64_example = branch_64 (feature 64) start (inst 0x1FFC) refl (omega arith) BranchOp.blt

-- A memory whose every byte is 0x80.
abbrev filled : MemPort ℕ
filled = record {
  read_val = λ hart addr len m. some (m, 0x80);
  write = λ hart addr len value m. some m;
  fence_mem = λ hart m. m;
  rand_cost = λ min max m. (m, min);
}

load_64_example :
    Loaded64 filled
      (feature 64)
      (inst 0)
      start
      0
      (run_load LoadOp.lb filled (feature 64) 0 start (inst 0))
      (2 ^ 64 - 128)
      7
load_64_example =
    load_64 filled (feature 64) 0 start (inst 0) 0x80 0 LoadOp.lb refl (omega arith) (omega arith)
      refl 7

-- A memory of one byte, the last written.
abbrev last_byte : MemPort ℕ
last_byte = record {
  read_val = λ hart addr len m. some (m, m);
  write = λ hart addr len value m. some value;
  fence_mem = λ hart m. m;
  rand_cost = λ min max m. (m, min);
}

abbrev sp_inst : RevInst
sp_inst = record (inst 0x3F0) { rd = 2; rs1 = 2 }

-- c.andi with the immediate -2 on a register of ones clears bit 12 and the upper half.
candi_negative :
    (Compact.candi
        (feature 64)
        (record start { rv64 = λ k. 2 ^ 64 - 1 })
        (record (inst 0x3E) { rd = 0 })).rv64
      8
    ≡ 0xFFFF_EFFE
unfolding Compact.candi Alu.andi sext get put set64 step64
candi_negative = refl
