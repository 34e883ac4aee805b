-- ===== src/Rv32i/Immediate.antt =====
-- The immediate instructions apply `Isa.alu` to the sign extended immediate, at both widths.
use native.Mathlib.Nat.{mod-eq_of_lt}
use rev.Prelude.{ℕ, ◌+◌, ◌*◌, ◌/◌, ◌%◌, ◌^◌, ◌<◌, ◌≡◌, refl, ◌∙◌, arith, true, false}
use rev.Bits.{bit_and_mask, bit_xor-lt, bit_or-lt, bit_and-lt}
use rev.Word.{u32, u64, signed, sext, td_u32, dt_u32, td_u64, dt_u64, shift_ℤ, to_word}
use rev.Word.Extend.{
  sign_extend, sext-eq-sign_extend, td_u32_lem, td_u64_lem, extended-eq-sign_extend,
}
use rev.Inst.{RevInst}
use rev.RegFile.{RevFeature, RevRegFile, is_rv32, x32, x64}
use rev.Isa.{AluOp, alu, ImmOp, base}
use rev.Rv32i.Alu
use rev.Rv32i.Writes.{
  td_u32_full, dt_u32_full, td_u64_full, dt_u64_full, sext_32-low, sext_64_full, Wrote32, Wrote64,
  store32, store64, store32_sexti, store64_sexti, store32_flag, store64_flag,
}
use rev.Rv32i.Refines.{quotient_below, to_word-lt, to_word-low}

-- The function that the tables name for an instruction.
unfoldable pub run_imm : ImmOp → RevFeature → RevRegFile → RevInst → RevRegFile
run_imm ImmOp.addi = Alu.addi
run_imm ImmOp.slti = Alu.slti
run_imm ImmOp.sltiu = Alu.sltiu
run_imm ImmOp.xori = Alu.xori
run_imm ImmOp.ori = Alu.ori
run_imm ImmOp.andi = Alu.andi
run_imm ImmOp.slli = Alu.slli
run_imm ImmOp.srli = Alu.srli
run_imm ImmOp.srai = Alu.srai

-- The second operand: a shift takes its count from the low bits of the immediate.
abbrev pub operand : ℕ → ImmOp → ℕ → ℕ
operand w ImmOp.addi imm = sign_extend w 12 imm
operand w ImmOp.slti imm = sign_extend w 12 imm
operand w ImmOp.sltiu imm = sign_extend w 12 imm
operand w ImmOp.xori imm = sign_extend w 12 imm
operand w ImmOp.ori imm = sign_extend w 12 imm
operand w ImmOp.andi imm = sign_extend w 12 imm
operand w ImmOp.slli imm = imm
operand w ImmOp.srli imm = imm
operand w ImmOp.srai imm = imm

module _ (imm : ℕ) (short : imm < 2 ^ 12) where
  pub immediate-lt_32 : sign_extend 32 12 imm < 2 ^ 32
  immediate-lt_32 = ground arith

  immediate-lt_64 : sign_extend 64 12 imm < 2 ^ 64
  immediate-lt_64 = ground arith

  pub td_32 : td_u32 imm 12 ≡ sign_extend 32 12 imm
  td_32 =
      td_u32_lem 11 imm (omega arith) (omega arith)
      ∙ extended-eq-sign_extend 32 11 imm (omega arith) short

  pub td_64 : td_u64 imm 12 ≡ sign_extend 64 12 imm
  td_64 =
      td_u64_lem 11 imm (omega arith) (omega arith)
      ∙ extended-eq-sign_extend 64 11 imm (omega arith) short

  sext_64 : sext imm 12 ≡ sign_extend 64 12 imm
  sext_64 = sext-eq-sign_extend 11 imm (omega arith) short

  sext_32 : u32 (sext imm 12) ≡ sign_extend 32 12 imm
  sext_32 = rw sext_64 (ground arith)

module _ (a b : ℕ) where
  imm_add_32 : a < 2 ^ 32 → b < 2 ^ 32 → u32 (dt_u32 (u32 (a + b)) 32) ≡ alu 32 AluOp.add a b
  imm_add_32 ha hb = omega (arith, dt_u32_full (u32 (a + b)) (omega arith))

  imm_add_64 : a < 2 ^ 64 → b < 2 ^ 64 → u64 (dt_u64 (u64 (a + b)) 64) ≡ alu 64 AluOp.add a b
  imm_add_64 ha hb = omega (arith, dt_u64_full (u64 (a + b)) (omega arith))

  shift_left_32 : u32 (a * 2 ^ (b % 2 ^ 5)) ≡ alu 32 AluOp.sll a b
  shift_left_32 = refl

  shift_left_64 : u64 (a * 2 ^ (b % 2 ^ 6)) ≡ alu 64 AluOp.sll a b
  shift_left_64 = refl

  shift_right_32 : a < 2 ^ 32 → u32 (a / 2 ^ (b % 2 ^ 5)) ≡ alu 32 AluOp.srl a b
  shift_right_32 ha = mod-eq_of_lt (quotient_below 32 a (b % 32) ha)

  shift_right_64 : a < 2 ^ 64 → u64 (a / 2 ^ (b % 2 ^ 6)) ≡ alu 64 AluOp.srl a b
  shift_right_64 ha = mod-eq_of_lt (quotient_below 64 a (b % 64) ha)

  shift_arith_32 :
      u32 (sext (to_word 64 (shift_ℤ (signed 32 a) (b % 2 ^ 5))) 32) ≡ alu 32 AluOp.sra a b
  shift_arith_32 =
      let z = shift_ℤ (signed 32 a) (b % 32) in
      sext_32-low (to_word 64 z) (to_word-lt 64 z) ∙ to_word-low z

  shift_arith_64 :
      u64 (sext (to_word 64 (shift_ℤ (signed 64 a) (b % 2 ^ 6))) 64) ≡ alu 64 AluOp.sra a b
  shift_arith_64 =
      let z = shift_ℤ (signed 64 a) (b % 64) in
      rw (sext_64_full _ (to_word-lt 64 z)) (mod-eq_of_lt (to_word-lt 64 z))

-- On RV32 each of the nine immediate instructions leaves in `rd` the result that the manual gives
-- for the value of `rs1` and the sign extended immediate of 12 bits (a shift reads its count from
-- the immediate's low five bits), leaves every other register and field alone and steps the
-- program counter. The registers hold words of 32 bits.
pub imm_32 :
    (f : RevFeature) (r : RevRegFile) (i : RevInst)
    → is_rv32 f ≡ true
    → ((k : ℕ) → x32 r k < 2 ^ 32)
    → i.imm < 2 ^ 12
    → (op : ImmOp) (j : ℕ)
    → Wrote32 i r (run_imm op f r i) (alu 32 (base op) (x32 r i.rs1) (operand 32 op i.imm)) j
unfolding run_imm Alu.addi Alu.slti Alu.sltiu Alu.xori Alu.ori Alu.andi Alu.slli Alu.srli Alu.srai
imm_32 f r i narrow fits short ImmOp.addi j =
    rw (narrow, td_32 i.imm short, td_u32_full _ (fits i.rs1))
      (store32 i r _ _ j (
        imm_add_32 (x32 r i.rs1) (sign_extend 32 12 i.imm) (fits i.rs1)
          (immediate-lt_32 i.imm short)))
imm_32 f r i narrow fits short ImmOp.slti j =
    rw (narrow, td_32 i.imm short, td_u32_full _ (fits i.rs1)) (store32_flag i r _ j)
imm_32 f r i narrow fits short ImmOp.sltiu j =
    rw (narrow, sext_32 i.imm short) (store32_flag i r _ j)
imm_32 f r i narrow fits short ImmOp.xori j =
    rw (narrow, sext_32 i.imm short)
      (store32 i r _ _ j (
        mod-eq_of_lt (
          bit_xor-lt 32 (x32 r i.rs1) (sign_extend 32 12 i.imm) (fits i.rs1)
            (immediate-lt_32 i.imm short))))
imm_32 f r i narrow fits short ImmOp.ori j =
    rw (narrow, sext_32 i.imm short)
      (store32 i r _ _ j (
        mod-eq_of_lt (
          bit_or-lt 32 (x32 r i.rs1) (sign_extend 32 12 i.imm) (fits i.rs1)
            (immediate-lt_32 i.imm short))))
imm_32 f r i narrow fits short ImmOp.andi j =
    rw (narrow, sext_32 i.imm short)
      (store32 i r _ _ j
        (mod-eq_of_lt (bit_and-lt 32 (x32 r i.rs1) (sign_extend 32 12 i.imm) (fits i.rs1))))
imm_32 f r i narrow fits short ImmOp.slli j =
    rw (narrow, bit_and_mask 5 i.imm) (store32 i r _ _ j (shift_left_32 (x32 r i.rs1) i.imm))
imm_32 f r i narrow fits short ImmOp.srli j =
    rw (narrow, bit_and_mask 5 i.imm)
      (store32 i r _ _ j (shift_right_32 (x32 r i.rs1) i.imm (fits i.rs1)))
imm_32 f r i narrow fits short ImmOp.srai j =
    rw (narrow, bit_and_mask 5 i.imm) (store32_sexti i r _ _ j (shift_arith_32 (x32 r i.rs1) i.imm))

-- On RV64 each of the nine immediate instructions leaves in `rd` the result that the manual gives
-- for the value of `rs1` and the sign extended immediate of 12 bits (a shift reads its count from
-- the immediate's low six bits), leaves every other register and field alone and steps the program
-- counter. The registers hold words of 64 bits.
pub imm_64 :
    (f : RevFeature) (r : RevRegFile) (i : RevInst)
    → is_rv32 f ≡ false
    → ((k : ℕ) → x64 r k < 2 ^ 64)
    → i.imm < 2 ^ 12
    → (op : ImmOp) (j : ℕ)
    → Wrote64 i r (run_imm op f r i) (alu 64 (base op) (x64 r i.rs1) (operand 64 op i.imm)) j
unfolding run_imm Alu.addi Alu.slti Alu.sltiu Alu.xori Alu.ori Alu.andi Alu.slli Alu.srli Alu.srai
imm_64 f r i wide fits short ImmOp.addi j =
    rw (wide, td_64 i.imm short, td_u64_full _ (fits i.rs1))
      (store64 i r _ _ j (
        imm_add_64 (x64 r i.rs1) (sign_extend 64 12 i.imm) (fits i.rs1)
          (immediate-lt_64 i.imm short)))
imm_64 f r i wide fits short ImmOp.slti j =
    rw (wide, td_64 i.imm short, td_u64_full _ (fits i.rs1)) (store64_flag i r _ j)
imm_64 f r i wide fits short ImmOp.sltiu j = rw (wide, sext_64 i.imm short) (store64_flag i r _ j)
imm_64 f r i wide fits short ImmOp.xori j =
    rw (wide, sext_64 i.imm short)
      (store64 i r _ _ j (
        mod-eq_of_lt (
          bit_xor-lt 64 (x64 r i.rs1) (sign_extend 64 12 i.imm) (fits i.rs1)
            (immediate-lt_64 i.imm short))))
imm_64 f r i wide fits short ImmOp.ori j =
    rw (wide, sext_64 i.imm short)
      (store64 i r _ _ j (
        mod-eq_of_lt (
          bit_or-lt 64 (x64 r i.rs1) (sign_extend 64 12 i.imm) (fits i.rs1)
            (immediate-lt_64 i.imm short))))
imm_64 f r i wide fits short ImmOp.andi j =
    rw (wide, sext_64 i.imm short)
      (store64 i r _ _ j
        (mod-eq_of_lt (bit_and-lt 64 (x64 r i.rs1) (sign_extend 64 12 i.imm) (fits i.rs1))))
imm_64 f r i wide fits short ImmOp.slli j =
    rw (wide, bit_and_mask 6 i.imm) (store64 i r _ _ j (shift_left_64 (x64 r i.rs1) i.imm))
imm_64 f r i wide fits short ImmOp.srli j =
    rw (wide, bit_and_mask 6 i.imm)
      (store64 i r _ _ j (shift_right_64 (x64 r i.rs1) i.imm (fits i.rs1)))
imm_64 f r i wide fits short ImmOp.srai j =
    rw (wide, bit_and_mask 6 i.imm) (store64_sexti i r _ _ j (shift_arith_64 (x64 r i.rs1) i.imm))
