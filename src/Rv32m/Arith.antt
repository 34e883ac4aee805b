-- ===== src/Rv32m/Arith.antt =====
-- `mulhu_impl`, `mul`, `mulhu` on 64 bits, `divu` and `remu` of include/insns/RV32M.h. The 32-bit
-- `mulhu` shifts a 32-bit product by 32, which C leaves undefined: its value is a parameter.
use rev.Prelude.{ℕ, ◌+◌, ◌-◌, ◌*◌, ◌/◌, ◌%◌, ◌^◌, bit_and, ltb, ◌==◌, ◌||◌, if◌then◌else◌}
use rev.Word.{u32, u64, td_u32, td_u64, dt_u32, dt_u64, sext, zext}
use rev.Inst.{RevInst}
use rev.RegFile.{RevFeature, RevRegFile, is_rv32, x32, x64, set32, set64, step32, step64}

unfoldable pub mulhu_impl : ℕ → ℕ → ℕ
mulhu_impl a b =
    let a0 = u32 a in
    let a1 = a / 2 ^ 32 in
    let b0 = u32 b in
    let b1 = b / 2 ^ 32 in
    let pp1 = u64 (a0 * b0) in
    let pp2 = u64 (a1 * b0) in
    let pp3 = u64 (a0 * b1) in
    let pp4 = u64 (a1 * b1) in
    let sum = (pp1 + pp2 * 2 ^ 32 + pp3 * 2 ^ 32 + pp4 * 2 ^ 64) % 2 ^ 128 in u64 (sum / 2 ^ 64)

module _ (f : RevFeature) (r : RevRegFile) (i : RevInst) where
  unfoldable pub mul : RevRegFile
  mul =
      if is_rv32 f
      then step32 i
          (set32 i.rd (dt_u32 (u32 (td_u32 (x32 r i.rs1) 32 * td_u32 (x32 r i.rs2) 32)) 32) r)
      else step64 i
          (set64 i.rd (dt_u64 (u64 (td_u64 (x64 r i.rs1) 64 * td_u64 (x64 r i.rs2) 64)) 64) r)

  unfoldable pub mulhu : (ℕ → ℕ) → RevRegFile
  mulhu shift_32 =
      if is_rv32 f
      then step32 i (
          set32 i.rd
            (dt_u32 (shift_32 (u32 (td_u32 (x32 r i.rs1) 32 * td_u32 (x32 r i.rs2) 32))) 32) r)
      else step64 i (set64 i.rd (dt_u64 (mulhu_impl (x64 r i.rs1) (x64 r i.rs2)) 64) r)

  unfoldable pub divu : RevRegFile
  divu =
      if is_rv32 f
      then (let lhs = x32 r i.rs1 in
          let rhs = x32 r i.rs2 in
          if rhs == 0
          then step32 i (set32 i.rd (2 ^ 32 - 1) r)
          else step32 i (set32 i.rd (sext (lhs / rhs) 32) r))
      else let lhs = x64 r i.rs1 in
        let rhs = x64 r i.rs2 in
        if rhs == 0
        then step64 i (set64 i.rd (2 ^ 64 - 1) r)
        else step64 i (set64 i.rd (sext (lhs / rhs) 64) r)

  -- The 32-bit branch takes the sign of the divisor from `RV64`.
  unfoldable pub remu : RevRegFile
  remu =
      if is_rv32 f
      then (let lhs = u32 (zext (x32 r i.rs1) 32) in
          let rhs = u32 (zext (x32 r i.rs2) 32) in
          let sign_rhs = bit_and (x64 r i.rs2) 0x80000000 / 2 ^ 31 in
          if (rhs == 0) || ltb 0 sign_rhs
          then step32 i (set32 i.rd (x32 r i.rs1) r)
          else step32 i (set32 i.rd (sext (lhs % rhs) 32) r))
      else let lhs = x64 r i.rs1 in
        let rhs = x64 r i.rs2 in
        let sign_rhs = bit_and (x64 r i.rs2) 0x8000000000000000 / 2 ^ 63 in
        if (rhs == 0) || ltb 0 sign_rhs
        then step64 i (set64 i.rd (x64 r i.rs1) r)
        else step64 i (set64 i.rd (sext (lhs % rhs) 64) r)
