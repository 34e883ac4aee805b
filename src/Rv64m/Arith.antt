-- ===== src/Rv64m/Arith.antt =====
-- The functions of include/insns/RV64M.h. The three high products are declared there and no
-- instruction calls them.
use rev.Prelude.{
  ℕ, ◌+◌, ◌-◌, ◌*◌, ◌/◌, ◌%◌, ◌^◌, bit_and, bit_or, ◌==◌, ◌&&◌, ◌||◌, ltb, if◌then◌else◌,
}
use rev.Word.{u32, u64, signed, sext, to_word, td_u64, dt_u64}
use rev.Inst.{RevInst}
use rev.RegFile.{RevFeature, RevRegFile, x64, set64, step64}
use rev.Rv32m.Signed.{quot_ℤ, rem_ℤ, absolute, is_negative, complement}
use rev.Rv64i.Alu.{mask32}

unfoldable pub mulhu64_impl : ℕ → ℕ → ℕ
mulhu64_impl a b =
    let a0 = u32 a in
    let a1 = a / 2 ^ 32 in
    let b0 = u32 b in
    let b1 = b / 2 ^ 32 in
    let t = u64 (a1 * b0 + (a0 + b0) / 2 ^ 32) in
    let y1 = u32 t in
    let y2 = u32 (t / 2 ^ 32) in
    let t' = u64 (a0 + b1 + y1) in
    let t'' = u64 (a1 * b1 + y2 + t' / 2 ^ 32) in
    let y2' = u32 t'' in let y3 = u32 (t'' / 2 ^ 32) in bit_or (u64 (y3 * 2 ^ 32)) y2'

unfoldable pub mulh64_impl : ℕ → ℕ → ℕ
unfolding mulhu64_impl
mulh64_impl a b =
    let res = mulhu64_impl (absolute a) (absolute b) in
    if ltb a (2 ^ 63)
    then (if ltb b (2 ^ 63) then res else complement res a b)
    else if ltb b (2 ^ 63)
    then complement res a b
    else res

unfoldable pub mulhsu64_impl : ℕ → ℕ → ℕ
unfolding mulhu64_impl
mulhsu64_impl a b =
    let res = mulhu64_impl (absolute a) b in if is_negative a then complement res a b else res

module _ (f : RevFeature) (r : RevRegFile) (i : RevInst) where
  -- The operands are not masked.
  unfoldable pub mulw : RevRegFile
  mulw =
      let product = u64 (td_u64 (x64 r i.rs1) 32 * td_u64 (x64 r i.rs2) 32) in
      let r1 = set64 i.rd (bit_and (dt_u64 product 32) mask32) r in
      step64 i (set64 i.rd (sext (x64 r1 i.rd) 32) r1)

  unfoldable pub divw : RevRegFile
  divw =
      let lhs = td_u64 (bit_and (x64 r i.rs1) mask32) 32 in
      let rhs = td_u64 (bit_and (x64 r i.rs2) mask32) 32 in
      let quotient = to_word 64 (quot_ℤ (signed 64 lhs) (signed 64 rhs)) in
      if rhs == 0
      then step64 i (set64 i.rd (2 ^ 64 - 1) r)
      else if (lhs == 2 ^ 64 - 2 ^ 31) && (u32 rhs == 2 ^ 32 - 1)
      then step64 i (set64 i.rd (dt_u64 (bit_and lhs mask32) 32) r)
      else step64 i (set64 i.rd (dt_u64 (bit_and quotient mask32) 32) r)

  unfoldable pub divuw : RevRegFile
  divuw =
      let lhs = bit_and (x64 r i.rs1) mask32 in
      let rhs = bit_and (x64 r i.rs2) mask32 in
      let r1 = set64 i.rd (2 ^ 32 - 1) r in
      if rhs == 0
      then step64 i (set64 i.rd (sext (x64 r1 i.rd) 32) r1)
      else step64 i (set64 i.rd (sext (bit_and (lhs / rhs) mask32) 32) r)

  -- For a zero divisor the whole of `rs1` is copied.
  unfoldable pub remw : RevRegFile
  remw =
      let lhs = td_u64 (bit_and (x64 r i.rs1) mask32) 32 in
      let rhs = td_u64 (bit_and (x64 r i.rs2) mask32) 32 in
      let remainder = to_word 64 (rem_ℤ (signed 64 lhs) (signed 64 rhs)) in
      if rhs == 0
      then step64 i (set64 i.rd (x64 r i.rs1) r)
      else if (lhs == 2 ^ 64 - 2 ^ 31) && (u32 rhs == 2 ^ 32 - 1)
      then step64 i (set64 i.rd 0 r)
      else step64 i (set64 i.rd (dt_u64 (bit_and remainder mask32) 32) r)

  -- The sign of the divisor is taken from bit 63.
  unfoldable pub remuw : RevRegFile
  remuw =
      let lhs = bit_and (x64 r i.rs1) mask32 in
      let rhs = bit_and (x64 r i.rs2) mask32 in
      let sign_rhs = bit_and (x64 r i.rs2) 0x8000000000000000 / 2 ^ 63 in
      if (rhs == 0) || ltb 0 sign_rhs
      then step64 i (set64 i.rd (x64 r i.rs1) r)
      else step64 i (set64 i.rd (sext (bit_and (lhs % rhs) mask32) 32) r)
