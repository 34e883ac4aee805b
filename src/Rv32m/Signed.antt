-- ===== src/Rv32m/Signed.antt =====
-- `div`, `rem`, `mulh`, `mulhsu`, `mulh_impl` and `mulhsu_impl` of include/insns/RV32M.h.
pub mod Refines
pub mod High
use rev.Prelude.{
  ℕ, zero, suc, ◌+◌, ◌-◌, ◌*◌, ◌/◌, ◌%◌, ◌^◌, ◌==◌, ◌&&◌, ltb, Bool, not, if◌then◌else◌,
}
use rev.Prelude.Int.{ℤ, pos, negsuc}
use rev.Word.{u32, u64, signed, to_word, shift_ℤ, td_u32, td_u64, dt_u32, dt_u64}
use rev.Inst.{RevInst}
use rev.Rv32m.Arith.{mulhu_impl}
use rev.RegFile.{RevFeature, RevRegFile, is_rv32, x32, x64, set32, set64, step32, step64}

abbrev pub negative : ℕ → ℤ
negative zero = pos 0
negative (suc n) = negsuc n

abbrev pub magnitude : ℤ → ℕ
magnitude (pos n) = n
magnitude (negsuc n) = suc n

-- `/` and `%` on signed operands: the quotient is rounded towards zero, and the remainder has the
-- sign of the dividend.
abbrev pub quot_ℤ : ℤ → ℤ → ℤ
quot_ℤ (pos a) (pos b) = pos (a / b)
quot_ℤ (pos a) (negsuc b) = negative (a / suc b)
quot_ℤ (negsuc a) (pos b) = negative (suc a / b)
quot_ℤ (negsuc a) (negsuc b) = pos (suc a / suc b)

abbrev pub rem_ℤ : ℤ → ℤ → ℤ
rem_ℤ (pos a) b = pos (a % magnitude b)
rem_ℤ (negsuc a) b = negative (suc a % magnitude b)

module _ (f : RevFeature) (r : RevRegFile) (i : RevInst) where
  unfoldable pub div : RevRegFile
  div =
      if is_rv32 f
      then (let lhs = td_u32 (x32 r i.rs1) 32 in
          let rhs = td_u32 (x32 r i.rs2) 32 in
          let quotient = to_word 32 (quot_ℤ (signed 32 lhs) (signed 32 rhs)) in
          if rhs == 0
          then step32 i (set32 i.rd (2 ^ 32 - 1) r)
          else if (lhs == 2 ^ 31) && (rhs == 2 ^ 32 - 1)
          then step32 i (set32 i.rd (dt_u32 lhs 32) r)
          else step32 i (set32 i.rd (dt_u32 quotient 32) r))
      else let lhs = td_u64 (x64 r i.rs1) 64 in
        let rhs = td_u64 (x64 r i.rs2) 64 in
        let quotient = to_word 64 (quot_ℤ (signed 64 lhs) (signed 64 rhs)) in
        if rhs == 0
        then step64 i (set64 i.rd (2 ^ 64 - 1) r)
        else if (lhs == 2 ^ 63) && (rhs == 2 ^ 64 - 1)
        then step64 i (set64 i.rd (dt_u64 lhs 64) r)
        else step64 i (set64 i.rd (dt_u64 quotient 64) r)

  unfoldable pub rem : RevRegFile
  rem =
      if is_rv32 f
      then (let lhs = td_u32 (x32 r i.rs1) 32 in
          let rhs = td_u32 (x32 r i.rs2) 32 in
          let remainder = to_word 32 (rem_ℤ (signed 32 lhs) (signed 32 rhs)) in
          if rhs == 0
          then step32 i (set32 i.rd (dt_u32 lhs 32) r)
          else if (lhs == 2 ^ 31) && (rhs == 2 ^ 32 - 1)
          then step32 i (set32 i.rd 0 r)
          else step32 i (set32 i.rd (dt_u32 remainder 32) r))
      else let lhs = td_u64 (x64 r i.rs1) 64 in
        let rhs = td_u64 (x64 r i.rs2) 64 in
        let remainder = to_word 64 (rem_ℤ (signed 64 lhs) (signed 64 rhs)) in
        if rhs == 0
        then step64 i (set64 i.rd (dt_u64 lhs 64) r)
        else if (lhs == 2 ^ 63) && (rhs == 2 ^ 64 - 1)
        then step64 i (set64 i.rd 0 r)
        else step64 i (set64 i.rd (dt_u64 remainder 64) r)

-- `A < 0 ? -A : A` on the pattern of an int64_t.
abbrev pub absolute : ℕ → ℕ
absolute a = if ltb a (2 ^ 63) then a else 2 ^ 64 - a

abbrev pub is_negative : ℕ → Bool
is_negative a = not (ltb a (2 ^ 63))

-- `~res + (A * B == 0)`, on 64 bits.
abbrev pub complement : ℕ → ℕ → ℕ → ℕ
complement res a b = u64 (2 ^ 64 - 1 - res + (if u64 (a * b) == 0 then 1 else 0))

unfoldable pub mulh_impl : ℕ → ℕ → ℕ
mulh_impl a b =
    let res = mulhu_impl (absolute a) (absolute b) in
    if ltb a (2 ^ 63)
    then (if ltb b (2 ^ 63) then res else complement res a b)
    else if ltb b (2 ^ 63)
    then complement res a b
    else res

unfoldable pub mulhsu_impl : ℕ → ℕ → ℕ
mulhsu_impl a b =
    let res = mulhu_impl (absolute a) b in if is_negative a then complement res a b else res

module _ (f : RevFeature) (r : RevRegFile) (i : RevInst) where
  unfoldable pub mulh : RevRegFile
  mulh =
      if is_rv32 f
      then (let high = mulh_impl (td_u32 (x32 r i.rs1) 32) (td_u32 (x32 r i.rs2) 32) in
          let shifted = to_word 64 (shift_ℤ (signed 64 high) 32) in
          step32 i (set32 i.rd (dt_u32 (u32 shifted) 32) r))
      else step64 i
          (set64 i.rd (dt_u64 (mulh_impl (td_u64 (x64 r i.rs1) 64) (td_u64 (x64 r i.rs2) 64)) 64) r)

  -- The 32-bit branch shifts a 32-bit product by 32; the 64-bit branch extends `rs1` from bit 31.
  unfoldable pub mulhsu : (ℕ → ℕ) → RevRegFile
  mulhsu shift_32 =
      if is_rv32 f
      then step32 i (
          set32 i.rd
            (dt_u32 (shift_32 (u32 (td_u32 (x32 r i.rs1) 32 * td_u32 (x32 r i.rs2) 32))) 32) r)
      else step64 i (set64 i.rd (dt_u64 (mulhsu_impl (td_u64 (x64 r i.rs1) 32) (x64 r i.rs2)) 32) r)
