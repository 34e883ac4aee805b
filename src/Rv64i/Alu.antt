-- ===== src/Rv64i/Alu.antt =====
-- The word instructions of include/insns/RV64I.h. A right shift of a 32-bit value by 32 or more is
-- undefined in C: what it gives is the parameter `past`.
use rev.Prelude.{ℕ, ◌+◌, ◌*◌, ◌/◌, ◌^◌, bit_and, bit_or, ltb, ◌==◌, ◌!=◌, if◌then◌else◌}
use rev.Word.{u32, u64, signed, sext, td_u32, dt_u32, shift_ℤ, to_word, minus}
use rev.Inst.{RevInst}
use rev.RegFile.{RevFeature, RevRegFile, x64, set64, step64}

abbrev pub mask32 : ℕ
mask32 = 0b11111111111111111111111111111111

-- `1<<31` as an int, widened to 64 bits.
abbrev pub top_bits : ℕ
top_bits = 0xFFFFFFFF80000000

-- `>>` on a uint32_t, and on an int32_t whose value is widened to 64 bits.
abbrev pub shift_unsigned : (ℕ → ℕ → ℕ) → ℕ → ℕ → ℕ
shift_unsigned past v k = if ltb k 32 then v / 2 ^ k else past v k

abbrev pub shift_signed : (ℕ → ℕ → ℕ) → ℕ → ℕ → ℕ
shift_signed past v k = if ltb k 32 then to_word 64 (shift_ℤ (signed 32 v) k) else past v k

module _ (f : RevFeature) (r : RevRegFile) (i : RevInst) where
  unfoldable pub addiw : RevRegFile
  addiw =
      let r1 = set64 i.rd (dt_u32 (u32 (td_u32 (u32 (x64 r i.rs1)) 32 + td_u32 i.imm 12)) 32) r in
      let r2 = set64 i.rd (bit_and (x64 r1 i.rd) mask32) r1 in
      step64 i (set64 i.rd (sext (x64 r2 i.rd) 32) r2)

  unfoldable pub slliw : RevRegFile
  slliw =
      let shifted = u64 (x64 r i.rs1 * 2 ^ bit_and i.imm 0b0111111) in
      let r1 = set64 i.rd (sext (bit_and shifted 0xffffffff) 32) r in
      step64 i (set64 i.rd (sext (x64 r1 i.rd) 64) r1)

  -- For a count of zero the source is read after the destination is cleared.
  unfoldable pub srliw : (ℕ → ℕ → ℕ) → RevRegFile
  srliw past =
      let cleared = set64 i.rd 0 r in
      let moved =
        set64 i.rd (bit_or (x64 cleared i.rd) (bit_and (x64 cleared i.rs1) 0xffffffff)) cleared in
      let src_trunc = u32 (bit_and (x64 r i.rs1) mask32) in
      let dest = u32 (shift_unsigned past src_trunc (bit_and i.imm 0b111111)) in
      if bit_and i.imm 0b111111 == 0
      then step64 i (set64 i.rd (sext (x64 moved i.rd) 32) moved)
      else step64 i (set64 i.rd (bit_or (x64 cleared i.rd) dest) cleared)

  -- The end of `sraiw` and `sraw`: `rs1` is read again once `rd` is written.
  unfoldable pub fill_sign : RevRegFile → RevRegFile
  fill_sign r1 =
      let low = bit_and (x64 r1 i.rd) mask32 in
      step64 i (
        set64 i.rd
          (if bit_and (x64 r1 i.rs1) 0x80000000 != 0 then bit_or low 0xFFFFFFFF00000000 else low)
          r1)

  unfoldable pub sraiw : (ℕ → ℕ → ℕ) → RevRegFile
  unfolding fill_sign
  sraiw past =
      let tmp = bit_and (x64 r i.rs1) top_bits in
      let src_trunc = u32 (bit_and (x64 r i.rs1) mask32) in
      let shifted = shift_signed past src_trunc (bit_and i.imm 0b1111111) in
      let r1 = set64 i.rd (sext (bit_or shifted tmp) 32) r in
      fill_sign (set64 i.rd (sext (x64 r1 i.rd) 32) r1)

  unfoldable pub addw : RevRegFile
  addw =
      let sum = u32 (td_u32 (u32 (x64 r i.rs1)) 32 + td_u32 (u32 (x64 r i.rs2)) 32) in
      let r1 = set64 i.rd (dt_u32 sum 32) r in step64 i (set64 i.rd (sext (x64 r1 i.rd) 32) r1)

  unfoldable pub subw : RevRegFile
  subw =
      let difference = minus 32 (td_u32 (u32 (x64 r i.rs1)) 32) (td_u32 (u32 (x64 r i.rs2)) 32) in
      let r1 = set64 i.rd (dt_u32 difference 32) r in
      step64 i (set64 i.rd (sext (x64 r1 i.rd) 32) r1)

  unfoldable pub sllw : RevRegFile
  sllw =
      let shifted = u64 (x64 r i.rs1 * 2 ^ bit_and (x64 r i.rs2) 0b11111) in
      let r1 = set64 i.rd (sext (bit_and shifted mask32) 64) r in
      step64 i (set64 i.rd (sext (x64 r1 i.rd) 32) r1)

  unfoldable pub srlw : RevRegFile
  srlw =
      let src_trunc = bit_and (x64 r i.rs1) mask32 in
      let r1 = set64 i.rd (src_trunc / 2 ^ bit_and (x64 r i.rs2) 0b11111) r in
      step64 i (set64 i.rd (sext (x64 r1 i.rd) 32) r1)

  -- The count has six bits.
  unfoldable pub sraw : (ℕ → ℕ → ℕ) → RevRegFile
  unfolding fill_sign
  sraw past =
      let tmp = bit_and (x64 r i.rs1) top_bits in
      let src_trunc = u32 (bit_and (x64 r i.rs1) mask32) in
      let shifted = shift_signed past src_trunc (bit_and (x64 r i.rs2) 0b111111) in
      let r1 = set64 i.rd (sext (bit_or shifted tmp) 32) r in
      fill_sign (set64 i.rd (sext (x64 r1 i.rd) 32) r1)
