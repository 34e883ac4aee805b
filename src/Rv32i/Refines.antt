-- ===== src/Rv32i/Refines.antt =====
-- The register instructions compute what `Isa.alu` says, at both widths.
use native.Mathlib.Nat.{mod-eq_of_lt, div-le_self}
use rev.Prelude.{
  ℕ, ◌+◌, ◌*◌, ◌/◌, ◌%◌, ◌^◌, ◌<◌, ◌≡◌, refl, ◌∙◌, arith, bit_and, bit_or, bit_xor, true, false,
}
use rev.Bits.{bit_and_mask, bit_xor-lt, bit_or-lt, bit_and-lt, low-lt, two_pow_pos}
use rev.Prelude.Int.{ℤ, pos, negsuc}
use rev.Word.{u32, u64, signed, sext, zext, td_u32, dt_u32, td_u64, dt_u64, shift_ℤ, to_word, minus}
use rev.Inst.{RevInst}
use rev.RegFile.{RevFeature, RevRegFile, is_rv32, x32, x64}
use rev.Isa.{AluOp, alu}
use rev.Rv32i.Alu
use rev.Rv32i.Writes.{
  td_u32_full, dt_u32_full, td_u64_full, dt_u64_full, sext_32-low, sext_64_full, zext_32_full,
  zext_64_full, Wrote32, Wrote64, store32, store64, store32_sexti, store64_sexti, store32_flag,
  store64_flag,
}

-- The function that the tables name for an operation.
unfoldable pub run : AluOp → RevFeature → RevRegFile → RevInst → RevRegFile
run AluOp.add = Alu.add
run AluOp.sub = Alu.sub
run AluOp.sll = Alu.sll
run AluOp.slt = Alu.slt
run AluOp.sltu = Alu.sltu
run AluOp.xor = Alu.f_xor
run AluOp.srl = Alu.srl
run AluOp.sra = Alu.sra
run AluOp.or = Alu.f_or
run AluOp.and = Alu.f_and

pub quotient_below : (w a k : ℕ) → a < 2 ^ w → a / 2 ^ k < 2 ^ w
quotient_below w a k h = omega (arith, div-le_self a (2 ^ k))

pub to_word-lt : (w : ℕ) (z : ℤ) → to_word w z < 2 ^ w
to_word-lt w (pos n) = low-lt w n
to_word-lt w (negsuc n) = omega (arith, two_pow_pos w)

pub to_word-low : (z : ℤ) → u32 (to_word 64 z) ≡ to_word 32 z
to_word-low (pos n) = omega arith
to_word-low (negsuc n) = omega arith

-- The values that the instructions store.
module _ (a b : ℕ) where
  module _ (ha : a < 2 ^ 32) (hb : b < 2 ^ 32) where
    pub add_32 : u32 (dt_u32 (u32 (td_u32 a 32 + td_u32 b 32)) 32) ≡ alu 32 AluOp.add a b
    add_32 =
        rw (td_u32_full a ha, td_u32_full b hb)
          (omega (arith, dt_u32_full (u32 (a + b)) (omega arith)))

    pub sub_32 : u32 (dt_u32 (minus 32 (td_u32 a 32) (td_u32 b 32)) 32) ≡ alu 32 AluOp.sub a b
    sub_32 =
        rw (td_u32_full a ha, td_u32_full b hb)
          (omega (arith, dt_u32_full (minus 32 a b) (omega arith)))

    pub xor_32 : u32 (sext (bit_xor a b) 32) ≡ alu 32 AluOp.xor a b
    xor_32 = omega (
      arith,
      bit_xor-lt 32 a b ha hb,
      sext_32-low (bit_xor a b) (omega (arith, bit_xor-lt 32 a b ha hb)),
    )

    pub or_32 : u32 (bit_or a b) ≡ alu 32 AluOp.or a b
    or_32 = mod-eq_of_lt (bit_or-lt 32 a b ha hb)

    pub and_32 : u32 (sext (bit_and a b) 32) ≡ alu 32 AluOp.and a b
    and_32 = omega (
      arith,
      bit_and-lt 32 a b ha,
      sext_32-low (bit_and a b) (omega (arith, bit_and-lt 32 a b ha)),
    )

    pub sll_32 : u32 (a * 2 ^ bit_and b 0b11111) ≡ alu 32 AluOp.sll a b
    sll_32 = rw (bit_and_mask 5 b) refl

    pub srl_32 : u32 (zext (a / 2 ^ bit_and b 0b11111) 32) ≡ alu 32 AluOp.srl a b
    srl_32 =
        let below = quotient_below 32 a (b % 32) ha in
        rw (bit_and_mask 5 b, zext_32_full _ below) (mod-eq_of_lt below)

    pub sra_32 :
        u32 (sext (to_word 64 (shift_ℤ (signed 32 a) (bit_and b 0b11111))) 32)
        ≡ alu 32 AluOp.sra a b
    sra_32 =
        let z = shift_ℤ (signed 32 a) (b % 32) in
        rw (bit_and_mask 5 b) (sext_32-low (to_word 64 z) (to_word-lt 64 z) ∙ to_word-low z)

  module _ (ha : a < 2 ^ 64) (hb : b < 2 ^ 64) where
    pub add_64 : u64 (dt_u64 (u64 (td_u64 a 64 + td_u64 b 64)) 64) ≡ alu 64 AluOp.add a b
    add_64 =
        rw (td_u64_full a ha, td_u64_full b hb)
          (omega (arith, dt_u64_full (u64 (a + b)) (omega arith)))

    pub sub_64 : u64 (dt_u64 (minus 64 (td_u64 a 64) (td_u64 b 64)) 64) ≡ alu 64 AluOp.sub a b
    sub_64 =
        rw (td_u64_full a ha, td_u64_full b hb)
          (omega (arith, dt_u64_full (minus 64 a b) (omega arith)))

    pub xor_64 : u64 (sext (bit_xor a b) 64) ≡ alu 64 AluOp.xor a b
    xor_64 = let below = bit_xor-lt 64 a b ha hb in rw (sext_64_full _ below) (mod-eq_of_lt below)

    pub or_64 : u64 (bit_or a b) ≡ alu 64 AluOp.or a b
    or_64 = mod-eq_of_lt (bit_or-lt 64 a b ha hb)

    pub and_64 : u64 (sext (bit_and a b) 64) ≡ alu 64 AluOp.and a b
    and_64 = let below = bit_and-lt 64 a b ha in rw (sext_64_full _ below) (mod-eq_of_lt below)

    pub sll_64 : u64 (a * 2 ^ bit_and b 0b111111) ≡ alu 64 AluOp.sll a b
    sll_64 = rw (bit_and_mask 6 b) refl

    pub srl_64 : u64 (zext (a / 2 ^ bit_and b 0b11111) 64) ≡ alu 64 AluOp.srl a (b % 32)
    srl_64 =
        let below = quotient_below 64 a (b % 32) ha in
        let count : b % 32 % 64 ≡ b % 32 = omega arith in
        rw (bit_and_mask 5 b, zext_64_full _ below, count) (mod-eq_of_lt below)

    pub sra_64 :
        u64 (sext (to_word 64 (shift_ℤ (signed 64 a) (bit_and b 0b111111))) 64)
        ≡ alu 64 AluOp.sra a b
    sra_64 =
        let z = shift_ℤ (signed 64 a) (b % 64) in
        rw (bit_and_mask 6 b, sext_64_full _ (to_word-lt 64 z)) (mod-eq_of_lt (to_word-lt 64 z))

-- On RV32 each of the ten register instructions leaves in `rd` the result that the manual gives
-- for the values of `rs1` and `rs2`, leaves every other register and field alone and steps the
-- program counter by the size of the instruction. The registers hold words of 32 bits.
pub alu_32 :
    (f : RevFeature) (r : RevRegFile) (i : RevInst)
    → is_rv32 f ≡ true
    → ((k : ℕ) → x32 r k < 2 ^ 32)
    → (op : AluOp) (j : ℕ) → Wrote32 i r (run op f r i) (alu 32 op (x32 r i.rs1) (x32 r i.rs2)) j
unfolding run Alu.add Alu.sub Alu.sll Alu.slt Alu.sltu Alu.f_xor Alu.srl Alu.sra Alu.f_or Alu.f_and
alu_32 f r i narrow fits AluOp.add j =
    rw narrow (store32 i r _ _ j (add_32 (x32 r i.rs1) (x32 r i.rs2) (fits i.rs1) (fits i.rs2)))
alu_32 f r i narrow fits AluOp.sub j =
    rw narrow (store32 i r _ _ j (sub_32 (x32 r i.rs1) (x32 r i.rs2) (fits i.rs1) (fits i.rs2)))
alu_32 f r i narrow fits AluOp.sll j =
    rw narrow (store32 i r _ _ j (sll_32 (x32 r i.rs1) (x32 r i.rs2) (fits i.rs1) (fits i.rs2)))
alu_32 f r i narrow fits AluOp.slt j =
    rw (narrow, td_u32_full _ (fits i.rs1), td_u32_full _ (fits i.rs2)) (store32_flag i r _ j)
alu_32 f r i narrow fits AluOp.sltu j = rw narrow (store32_flag i r _ j)
alu_32 f r i narrow fits AluOp.xor j =
    rw narrow (store32 i r _ _ j (xor_32 (x32 r i.rs1) (x32 r i.rs2) (fits i.rs1) (fits i.rs2)))
alu_32 f r i narrow fits AluOp.srl j =
    rw narrow
      (store32_sexti i r _ _ j (srl_32 (x32 r i.rs1) (x32 r i.rs2) (fits i.rs1) (fits i.rs2)))
alu_32 f r i narrow fits AluOp.sra j =
    rw narrow
      (store32_sexti i r _ _ j (sra_32 (x32 r i.rs1) (x32 r i.rs2) (fits i.rs1) (fits i.rs2)))
alu_32 f r i narrow fits AluOp.or j =
    rw narrow (store32 i r _ _ j (or_32 (x32 r i.rs1) (x32 r i.rs2) (fits i.rs1) (fits i.rs2)))
alu_32 f r i narrow fits AluOp.and j =
    rw narrow (store32 i r _ _ j (and_32 (x32 r i.rs1) (x32 r i.rs2) (fits i.rs1) (fits i.rs2)))

-- The results of the register instructions on RV64: those of the manual on 64 bits, but `slt` compares
-- the low words and `srl` takes its count modulo 32.
abbrev pub alu_on_64 : AluOp → ℕ → ℕ → ℕ
alu_on_64 AluOp.slt a b = alu 32 AluOp.slt (a % 2 ^ 32) (b % 2 ^ 32)
alu_on_64 AluOp.srl a b = alu 64 AluOp.srl a (b % 32)
alu_on_64 op a b = alu 64 op a b

-- On RV64 each of the ten register instructions leaves a result in `rd`, leaves every other register
-- and field alone and steps the program counter by the size of the instruction. The result is the
-- one that the manual gives for the values of `rs1` and `rs2`, except that slt compares their low
-- 32 bits as signed words and srl shifts by the count modulo 32. The registers hold words of 64 bits.
pub alu_64 :
    (f : RevFeature) (r : RevRegFile) (i : RevInst)
    → is_rv32 f ≡ false
    → ((k : ℕ) → x64 r k < 2 ^ 64)
    → (op : AluOp) (j : ℕ) → Wrote64 i r (run op f r i) (alu_on_64 op (x64 r i.rs1) (x64 r i.rs2)) j
unfolding run Alu.add Alu.sub Alu.sll Alu.slt Alu.sltu Alu.f_xor Alu.srl Alu.sra Alu.f_or Alu.f_and
alu_64 f r i wide fits AluOp.add j =
    rw wide (store64 i r _ _ j (add_64 (x64 r i.rs1) (x64 r i.rs2) (fits i.rs1) (fits i.rs2)))
alu_64 f r i wide fits AluOp.sub j =
    rw wide (store64 i r _ _ j (sub_64 (x64 r i.rs1) (x64 r i.rs2) (fits i.rs1) (fits i.rs2)))
alu_64 f r i wide fits AluOp.sll j =
    rw wide (store64 i r _ _ j (sll_64 (x64 r i.rs1) (x64 r i.rs2) (fits i.rs1) (fits i.rs2)))
alu_64 f r i wide fits AluOp.slt j =
    let low : (k : ℕ) → u32 (x64 r k) < 2 ^ 32 = λ k. omega arith in
    rw (wide, td_u32_full _ (low i.rs1), td_u32_full _ (low i.rs2)) (store64_flag i r _ j)
alu_64 f r i wide fits AluOp.sltu j = rw wide (store64_flag i r _ j)
alu_64 f r i wide fits AluOp.xor j =
    rw wide (store64 i r _ _ j (xor_64 (x64 r i.rs1) (x64 r i.rs2) (fits i.rs1) (fits i.rs2)))
alu_64 f r i wide fits AluOp.srl j =
    rw wide (store64_sexti i r _ _ j (srl_64 (x64 r i.rs1) (x64 r i.rs2) (fits i.rs1) (fits i.rs2)))
alu_64 f r i wide fits AluOp.sra j =
    rw wide (store64_sexti i r _ _ j (sra_64 (x64 r i.rs1) (x64 r i.rs2) (fits i.rs1) (fits i.rs2)))
alu_64 f r i wide fits AluOp.or j =
    rw wide (store64 i r _ _ j (or_64 (x64 r i.rs1) (x64 r i.rs2) (fits i.rs1) (fits i.rs2)))
alu_64 f r i wide fits AluOp.and j =
    rw wide (store64 i r _ _ j (and_64 (x64 r i.rs1) (x64 r i.rs2) (fits i.rs1) (fits i.rs2)))
