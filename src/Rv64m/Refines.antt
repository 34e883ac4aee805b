-- ===== src/Rv64m/Refines.antt =====
-- The word multiplication and divisions against the operations on 32-bit words.
use native.Mathlib.Nat.{add-mul-mod_self_right, mod-eq_of_lt, div-le_self, mod-le, mul_comm}
use rev.Prelude.{
  ℕ, ◌-◌, ◌*◌, ◌/◌, ◌%◌, ◌^◌, ◌<◌, ◌≡◌, refl, ap, ap₂, ◌∙◌, arith, bit_and, ltb, ◌==◌, ◌&&◌,
  if◌then◌else◌, false, Bool-cases, inl, inr,
}
use rev.Bits.{bit_and_mask, bit_and_field}
use rev.Word.{u32, u64, signed, sext, to_word, td_u64, dt_u64}
use rev.Word.Extend.{
  sign_extend, sext-eq-sign_extend, td_u64_lem, dt_u64_lem, extended-eq-sign_extend,
}
use rev.Inst.{RevInst}
use rev.RegFile.{RevFeature, RevRegFile, x64}
use rev.Rv32i.Refines.{to_word-low}
use rev.Rv32i.Writes.{Wrote64, store64}
use rev.Rv32m.Signed.{quot_ℤ, rem_ℤ}
use rev.Rv32m.Signed.Refines.{signed_quotient, signed_remainder}
use rev.Rv64i.Alu.{mask32}
use rev.Rv64i.Refines.{store64_word, low_product}
use rev.Rv64m.Arith

pub data WordMulOp : Type 0 where
  mulw divw divuw remw remuw : WordMulOp

-- The operation of the manual on two 32-bit words.
abbrev pub word_mul : WordMulOp → ℕ → ℕ → ℕ
word_mul WordMulOp.mulw a b = u32 (a * b)
word_mul WordMulOp.divw a b = signed_quotient 32 a b
word_mul WordMulOp.divuw a b = if b == 0 then 2 ^ 32 - 1 else a / b
word_mul WordMulOp.remw a b = signed_remainder 32 a b
word_mul WordMulOp.remuw a b = if b == 0 then a else a % b

-- The function that the tables name for an operation.
unfoldable pub run_word_mul : WordMulOp → RevFeature → RevRegFile → RevInst → RevRegFile
run_word_mul WordMulOp.mulw = Arith.mulw
run_word_mul WordMulOp.divw = Arith.divw
run_word_mul WordMulOp.divuw = Arith.divuw
run_word_mul WordMulOp.remw = Arith.remw
run_word_mul WordMulOp.remuw = Arith.remuw

-- What the remainders ask of the operands: a sign extended word under a zero divisor, and for the
-- unsigned one a divisor below 2 ^ 63.
unfoldable pub HasOperands : WordMulOp → ℕ → ℕ → Type 0
HasOperands WordMulOp.mulw a b = Unit
HasOperands WordMulOp.divw a b = Unit
HasOperands WordMulOp.divuw a b = Unit
HasOperands WordMulOp.remw a b = b % 2 ^ 32 ≡ 0 → a ≡ sign_extend 64 32 (a % 2 ^ 32)
HasOperands WordMulOp.remuw a b =
    (b < 2 ^ 63) × (b % 2 ^ 32 ≡ 0 → a ≡ sign_extend 64 32 (a % 2 ^ 32))

-- `td_u64(x, 32)` and `dt_u64(x, 32)` of a word.
td_word : (x : ℕ) → x < 2 ^ 32 → td_u64 x 32 ≡ sign_extend 64 32 x
td_word x h =
    td_u64_lem 31 x (omega arith) (omega arith) ∙ extended-eq-sign_extend 64 31 x (omega arith) h

dt_word : (x : ℕ) → x < 2 ^ 32 → dt_u64 x 32 ≡ sign_extend 64 32 x
dt_word x h =
    dt_u64_lem 31 x (omega arith) (omega arith) ∙ extended-eq-sign_extend 64 31 x (omega arith) h

sign_extend_word-lt : (x : ℕ) → x < 2 ^ 32 → sign_extend 64 32 x < 2 ^ 64
sign_extend_word-lt x h = ground arith

-- They keep the low 32 bits of any register.
td_low : (x : ℕ) → x < 2 ^ 64 → u32 (td_u64 x 32) ≡ u32 x
td_low x h = ground (arith, td_u64_lem 31 x)

dt_low : (x : ℕ) → x < 2 ^ 64 → u32 (dt_u64 x 32) ≡ u32 x
dt_low x h = ground (arith, dt_u64_lem 31 x)

product_low : (a b : ℕ) → u32 (a * b) ≡ u32 (u32 a * u32 b)
product_low a b =
    ap u32 (low_product a b)
    ∙ add-mul-mod_self_right (u32 a * b) (a / 2 ^ 32 * b) (2 ^ 32)
    ∙ ap u32 (mul_comm (u32 a) b ∙ low_product b (u32 a))
    ∙ add-mul-mod_self_right (u32 b * u32 a) (b / 2 ^ 32 * u32 a) (2 ^ 32)
    ∙ ap u32 (mul_comm (u32 b) (u32 a))

-- A signed result of 64 bits, masked and extended from bit 31.
masked_word : (x w : ℕ) → u32 x ≡ w → u64 (dt_u64 (bit_and x mask32) 32) ≡ sign_extend 64 32 w
masked_word x w e =
    rw (bit_and_mask 32 x, e, dt_word w (omega (arith, e)))
      (mod-eq_of_lt (sign_extend_word-lt w (omega (arith, e))))

sext_word : (x : ℕ) → x < 2 ^ 32 → u64 (sext (bit_and x mask32) 32) ≡ sign_extend 64 32 x
sext_word x h =
    rw (bit_and_mask 32 x, mod-eq_of_lt h, sext-eq-sign_extend 31 x (omega arith) h)
      (mod-eq_of_lt (sign_extend_word-lt x h))

-- The operands of the signed divisions, read as integers and tested.
module _ (x : ℕ) where
  operand : td_u64 (bit_and x mask32) 32 ≡ sign_extend 64 32 (u32 x)
  operand = rw (bit_and_mask 32 x) (td_word (u32 x) (omega arith))

  operand_signed : signed 64 (sign_extend 64 32 (u32 x)) ≡ signed 32 (u32 x)
  operand_signed = ground arith

  operand_zero : (sign_extend 64 32 (u32 x) == 0) ≡ (u32 x == 0)
  operand_zero = ground arith

  operand_least : (sign_extend 64 32 (u32 x) == 2 ^ 64 - 2 ^ 31) ≡ (u32 x == 2 ^ 31)
  operand_least = ground arith

  operand_minus_one : (u32 (sign_extend 64 32 (u32 x)) == 2 ^ 32 - 1) ≡ (u32 x == 2 ^ 32 - 1)
  operand_minus_one = ground arith

-- The signed divisions and the unsigned ones, case by case.
module _ (f : RevFeature) (r : RevRegFile) (i : RevInst) (j : ℕ) where
  a : ℕ
  a = x64 r i.rs1

  b : ℕ
  b = x64 r i.rs2

  Wrote : RevRegFile → ℕ → Type 0
  Wrote r' v = Wrote64 i r r' v j

  divw_64 : Wrote (Arith.divw f r i) (sign_extend 64 32 (signed_quotient 32 (u32 a) (u32 b)))
  unfolding Arith.divw a b Wrote
  divw_64 = elim (Bool-cases (u32 b == 0)) [
    | inl zero ↦ rw (operand a, operand b, operand_zero b, zero) (store64 i r _ _ j refl)
    | inr more ↦
        let z = quot_ℤ (signed 32 (u32 a)) (signed 32 (u32 b)) in
        elim (Bool-cases ((u32 a == 2 ^ 31) && (u32 b == 2 ^ 32 - 1))) [
          | inl over ↦
              let ea : u32 a ≡ 2 ^ 31 = ground arith in
              let eb : u32 b ≡ 2 ^ 32 - 1 = ground arith in
              rw
                (
                  operand a,
                  operand b,
                  operand_zero b,
                  operand_least a,
                  operand_minus_one b,
                  more,
                  over,
                )
                (store64 i r _ _ j
                  (masked_word (sign_extend 64 32 (u32 a)) (to_word 32 z) (rw (ea, eb) refl)))
          | inr fit ↦
              rw
                (
                  operand a,
                  operand b,
                  operand_zero b,
                  operand_least a,
                  operand_minus_one b,
                  more,
                  fit,
                  operand_signed a,
                  operand_signed b,
                )
                (store64 i r _ _ j (masked_word (to_word 64 z) (to_word 32 z) (to_word-low z)))
        ]
  ]

  remw_64 :
      a < 2 ^ 64
      → HasOperands WordMulOp.remw a b
      → Wrote (Arith.remw f r i) (sign_extend 64 32 (signed_remainder 32 (u32 a) (u32 b)))
  unfolding Arith.remw a b Wrote HasOperands
  remw_64 ha word = elim (Bool-cases (u32 b == 0)) [
    | inl zero ↦
        let kept : u64 a ≡ sign_extend 64 32 (u32 a) =
          mod-eq_of_lt ha ∙ word (ground (arith, zero)) in
        rw (operand a, operand b, operand_zero b, zero) (store64 i r _ _ j kept)
    | inr more ↦
        let z = rem_ℤ (signed 32 (u32 a)) (signed 32 (u32 b)) in
        elim (Bool-cases ((u32 a == 2 ^ 31) && (u32 b == 2 ^ 32 - 1))) [
          | inl over ↦
              let ea : u32 a ≡ 2 ^ 31 = ground arith in
              let eb : u32 b ≡ 2 ^ 32 - 1 = ground arith in
              rw
                (
                  operand a,
                  operand b,
                  operand_zero b,
                  operand_least a,
                  operand_minus_one b,
                  more,
                  over,
                )
                (store64 i r _ _ j (rw (ea, eb) refl))
          | inr fit ↦
              rw
                (
                  operand a,
                  operand b,
                  operand_zero b,
                  operand_least a,
                  operand_minus_one b,
                  more,
                  fit,
                  operand_signed a,
                  operand_signed b,
                )
                (store64 i r _ _ j (masked_word (to_word 64 z) (to_word 32 z) (to_word-low z)))
        ]
  ]

  mulw_64 :
      a < 2 ^ 64 → b < 2 ^ 64 → Wrote (Arith.mulw f r i) (sign_extend 64 32 (u32 (u32 a * u32 b)))
  unfolding Arith.mulw a b Wrote
  mulw_64 ha hb =
      let product = td_u64 a 32 * td_u64 b 32 in
      let low : bit_and (dt_u64 (u64 product) 32) mask32 ≡ u32 (u32 a * u32 b) =
        bit_and_mask 32 (dt_u64 (u64 product) 32)
        ∙ dt_low (u64 product) (omega arith)
        ∙ omega arith
        ∙ product_low (td_u64 a 32) (td_u64 b 32)
        ∙ ap₂ (λ x y. u32 (x * y)) (td_low a ha) (td_low b hb) in
      rw low (store64_word i r _ _ j (omega arith) refl)

  divuw_64 :
      Wrote (Arith.divuw f r i) (sign_extend 64 32 (word_mul WordMulOp.divuw (u32 a) (u32 b)))
  unfolding Arith.divuw a b Wrote
  divuw_64 = elim (Bool-cases (u32 b == 0)) [
    | inl zero ↦
        rw (bit_and_mask 32 a, bit_and_mask 32 b, zero) (store64_word i r _ _ j (omega arith) refl)
    | inr more ↦
        let below : u32 a / u32 b < 2 ^ 32 = omega (arith, div-le_self (u32 a) (u32 b)) in
        rw (bit_and_mask 32 a, bit_and_mask 32 b, more)
          (store64 i r _ _ j (sext_word (u32 a / u32 b) below))
  ]

  remuw_64 :
      a < 2 ^ 64
      → HasOperands WordMulOp.remuw a b
      → Wrote (Arith.remuw f r i) (sign_extend 64 32 (word_mul WordMulOp.remuw (u32 a) (u32 b)))
  unfolding Arith.remuw a b Wrote HasOperands
  remuw_64 ha (small, word) =
      let unsigned : ltb 0 (bit_and b 0x8000000000000000 / 2 ^ 63) ≡ false =
        ground (arith, bit_and_field 1 63 b, small) in
      elim (Bool-cases (u32 b == 0)) [
        | inl zero ↦
            let kept : u64 a ≡ sign_extend 64 32 (u32 a) =
              mod-eq_of_lt ha ∙ word (ground (arith, zero)) in
            rw (bit_and_mask 32 a, bit_and_mask 32 b, zero) (store64 i r _ _ j kept)
        | inr more ↦
            let below : u32 a % u32 b < 2 ^ 32 = omega (arith, mod-le (u32 a) (u32 b)) in
            rw (bit_and_mask 32 a, bit_and_mask 32 b, more, unsigned)
              (store64 i r _ _ j (sext_word (u32 a % u32 b) below))
      ]

-- Each of the five word multiplications and divisions applies the operation to the low 32 bits of
-- rs1 and rs2, as integers for the signed ones, and writes the sign extended result to rd, leaves
-- every other register and field alone and steps the program counter. The registers hold words of
-- 64 bits; for a remainder, rs1 is a sign extended word where the divisor is zero, and the unsigned
-- divisor's register is below 2^63.
pub word_mul_64 :
    (f : RevFeature) (r : RevRegFile) (i : RevInst)
    → ((k : ℕ) → x64 r k < 2 ^ 64)
    → (op : WordMulOp) (j : ℕ) → HasOperands op (x64 r i.rs1) (x64 r i.rs2)
    → Wrote64 i r
        (run_word_mul op f r i)
        (sign_extend 64 32 (word_mul op (x64 r i.rs1 % 2 ^ 32) (x64 r i.rs2 % 2 ^ 32)))
        j
unfolding run_word_mul a b Wrote
word_mul_64 f r i fits WordMulOp.mulw j _ = mulw_64 f r i j (fits i.rs1) (fits i.rs2)
word_mul_64 f r i fits WordMulOp.divw j _ = divw_64 f r i j
word_mul_64 f r i fits WordMulOp.divuw j _ = divuw_64 f r i j
word_mul_64 f r i fits WordMulOp.remw j h = remw_64 f r i j (fits i.rs1) h
word_mul_64 f r i fits WordMulOp.remuw j h = remuw_64 f r i j (fits i.rs1) h
