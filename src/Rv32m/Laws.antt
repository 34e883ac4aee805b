-- ===== src/Rv32m/Laws.antt =====
-- The multiply and divide instructions against what the manual says.
use native.Mathlib.Nat.{mod-eq_of_lt, div-le_self, mul-le-mul_right, mod-lt}
use rev.Prelude.{
  ℕ, ◌+◌, ◌-◌, ◌*◌, ◌/◌, ◌%◌, ◌^◌, ◌≤◌, ◌<◌, ◌≡◌, refl, ap₂, ◌∙◌, arith, bit_and, ◌==◌, false,
  if◌then◌else◌, Bool-cases, inl, inr,
}
use rev.Bits.{sign_bit}
use rev.Word.{u64, td_u64, dt_u64, sext}
use rev.Inst.{RevInst}
use rev.RegFile.{RevFeature, RevRegFile, is_rv32, x64}
use rev.Rv32i.Writes.{td_u64_full, dt_u64_full, sext_64_full, Wrote64, store64}
use rev.Rv32m.Arith

small_product : (a b : ℕ) → a < 2 ^ 32 → b < 2 ^ 32 → a * b ≤ (2 ^ 32 - 1) * (2 ^ 32 - 1)
small_product a b ha hb = omega (arith, mul-le-mul_right {m = a} {n = 2 ^ 32 - 1} b (omega arith))

product :
    (a1 a0 b1 b0 : ℕ)
    → (a1 * 2 ^ 32 + a0) * (b1 * 2 ^ 32 + b0)
      ≡ a0 * b0 + a1 * b0 * 2 ^ 32 + a0 * b1 * 2 ^ 32 + a1 * b1 * 2 ^ 64
product a1 a0 b1 b0 = ground arith

-- `mulhu_impl` is the high word of the product of 128 bits of two words of 64 bits.
pub mulhu_impl_lem : (a b : ℕ) → a < 2 ^ 64 → b < 2 ^ 64 → Arith.mulhu_impl a b ≡ a * b / 2 ^ 64
unfolding Arith.mulhu_impl
mulhu_impl_lem a b ha hb =
    let a0 = a % 2 ^ 32 in
    let a1 = a / 2 ^ 32 in
    let b0 = b % 2 ^ 32 in
    let b1 = b / 2 ^ 32 in
    let parts_a : a ≡ a1 * 2 ^ 32 + a0 = omega arith in
    let parts_b : b ≡ b1 * 2 ^ 32 + b0 = omega arith in
    let whole = ap₂ (λ (x y : ℕ). x * y) parts_a parts_b ∙ product a1 a0 b1 b0 in
    omega (
      arith,
      whole,
      small_product a0 b0 (omega arith) (omega arith),
      small_product a1 b0 (omega arith) (omega arith),
      small_product a0 b1 (omega arith) (omega arith),
      small_product a1 b1 (omega arith) (omega arith),
    )

module _ (a b : ℕ) (ha : a < 2 ^ 64) (hb : b < 2 ^ 64) where
  high-lt : a * b / 2 ^ 64 < 2 ^ 64
  high-lt = omega (arith, mul-le-mul_right {m = a} {n = 2 ^ 64 - 1} b (omega arith))

  mul_64_value : u64 (dt_u64 (u64 (td_u64 a 64 * td_u64 b 64)) 64) ≡ u64 (a * b)
  mul_64_value =
      rw (td_u64_full a ha, td_u64_full b hb)
        (omega (arith, dt_u64_full (u64 (a * b)) (omega arith)))

  mulhu_64_value : u64 (dt_u64 (Arith.mulhu_impl a b) 64) ≡ a * b / 2 ^ 64
  mulhu_64_value = rw (mulhu_impl_lem a b ha hb, dt_u64_full _ high-lt) (mod-eq_of_lt high-lt)

-- On RV64 `mul` and `mulhu` leave in `rd` the low and the high word of the unsigned product of
-- `rs1` and `rs2`, and change nothing else but the program counter, which steps.
pub mul_64 :
    (f : RevFeature) (r : RevRegFile) (i : RevInst) (shift_32 : ℕ → ℕ)
    → is_rv32 f ≡ false
    → x64 r i.rs1 < 2 ^ 64
    → x64 r i.rs2 < 2 ^ 64
    → (j : ℕ)
    → Wrote64 i r (Arith.mul f r i) (x64 r i.rs1 * x64 r i.rs2 % 2 ^ 64) j
      × Wrote64 i r (Arith.mulhu f r i shift_32) (x64 r i.rs1 * x64 r i.rs2 / 2 ^ 64) j
unfolding Arith.mul Arith.mulhu
mul_64 f r i shift_32 wide ha hb j = rw wide (
  store64 i r _ _ j (mul_64_value (x64 r i.rs1) (x64 r i.rs2) ha hb),
  store64 i r _ _ j (mulhu_64_value (x64 r i.rs1) (x64 r i.rs2) ha hb),
)

-- The unsigned quotient and remainder of the manual: all ones and the dividend where the divisor
-- is zero.
abbrev pub quotient : ℕ → ℕ → ℕ → ℕ
quotient w a b = if b == 0 then 2 ^ w - 1 else a / b

abbrev pub remainder : ℕ → ℕ → ℕ
remainder a b = if b == 0 then a else a % b

module _ (a b : ℕ) where
  divu_64_value : a < 2 ^ 64 → u64 (sext (a / b) 64) ≡ a / b
  divu_64_value ha =
      let below : a / b < 2 ^ 64 = omega (arith, div-le_self a b) in
      rw (sext_64_full _ below) (mod-eq_of_lt below)

  remu_64_value : b < 2 ^ 64 → 0 < b → u64 (sext (a % b) 64) ≡ a % b
  remu_64_value hb some =
      let below : a % b < 2 ^ 64 = omega (arith, mod-lt a some) in
      rw (sext_64_full _ below) (mod-eq_of_lt below)

-- On RV64 `divu` leaves the unsigned quotient of `rs1` by `rs2` in `rd`, all ones for a zero divisor,
-- and changes nothing else but the program counter, which steps.
pub divu_64 :
    (f : RevFeature) (r : RevRegFile) (i : RevInst)
    → is_rv32 f ≡ false
    → x64 r i.rs1 < 2 ^ 64
    → (j : ℕ) → Wrote64 i r (Arith.divu f r i) (quotient 64 (x64 r i.rs1) (x64 r i.rs2)) j
unfolding Arith.divu
divu_64 f r i wide ha j = elim (Bool-cases (x64 r i.rs2 == 0)) [
  | inl zero ↦ rw (wide, zero) (store64 i r _ _ j refl)
  | inr more ↦ rw (wide, more) (store64 i r _ _ j (divu_64_value (x64 r i.rs1) (x64 r i.rs2) ha))
]

-- On RV64 `remu` leaves the unsigned remainder of `rs1` by `rs2` in `rd`, `rs1` for a zero divisor,
-- and changes nothing else but the program counter, which steps, where the divisor is below 2^63.
pub remu_64 :
    (f : RevFeature) (r : RevRegFile) (i : RevInst)
    → is_rv32 f ≡ false
    → x64 r i.rs1 < 2 ^ 64
    → x64 r i.rs2 < 2 ^ 63
    → (j : ℕ) → Wrote64 i r (Arith.remu f r i) (remainder (x64 r i.rs1) (x64 r i.rs2)) j
unfolding Arith.remu
remu_64 f r i wide ha hb j =
    let positive : bit_and (x64 r i.rs2) (2 ^ 63) / 2 ^ 63 ≡ 0 =
      omega (arith, sign_bit 63 (x64 r i.rs2)) in
    elim (Bool-cases (x64 r i.rs2 == 0)) [
      | inl zero ↦ rw (wide, zero) (store64 i r _ _ j (mod-eq_of_lt ha))
      | inr more ↦
          rw (wide, more, positive)
            (store64 i r _ _ j
              (remu_64_value (x64 r i.rs1) (x64 r i.rs2) (omega arith) (ground arith)))
    ]
