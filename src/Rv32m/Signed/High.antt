-- ===== src/Rv32m/Signed/High.antt =====
-- `mulh_impl` is the high word of the signed product.
use native.Mathlib.Nat.{mul-le-mul_right}
use rev.Prelude.{
  ℕ, ◌+◌, ◌-◌, ◌*◌, ◌/◌, ◌%◌, ◌^◌, ◌≤◌, ◌<◌, ◌≡◌, ap, arith, ◌==◌, ltb, if◌then◌else◌, Bool-cases,
  inl, inr,
}
use rev.Word.{u64}
use rev.Rv32m.Laws.{mulhu_impl_lem}
use rev.Rv32m.Signed.{absolute, mulh_impl}

-- The high word of the negative of a product of 126 bits.
high_negative :
    (product low : ℕ)
    → product ≤ 2 ^ 127
    → low ≡ (2 ^ 64 - product % 2 ^ 64) % 2 ^ 64
    → u64 (2 ^ 64 - 1 - product / 2 ^ 64 + (if low == 0 then 1 else 0))
      ≡ (2 ^ 128 - product) % 2 ^ 128 / 2 ^ 64
high_negative product low h e = ground arith

bound : (a b : ℕ) → a ≤ 2 ^ 63 → b ≤ 2 ^ 63 → a * b ≤ 2 ^ 63 * 2 ^ 63
bound a b ha hb = omega (arith, mul-le-mul_right {m = a} {n = 2 ^ 63} b ha)

distribute : (a c b : ℕ) → (a + c) * b ≡ a * b + c * b
distribute a c b = ground arith

swapped : (a b : ℕ) → a * b ≡ b * a
swapped a b = ground arith

low_left : (a b : ℕ) → a ≤ 2 ^ 64 → u64 (a * b) ≡ (2 ^ 64 - (2 ^ 64 - a) * b % 2 ^ 64) % 2 ^ 64
low_left a b ha =
    let c = 2 ^ 64 - a in
    let sum : a + c ≡ 2 ^ 64 = omega arith in
    let whole : (a + c) * b ≡ 2 ^ 64 * b = ap (λ (t : ℕ). t * b) sum in
    omega (arith, whole, distribute a c b)

low_right : (a b : ℕ) → b ≤ 2 ^ 64 → u64 (a * b) ≡ (2 ^ 64 - a * (2 ^ 64 - b) % 2 ^ 64) % 2 ^ 64
low_right a b hb = rw (swapped a b, swapped a (2 ^ 64 - b)) (low_left b a hb)

-- The high word of the product of 128 bits of two integers, by their absolute values.
abbrev pub signed_high : ℕ → ℕ → ℕ
signed_high a b =
    let product = absolute a * absolute b in
    if ltb a (2 ^ 63)
    then (if ltb b (2 ^ 63) then product / 2 ^ 64 else (2 ^ 128 - product) % 2 ^ 128 / 2 ^ 64)
    else if ltb b (2 ^ 63)
    then (2 ^ 128 - product) % 2 ^ 128 / 2 ^ 64
    else product / 2 ^ 64

-- `mulh_impl` is the high word of the product of 128 bits of two words of 64 bits read as integers.
pub mulh_impl_lem : (a b : ℕ) → a < 2 ^ 64 → b < 2 ^ 64 → mulh_impl a b ≡ signed_high a b
unfolding mulh_impl
mulh_impl_lem a b ha hb = elim (Bool-cases (ltb a (2 ^ 63))) [
  | inl a_pos ↦ elim (Bool-cases (ltb b (2 ^ 63))) [
    | inl b_pos ↦ rw (a_pos, b_pos) (mulhu_impl_lem a b ha hb)
    | inr b_neg ↦
        let c = 2 ^ 64 - b in
        let res = mulhu_impl_lem a c ha (ground arith) in
        rw (a_pos, b_neg, res)
          (high_negative (a * c) (u64 (a * b))
            (omega (arith, bound a c (ground arith) (ground arith))) (low_right a b (omega arith)))
  ]
  | inr a_neg ↦ elim (Bool-cases (ltb b (2 ^ 63))) [
    | inl b_pos ↦
        let c = 2 ^ 64 - a in
        let res = mulhu_impl_lem c b (ground arith) hb in
        rw (a_neg, b_pos, res)
          (high_negative (c * b) (u64 (a * b))
            (omega (arith, bound c b (ground arith) (ground arith))) (low_left a b (omega arith)))
    | inr b_neg ↦
        rw (a_neg, b_neg) (mulhu_impl_lem (2 ^ 64 - a) (2 ^ 64 - b) (ground arith) (ground arith))
  ]
]
