-- ===== src/Rv32m/Signed/Refines.antt =====
-- The signed division of the instructions against the quotient and remainder of integers.
use native.Mathlib.Nat.{mod-eq_of_lt}
use rev.Prelude.{
  ℕ, ◌-◌, ◌^◌, ◌<◌, ◌≡◌, refl, ◌∙◌, arith, ◌==◌, ◌&&◌, if◌then◌else◌, true, false, Bool-cases, inl,
  inr,
}
use rev.Word.{u32, u64, signed, to_word, dt_u32, dt_u64}
use rev.Inst.{RevInst}
use rev.RegFile.{RevFeature, RevRegFile, is_rv32, x32, x64}
use rev.Rv32i.Refines.{to_word-lt}
use rev.Rv32i.Writes.{
  td_u32_full, dt_u32_full, td_u64_full, dt_u64_full, Wrote32, Wrote64, store32, store64,
}
use rev.Rv32m.Signed.{quot_ℤ, rem_ℤ, div, rem}

-- The manual's signed quotient: the integer quotient rounded towards zero, and -1 for a zero divisor.
-- The remainder is the dividend there.
abbrev pub signed_quotient : ℕ → ℕ → ℕ → ℕ
signed_quotient w a b = if b == 0 then 2 ^ w - 1 else to_word w (quot_ℤ (signed w a) (signed w b))

abbrev pub signed_remainder : ℕ → ℕ → ℕ → ℕ
signed_remainder w a b = if b == 0 then a else to_word w (rem_ℤ (signed w a) (signed w b))

full_64 : (x : ℕ) → x < 2 ^ 64 → u64 (dt_u64 x 64) ≡ x
full_64 x h = rw (dt_u64_full x h) (mod-eq_of_lt h)

full_32 : (x : ℕ) → x < 2 ^ 32 → u32 (dt_u32 x 32) ≡ x
full_32 x h = rw (dt_u32_full x h) (mod-eq_of_lt h)

-- On RV64 `div` leaves in `rd` the quotient of `rs1` by `rs2` as integers, rounded towards zero, -1 for
-- a zero divisor, and the dividend where the quotient overflows; nothing else changes but the
-- program counter, which steps.
pub div_64 :
    (f : RevFeature) (r : RevRegFile) (i : RevInst)
    → is_rv32 f ≡ false
    → x64 r i.rs1 < 2 ^ 64
    → x64 r i.rs2 < 2 ^ 64
    → (j : ℕ) → Wrote64 i r (div f r i) (signed_quotient 64 (x64 r i.rs1) (x64 r i.rs2)) j
unfolding div
div_64 f r i wide ha hb j =
    let a = x64 r i.rs1 in
    let b = x64 r i.rs2 in
    elim (Bool-cases (b == 0)) [
      | inl zero ↦ rw (wide, td_u64_full _ ha, td_u64_full _ hb, zero) (store64 i r _ _ j refl)
      | inr more ↦ elim (Bool-cases ((a == 2 ^ 63) && (b == 2 ^ 64 - 1))) [
        | inl over ↦
            let ea : a ≡ 2 ^ 63 = ground arith in
            let eb : b ≡ 2 ^ 64 - 1 = ground arith in
            rw (wide, td_u64_full _ ha, td_u64_full _ hb, more, over)
              (store64 i r _ _ j (full_64 _ ha ∙ rw (ea, eb) refl))
        | inr fit ↦
            rw (wide, td_u64_full _ ha, td_u64_full _ hb, more, fit)
              (store64 i r _ _ j (full_64 _ (to_word-lt 64 (quot_ℤ (signed 64 a) (signed 64 b)))))
      ]
    ]

-- On RV64 `rem` leaves in `rd` the remainder of `rs1` by `rs2` as integers, with the sign of the
-- dividend, the dividend for a zero divisor, and 0 where the quotient overflows; nothing else
-- changes but the program counter, which steps.
pub rem_64 :
    (f : RevFeature) (r : RevRegFile) (i : RevInst)
    → is_rv32 f ≡ false
    → x64 r i.rs1 < 2 ^ 64
    → x64 r i.rs2 < 2 ^ 64
    → (j : ℕ) → Wrote64 i r (rem f r i) (signed_remainder 64 (x64 r i.rs1) (x64 r i.rs2)) j
unfolding rem
rem_64 f r i wide ha hb j =
    let a = x64 r i.rs1 in
    let b = x64 r i.rs2 in
    elim (Bool-cases (b == 0)) [
      | inl zero ↦
          rw (wide, td_u64_full _ ha, td_u64_full _ hb, zero) (store64 i r _ _ j (full_64 _ ha))
      | inr more ↦ elim (Bool-cases ((a == 2 ^ 63) && (b == 2 ^ 64 - 1))) [
        | inl over ↦
            let ea : a ≡ 2 ^ 63 = ground arith in
            let eb : b ≡ 2 ^ 64 - 1 = ground arith in
            rw (wide, td_u64_full _ ha, td_u64_full _ hb, more, over)
              (store64 i r _ _ j (rw (ea, eb) refl))
        | inr fit ↦
            rw (wide, td_u64_full _ ha, td_u64_full _ hb, more, fit)
              (store64 i r _ _ j (full_64 _ (to_word-lt 64 (rem_ℤ (signed 64 a) (signed 64 b)))))
      ]
    ]

-- On RV32 `div` leaves in `rd` the quotient of `rs1` by `rs2` as integers, rounded towards zero, -1 for
-- a zero divisor, and the dividend where the quotient overflows; nothing else changes but the
-- program counter, which steps.
pub div_32 :
    (f : RevFeature) (r : RevRegFile) (i : RevInst)
    → is_rv32 f ≡ true
    → x32 r i.rs1 < 2 ^ 32
    → x32 r i.rs2 < 2 ^ 32
    → (j : ℕ) → Wrote32 i r (div f r i) (signed_quotient 32 (x32 r i.rs1) (x32 r i.rs2)) j
unfolding div
div_32 f r i narrow ha hb j =
    let a = x32 r i.rs1 in
    let b = x32 r i.rs2 in
    elim (Bool-cases (b == 0)) [
      | inl zero ↦ rw (narrow, td_u32_full _ ha, td_u32_full _ hb, zero) (store32 i r _ _ j refl)
      | inr more ↦ elim (Bool-cases ((a == 2 ^ 31) && (b == 2 ^ 32 - 1))) [
        | inl over ↦
            let ea : a ≡ 2 ^ 31 = ground arith in
            let eb : b ≡ 2 ^ 32 - 1 = ground arith in
            rw (narrow, td_u32_full _ ha, td_u32_full _ hb, more, over)
              (store32 i r _ _ j (full_32 _ ha ∙ rw (ea, eb) refl))
        | inr fit ↦
            rw (narrow, td_u32_full _ ha, td_u32_full _ hb, more, fit)
              (store32 i r _ _ j (full_32 _ (to_word-lt 32 (quot_ℤ (signed 32 a) (signed 32 b)))))
      ]
    ]

-- On RV32 `rem` leaves in `rd` the remainder of `rs1` by `rs2` as integers, with the sign of the
-- dividend, the dividend for a zero divisor, and 0 where the quotient overflows; nothing else
-- changes but the program counter, which steps.
pub rem_32 :
    (f : RevFeature) (r : RevRegFile) (i : RevInst)
    → is_rv32 f ≡ true
    → x32 r i.rs1 < 2 ^ 32
    → x32 r i.rs2 < 2 ^ 32
    → (j : ℕ) → Wrote32 i r (rem f r i) (signed_remainder 32 (x32 r i.rs1) (x32 r i.rs2)) j
unfolding rem
rem_32 f r i narrow ha hb j =
    let a = x32 r i.rs1 in
    let b = x32 r i.rs2 in
    elim (Bool-cases (b == 0)) [
      | inl zero ↦
          rw (narrow, td_u32_full _ ha, td_u32_full _ hb, zero) (store32 i r _ _ j (full_32 _ ha))
      | inr more ↦ elim (Bool-cases ((a == 2 ^ 31) && (b == 2 ^ 32 - 1))) [
        | inl over ↦
            let ea : a ≡ 2 ^ 31 = ground arith in
            let eb : b ≡ 2 ^ 32 - 1 = ground arith in
            rw (narrow, td_u32_full _ ha, td_u32_full _ hb, more, over)
              (store32 i r _ _ j (rw (ea, eb) refl))
        | inr fit ↦
            rw (narrow, td_u32_full _ ha, td_u32_full _ hb, more, fit)
              (store32 i r _ _ j (full_32 _ (to_word-lt 32 (rem_ℤ (signed 32 a) (signed 32 b)))))
      ]
    ]
