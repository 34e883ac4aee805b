-- ===== src/Bits/Digit.antt =====
-- Each native bit operation, peeled by one binary digit.
use Prim.Native.Nat.{digits, bitwise, differ, bit_and-bitwise, bit_or-bitwise, bit_xor-bitwise}
use rev.Prelude.{
  ℕ, zero, suc, ◌+◌, ◌*◌, ◌/◌, ◌%◌, ◌≤◌, ◌≡◌, refl, arith, min, max, bit_and, bit_or, bit_xor,
}

module _ (rest : ℕ → ℕ) (digit : ℕ → ℕ → ℕ) where
  -- Any two counts of rounds that cover `x` give one result.
  digits_rounds : (x y i j : ℕ) → x ≤ i → x ≤ j → digits rest digit i x y ≡ digits rest digit j x y
  digits_rounds zero y zero zero hi hj = refl
  digits_rounds zero y zero (suc j) hi hj = refl
  digits_rounds zero y (suc i) zero hi hj = refl
  digits_rounds zero y (suc i) (suc j) hi hj = refl
  digits_rounds (suc x) y zero j hi hj = elim hi [ ]
  digits_rounds (suc x) y (suc i) zero hi hj = elim hj [ ]
  digits_rounds (suc x) y (suc i) (suc j) hi hj =
      omega (arith, digits_rounds (suc x / 2) (y / 2) i j (omega arith) (omega arith))

  peel :
      (x y : ℕ)
      → let halves = bitwise rest digit (suc x / 2) (y / 2) in
        bitwise rest digit (suc x) y ≡ halves * 2 + digit (suc x % 2) (y % 2)
  peel x y =
      omega (arith, digits_rounds (suc x / 2) (y / 2) x (suc x / 2) (omega arith) (omega arith))

pub bit_and_digit : (x y : ℕ) → bit_and x y ≡ bit_and (x / 2) (y / 2) * 2 + min (x % 2) (y % 2)
bit_and_digit zero y = simp bit_and-bitwise (omega arith)
bit_and_digit (suc x) y = simp bit_and-bitwise (peel (λ _. 0) min x y)

pub bit_xor_digit : (x y : ℕ) → bit_xor x y ≡ bit_xor (x / 2) (y / 2) * 2 + differ (x % 2) (y % 2)
bit_xor_digit zero y = simp bit_xor-bitwise (omega arith)
bit_xor_digit (suc x) y = simp bit_xor-bitwise (peel (λ d. d) differ x y)

pub bit_or_digit : (x y : ℕ) → bit_or x y ≡ bit_or (x / 2) (y / 2) * 2 + max (x % 2) (y % 2)
bit_or_digit zero y = simp bit_or-bitwise (omega arith)
bit_or_digit (suc x) y = simp bit_or-bitwise (peel (λ d. d) max x y)
