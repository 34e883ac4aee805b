-- ===== src/Bits/Masks.antt =====
-- Masks, single bits and disjoint fields.
use Prim.Native.Nat.{bit_or-bitwise, differ}
use native.Mathlib.Nat.{
  pow-suc, one-le-pow, div-add-mod', mod-lt, add_comm, mul_assoc, add-mul, add-mul-mod_self_right,
  mod-eq_of_lt, mod-mod_of_dvd, zero-add, suc-add, pow-le-pow_right,
}
use rev.Prelude.{
  ℕ, zero, suc, ◌+◌, ◌-◌, ◌*◌, ◌/◌, ◌%◌, ◌^◌, ◌≤◌, ◌<◌, ◌≡◌, ◌⊎◌, inl, inr, refl, ap, ◌∙◌, arith,
  bit_and, bit_or, bit_xor, ltb, if◌then◌else◌,
}
use rev.Bits.Digit.{bit_and_digit, bit_or_digit, bit_xor_digit}
use rev.Bits.Split.{bit_and_split, bit_or_split, bit_xor_split}

pub two_pow_pos : (k : ℕ) → 0 < 2 ^ k
two_pow_pos k = one-le-pow k 2 (omega arith)

lt-two_pow : (a : ℕ) → a < 2 ^ a
lt-two_pow zero = omega arith
lt-two_pow (suc a) = omega (arith, pow-suc 2 a, lt-two_pow a)

-- A number is its part above `2 ^ k` and its part below.
pub parts : (k a : ℕ) → a / 2 ^ k * 2 ^ k + a % 2 ^ k ≡ a
parts k a = div-add-mod' a (2 ^ k)

pub low-lt : (k a : ℕ) → a % 2 ^ k < 2 ^ k
low-lt k a = mod-lt a (two_pow_pos k)

and_zero_below : (k a : ℕ) → a < 2 ^ k → bit_and a 0 ≡ 0
and_zero_below zero a h = ground arith
and_zero_below (suc k) a h =
    omega
      (arith, pow-suc 2 k, bit_and_digit a 0, and_zero_below k (a / 2) (omega (arith, pow-suc 2 k)))

differ_right : (x : ℕ) → differ x 0 ≡ x
differ_right zero = refl
differ_right (suc x) = refl

pub bit_and-zero : (a : ℕ) → bit_and a 0 ≡ 0
bit_and-zero a = and_zero_below a a (lt-two_pow a)

or_zero_below : (k a : ℕ) → a < 2 ^ k → bit_or a 0 ≡ a
or_zero_below zero a h = ground arith
or_zero_below (suc k) a h =
    omega
      (arith, pow-suc 2 k, bit_or_digit a 0, or_zero_below k (a / 2) (omega (arith, pow-suc 2 k)))

pub bit_or-zero : (a : ℕ) → bit_or a 0 ≡ a
bit_or-zero a = or_zero_below a a (lt-two_pow a)

xor_zero_below : (k a : ℕ) → a < 2 ^ k → bit_xor a 0 ≡ a
xor_zero_below zero a h = ground arith
xor_zero_below (suc k) a h = omega (
  arith,
  pow-suc 2 k,
  bit_xor_digit a 0,
  differ_right (a % 2),
  xor_zero_below k (a / 2) (omega (arith, pow-suc 2 k)),
)

pub bit_xor-zero : (a : ℕ) → bit_xor a 0 ≡ a
bit_xor-zero a = xor_zero_below a a (lt-two_pow a)

pub zero-bit_or : (b : ℕ) → bit_or 0 b ≡ b
zero-bit_or b = bit_or-bitwise 0 b

mask_below : (k a : ℕ) → a < 2 ^ k → bit_and a (2 ^ k - 1) ≡ a
mask_below zero a h = ground arith
mask_below (suc k) a h = ground (
  arith,
  pow-suc 2 k,
  two_pow_pos k,
  bit_and_digit a (2 ^ suc k - 1),
  mask_below k (a / 2) (omega (arith, pow-suc 2 k)),
)

-- `a & (2^k - 1)`.
pub bit_and_mask : (k a : ℕ) → bit_and a (2 ^ k - 1) ≡ a % 2 ^ k
bit_and_mask k a = ground (
  arith,
  parts k a,
  low-lt k a,
  two_pow_pos k,
  bit_and_split k (a / 2 ^ k) (a % 2 ^ k) 0 (2 ^ k - 1),
  bit_and-zero (a / 2 ^ k),
  mask_below k (a % 2 ^ k),
)

-- A mask that starts at bit `k`.
pub bit_and_high : (k m a : ℕ) → bit_and a (m * 2 ^ k) ≡ bit_and (a / 2 ^ k) m * 2 ^ k
bit_and_high k m a = ground (
  arith,
  parts k a,
  low-lt k a,
  two_pow_pos k,
  bit_and_split k (a / 2 ^ k) (a % 2 ^ k) m 0,
  bit_and-zero (a % 2 ^ k),
)

-- `a & (((1 << w) - 1) << k)` keeps `w` bits from bit `k` on, in their place.
pub bit_and_field : (w k a : ℕ) → bit_and a ((2 ^ w - 1) * 2 ^ k) ≡ a / 2 ^ k % 2 ^ w * 2 ^ k
bit_and_field w k a = ground (arith, bit_and_high k (2 ^ w - 1) a, bit_and_mask w (a / 2 ^ k))

-- `q * 2^k | r` is a sum when `r` stays below bit `k`.
pub bit_or_low : (k q r : ℕ) → r < 2 ^ k → bit_or (q * 2 ^ k) r ≡ q * 2 ^ k + r
bit_or_low k q r h =
    ground (arith, two_pow_pos k, bit_or_split k q 0 0 r, bit_or-zero q, zero-bit_or r)

pub bit_or_high : (k q r : ℕ) → r < 2 ^ k → bit_or r (q * 2 ^ k) ≡ q * 2 ^ k + r
bit_or_high k q r h =
    ground (arith, two_pow_pos k, bit_or_split k 0 r q 0, bit_or-zero r, zero-bit_or q)

at_most_one : (q p r : ℕ) → q * p + r < p + p → (q ≡ 0) ⊎ (q ≡ 1)
at_most_one zero p r h = inl refl
at_most_one (suc zero) p r h = inr refl
at_most_one (suc (suc q)) p r h = absurd (omega arith)

top_digit : (k a : ℕ) → a < 2 ^ suc k → (a / 2 ^ k ≡ 0) ⊎ (a / 2 ^ k ≡ 1)
top_digit k a h =
    at_most_one (a / 2 ^ k) (2 ^ k) (a % 2 ^ k) (omega (arith, pow-suc 2 k, parts k a))

-- Setting bit `k` of a number below `2 ^ suc k`.
pub bit_or_bit : (k a : ℕ) → a < 2 ^ suc k → bit_or a (2 ^ k) ≡ a % 2 ^ k + 2 ^ k
bit_or_bit k a h = ground (
  arith,
  pow-suc 2 k,
  two_pow_pos k,
  parts k a,
  low-lt k a,
  top_digit k a h,
  bit_or_split k 0 (a % 2 ^ k) 1 0,
  bit_or_split k 1 (a % 2 ^ k) 1 0,
  bit_or-zero (a % 2 ^ k),
)

-- Flipping bit `k` of a number below `2 ^ suc k`.
pub bit_xor_bit :
    (k a : ℕ) → a < 2 ^ suc k → bit_xor a (2 ^ k) ≡ (if ltb a (2 ^ k) then a + 2 ^ k else a - 2 ^ k)
bit_xor_bit k a h = ground (
  arith,
  pow-suc 2 k,
  two_pow_pos k,
  bit_xor_split k 0 a 1 0,
  bit_xor_split k 1 (a - 2 ^ k) 1 0,
  bit_xor-zero a,
  bit_xor-zero (a - 2 ^ k),
)

pub sum_mod : (q p r : ℕ) → r < p → (q * p + r) % p ≡ r
sum_mod q p r h = omega (
  arith,
  add-mul-mod_self_right r q p,
  mod-eq_of_lt h,
  ap (λ (t : ℕ). t % p) (add_comm (q * p) r),
)

pub mod-pow_suc : (i t : ℕ) → t % 2 ^ suc i % 2 ^ i ≡ t % 2 ^ i
mod-pow_suc i t = mod-mod_of_dvd (2 ^ i) t ∣ (2, pow-suc 2 i) ∣₁

pub pow-add : (n i : ℕ) → 2 ^ n * 2 ^ i ≡ 2 ^ (n + i)
pow-add zero i = rw zero-add (omega arith)
pow-add (suc n) i = rw (suc-add n i, pow-suc 2 n, pow-suc 2 (n + i), ← pow-add n i) (omega arith)

pub pow_mono : (i w : ℕ) → i ≤ w → 2 ^ i ≤ 2 ^ w
pow_mono i w h = pow-le-pow_right {n = 2} (omega arith) {i = i} {j = w} h

-- A field of `w` bits or'ed in at bit `k`, where the word has zeros.
pub bit_or_field :
    (k w hi lo v : ℕ)
    → lo < 2 ^ k
    → v < 2 ^ w
    → bit_or (hi * (2 ^ w * 2 ^ k) + lo) (v * 2 ^ k) ≡ hi * (2 ^ w * 2 ^ k) + v * 2 ^ k + lo
bit_or_field k w hi lo v hl hv =
    let joined : bit_or (hi * 2 ^ w) v * 2 ^ k ≡ hi * 2 ^ w * 2 ^ k + v * 2 ^ k =
      ap (λ (t : ℕ). t * 2 ^ k) (bit_or_low w hi v hv) ∙ add-mul (hi * 2 ^ w) v (2 ^ k) in
    rw (← mul_assoc hi (2 ^ w) (2 ^ k))
      (ground (arith, two_pow_pos k, joined, bit_or_split k (hi * 2 ^ w) lo v 0, bit_or-zero lo))

-- All ones absorb what fits beside them.
pub bit_or_full : (k a : ℕ) → a < 2 ^ k → bit_or a (2 ^ k - 1) ≡ 2 ^ k - 1
bit_or_full zero a h = ground (arith, bit_or-zero a)
bit_or_full (suc k) a h = ground (
  arith,
  pow-suc 2 k,
  two_pow_pos k,
  bit_or_digit a (2 ^ suc k - 1),
  bit_or_full k (a / 2) (omega (arith, pow-suc 2 k)),
)

-- The test `(x & (1UL << k)) > 0` against the value of the low `k + 1` bits.
pub sign_bit :
    (k a : ℕ)
    → ((bit_and a (2 ^ k) ≡ 0) × (a % 2 ^ suc k < 2 ^ k))
      ⊎ ((bit_and a (2 ^ k) ≡ 2 ^ k) × (2 ^ k ≤ a % 2 ^ suc k))
sign_bit k a =
    let r = a % 2 ^ suc k in
    let whole : bit_and a (2 ^ k) ≡ bit_and r (2 ^ k) = ground (
      arith,
      pow-suc 2 k,
      two_pow_pos k,
      parts (suc k) a,
      low-lt (suc k) a,
      bit_and_split (suc k) (a / 2 ^ suc k) r 0 (2 ^ k),
      bit_and-zero (a / 2 ^ suc k),
    ) in
    rw whole (
      ground (
        arith,
        two_pow_pos k,
        parts k r,
        low-lt k r,
        top_digit k r (low-lt (suc k) a),
        bit_and_split k 0 (r % 2 ^ k) 1 0,
        bit_and_split k 1 (r % 2 ^ k) 1 0,
        bit_and-zero (r % 2 ^ k),
      ))
