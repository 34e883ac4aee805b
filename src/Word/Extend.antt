-- ===== src/Word/Extend.antt =====
-- The helpers of Word are sign extensions.
use native.Mathlib.Nat.{pow-suc, pow-le-pow_right, mul-le-mul_right, mod-eq_of_lt, zero-add}
use native.Mathlib.Numerals.{add-one}
use native.Mathlib.Decide.{dec_lt}
use rev.Prelude.{
  ℕ, zero, suc, ◌+◌, ◌-◌, ◌*◌, ◌/◌, ◌%◌, ◌^◌, ◌≤◌, ◌<◌, ◌≡◌, ap, ◌∙◌, arith, bit_or, ltb,
  if◌then◌else◌,
}
use rev.Bits.{
  two_pow_pos, parts, low-lt, bit_or_bit, bit_xor_bit, bit_or_split, pow_mono, pow-add, sign_bit,
  bit_or_full, bit_or-zero, bit_or-lt, sum_mod, mod-pow_suc,
}
use rev.Word.{signed, sext, or_ones, negate_twice, td_u32, td_u64, dt_u32, dt_u64}

-- The value of `b` bits, as a pattern of `w` bits.
abbrev pub sign_extend : ℕ → ℕ → ℕ → ℕ
sign_extend w b x = if ltb x (2 ^ (b - 1)) then x else x + 2 ^ w - 2 ^ b

pub sext-eq-sign_extend :
    (k x : ℕ) → k < 64 → x < 2 ^ suc k → sext x (suc k) ≡ sign_extend 64 (suc k) x
unfolding sext
sext-eq-sign_extend k x hk h = ground (
  arith,
  pow-suc 2 k,
  two_pow_pos k,
  pow-le-pow_right {n = 2} (omega arith) {i = suc k} {j = 64} (omega arith),
  bit_xor_bit k x h,
)

-- Negating twice changes nothing.
negate_twice-32 : (t : ℕ) → t < 2 ^ 32 → negate_twice 32 t ≡ t
unfolding negate_twice
negate_twice-32 t h = omega arith

negate_twice-64 : (t : ℕ) → t < 2 ^ 64 → negate_twice 64 t ≡ t
unfolding negate_twice
negate_twice-64 t h = omega arith

-- Setting bit `i` leaves the digits below it alone.
or_bit_low : (i t : ℕ) → bit_or t (2 ^ i) % 2 ^ suc i ≡ t % 2 ^ i + 2 ^ i
or_bit_low i t =
    let q = t / 2 ^ suc i in
    let r = t % 2 ^ suc i in
    let low : r % 2 ^ i + 2 ^ i < 2 ^ suc i = omega (arith, pow-suc 2 i, low-lt i r) in
    let sum : bit_or t (2 ^ i) ≡ q * 2 ^ suc i + (r % 2 ^ i + 2 ^ i) = ground (
      arith,
      pow-suc 2 i,
      two_pow_pos i,
      parts (suc i) t,
      low-lt (suc i) t,
      bit_or_split (suc i) q r 0 (2 ^ i),
      bit_or-zero q,
      bit_or_bit i r,
    ) in
    rw sum (omega (arith, sum_mod q (2 ^ suc i) (r % 2 ^ i + 2 ^ i) low, mod-pow_suc i t))

one_more : (x y : ℕ) → 0 < x → (x - 1) * (y * 2) + y ≡ (x * 2 - 1) * y
one_more zero y h = absurd (omega arith)
one_more (suc x) y h = let e : suc x * 2 - 1 ≡ x * 2 + 1 = omega arith in rw e (ground arith)

ones_step : (n i : ℕ) → (2 ^ n - 1) * 2 ^ suc i + 2 ^ i ≡ (2 ^ suc n - 1) * 2 ^ i
ones_step n i = rw (pow-suc 2 n, pow-suc 2 i) (one_more (2 ^ n) (2 ^ i) (two_pow_pos n))

lt_pow : (i w : ℕ) → i < w → 2 ^ i < 2 ^ w
lt_pow i w h = omega (
  arith,
  pow-suc 2 i,
  two_pow_pos i,
  pow-le-pow_right {n = 2} (omega arith) {i = suc i} {j = w} h,
)

-- The loop fills a word that fits `n + i` bits with ones from bit `i` on.
or_ones_fill :
    (w n i t : ℕ) → n + i ≤ w → t < 2 ^ (n + i) → or_ones w n i t ≡ t % 2 ^ i + (2 ^ n - 1) * 2 ^ i
unfolding or_ones
or_ones_fill w zero i t e h =
    let fits : t < 2 ^ i = ground (arith, zero-add i) in omega (arith, mod-eq_of_lt fits)
or_ones_fill w (suc n) i t e h =
    let shift : suc n + i ≡ n + (i + 1) = omega arith in
    let fits = bit_or-lt (suc n + i) t (2 ^ i) h (lt_pow i (suc n + i) (omega arith)) in
    let kept : bit_or t (2 ^ i) < 2 ^ w = omega (arith, fits, pow_mono (suc n + i) w e) in
    let rest = or_ones_fill w n (i + 1) (bit_or t (2 ^ i)) (omega arith) (rw shift at fits) in
    rw (mod-eq_of_lt kept, rest, add-one i) (omega (arith, or_bit_low i t, ones_step n i))

pred_mul : (x y : ℕ) → 0 < x → (x - 1) * y ≡ x * y - y
pred_mul zero y h = absurd (omega arith)
pred_mul (suc x) y h = let e : suc x - 1 ≡ x = omega arith in rw e (omega arith)

-- Ones from bit `i` up to bit `w`.
high_ones : (w i : ℕ) → i ≤ w → (2 ^ (w - i) - 1) * 2 ^ i ≡ 2 ^ w - 2 ^ i
high_ones w i h =
    let e : w - i + i ≡ w = omega arith in
    let whole : 2 ^ (w - i) * 2 ^ i ≡ 2 ^ w = rw (pow-add (w - i) i, e) in
    omega (arith, whole, pred_mul (2 ^ (w - i)) (2 ^ i) (two_pow_pos (w - i)))

-- What the four helpers compute on a word of `w` bits: the low `b` bits, sign extended, if bit
-- `b - 1` is set; the argument as it is, higher bits included, if not.
abbrev pub extended : ℕ → ℕ → ℕ → ℕ
extended w b x = if ltb (x % 2 ^ b) (2 ^ (b - 1)) then x else x % 2 ^ b + (2 ^ w - 2 ^ b)

filled-32 :
    (k x : ℕ)
    → k < 32
    → x < 2 ^ 32
    → or_ones 32 (32 - suc k) (suc k) x ≡ x % 2 ^ suc k + (2 ^ 32 - 2 ^ suc k)
filled-32 k x hk h =
    let e : 32 - suc k + suc k ≡ 32 = omega arith in
    omega (
      arith,
      high_ones 32 (suc k) hk,
      or_ones_fill 32 (32 - suc k) (suc k) x (omega arith) (rw e h),
    )

pub td_u32_lem : (k x : ℕ) → k < 32 → x < 2 ^ 32 → td_u32 x (suc k) ≡ extended 32 (suc k) x
unfolding td_u32
td_u32_lem k x hk h = ground (
  arith,
  two_pow_pos k,
  low-lt (suc k) x,
  pow_mono (suc k) 32 hk,
  sign_bit k x,
  filled-32 k x hk h,
  negate_twice-32 (x % 2 ^ suc k + (2 ^ 32 - 2 ^ suc k)),
)

pub dt_u32_lem : (k x : ℕ) → k < 32 → x < 2 ^ 32 → dt_u32 x (suc k) ≡ extended 32 (suc k) x
unfolding dt_u32
dt_u32_lem k x hk h = unfold td_u32 in td_u32_lem k x hk h

filled-64 :
    (k x : ℕ)
    → k < 64
    → x < 2 ^ 64
    → or_ones 64 (64 - suc k) (suc k) x ≡ x % 2 ^ suc k + (2 ^ 64 - 2 ^ suc k)
filled-64 k x hk h =
    let e : 64 - suc k + suc k ≡ 64 = omega arith in
    omega (
      arith,
      high_ones 64 (suc k) hk,
      or_ones_fill 64 (64 - suc k) (suc k) x (omega arith) (rw e h),
    )

pub dt_u64_lem : (k x : ℕ) → k < 64 → x < 2 ^ 64 → dt_u64 x (suc k) ≡ extended 64 (suc k) x
unfolding dt_u64
dt_u64_lem k x hk h = ground (
  arith,
  two_pow_pos k,
  low-lt (suc k) x,
  pow_mono (suc k) 64 hk,
  sign_bit k x,
  filled-64 k x hk h,
  negate_twice-64 (x % 2 ^ suc k + (2 ^ 64 - 2 ^ suc k)),
)

quotient-lt : (q p m r : ℕ) → q * p + r < m * p → q < m
quotient-lt q p m r h = elim (dec_lt q m) [
  | yes below ↦ below
  | no above ↦ let le : m ≤ q = omega arith in absurd (omega (arith, mul-le-mul_right p le))
]

-- `x` with every bit from `b` on set.
or_high : (b x : ℕ) → b ≤ 64 → x < 2 ^ 64 → bit_or x (2 ^ 64 - 2 ^ b) ≡ x % 2 ^ b + (2 ^ 64 - 2 ^ b)
or_high b x hb h =
    let e : 64 - b + b ≡ 64 = omega arith in
    let whole : 2 ^ (64 - b) * 2 ^ b ≡ 2 ^ 64 = rw (pow-add (64 - b) b, e) in
    let below : x / 2 ^ b < 2 ^ (64 - b) =
      quotient-lt (x / 2 ^ b) (2 ^ b) (2 ^ (64 - b)) (x % 2 ^ b) (rw (parts b x, whole) h) in
    ground (
      arith,
      high_ones 64 b hb,
      parts b x,
      low-lt b x,
      two_pow_pos b,
      bit_or_split b (x / 2 ^ b) (x % 2 ^ b) (2 ^ (64 - b) - 1) 0,
      bit_or_full (64 - b) (x / 2 ^ b) below,
      bit_or-zero (x % 2 ^ b),
    )

gathered : (b : ℕ) → b ≤ 64 → 2 ^ 64 - 1 - or_ones 64 b 0 0 ≡ 2 ^ 64 - 2 ^ b
gathered b h =
    omega
      (arith, pow_mono b 64 h, two_pow_pos b, or_ones_fill 64 b 0 0 (omega arith) (two_pow_pos _))

pub td_u64_lem : (k x : ℕ) → k < 64 → x < 2 ^ 64 → td_u64 x (suc k) ≡ extended 64 (suc k) x
unfolding td_u64
td_u64_lem k x hk h = ground (
  arith,
  two_pow_pos k,
  low-lt (suc k) x,
  pow_mono (suc k) 64 hk,
  sign_bit k x,
  gathered (suc k) hk,
  or_high (suc k) x hk h,
  negate_twice-64 (x % 2 ^ suc k + (2 ^ 64 - 2 ^ suc k)),
)

-- On an argument that fits `b` bits the helpers sign extend.
pub extended-eq-sign_extend :
    (w k x : ℕ) → suc k ≤ w → x < 2 ^ suc k → extended w (suc k) x ≡ sign_extend w (suc k) x
extended-eq-sign_extend w k x hk h = ground (arith, mod-eq_of_lt h, pow_mono (suc k) w hk)

-- The integer value is kept.
pub signed-sign_extend :
    (w k x : ℕ)
    → suc k ≤ suc w
    → x < 2 ^ suc k
    → signed (suc w) (sign_extend (suc w) (suc k) x) ≡ signed (suc k) x
signed-sign_extend w k x hk h =
    ground (arith, pow-suc 2 w, pow-suc 2 k, two_pow_pos k, pow_mono k w (omega arith))

fits_word : (k x w : ℕ) → k < w → x < 2 ^ suc k → x < 2 ^ w
fits_word k x w hk h = omega (arith, pow_mono (suc k) w hk)

-- `SEXT`, `td_u64` and `dt_u64` keep the integer that the low `suc k` bits of a word stand for, for
-- every argument that fits `suc k ≤ 64` bits.
pub extensions_64-signed :
    (k x : ℕ)
    → k < 64
    → x < 2 ^ suc k
    → (signed 64 (sext x (suc k)) ≡ signed (suc k) x)
      × (signed 64 (td_u64 x (suc k)) ≡ signed (suc k) x)
      × (signed 64 (dt_u64 x (suc k)) ≡ signed (suc k) x)
extensions_64-signed k x hk h =
    let fits = fits_word k x 64 hk h in
    let same = extended-eq-sign_extend 64 k x hk h in
    let kept = signed-sign_extend 63 k x hk h in
    (
      ap (signed 64) (sext-eq-sign_extend k x hk h) ∙ kept,
      ap (signed 64) (td_u64_lem k x hk fits ∙ same) ∙ kept,
      ap (signed 64) (dt_u64_lem k x hk fits ∙ same) ∙ kept,
    )

-- `td_u32` and `dt_u32` keep the integer that the low `suc k` bits of a word stand for, for every
-- argument that fits `suc k ≤ 32` bits.
pub extensions_32-signed :
    (k x : ℕ)
    → k < 32
    → x < 2 ^ suc k
    → (signed 32 (td_u32 x (suc k)) ≡ signed (suc k) x)
      × (signed 32 (dt_u32 x (suc k)) ≡ signed (suc k) x)
extensions_32-signed k x hk h =
    let fits = fits_word k x 32 hk h in
    let same = extended-eq-sign_extend 32 k x hk h in
    let kept = signed-sign_extend 31 k x hk h in
    (
      ap (signed 32) (td_u32_lem k x hk fits ∙ same) ∙ kept,
      ap (signed 32) (dt_u32_lem k x hk fits ∙ same) ∙ kept,
    )
