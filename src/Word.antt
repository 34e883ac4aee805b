-- ===== src/Word.antt =====
-- include/RevInstTable.h: the register macros `SEXT`, `ZEXT`, `SEXTI`, `ZEXTI` (and their 64
-- variants, the same on a target where `unsigned long` has 64 bits) and the two's complement
-- helpers `td_u32`, `td_u64`, `dt_u32`, `dt_u64`, with the casts that C makes. A word is a native
-- number below its modulus; a signed parameter is the pattern of its bits.
pub mod Extend
pub mod Tests
use rev.Prelude.{
  ℕ, zero, suc, ◌+◌, ◌-◌, ◌*◌, ◌/◌, ◌%◌, ◌^◌, bit_and, bit_or, bit_xor, ltb, if◌then◌else◌, Bool,
}
use rev.Prelude.Int.{ℤ, pos, negsuc, ltb_ℤ}

abbrev pub u8 : ℕ → ℕ
u8 n = n % 2 ^ 8

abbrev pub u16 : ℕ → ℕ
u16 n = n % 2 ^ 16

abbrev pub u32 : ℕ → ℕ
u32 n = n % 2 ^ 32

abbrev pub u64 : ℕ → ℕ
u64 n = n % 2 ^ 64

-- The integer that a pattern of `w` bits stands for: what a cast to int32_t or int64_t reads.
abbrev pub signed : ℕ → ℕ → ℤ
signed w x = if ltb x (2 ^ (w - 1)) then pos x else negsuc (2 ^ w - x - 1)

-- `( (x) ^ ((1UL) << ((b) - 1)) ) - ((1UL) << ((b) - 1))`, before the store truncates it.
unfoldable pub sext : ℕ → ℕ → ℕ
sext x b = u64 (bit_xor x (2 ^ (b - 1)) + 2 ^ 64 - 2 ^ (b - 1))

-- `(x) & (((1UL) << (b)) - 1)`; where `b` is 64 the one is shifted out and the mask is full.
unfoldable pub zext : ℕ → ℕ → ℕ
zext x b = bit_and x (u64 (u64 (2 ^ b) + 2 ^ 64 - 1))

-- `for( ; i < i + rounds; i++ ) tmp |= (1UL << i);` on a word of `w` bits.
pub or_ones : ℕ → ℕ → ℕ → ℕ → ℕ
or_ones w zero i tmp = tmp
or_ones w (suc rounds) i tmp = or_ones w rounds (i + 1) (bit_or tmp (2 ^ i) % 2 ^ w)

-- `tmp = ~tmp; tmp += 1; tmp = tmp*-1;`
pub negate_twice : ℕ → ℕ → ℕ
negate_twice w tmp =
    let inverted = 2 ^ w - 1 - tmp in
    let negated = (inverted + 1) % 2 ^ w in negated * (2 ^ w - 1) % 2 ^ w

unfoldable pub td_u32 : ℕ → ℕ → ℕ
unfolding or_ones negate_twice
td_u32 binary bits =
    if ltb 0 (bit_and binary (2 ^ (bits - 1)))
    then negate_twice 32 (or_ones 32 (32 - bits) bits binary)
    else binary

-- Here the ones are gathered below bit `bits` and inverted.
unfoldable pub td_u64 : ℕ → ℕ → ℕ
unfolding or_ones negate_twice
td_u64 binary bits =
    if ltb 0 (bit_and binary (2 ^ (bits - 1)))
    then negate_twice 64 (bit_or binary (2 ^ 64 - 1 - or_ones 64 bits 0 0))
    else binary

unfoldable pub dt_u32 : ℕ → ℕ → ℕ
unfolding or_ones negate_twice
dt_u32 binary bits =
    if ltb 0 (bit_and binary (2 ^ (bits - 1)))
    then negate_twice 32 (or_ones 32 (32 - bits) bits binary)
    else binary

unfoldable pub dt_u64 : ℕ → ℕ → ℕ
unfolding or_ones negate_twice
dt_u64 binary bits =
    if ltb 0 (bit_and binary (2 ^ (bits - 1)))
    then negate_twice 64 (or_ones 64 (64 - bits) bits binary)
    else binary

-- `>>` on a signed operand: the quotient rounded down, as a pattern of `w` bits.
abbrev pub shift_ℤ : ℤ → ℕ → ℤ
shift_ℤ (pos n) k = pos (n / 2 ^ k)
shift_ℤ (negsuc n) k = negsuc (n / 2 ^ k)

-- The pattern of an integer on `w` bits.
abbrev pub to_word : ℕ → ℤ → ℕ
to_word w (pos n) = n % 2 ^ w
to_word w (negsuc n) = 2 ^ w - 1 - n % 2 ^ w

-- `a - b` on unsigned words of `w` bits.
abbrev pub minus : ℕ → ℕ → ℕ → ℕ
minus w a b = (a + 2 ^ w - b) % 2 ^ w

-- `(int)a < (int)b` on patterns of `w` bits.
abbrev pub lt_signed : ℕ → ℕ → ℕ → Bool
lt_signed w a b = ltb_ℤ (signed w a) (signed w b)
