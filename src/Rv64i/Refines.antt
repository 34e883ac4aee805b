-- ===== src/Rv64i/Refines.antt =====
-- The word instructions compute what `Isa.word_alu` says.
use native.Mathlib.Nat.{mod-eq_of_lt, div-le_self, add-mul-mod_self_right}
use rev.Prelude.{
  ℕ, ◌+◌, ◌-◌, ◌*◌, ◌/◌, ◌%◌, ◌^◌, ◌<◌, ◌≡◌, refl, ap, ◌∙◌, sym, arith, bit_and, bit_or, lt→ltb,
  ltb, ◌!=◌, if◌then◌else◌,
}
use rev.Bits.{
  bit_and_mask, parts, bit_and_field, bit_or_split, bit_or_high, bit_or_bit, bit_or-zero, bit_or-lt,
}
use rev.Prelude.Int.{ℤ}
use rev.Word.{u32, u64, signed, sext, shift_ℤ, to_word, minus}
use rev.Word.Extend.{sign_extend, sext-eq-sign_extend}
use rev.Inst.{RevInst}
use rev.RegFile.{RevFeature, RevRegFile, get, put, x64, set64, step64}
use rev.Isa.{AluOp, alu, WordOp, word_alu}
use rev.Rv64i.Alu
use rev.Rv64i.Alu.{mask32, top_bits, shift_unsigned, shift_signed}
use rev.Rv32i.Writes.{td_u32_full, dt_u32_full, sext_32-low, sext_64_full, Wrote64}
use rev.Rv32i.Refines.{to_word-lt, to_word-low, quotient_below}

-- A 32-bit value stored, then `SEXTI` of the register from 32 bits.
pub store64_word :
    (i : RevInst) (r : RevRegFile) (v w j : ℕ)
    → v < 2 ^ 32
    → sign_extend 64 32 v ≡ w
    → let r' = set64 i.rd v r in Wrote64 i r (step64 i (set64 i.rd (sext (x64 r' i.rd) 32) r')) w j
unfolding step64 set64 get put
store64_word i r v w j h e = (ground (arith, sext-eq-sign_extend 31 v), refl, refl)

pub store64_word_masked :
    (i : RevInst) (r : RevRegFile) (v w j : ℕ)
    → v < 2 ^ 32
    → sign_extend 64 32 v ≡ w
    → let r1 = set64 i.rd v r in
      let r2 = set64 i.rd (bit_and (x64 r1 i.rd) mask32) r1 in
      Wrote64 i r (step64 i (set64 i.rd (sext (x64 r2 i.rd) 32) r2)) w j
unfolding step64 set64 get put
store64_word_masked i r v w j h e = (
  ground (
    arith,
    sext-eq-sign_extend 31 v,
    bit_and_mask 32 v,
    bit_and_mask 32 0,
    sext-eq-sign_extend 31 0,
  ),
  refl,
  refl,
)

-- The low 32 bits of `x` under the sign of `a`, where the two agree on bit 31.
filled :
    (x a : ℕ)
    → ltb (u32 x) (2 ^ 31) ≡ ltb (u32 a) (2 ^ 31)
    → (if bit_and a 0x80000000 != 0
        then bit_or (bit_and x mask32) 0xFFFFFFFF00000000
        else bit_and x mask32)
      ≡ sign_extend 64 32 (u32 x)
filled x a same =
    rw (bit_and_mask 32 x, bit_and_field 1 31 a)
      (ground (arith, same, bit_or_high 32 (2 ^ 32 - 1) (x % 2 ^ 32) (omega arith)))

-- Two extensions from bit 31 keep the low 32 bits.
sexti_low : (v : ℕ) → v < 2 ^ 64 → u32 (u64 (sext (u64 (sext v 32)) 32)) ≡ u32 v
sexti_low v h = omega (arith, sext_32-low v h, sext_32-low (u64 (sext v 32)) (omega arith))

fill_sign-word :
    (f : RevFeature) (i : RevInst) (r : RevRegFile) (v j : ℕ)
    → v < 2 ^ 64
    → ltb (u32 v) (2 ^ 31) ≡ ltb (u32 (x64 r i.rs1)) (2 ^ 31)
    → let r1 = set64 i.rd (sext v 32) r in
      let r2 = set64 i.rd (sext (x64 r1 i.rd) 32) r1 in
      Wrote64 i r (Alu.fill_sign f r i r2) (sign_extend 64 32 (u32 v)) j
unfolding step64 set64 get put Alu.fill_sign
fill_sign-word f i r v j h same =
    let x = u64 (sext (u64 (sext v 32)) 32) in
    let low : u32 x ≡ u32 v = sexti_low v h in
    (
      ground (arith, filled x (get r.rv64 i.rs1) (ground (arith, low, same)), filled x x refl, low),
      refl,
      refl,
    )

-- What `sraiw` and `sraw` put together from the shifted word and the upper bits of `rs1`.
joined-low :
    (x a k : ℕ)
    → x < 2 ^ 64
    → ltb (u32 a) (2 ^ 31) ≡ ltb (u32 x) (2 ^ 31)
    → u32 (bit_or x (bit_and a top_bits)) ≡ u32 x
joined-low x a k h same = rw (bit_and_field 33 31 a) (
    ground (
      arith,
      same,
      parts 32 x,
      bit_or_split 32 (x / 2 ^ 32) (x % 2 ^ 32) (a / 2 ^ 32 % 2 ^ 32) (a / 2 ^ 31 % 2 * 2 ^ 31),
      bit_or_bit 31 (x % 2 ^ 32),
      bit_or-zero (x % 2 ^ 32),
    ))

-- The function that the tables name for an operation.
unfoldable pub run_word : WordOp → (ℕ → ℕ → ℕ) → RevFeature → RevRegFile → RevInst → RevRegFile
run_word WordOp.addw past f r i = Alu.addw f r i
run_word WordOp.subw past f r i = Alu.subw f r i
run_word WordOp.sllw past f r i = Alu.sllw f r i
run_word WordOp.srlw past f r i = Alu.srlw f r i
run_word WordOp.sraw past f r i = Alu.sraw f r i past

pub low_product : (a p : ℕ) → a * p ≡ u32 a * p + a / 2 ^ 32 * p * 2 ^ 32
low_product a p = ap (λ n. n * p) (sym (parts 32 a)) ∙ grind arith

pub shifted_left : (a k : ℕ) → bit_and (u64 (a * 2 ^ k)) mask32 ≡ u32 (u32 a * 2 ^ k)
shifted_left a k = rw (bit_and_mask 32 (u64 (a * 2 ^ k))) (
    omega (
      arith,
      low_product a (2 ^ k),
      add-mul-mod_self_right (u32 a * 2 ^ k) (a / 2 ^ 32 * 2 ^ k) (2 ^ 32),
    ))

-- The value that a signed shift stores, and its sign.
module _ (past : ℕ → ℕ → ℕ) (a k : ℕ) (h : k < 32) where
  shift : ℕ
  shift = shift_signed past (u32 (bit_and a mask32)) k

  shifted : ℤ
  shifted = shift_ℤ (signed 32 (u32 a)) k

  shift_lem : shift ≡ to_word 64 shifted
  unfolding shift shifted
  shift_lem =
      let src : u32 (bit_and a mask32) ≡ u32 a = omega (arith, bit_and_mask 32 a) in
      rw (lt→ltb k 32 h, src) refl

  same_sign : ltb (u32 a) (2 ^ 31) ≡ ltb (u32 (to_word 64 shifted)) (2 ^ 31)
  unfolding shifted
  same_sign = ground (arith, div-le_self (u32 a) (2 ^ k), div-le_self (2 ^ 32 - u32 a - 1) (2 ^ k))

  joined : ℕ
  joined = bit_or shift (bit_and a top_bits)

  joined_lem : u32 joined ≡ u32 (to_word 64 shifted)
  unfolding joined
  joined_lem = rw shift_lem (joined-low (to_word 64 shifted) a k (to_word-lt 64 shifted) same_sign)

  joined_value : u32 joined ≡ alu 32 AluOp.sra (u32 a) k
  unfolding shifted
  joined_value =
      joined_lem
      ∙ to_word-low shifted
      ∙ ap (λ n. to_word 32 (shift_ℤ (signed 32 (u32 a)) n)) (sym (mod-eq_of_lt h))

  joined-lt : joined < 2 ^ 64
  unfolding joined
  joined-lt = rw shift_lem (
      bit_or-lt 64 (to_word 64 shifted) (bit_and a top_bits) (to_word-lt 64 shifted)
        (omega (arith, bit_and_field 33 31 a)))

  joined_sign : ltb (u32 joined) (2 ^ 31) ≡ ltb (u32 a) (2 ^ 31)
  joined_sign = rw (joined_lem, same_sign) refl

-- `sraiw` and `sraw` for a count below 32.
pub arith_word :
    (past : ℕ → ℕ → ℕ) (f : RevFeature) (r : RevRegFile) (i : RevInst) (k j : ℕ)
    → k < 32
    → let v =
        bit_or
          (shift_signed past (u32 (bit_and (x64 r i.rs1) mask32)) k)
          (bit_and (x64 r i.rs1) top_bits) in
      let r1 = set64 i.rd (sext v 32) r in
      let r2 = set64 i.rd (sext (x64 r1 i.rd) 32) r1 in
      Wrote64 i r
        (Alu.fill_sign f r i r2)
        (sign_extend 64 32 (alu 32 AluOp.sra (u32 (x64 r i.rs1)) k))
        j
unfolding joined shift
arith_word past f r i k j h =
    let a = x64 r i.rs1 in
    rw (sym (joined_value past a k h))
      (fill_sign-word f i r (joined past a k h) j (joined-lt past a k h) (joined_sign past a k h))

-- The low 32 bits of a register keep the count of a shift.
pub count_low : (b : ℕ) → b % 32 ≡ b % 2 ^ 32 % 32
count_low b = omega arith

-- Each of the five register word instructions applies the operation of the manual to the low 32 bits
-- of rs1 and rs2 and writes the sign extended result to rd, leaves every other register and field
-- alone and steps the program counter. The registers hold words of 64 bits, and the count of sraw,
-- of six bits, is below 32.
pub word_64 :
    (past : ℕ → ℕ → ℕ) (f : RevFeature) (r : RevRegFile) (i : RevInst)
    → ((k : ℕ) → x64 r k < 2 ^ 64)
    → (op : WordOp) (j : ℕ) → (op ≡ WordOp.sraw → x64 r i.rs2 % 64 < 32)
    → Wrote64 i r (run_word op past f r i) (word_alu op (x64 r i.rs1) (x64 r i.rs2)) j
unfolding run_word Alu.addw Alu.subw Alu.sllw Alu.srlw Alu.sraw
word_64 past f r i fits WordOp.addw j _ =
    let a = u32 (x64 r i.rs1) in
    let b = u32 (x64 r i.rs2) in
    let full = dt_u32_full (u32 (a + b)) (omega arith) in
    rw (td_u32_full a (omega arith), td_u32_full b (omega arith), full)
      (store64_word i r _ _ j (omega arith) refl)
word_64 past f r i fits WordOp.subw j _ =
    let a = u32 (x64 r i.rs1) in
    let b = u32 (x64 r i.rs2) in
    let full = dt_u32_full (minus 32 a b) (omega arith) in
    rw (td_u32_full a (omega arith), td_u32_full b (omega arith), full)
      (store64_word i r _ _ j (omega arith) refl)
word_64 past f r i fits WordOp.sllw j _ =
    let a = x64 r i.rs1 in
    let k = x64 r i.rs2 % 32 in
    rw
      (
        bit_and_mask 5 (x64 r i.rs2),
        shifted_left a k,
        sext_64_full (u32 (u32 a * 2 ^ k)) (omega arith),
      )
      (store64_word i r _ _ j (omega arith) (rw (count_low (x64 r i.rs2)) refl))
word_64 past f r i fits WordOp.srlw j _ =
    let a = u32 (x64 r i.rs1) in
    rw (bit_and_mask 5 (x64 r i.rs2), bit_and_mask 32 (x64 r i.rs1))
      (store64_word i r _ _ j (quotient_below 32 a (x64 r i.rs2 % 32) (omega arith))
        (rw (count_low (x64 r i.rs2)) refl))
word_64 past f r i fits WordOp.sraw j small =
    let below = small refl in
    let count : x64 r i.rs2 % 64 % 32 ≡ x64 r i.rs2 % 2 ^ 32 % 32 = omega arith in
    rw (bit_and_mask 6 (x64 r i.rs2), sym count) (arith_word past f r i (x64 r i.rs2 % 64) j below)
