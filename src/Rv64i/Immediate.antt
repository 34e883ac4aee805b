-- ===== src/Rv64i/Immediate.antt =====
-- The immediate word instructions compute what `Isa.word_alu` says.
use native.Mathlib.Nat.{div-lt_iff_lt-mul}
use rev.Prelude.{
  ℕ, ◌+◌, ◌*◌, ◌/◌, ◌%◌, ◌^◌, ◌<◌, ◌≡◌, ◌≢◌, refl, sym, arith, bit_and, bit_or, ◌==◌, Bool-cases,
  false, inl, inr, lt→ltb,
}
use rev.Bits.{bit_and_mask, zero-bit_or, two_pow_pos, pow_mono}
use rev.Word.{u32, sext, td_u32}
use rev.Word.Extend.{sign_extend, sext-eq-sign_extend}
use rev.Inst.{RevInst}
use rev.RegFile.{RevFeature, RevRegFile, get, put, x64, set64, step64}
use rev.Isa.{AluOp, alu, word_alu, WordImmOp, word_imm_base}
use rev.Rv64i.Alu
use rev.Rv64i.Alu.{mask32, shift_unsigned}
use rev.Rv64i.Refines.{store64_word_masked, arith_word, shifted_left}
use rev.Rv32i.Immediate.{td_32}
use rev.Rv32i.Writes.{td_u32_full, dt_u32_full, Wrote64, store64_sexti}

-- The function that the tables name for an instruction.
unfoldable pub run_word_imm :
    WordImmOp → (ℕ → ℕ → ℕ) → RevFeature → RevRegFile → RevInst → RevRegFile
run_word_imm WordImmOp.addiw past f r i = Alu.addiw f r i
run_word_imm WordImmOp.slliw past f r i = Alu.slliw f r i
run_word_imm WordImmOp.srliw past f r i = Alu.srliw f r i past
run_word_imm WordImmOp.sraiw past f r i = Alu.sraiw f r i past

-- The second operand.
abbrev pub word_operand : WordImmOp → ℕ → ℕ
word_operand WordImmOp.addiw imm = sign_extend 64 12 imm
word_operand WordImmOp.slliw imm = imm
word_operand WordImmOp.srliw imm = imm
word_operand WordImmOp.sraiw imm = imm

-- The counts that the manual allows; a shift of zero places has another register as its source.
unfoldable pub HasCount : WordImmOp → RevInst → Type 0
HasCount WordImmOp.addiw i = Unit
HasCount WordImmOp.slliw i = i.imm < 32
HasCount WordImmOp.srliw i = (i.imm < 32) × (i.rs1 ≡ i.rd → 0 < i.imm)
HasCount WordImmOp.sraiw i = i.imm < 32

word_immediate : (imm : ℕ) → imm < 2 ^ 12 → td_u32 imm 12 ≡ u32 (sign_extend 64 12 imm)
word_immediate imm short = rw (td_32 imm short) (ground (arith, short))

-- `srliw` by no place.
copied :
    (i : RevInst) (r : RevRegFile) (j : ℕ)
    → i.rs1 ≢ i.rd
    → let cleared = set64 i.rd 0 r in
      let moved =
        set64 i.rd (bit_or (x64 cleared i.rd) (bit_and (x64 cleared i.rs1) 0xffffffff)) cleared in
      Wrote64 i r
        (step64 i (set64 i.rd (sext (x64 moved i.rd) 32) moved))
        (sign_extend 64 32 (u32 (x64 r i.rs1)))
        j
unfolding step64 set64 get put
copied i r j other = (
  ground (
    arith,
    other,
    bit_and_mask 32 (get r.rv64 i.rs1),
    zero-bit_or (get r.rv64 i.rs1 % 2 ^ 32),
    sext-eq-sign_extend 31 (get r.rv64 i.rs1 % 2 ^ 32) (omega arith) (omega arith),
    sext-eq-sign_extend 31 0 (omega arith) (omega arith),
  ),
  refl,
  refl,
)

-- `srliw` by some places.
shifted :
    (past : ℕ → ℕ → ℕ) (i : RevInst) (r : RevRegFile) (k j : ℕ)
    → 0 < k
    → k < 32
    → let cleared = set64 i.rd 0 r in
      let dest = u32 (shift_unsigned past (u32 (bit_and (x64 r i.rs1) mask32)) k) in
      Wrote64 i r
        (step64 i (set64 i.rd (bit_or (x64 cleared i.rd) dest) cleared))
        (sign_extend 64 32 (alu 32 AluOp.srl (u32 (x64 r i.rs1)) k))
        j
unfolding step64 set64 get put
shifted past i r k j positive below =
    let a = u32 (x64 r i.rs1) in
    let mask : u32 (bit_and (x64 r i.rs1) mask32) ≡ a =
      omega (arith, bit_and_mask 32 (x64 r i.rs1)) in
    let same : k % 32 ≡ k = omega (arith, below) in
    let half : a / 2 ^ k < 2 ^ 31 =
      (div-lt_iff_lt-mul (two_pow_pos k)).1 (omega (arith, pow_mono 1 k positive)) in
    let value : u32 (shift_unsigned past a k) ≡ a / 2 ^ k =
      rw (lt→ltb k 32 below) (omega (arith, half)) in
    (rw (mask, value, same) (ground (arith, half, zero-bit_or (a / 2 ^ k))), refl, refl)

-- doc
pub word_imm_64 :
    (past : ℕ → ℕ → ℕ) (f : RevFeature) (r : RevRegFile) (i : RevInst)
    → ((k : ℕ) → x64 r k < 2 ^ 64)
    → i.imm < 2 ^ 12
    → (op : WordImmOp) (j : ℕ) → HasCount op i
    → Wrote64 i r
        (run_word_imm op past f r i)
        (word_alu (word_imm_base op) (x64 r i.rs1) (word_operand op i.imm))
        j
unfolding run_word_imm HasCount Alu.addiw Alu.slliw Alu.srliw Alu.sraiw
word_imm_64 past f r i fits short WordImmOp.addiw j _ =
    let a = u32 (x64 r i.rs1) in
    let b = u32 (sign_extend 64 12 i.imm) in
    rw
      (
        td_u32_full a (omega arith),
        word_immediate i.imm short,
        dt_u32_full (u32 (a + b)) (omega arith),
      )
      (store64_word_masked i r _ _ j (omega arith) refl)
word_imm_64 past f r i fits short WordImmOp.slliw j small =
    let a = x64 r i.rs1 in
    let count : i.imm % 64 ≡ i.imm % 2 ^ 32 % 32 = omega (arith, small) in
    rw (bit_and_mask 6 i.imm, count, shifted_left a (i.imm % 2 ^ 32 % 32))
      (store64_sexti i r _ _ j (
        ground (
          arith,
          sext-eq-sign_extend 31 (u32 (u32 a * 2 ^ (i.imm % 2 ^ 32 % 32))) (omega arith)
              (omega arith),
        )))
word_imm_64 past f r i fits short WordImmOp.srliw j (small, other) =
    elim (Bool-cases (i.imm == 0)) [
      | inl none ↦
          let zero : i.imm ≡ 0 = ground (arith, none) in
          let count : bit_and i.imm 0b111111 ≡ 0 = omega (arith, bit_and_mask 6 i.imm, zero) in
          let places : i.imm % 2 ^ 32 % 32 ≡ 0 = omega (arith, zero) in
          let whole : u32 (x64 r i.rs1) / 2 ^ 0 ≡ u32 (x64 r i.rs1) = omega arith in
          rw (count, places, whole) (copied i r j (λ e. omega (arith, other e, zero)))
      | inr some ↦
          let count : i.imm % 64 ≡ i.imm % 2 ^ 32 = omega (arith, small) in
          let nonzero : 0 < i.imm % 2 ^ 32 = ground (arith, some, small) in
          let differs : (i.imm % 2 ^ 32 == 0) ≡ false = ground (arith, nonzero) in
          rw (bit_and_mask 6 i.imm, count, differs)
            (shifted past i r (i.imm % 2 ^ 32) j nonzero (omega (arith, small)))
    ]
word_imm_64 past f r i fits short WordImmOp.sraiw j small =
    let count : i.imm % 128 % 32 ≡ i.imm % 2 ^ 32 % 32 = omega arith in
    rw (bit_and_mask 7 i.imm, sym count)
      (arith_word past f r i (i.imm % 128) j (omega (arith, small)))
