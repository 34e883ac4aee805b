-- ===== src/Rv32i/Expand.antt =====
-- The compressed additions and stores: what their expansion computes on RV64.
use native.Mathlib.Nat.{pow-suc}
use rev.Prelude.{ℕ, suc, ◌+◌, ◌%◌, ◌^◌, ◌<◌, ◌≡◌, arith, bit_and, ◌==◌, true, false}
use rev.Bits.{bit_and_mask, pow_mono}
use rev.Word.{u32, u64, sext, td_u64}
use rev.Word.Extend.{sign_extend, sext-eq-sign_extend, td_u64_lem}
use rev.Inst.{RevInst}
use rev.RegFile.Laws.{get-zero}
use rev.RegFile.{RevFeature, RevRegFile, is_rv32, x64}
use rev.Rv32i.Alu
use rev.Rv32i.Compact
use rev.Rv32i.Writes.{td_u64_full, dt_u64_full, Wrote64, store64}

-- `addi` with any immediate that fits 32 bits.
addi_any :
    (f : RevFeature) (r : RevRegFile) (i : RevInst) (b j : ℕ)
    → is_rv32 f ≡ false
    → x64 r i.rs1 < 2 ^ 64
    → b < 2 ^ 64
    → td_u64 i.imm 12 ≡ b
    → Wrote64 i r (Alu.addi f r i) ((x64 r i.rs1 + b) % 2 ^ 64) j
unfolding Alu.addi
addi_any f r i b j wide ha hb e =
    rw (wide, e, td_u64_full _ ha)
      (store64 i r _ _ j (omega (arith, dt_u64_full (u64 (x64 r i.rs1 + b)) (omega arith))))

-- The immediates that the compressed instructions make, read by `addi`.
six_bits :
    (imm : ℕ) → td_u64 (u32 (sext (bit_and imm 0b111111) 6)) 12 ≡ sign_extend 64 6 (imm % 2 ^ 6)
six_bits imm =
    rw (bit_and_mask 6 imm, sext-eq-sign_extend 5 (imm % 2 ^ 6) (omega arith) (omega arith))
      (ground
        (arith, td_u64_lem 11 (u32 (sign_extend 64 6 (imm % 2 ^ 6))) (omega arith) (omega arith)))

ten_bits :
    (imm : ℕ)
    → td_u64 (u32 (sext (bit_and imm 0b1111111111) 10)) 12 ≡ sign_extend 64 10 (imm % 2 ^ 10)
ten_bits imm =
    rw (bit_and_mask 10 imm, sext-eq-sign_extend 9 (imm % 2 ^ 10) (omega arith) (omega arith))
      (ground
        (arith, td_u64_lem 11 (u32 (sign_extend 64 10 (imm % 2 ^ 10))) (omega arith) (omega arith)))

sign_extend-lt : (k v : ℕ) → k < 64 → v < 2 ^ suc k → sign_extend 64 (suc k) v < 2 ^ 64
sign_extend-lt k v hk h = ground (arith, pow_mono (suc k) 64 hk, pow-suc 2 k)

-- On RV64 `c.addi` adds its sign extended 6-bit immediate to `rd`, and `c.li` writes that immediate
-- to `rd`; nothing else changes but the program counter, which steps. The registers hold words of
-- 64 bits.
pub compact_addi_64 :
    (f : RevFeature) (r : RevRegFile) (i : RevInst)
    → is_rv32 f ≡ false
    → ((k : ℕ) → x64 r k < 2 ^ 64)
    → (j : ℕ)
    → Wrote64 i r (Compact.caddi f r i) ((x64 r i.rd + sign_extend 64 6 (i.imm % 2 ^ 6)) % 2 ^ 64) j
      × Wrote64 i r (Compact.cli f r i) (sign_extend 64 6 (i.imm % 2 ^ 6)) j
unfolding Compact.caddi Compact.cli
compact_addi_64 f r i wide fits j =
    let b = sign_extend 64 6 (i.imm % 2 ^ 6) in
    let below = sign_extend-lt 5 (i.imm % 2 ^ 6) (omega arith) (omega arith) in
    let imm = u32 (sext (bit_and i.imm 0b111111) 6) in
    let from_zero =
      addi_any f r (record i { rs1 = 0; imm = imm }) b j wide (fits 0) below (six_bits i.imm) in
    let whole : (x64 r 0 + b) % 2 ^ 64 ≡ b = rw (get-zero r.rv64) (omega (arith, below)) in
    (
      addi_any f r (record i { imm = imm; rs1 = i.rd }) b j wide (fits i.rd) below (six_bits i.imm),
      rw whole at from_zero,
    )

-- On RV64 `c.addi16sp`, which is `CIFUNC` where `rd` is 2, leaves the value of `rs1` plus its sign
-- extended 10-bit immediate in register 2, and changes nothing else but the program counter, which
-- steps. The registers hold words of 64 bits.
pub caddi16sp_64 :
    (f : RevFeature) (r : RevRegFile) (i : RevInst)
    → is_rv32 f ≡ false
    → ((k : ℕ) → x64 r k < 2 ^ 64)
    → i.rd ≡ 2
    → (j : ℕ)
    → Wrote64 i r
        (Compact.ci_func f r i)
        ((x64 r i.rs1 + sign_extend 64 10 (i.imm % 2 ^ 10)) % 2 ^ 64)
        j
unfolding Compact.ci_func
caddi16sp_64 f r i wide fits ed j =
    let below = sign_extend-lt 9 (i.imm % 2 ^ 10) (omega arith) (omega arith) in
    let imm = u32 (sext (bit_and i.imm 0b1111111111) 10) in
    let sum = addi_any f r (record i { imm = imm }) _ j wide (fits i.rs1) below (ten_bits i.imm) in
    let test : i.rd == 2 ≡ true = ground arith in rw test sum
