-- ===== src/Rv32i/Writes.antt =====
-- Full-width uses of the word helpers, and what a store followed by the step of the program
-- counter does to a register file.
use rev.Prelude.{
  ℕ, ◌+◌, ◌/◌, ◌%◌, ◌^◌, ◌<◌, ◌≡◌, refl, arith, ltb, if◌then◌else◌, Bool, true, false, ◌&&◌, ◌==◌,
}
use rev.Bits.{bit_and_mask, bit_xor_bit, bit_xor_split, bit_xor-zero, parts}
use rev.Word.{u32, u64, sext, zext, td_u32, td_u64, dt_u32, dt_u64}
use rev.Word.Extend.{td_u32_lem, td_u64_lem, dt_u32_lem, dt_u64_lem}
use rev.Inst.{RevInst}
use rev.RegFile.{RevRegFile, get, put, x32, x64, set32, set64, step32, step64}

-- At the full width the helpers return their argument.
pub td_u32_full : (x : ℕ) → x < 2 ^ 32 → td_u32 x 32 ≡ x
td_u32_full x h = ground (arith, td_u32_lem 31 x)

pub dt_u32_full : (x : ℕ) → x < 2 ^ 32 → dt_u32 x 32 ≡ x
dt_u32_full x h = ground (arith, dt_u32_lem 31 x)

pub td_u64_full : (x : ℕ) → x < 2 ^ 64 → td_u64 x 64 ≡ x
td_u64_full x h = ground (arith, td_u64_lem 63 x)

pub dt_u64_full : (x : ℕ) → x < 2 ^ 64 → dt_u64 x 64 ≡ x
dt_u64_full x h = ground (arith, dt_u64_lem 63 x)

-- `SEXT` at the width of the register keeps the bits that the store keeps.
pub sext_32-low : (x : ℕ) → x < 2 ^ 64 → u32 (sext x 32) ≡ u32 x
unfolding sext
sext_32-low x h = ground (
  arith,
  parts 32 x,
  bit_xor_split 32 (x / 2 ^ 32) (x % 2 ^ 32) 0 (2 ^ 31),
  bit_xor_bit 31 (x % 2 ^ 32),
  bit_xor-zero (x / 2 ^ 32),
)

pub sext_64_full : (x : ℕ) → x < 2 ^ 64 → sext x 64 ≡ x
unfolding sext
sext_64_full x h = ground (arith, bit_xor_bit 63 x)

pub zext_32_full : (x : ℕ) → x < 2 ^ 32 → zext x 32 ≡ x
unfolding zext
zext_32_full x h = omega (arith, bit_and_mask 32 x)

pub zext_64_full : (x : ℕ) → x < 2 ^ 64 → zext x 64 ≡ x
unfolding zext
zext_64_full x h = omega (arith, bit_and_mask 64 x)

-- The register file `r'` is `r` with the value `v` in the instruction's `rd` and the program
-- counter behind the instruction: register `j` reads so, and no other field has changed.
abbrev pub Wrote32 : RevInst → RevRegFile → RevRegFile → ℕ → ℕ → Type 0
Wrote32 i r r' v j =
    (x32 r' j ≡ (if ltb 0 j && j == i.rd then v else x32 r j))
    × (r'.rv32_pc ≡ u32 (r.rv32_pc + i.inst_size))
    × (record r' { rv32 = r.rv32; rv32_pc = r.rv32_pc } ≡ r)

abbrev pub Wrote64 : RevInst → RevRegFile → RevRegFile → ℕ → ℕ → Type 0
Wrote64 i r r' v j =
    (x64 r' j ≡ (if ltb 0 j && j == i.rd then v else x64 r j))
    × (r'.rv64_pc ≡ u64 (r.rv64_pc + i.inst_size))
    × (record r' { rv64 = r.rv64; rv64_pc = r.rv64_pc } ≡ r)

module _ (i : RevInst) (r : RevRegFile) where
  pub store32 : (v w j : ℕ) → u32 v ≡ w → Wrote32 i r (step32 i (set32 i.rd v r)) w j
  unfolding step32 set32 get put
  store32 v w j e = (ground arith, refl, refl)

  pub store64 : (v w j : ℕ) → u64 v ≡ w → Wrote64 i r (step64 i (set64 i.rd v r)) w j
  unfolding step64 set64 get put
  store64 v w j e = (ground arith, refl, refl)

  -- `SEXT` into the register, then `SEXTI` of the register at its full width.
  pub store32_sexti :
      (v w j : ℕ)
      → u32 v ≡ w
      → let r' = set32 i.rd v r in
        Wrote32 i r (step32 i (set32 i.rd (sext (x32 r' i.rd) 32) r')) w j
  unfolding step32 set32 get put
  store32_sexti v w j e = (ground (arith, sext_32-low (u32 v)), refl, refl)

  pub store64_sexti :
      (v w j : ℕ)
      → u64 v ≡ w
      → let r' = set64 i.rd v r in
        Wrote64 i r (step64 i (set64 i.rd (sext (x64 r' i.rd) 64) r')) w j
  unfolding step64 set64 get put
  store64_sexti v w j e = (ground (arith, sext_64_full (u64 v)), refl, refl)

  -- A comparison stores 1 or 0.
  pub store32_flag :
      (c : Bool) (j : ℕ)
      → Wrote32 i r (step32 i (if c then set32 i.rd 1 r else set32 i.rd 0 r)) (if c then 1 else 0) j
  store32_flag true j = store32 1 1 j refl
  store32_flag false j = store32 0 0 j refl

  pub store64_flag :
      (c : Bool) (j : ℕ)
      → Wrote64 i r (step64 i (if c then set64 i.rd 1 r else set64 i.rd 0 r)) (if c then 1 else 0) j
  store64_flag true j = store64 1 1 j refl
  store64_flag false j = store64 0 0 j refl
