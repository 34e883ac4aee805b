-- ===== src/Decode/RoundTrip.antt =====
-- Each decoder gives back the registers and the immediate that its format encodes.
use rev.Prelude.{ℕ, ◌/◌, ◌%◌, ◌^◌, ◌<◌, ◌≡◌, ◌≢◌, refl, ◌∙◌, ◌-◌, arith, bit_and}
use rev.Bits.{bit_and_mask}
use rev.Inst.{RevInst, RevInstEntry, RevRegClass, reg_unknown, reg_imm, reg_gpr, reg_csr, reg_float}
use rev.RegFile.{RevRegFile}
use rev.Decode.Encode.{encode_s, encode_b, encode_j, encode_i, encode_u, encode_r}
use rev.Decode.Standard.{decode_r, decode_i, decode_s, decode_u, decode_b, decode_j, reg_field}
use rev.Decode.Fields.{decode_b-imm, decode_j-imm, decode_s-imm}

-- The low bits of a shifted word, read through a mask.
field : (w x v : ℕ) → x % 2 ^ w ≡ v → bit_and x (2 ^ w - 1) ≡ v
field w x v h = bit_and_mask w x ∙ h

-- A register field of a known class.
known : (c : RevRegClass) (x v : ℕ) → c ≢ reg_unknown → x ≡ v → reg_field c x ≡ v
known reg_unknown x v h e = absurd (h refl)
known reg_imm x v h e = e
known reg_gpr x v h e = e
known reg_csr x v h e = e
known reg_float x v h e = e

-- The hypothesis on a class holds for every row of the tables whose format has that field.
module _ (r : RevRegFile) (e : RevInstEntry) (u : RevInst) where
  -- A branch word decodes to the registers and the offset that it encodes, for every even offset
  -- of 13 bits.
  pub decode_b-encode_b :
      (opcode funct3 rs1 rs2 imm : ℕ)
      → opcode < 2 ^ 7
      → funct3 < 2 ^ 3
      → rs1 < 2 ^ 5
      → rs2 < 2 ^ 5
      → imm < 2 ^ 13
      → imm % 2 ≡ 0
      → e.rs1_class ≢ reg_unknown
      → e.rs2_class ≢ reg_unknown
      → let d = (decode_b r e u (encode_b opcode funct3 rs1 rs2 imm)).1 in
        (d.rs1 ≡ rs1) × (d.rs2 ≡ rs2) × (d.imm ≡ imm)
  unfolding decode_b
  decode_b-encode_b opcode funct3 rs1 rs2 imm ho hf h1 h2 hi even k1 k2 =
      let word = encode_b opcode funct3 rs1 rs2 imm in
      (
        known e.rs1_class _ rs1 k1 (field 5 (word / 2 ^ 15) rs1 (omega arith)),
        known e.rs2_class _ rs2 k2 (field 5 (word / 2 ^ 20) rs2 (omega arith)),
        omega (arith, decode_b-imm r e u word),
      )

  -- A jump word decodes to the link register and the offset that it encodes, for every even
  -- offset of 21 bits.
  pub decode_j-encode_j :
      (opcode rd imm : ℕ)
      → opcode < 2 ^ 7
      → rd < 2 ^ 5
      → imm < 2 ^ 21
      → imm % 2 ≡ 0
      → e.rd_class ≢ reg_unknown
      → let d = (decode_j r e u (encode_j opcode rd imm)).1 in (d.rd ≡ rd) × (d.imm ≡ imm)
  unfolding decode_j
  decode_j-encode_j opcode rd imm ho hd hi even kd =
      let word = encode_j opcode rd imm in
      (
        known e.rd_class _ rd kd (field 5 (word / 2 ^ 7) rd (omega arith)),
        omega (arith, decode_j-imm r e u word),
      )

  -- A store word decodes to the registers and the 12-bit offset that it encodes.
  pub decode_s-encode_s :
      (opcode funct3 rs1 rs2 imm : ℕ)
      → opcode < 2 ^ 7
      → funct3 < 2 ^ 3
      → rs1 < 2 ^ 5
      → rs2 < 2 ^ 5
      → imm < 2 ^ 12
      → e.rs1_class ≢ reg_unknown
      → e.rs2_class ≢ reg_unknown
      → let d = (decode_s r e u (encode_s opcode funct3 rs1 rs2 imm)).1 in
        (d.rs1 ≡ rs1) × (d.rs2 ≡ rs2) × (d.imm ≡ imm)
  unfolding decode_s
  decode_s-encode_s opcode funct3 rs1 rs2 imm ho hf h1 h2 hi k1 k2 =
      let word = encode_s opcode funct3 rs1 rs2 imm in
      (
        known e.rs1_class _ rs1 k1 (field 5 (word / 2 ^ 15) rs1 (omega arith)),
        known e.rs2_class _ rs2 k2 (field 5 (word / 2 ^ 20) rs2 (omega arith)),
        omega (arith, decode_s-imm r e u word),
      )

  -- An immediate word decodes to the registers and the 12-bit immediate that it encodes.
  pub decode_i-encode_i :
      (opcode funct3 rd rs1 imm : ℕ)
      → opcode < 2 ^ 7
      → funct3 < 2 ^ 3
      → rd < 2 ^ 5
      → rs1 < 2 ^ 5
      → imm < 2 ^ 12
      → e.rd_class ≢ reg_unknown
      → e.rs1_class ≢ reg_unknown
      → let d = (decode_i r e u (encode_i opcode funct3 rd rs1 imm)).1 in
        (d.rd ≡ rd) × (d.rs1 ≡ rs1) × (d.imm ≡ imm)
  unfolding decode_i
  decode_i-encode_i opcode funct3 rd rs1 imm ho hf hd h1 hi kd k1 =
      let word = encode_i opcode funct3 rd rs1 imm in
      (
        known e.rd_class _ rd kd (field 5 (word / 2 ^ 7) rd (omega arith)),
        known e.rs1_class _ rs1 k1 (field 5 (word / 2 ^ 15) rs1 (omega arith)),
        field 12 (word / 2 ^ 20) imm (omega arith),
      )

  -- An upper immediate word decodes to the register and the 20-bit immediate that it encodes.
  pub decode_u-encode_u :
      (opcode rd imm : ℕ)
      → opcode < 2 ^ 7
      → rd < 2 ^ 5
      → imm < 2 ^ 20
      → e.rd_class ≢ reg_unknown
      → let d = (decode_u r e u (encode_u opcode rd imm)).1 in (d.rd ≡ rd) × (d.imm ≡ imm)
  unfolding decode_u
  decode_u-encode_u opcode rd imm ho hd hi kd =
      let word = encode_u opcode rd imm in
      (
        known e.rd_class _ rd kd (field 5 (word / 2 ^ 7) rd (omega arith)),
        field 20 (word / 2 ^ 12) imm (omega arith),
      )

  -- A register word decodes to the three registers that it encodes.
  pub decode_r-encode_r :
      (opcode funct3 funct7 rd rs1 rs2 : ℕ)
      → opcode < 2 ^ 7
      → funct3 < 2 ^ 3
      → funct7 < 2 ^ 7
      → rd < 2 ^ 5
      → rs1 < 2 ^ 5
      → rs2 < 2 ^ 5
      → e.rd_class ≢ reg_unknown
      → e.rs1_class ≢ reg_unknown
      → e.rs2_class ≢ reg_unknown
      → let d = (decode_r r e u (encode_r opcode funct3 funct7 rd rs1 rs2)).1 in
        (d.rd ≡ rd) × (d.rs1 ≡ rs1) × (d.rs2 ≡ rs2)
  unfolding decode_r
  decode_r-encode_r opcode funct3 funct7 rd rs1 rs2 ho hf h7 hd h1 h2 kd k1 k2 =
      let word = encode_r opcode funct3 funct7 rd rs1 rs2 in
      (
        known e.rd_class _ rd kd (field 5 (word / 2 ^ 7) rd (omega arith)),
        known e.rs1_class _ rs1 k1 (field 5 (word / 2 ^ 15) rs1 (omega arith)),
        known e.rs2_class _ rs2 k2 (field 5 (word / 2 ^ 20) rs2 (omega arith)),
      )
