-- ===== src/Decode/Macros.antt =====
-- The `DECODE_` macros of include/RevInstTable.h.
use rev.Prelude.{ℕ, ◌/◌, ◌^◌, bit_and}

abbrev pub decode_rd : ℕ → ℕ
decode_rd x = bit_and (x / 2 ^ 7) 0b11111

abbrev pub decode_rs1 : ℕ → ℕ
decode_rs1 x = bit_and (x / 2 ^ 15) 0b11111

abbrev pub decode_rs2 : ℕ → ℕ
decode_rs2 x = bit_and (x / 2 ^ 20) 0b11111

abbrev pub decode_rs3 : ℕ → ℕ
decode_rs3 x = bit_and (x / 2 ^ 27) 0b11111

abbrev pub decode_imm12 : ℕ → ℕ
decode_imm12 x = bit_and (x / 2 ^ 20) 0b111111111111

abbrev pub decode_imm20 : ℕ → ℕ
decode_imm20 x = bit_and (x / 2 ^ 12) 0b11111111111111111111

abbrev pub decode_lower_crs2 : ℕ → ℕ
decode_lower_crs2 x = bit_and (x / 2 ^ 2) 0b11111

abbrev pub decode_funct7 : ℕ → ℕ
decode_funct7 x = bit_and (x / 2 ^ 25) 0b1111111

abbrev pub decode_funct2 : ℕ → ℕ
decode_funct2 x = bit_and (x / 2 ^ 25) 0b11

abbrev pub decode_funct3 : ℕ → ℕ
decode_funct3 x = bit_and (x / 2 ^ 12) 0b111

abbrev pub decode_rl : ℕ → ℕ
decode_rl x = bit_and (x / 2 ^ 25) 0b1

abbrev pub decode_aq : ℕ → ℕ
decode_aq x = bit_and (x / 2 ^ 26) 0b1
