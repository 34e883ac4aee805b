-- ===== src/Decode/Encode.antt =====
-- The instruction formats of the RISC-V manual, as encoders: each puts its fields at their places
-- in a 32-bit word. They are the description that the decoders are held against.
use rev.Prelude.{ℕ, ◌+◌, ◌*◌, ◌/◌, ◌%◌, ◌^◌}

abbrev pub low_fields : ℕ → ℕ → ℕ → ℕ
low_fields opcode bits7 funct3 = opcode + bits7 * 2 ^ 7 + funct3 * 2 ^ 12

-- S-type: imm[11:5] rs2 rs1 funct3 imm[4:0] opcode.
abbrev pub encode_s : ℕ → ℕ → ℕ → ℕ → ℕ → ℕ
encode_s opcode funct3 rs1 rs2 imm =
    low_fields opcode (imm % 2 ^ 5) funct3 + rs1 * 2 ^ 15 + rs2 * 2 ^ 20 + imm / 2 ^ 5 * 2 ^ 25

-- B-type: imm[12|10:5] rs2 rs1 funct3 imm[4:1|11] opcode.
abbrev pub encode_b : ℕ → ℕ → ℕ → ℕ → ℕ → ℕ
encode_b opcode funct3 rs1 rs2 imm =
    low_fields opcode (imm / 2 % 2 ^ 4 * 2 + imm / 2 ^ 11 % 2) funct3
    + rs1 * 2 ^ 15
    + rs2 * 2 ^ 20
    + imm / 2 ^ 5 % 2 ^ 6 * 2 ^ 25
    + imm / 2 ^ 12 * 2 ^ 31

-- J-type: imm[20|10:1|11|19:12] rd opcode.
abbrev pub encode_j : ℕ → ℕ → ℕ → ℕ
encode_j opcode rd imm =
    opcode
    + rd * 2 ^ 7
    + imm / 2 ^ 12 % 2 ^ 8 * 2 ^ 12
    + imm / 2 ^ 11 % 2 * 2 ^ 20
    + imm / 2 % 2 ^ 10 * 2 ^ 21
    + imm / 2 ^ 20 * 2 ^ 31

-- I-type: imm[11:0] rs1 funct3 rd opcode.
abbrev pub encode_i : ℕ → ℕ → ℕ → ℕ → ℕ → ℕ
encode_i opcode funct3 rd rs1 imm = low_fields opcode rd funct3 + rs1 * 2 ^ 15 + imm * 2 ^ 20

-- U-type: imm[31:12] rd opcode; `imm` is the upper part.
abbrev pub encode_u : ℕ → ℕ → ℕ → ℕ
encode_u opcode rd imm = opcode + rd * 2 ^ 7 + imm * 2 ^ 12

-- R-type: funct7 rs2 rs1 funct3 rd opcode.
abbrev pub encode_r : ℕ → ℕ → ℕ → ℕ → ℕ → ℕ → ℕ
encode_r opcode funct3 funct7 rd rs1 rs2 =
    low_fields opcode rd funct3 + rs1 * 2 ^ 15 + rs2 * 2 ^ 20 + funct7 * 2 ^ 25
