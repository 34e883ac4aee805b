-- ===== src/Fixtures.antt =====
-- A register file, instructions and feature sets for the runs of the test modules.
use rev.Prelude.{ℕ, false, ◌==◌, if◌then◌else◌}
use rev.Inst.{RevInst, RevInstEntry, rev_inst_defaults, add}
use rev.RegFile.{RevFeature, RevRegFile, RevRf}

-- Register 5 holds 7 and register 6 holds 10.
abbrev pub seven_ten : RevRf
seven_ten k = if k == 5 then 7 else if k == 6 then 10 else 0

abbrev pub start : RevRegFile
start = record {
  rv32 = seven_ten;
  rv64 = seven_ten;
  rv64_sstatus = 0;
  rv64_sepc = 0;
  rv64_scause = 0;
  rv64_stval = 0;
  rv64_stvec = 0;
  rv32_sstatus = 0;
  rv32_sepc = 0;
  rv32_scause = 0;
  rv32_stval = 0;
  rv32_stvec = 0;
  rv32_scoreboard = λ _. false;
  rv64_scoreboard = λ _. false;
  spf_scoreboard = λ _. false;
  dpf_scoreboard = λ _. false;
  rv32_pc = 0x1000;
  rv64_pc = 0x1000;
  fcsr = 0;
  cost = 0;
  trigger = false;
  entry = 0;
}

-- An instruction on registers 5 and 6 that writes register 7.
abbrev pub inst : ℕ → RevInst
inst imm = record {
  opcode = 0;
  funct2 = 0;
  funct3 = 0;
  funct4 = 0;
  funct6 = 0;
  funct7 = 0;
  rd = 7;
  rs1 = 5;
  rs2 = 6;
  rs3 = 0;
  imm = imm;
  fmt = 0;
  rm = 0;
  aq = 0;
  rl = 0;
  offset = 0;
  jump_target = 0;
  inst_size = 4;
  compressed = false;
  cost = 1;
  entry = 0;
}

abbrev pub feature : ℕ → RevFeature
feature xlen = record { min_cost = 1; max_cost = 1; hart = 0; features = 0; xlen = xlen }

abbrev pub row : RevInstEntry
row = rev_inst_defaults add
