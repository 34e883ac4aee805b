-- ===== src/Inst.antt =====
-- include/RevInstTable.h: the decoded instruction `RevInst`, the rows `RevInstEntry` of the
-- instruction tables with their defaults, the register classes and formats, and `CRegMap`.
-- The hazard pointer of `RevInst` is not kept: without a memory controller a load completes at
-- once and clears it. Register numbers, immediates and sizes are native numbers.
use Prim.Native.String.{String}
use rev.Prelude.{ℕ, ◌+◌, Bool, false, ltb, if◌then◌else◌}

pub record RevInst : Type 0 where
  pub opcode : ℕ
  pub funct2 : ℕ
  pub funct3 : ℕ
  pub funct4 : ℕ
  pub funct6 : ℕ
  pub funct7 : ℕ
  pub rd : ℕ
  pub rs1 : ℕ
  pub rs2 : ℕ
  pub rs3 : ℕ
  pub imm : ℕ
  pub fmt : ℕ
  pub rm : ℕ
  pub aq : ℕ
  pub rl : ℕ
  pub offset : ℕ
  pub jump_target : ℕ
  pub inst_size : ℕ
  pub compressed : Bool
  pub cost : ℕ
  pub entry : ℕ

pub data RevInstF : Type 0 where
  unknown type_r type_i type_s type_u type_b type_j type_r4 : RevInstF
  type_cr type_ci type_css type_ciw type_cl type_cs type_ca type_cb type_cj : RevInstF

pub data RevRegClass : Type 0 where
  reg_unknown reg_imm reg_gpr reg_csr reg_float : RevRegClass

pub data RevImmFunc : Type 0 where
  f_unk f_imm f_enc f_val : RevImmFunc

-- The functions that the rows of the modelled tables name by `SetImplFunc`.
pub data Func : Type 0 where
  lui auipc jal jalr beq bne blt bge bltu bgeu : Func
  lb lh lw lbu lhu sb sh sw : Func
  addi slti sltiu xori ori andi slli srli srai : Func
  add sub sll slt sltu f_xor srl sra f_or f_and : Func
  fence fencei ecall ebreak csrrw csrrs csrrc csrrwi csrrsi csrrci : Func
  caddi4spn clwsp cswsp clw csw cj cr_func_1000 cr_func_1001 cbeqz cbnez : Func
  cli ci_func caddi cslli csrli csrai candi cand cor cxor csub : Func
  mul mulh mulhsu mulhu div divu rem remu : Func

pub record RevInstEntry : Type 0 where
  pub mnemonic : String
  pub cost : ℕ
  pub opcode : ℕ
  pub funct2 : ℕ
  pub funct3 : ℕ
  pub funct4 : ℕ
  pub funct6 : ℕ
  pub funct7 : ℕ
  pub offset : ℕ
  pub jump_target : ℕ
  pub rd_class : RevRegClass
  pub rs1_class : RevRegClass
  pub rs2_class : RevRegClass
  pub rs3_class : RevRegClass
  pub imm12 : ℕ
  pub imm : RevImmFunc
  pub format : RevInstF
  pub func : Func
  pub compressed : Bool
  pub fpcvt_op : ℕ

-- `RevInstDefaults`, as the builder's constructor copies it. The builder leaves the function
-- NULL; every row of the tables then sets it, here by the argument.
abbrev pub rev_inst_defaults : Func → RevInstEntry
rev_inst_defaults f = record {
  mnemonic = "nop";
  cost = 1;
  opcode = 0;
  funct2 = 0;
  funct3 = 0;
  funct4 = 0;
  funct6 = 0;
  funct7 = 0;
  offset = 0;
  jump_target = 0;
  rd_class = reg_gpr;
  rs1_class = reg_gpr;
  rs2_class = reg_gpr;
  rs3_class = reg_unknown;
  imm12 = 0;
  imm = f_unk;
  format = type_r;
  func = f;
  compressed = false;
  fpcvt_op = 0;
}

-- The map holds the eight keys; `operator[]` makes any other key with the value 0.
abbrev pub c_reg_map : ℕ → ℕ
c_reg_map n = if ltb n 8 then n + 8 else 0
