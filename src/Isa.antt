-- ===== src/Isa.antt =====
-- What the RISC-V manual says of the base integer instructions, for registers of `w` bits: the
-- description that the instruction functions are held against.
use rev.Prelude.{
  ℕ, ◌+◌, ◌*◌, ◌/◌, ◌%◌, ◌^◌, bit_and, bit_or, bit_xor, ltb, ◌==◌, Bool, not, if◌then◌else◌,
}
use rev.Word.{signed, to_word, shift_ℤ, minus, lt_signed}
use rev.Word.Extend.{sign_extend}

pub data AluOp : Type 0 where
  add sub sll slt sltu xor srl sra or and : AluOp

-- The result of the operation on two registers; a shift reads the low bits of `b` that count up
-- to the width.
abbrev pub alu : ℕ → AluOp → ℕ → ℕ → ℕ
alu w add a b = (a + b) % 2 ^ w
alu w sub a b = minus w a b
alu w sll a b = a * 2 ^ (b % w) % 2 ^ w
alu w slt a b = if lt_signed w a b then 1 else 0
alu w sltu a b = if ltb a b then 1 else 0
alu w xor a b = bit_xor a b
alu w srl a b = a / 2 ^ (b % w)
alu w sra a b = to_word w (shift_ℤ (signed w a) (b % w))
alu w or a b = bit_or a b
alu w and a b = bit_and a b

-- The instructions with an immediate, each with the operation it applies.
pub data ImmOp : Type 0 where
  addi slti sltiu xori ori andi slli srli srai : ImmOp

abbrev pub base : ImmOp → AluOp
base addi = AluOp.add
base slti = AluOp.slt
base sltiu = AluOp.sltu
base xori = AluOp.xor
base ori = AluOp.or
base andi = AluOp.and
base slli = AluOp.sll
base srli = AluOp.srl
base srai = AluOp.sra

-- The conditional branches and when they are taken.
pub data BranchOp : Type 0 where
  beq bne blt bge bltu bgeu : BranchOp

abbrev pub taken : ℕ → BranchOp → ℕ → ℕ → Bool
taken w beq a b = a == b
taken w bne a b = not (a == b)
taken w blt a b = lt_signed w a b
taken w bge a b = not (lt_signed w a b)
taken w bltu a b = ltb a b
taken w bgeu a b = not (ltb a b)

-- The loads, with the bytes that each reads.
pub data LoadOp : Type 0 where
  lb lh lw lbu lhu : LoadOp

abbrev pub bytes : LoadOp → ℕ
bytes lb = 1
bytes lh = 2
bytes lw = 4
bytes lbu = 1
bytes lhu = 2

-- What a load leaves in a register of `w` bits.
abbrev pub loaded : ℕ → LoadOp → ℕ → ℕ
loaded w lb v = sign_extend w 8 v
loaded w lh v = sign_extend w 16 v
loaded w lw v = sign_extend w 32 v
loaded w lbu v = v
loaded w lhu v = v

-- The stores, with the bytes that each writes.
pub data StoreOp : Type 0 where
  sb sh sw : StoreOp

abbrev pub width : StoreOp → ℕ
width sb = 1
width sh = 2
width sw = 4

-- The word instructions of RV64: the operation on the low 32 bits, sign extended.
pub data WordOp : Type 0 where
  addw subw sllw srlw sraw : WordOp

abbrev pub word_base : WordOp → AluOp
word_base addw = AluOp.add
word_base subw = AluOp.sub
word_base sllw = AluOp.sll
word_base srlw = AluOp.srl
word_base sraw = AluOp.sra

abbrev pub word_alu : WordOp → ℕ → ℕ → ℕ
word_alu op a b = sign_extend 64 32 (alu 32 (word_base op) (a % 2 ^ 32) (b % 2 ^ 32))

-- Those with an immediate.
pub data WordImmOp : Type 0 where
  addiw slliw srliw sraiw : WordImmOp

abbrev pub word_imm_base : WordImmOp → WordOp
word_imm_base addiw = WordOp.addw
word_imm_base slliw = WordOp.sllw
word_imm_base srliw = WordOp.srlw
word_imm_base sraiw = WordOp.sraw
