-- ===== src/RegFile.antt =====
-- include/RevRF.hpp, `RevRegFile` of include/RevInstTable.h and the queries of
-- include/RevFeature.h that the instructions make. The float registers are left out.
pub mod Laws
use rev.Prelude.{ℕ, ◌+◌, ◌%◌, ◌^◌, Bool, ltb, ◌==◌, if◌then◌else◌}
use rev.Word.{u32, u64}
use rev.Inst.{RevInst}

-- The cells `rf` of a register file.
abbrev pub RevRf : Type 0
RevRf = ℕ → ℕ

-- `operator[]` for a read: cell 0 is set to zero before it is read.
unfoldable pub get : RevRf → ℕ → ℕ
get rf index = if ltb 0 index then rf index else 0

-- A store through the reference that `operator[]` returns; cell 0 takes the value too.
unfoldable pub put : RevRf → ℕ → ℕ → RevRf
put rf index value = λ i. if i == index then value else rf i

pub record RevFeature : Type 0 where
  pub min_cost : ℕ
  pub max_cost : ℕ
  pub hart : ℕ
  pub features : ℕ
  pub xlen : ℕ

abbrev pub is_rv32 : RevFeature → Bool
is_rv32 f = f.xlen == 32

abbrev pub is_rv64 : RevFeature → Bool
is_rv64 f = f.xlen == 64

pub record RevRegFile : Type 0 where
  pub rv32 : RevRf
  pub rv64 : RevRf
  pub rv64_sstatus : ℕ
  pub rv64_sepc : ℕ
  pub rv64_scause : ℕ
  pub rv64_stval : ℕ
  pub rv64_stvec : ℕ
  pub rv32_sstatus : ℕ
  pub rv32_sepc : ℕ
  pub rv32_scause : ℕ
  pub rv32_stval : ℕ
  pub rv32_stvec : ℕ
  pub rv32_scoreboard : ℕ → Bool
  pub rv64_scoreboard : ℕ → Bool
  pub spf_scoreboard : ℕ → Bool
  pub dpf_scoreboard : ℕ → Bool
  pub rv32_pc : ℕ
  pub rv64_pc : ℕ
  pub fcsr : ℕ
  pub cost : ℕ
  pub trigger : Bool
  pub entry : ℕ

-- `R->RV32[i]` and `R->RV64[i]`, read and written: a store truncates to the width.
abbrev pub x32 : RevRegFile → ℕ → ℕ
x32 r i = get r.rv32 i

abbrev pub x64 : RevRegFile → ℕ → ℕ
x64 r i = get r.rv64 i

unfoldable pub set32 : ℕ → ℕ → RevRegFile → RevRegFile
set32 rd v r = record r { rv32 = put r.rv32 rd (u32 v) }

unfoldable pub set64 : ℕ → ℕ → RevRegFile → RevRegFile
set64 rd v r = record r { rv64 = put r.rv64 rd (u64 v) }

-- `R->RV32_PC = v` and `R->RV64_PC = v`.
unfoldable pub jump32 : ℕ → RevRegFile → RevRegFile
jump32 v r = record r { rv32_pc = u32 v }

unfoldable pub jump64 : ℕ → RevRegFile → RevRegFile
jump64 v r = record r { rv64_pc = u64 v }

-- `R->RV32_PC += Inst.instSize` and `R->RV64_PC += Inst.instSize`.
unfoldable pub step32 : RevInst → RevRegFile → RevRegFile
unfolding jump32
step32 i r = jump32 (r.rv32_pc + i.inst_size) r

unfoldable pub step64 : RevInst → RevRegFile → RevRegFile
unfolding jump64
step64 i r = jump64 (r.rv64_pc + i.inst_size) r
