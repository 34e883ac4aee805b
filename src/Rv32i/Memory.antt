-- ===== src/Rv32i/Memory.antt =====
-- The loads and stores of include/insns/RV32I.h, over the memory port.
use rev.Prelude.{ℕ, ◌+◌, ◌%◌, ◌^◌, bit_and, if◌then◌else◌, Option, some, ◌>>=◌}
use rev.Word.{u8, u16, u32, u64, signed, to_word, sext, td_u32}
use rev.Inst.{RevInst}
use rev.RegFile.{RevFeature, RevRegFile, is_rv32, x32, x64, set32, set64, step32, step64}
use rev.MemPort.{MemPort, overlay}

module _ {ℓ} {Mem : Type ℓ} (port : MemPort Mem) (f : RevFeature) (m : Mem) (r : RevRegFile)
    (i : RevInst) where
  -- `(uint64_t)(R->RV32[rs1] + (int32_t)(td_u32(Inst.imm,12)))`, and the same on `RV64`.
  unfoldable pub address : ℕ
  address =
      if is_rv32 f
      then u32 (x32 r i.rs1 + td_u32 i.imm 12)
      else u64 (x64 r i.rs1 + to_word 64 (signed 32 (td_u32 i.imm 12)))

  -- `R->cost += M->RandCost(F->GetMinCost(), F->GetMaxCost())`.
  unfoldable pub add_cost : Mem → RevRegFile → Mem × RevRegFile
  add_cost m' r' =
      let drawn = port.rand_cost f.min_cost f.max_cost m' in
      (drawn.0, record r' { cost = (r'.cost + drawn.1) % 2 ^ 32 })

  -- `ReadVal` to the address of `rd`, then what the instruction does with the register.
  unfoldable pub load :
      ℕ → (RevRegFile → RevRegFile) → (RevRegFile → RevRegFile) → Option (Mem × RevRegFile)
  unfolding address add_cost
  load len after32 after64 = do
    (m', value) ← port.read_val f.hart address len m
    some (
        add_cost m' (
          if is_rv32 f
          then step32 i (after32 (set32 i.rd (overlay len (x32 r i.rd) value) r))
          else step64 i (after64 (set64 i.rd (overlay len (x64 r i.rd) value) r))))

  unfoldable pub lb : Option (Mem × RevRegFile)
  unfolding load
  lb =
      load 1
        (λ r1.
          let r2 = set32 i.rd (bit_and (x32 r1 i.rd) 0xFF) r1 in
          set32 i.rd (sext (x32 r2 i.rd) 8) r2)
        (λ r1.
          let r2 = set64 i.rd (bit_and (x64 r1 i.rd) 0xFF) r1 in
          set64 i.rd (sext (x64 r2 i.rd) 8) r2)

  unfoldable pub lh : Option (Mem × RevRegFile)
  unfolding load
  lh =
      load 2
        (λ r1.
          let r2 = set32 i.rd (bit_and (x32 r1 i.rd) 0xFFFF) r1 in
          set32 i.rd (sext (x32 r2 i.rd) 16) r2)
        (λ r1.
          let r2 = set64 i.rd (bit_and (x64 r1 i.rd) 0xFFFF) r1 in
          set64 i.rd (sext (x64 r2 i.rd) 16) r2)

  unfoldable pub lw : Option (Mem × RevRegFile)
  unfolding load
  lw =
      load 4
        (λ r1.
          let r2 = set32 i.rd (bit_and (x32 r1 i.rd) 0xFFFFFFFF) r1 in
          set32 i.rd (sext (x32 r2 i.rd) 32) r2)
        (λ r1.
          let r2 = set64 i.rd (bit_and (x64 r1 i.rd) 0xFFFFFFFF) r1 in
          set64 i.rd (sext (x64 r2 i.rd) 32) r2)

  unfoldable pub lbu : Option (Mem × RevRegFile)
  unfolding load
  lbu =
      load 1 (λ r1. set32 i.rd (bit_and (x32 r1 i.rd) 0xFF) r1)
        (λ r1. set64 i.rd (bit_and (x64 r1 i.rd) 0xFF) r1)

  -- The 32-bit branch masks `RV64[rd]`.
  unfoldable pub lhu : Option (Mem × RevRegFile)
  unfolding load
  lhu =
      load 2 (λ r1. set64 i.rd (bit_and (x64 r1 i.rd) 0xFFFF) r1)
        (λ r1. set64 i.rd (bit_and (x64 r1 i.rd) 0xFFFF) r1)

  unfoldable pub store : ℕ → ℕ → ℕ → Option (Mem × RevRegFile)
  unfolding address
  store len value32 value64 = do
    m' ← port.write f.hart address len (if is_rv32 f then value32 else value64) m
    some (m', if is_rv32 f then step32 i r else step64 i r)

  unfoldable pub sb : Option (Mem × RevRegFile)
  unfolding store
  sb = store 1 (u8 (x32 r i.rs2)) (u8 (x64 r i.rs2))

  unfoldable pub sh : Option (Mem × RevRegFile)
  unfolding store
  sh = store 2 (u16 (x32 r i.rs2)) (u16 (x64 r i.rs2))

  unfoldable pub sw : Option (Mem × RevRegFile)
  unfolding store
  sw = store 4 (u32 (x32 r i.rs2)) (u32 (x64 r i.rs2))
