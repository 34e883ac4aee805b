-- ===== src/Rv64i/Memory.antt =====
-- The loads and stores of include/insns/RV64I.h, over the memory port.
use rev.Prelude.{ℕ, ◌+◌, bit_or, Option, some, ◌>>=◌}
use rev.Word.{u64, signed, to_word, td_u32, td_u64}
use rev.Inst.{RevInst}
use rev.RegFile.{RevFeature, RevRegFile, x64, set64, step64}
use rev.MemPort.{MemPort, overlay}
use rev.Rv32i.Memory

module _ {ℓ} {Mem : Type ℓ} (port : MemPort Mem) (f : RevFeature) (m : Mem) (r : RevRegFile)
    (i : RevInst) where
  -- `(uint64_t)(R->RV64[rs1] + (int32_t)(td_u32(Inst.imm,12)))`.
  unfoldable pub load_address : ℕ
  load_address = u64 (x64 r i.rs1 + to_word 64 (signed 32 (td_u32 i.imm 12)))

  unfoldable pub lwu : Option (Mem × RevRegFile)
  unfolding load_address
  lwu = do
    (m', val) ← port.read_val f.hart load_address 4 m
    let r1 = set64 i.rd 0 r
    let r2 = set64 i.rd (bit_or (x64 r1 i.rd) val) r1
    let (m'', costed) = Memory.add_cost port f m r i m' r2
    some (m'', step64 i costed)

  unfoldable pub ld : Option (Mem × RevRegFile)
  unfolding load_address
  ld = do
    (m', value) ← port.read_val f.hart load_address 8 m
    let (m'', costed) =
        Memory.add_cost port f m r i m' (set64 i.rd (overlay 8 (x64 r i.rd) value) r)
    some (m'', step64 i costed)

  unfoldable pub sd : Option (Mem × RevRegFile)
  sd = do
    m' ← port.write f.hart (u64 (x64 r i.rs1 + td_u64 i.imm 12)) 8 (x64 r i.rs2) m
    some (m', step64 i r)
