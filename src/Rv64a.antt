-- ===== src/Rv64a.antt =====
-- The functions of include/insns/RV64A.h, over the port of the memory.
pub mod Refines
mod Tests
use rev.Prelude.{ℕ, Option, some, ◌>>=◌}
use rev.Inst.{RevInst}
use rev.RegFile.{RevFeature, RevRegFile, x64, set64, step64}
use rev.Mem.Amo.{AmoOp}
use rev.AtomicPort.{AtomicPort}
use rev.Rv32a.{amo_flags, operand, update, linked, stored64, order, add_cost}

module _ {ℓ} {Mem : Type ℓ} (port : AtomicPort Mem) (f : RevFeature) (m : Mem) (r : RevRegFile)
    (i : RevInst) where
  unfoldable pub lrd : Option (Mem × RevRegFile)
  unfolding linked
  lrd = do
    (l, m') ← port.lr f.hart (x64 r i.rs1) 8 (order i) i.rd m
    some (m', step64 i (set64 i.rd (linked 8 (x64 r i.rd) l) r))

  unfoldable pub scd : Option (Mem × RevRegFile)
  unfolding stored64
  scd = do
    (o, m') ← port.sc f.hart (x64 r i.rs1) 8 (x64 r i.rs2) i.rs2 m
    r' ← stored64 i.rd o r
    some (m', step64 i r')

  -- What the nine operations share.
  unfoldable pub amo_d : AmoOp → Option (Mem × RevRegFile)
  unfolding add_cost amo_flags
  amo_d op = do
    (value, m') ← port.amo_val f.hart (x64 r i.rs1) 8 (operand i (x64 r i.rs2)) (amo_flags op i) m
    some (add_cost port f m r i m' (step64 i (set64 i.rd (update 8 (x64 r i.rd) value) r)))

  unfoldable pub amoswapd : Option (Mem × RevRegFile)
  unfolding amo_d
  amoswapd = amo_d AmoOp.amoswap

  unfoldable pub amoaddd : Option (Mem × RevRegFile)
  unfolding amo_d
  amoaddd = amo_d AmoOp.amoadd

  unfoldable pub amoxord : Option (Mem × RevRegFile)
  unfolding amo_d
  amoxord = amo_d AmoOp.amoxor

  unfoldable pub amoandd : Option (Mem × RevRegFile)
  unfolding amo_d
  amoandd = amo_d AmoOp.amoand

  unfoldable pub amoord : Option (Mem × RevRegFile)
  unfolding amo_d
  amoord = amo_d AmoOp.amoor

  unfoldable pub amomind : Option (Mem × RevRegFile)
  unfolding amo_d
  amomind = amo_d AmoOp.amomin

  unfoldable pub amomaxd : Option (Mem × RevRegFile)
  unfolding amo_d
  amomaxd = amo_d AmoOp.amomax

  unfoldable pub amominud : Option (Mem × RevRegFile)
  unfolding amo_d
  amominud = amo_d AmoOp.amominu

  unfoldable pub amomaxud : Option (Mem × RevRegFile)
  unfolding amo_d
  amomaxud = amo_d AmoOp.amomaxu
