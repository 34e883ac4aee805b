-- ===== src/Rv32a.antt =====
-- The functions of include/insns/RV32A.h, over the port of the memory. Each leaves the memory and the
-- register file; what `LR`, `SC` and `AMOVal` return is not used.
pub mod Refines
mod Tests
use rev.Prelude.{
  ℕ, zero, suc, ◌+◌, ◌*◌, ◌/◌, ◌%◌, ◌^◌, bit_or, Bool, true, false, not, ltb, ◌==◌, ◌&&◌, Option,
  some, none, ◌>>=◌, if◌then◌else◌,
}
use rev.Word.{u32}
use rev.Inst.{RevInst}
use rev.RegFile.{RevFeature, RevRegFile, is_rv32, x32, x64, set32, set64, step32, step64}
use rev.MemPort.{overlay}
use rev.Mem.Amo.{AmoOp, flag_of, f_sext64, f_aq, f_rl, word_of}
use rev.Mem.Lrsc.{Linked, loaded, collides, Stored, failed32, failed64, cleared}
use rev.AtomicPort.{AtomicPort}

-- `flags` from the operation and the two order bits.
unfoldable pub ordered : Bool → Bool → ℕ → ℕ
ordered aq rl flags =
    if aq && rl
    then bit_or flags (bit_or f_aq f_rl)
    else if aq
    then bit_or flags f_aq
    else if rl
    then bit_or flags f_rl
    else flags

unfoldable pub amo_flags : AmoOp → RevInst → ℕ
unfolding ordered
amo_flags op i = ordered (not (i.aq == 0)) (not (i.rl == 0)) (flag_of op)

-- `Data`, which is `Target` where the two registers are one.
abbrev pub operand : RevInst → ℕ → Option ℕ
operand i value = if i.rs2 == i.rd then none else some value

-- The register that `Target` points at, after an operation and after a load.
abbrev pub update : ℕ → ℕ → Option ℕ → ℕ
update len old none = old
update len old (some value) = overlay len old value

unfoldable pub linked : ℕ → ℕ → Linked → ℕ
unfolding word_of
linked len old (loaded bytes) = overlay len old (word_of len bytes)
linked len old collides = overlay 4 old 1

-- Zeros to the registers that `n` words of 64 bits from a register on take, `n` or 2 * `n` of them.
-- A write past the registers is undefined.
unfoldable pub clear32 : ℕ → ℕ → RevRegFile → Option RevRegFile
clear32 zero rd r = some r
clear32 (suc n) rd r =
    let rest = clear32 n (rd + 2) (set32 (rd + 1) 0 (set32 rd 0 r)) in
    if ltb (rd + 1) 32 then rest else none

unfoldable pub clear64 : ℕ → ℕ → RevRegFile → Option RevRegFile
clear64 zero rd r = some r
clear64 (suc n) rd r =
    let rest = clear64 n (rd + 1) (set64 rd 0 r) in if ltb rd 32 then rest else none

unfoldable pub stored32 : ℕ → Stored → RevRegFile → Option RevRegFile
unfolding clear32
stored32 rd failed32 r = some (set32 rd 1 r)
stored32 rd failed64 r = if ltb (rd + 1) 32 then some (set32 (rd + 1) 0 (set32 rd 1 r)) else none
stored32 rd (cleared n) r = clear32 n rd r

unfoldable pub stored64 : ℕ → Stored → RevRegFile → Option RevRegFile
unfolding clear64
stored64 rd failed32 r = some (set64 rd (overlay 4 (x64 r rd) 1) r)
stored64 rd failed64 r = some (set64 rd 1 r)
stored64 rd (cleared n) r = clear64 n rd r

-- `aq|(rl<<1)`.
abbrev pub order : RevInst → ℕ
order i = bit_or i.aq (i.rl * 2)

module _ {ℓ} {Mem : Type ℓ} (port : AtomicPort Mem) (f : RevFeature) (m : Mem) (r : RevRegFile)
    (i : RevInst) where
  -- `R->cost += M->RandCost(F->GetMinCost(), F->GetMaxCost())`.
  unfoldable pub add_cost : Mem → RevRegFile → Mem × RevRegFile
  add_cost m' r' =
      let drawn = port.rand_cost f.min_cost f.max_cost m' in
      (drawn.0, record r' { cost = (r'.cost + drawn.1) % 2 ^ 32 })

  unfoldable pub lrw : Option (Mem × RevRegFile)
  unfolding add_cost linked
  lrw =
      if is_rv32 f
      then (do
        (l, m') ← port.lr f.hart (x32 r i.rs1) 4 (order i) i.rd m
        some (add_cost m' (step32 i (set32 i.rd (linked 4 (x32 r i.rd) l) r))))
      else (do
        (l, m') ← port.lr f.hart (x64 r i.rs1) 4 (order i) i.rd m
        some (add_cost m' (step64 i (set64 i.rd (linked 4 (x64 r i.rd) l) r))))

  unfoldable pub scw : Option (Mem × RevRegFile)
  unfolding stored32 stored64
  scw =
      if is_rv32 f
      then (do
        (o, m') ← port.sc f.hart (x32 r i.rs1) 4 (x32 r i.rs2) i.rs2 m
        r' ← stored32 i.rd o r
        some (m', step32 i r'))
      else (do
        (o, m') ← port.sc f.hart (x64 r i.rs1) 4 (u32 (x64 r i.rs2)) i.rs2 m
        r' ← stored64 i.rd o r
        some (m', step64 i r'))

  -- What the nine operations share.
  unfoldable pub amo_w : AmoOp → Option (Mem × RevRegFile)
  unfolding add_cost amo_flags
  amo_w op =
      if is_rv32 f
      then (do
        (value, m') ←
            port.amo_val f.hart (x32 r i.rs1) 4 (operand i (x32 r i.rs2)) (amo_flags op i) m
        some (add_cost m' (step32 i (set32 i.rd (update 4 (x32 r i.rd) value) r))))
      else (do
        (value, m') ←
            port.amo_val f.hart (x64 r i.rs1) 4 (operand i (u32 (x64 r i.rs2)))
              (bit_or (amo_flags op i) f_sext64) m
        some (add_cost m' (step64 i (set64 i.rd (update 4 (x64 r i.rd) value) r))))

  unfoldable pub amoswapw : Option (Mem × RevRegFile)
  unfolding amo_w
  amoswapw = amo_w AmoOp.amoswap

  unfoldable pub amoaddw : Option (Mem × RevRegFile)
  unfolding amo_w
  amoaddw = amo_w AmoOp.amoadd

  unfoldable pub amoxorw : Option (Mem × RevRegFile)
  unfolding amo_w
  amoxorw = amo_w AmoOp.amoxor

  unfoldable pub amoandw : Option (Mem × RevRegFile)
  unfolding amo_w
  amoandw = amo_w AmoOp.amoand

  unfoldable pub amoorw : Option (Mem × RevRegFile)
  unfolding amo_w
  amoorw = amo_w AmoOp.amoor

  unfoldable pub amominw : Option (Mem × RevRegFile)
  unfolding amo_w
  amominw = amo_w AmoOp.amomin

  unfoldable pub amomaxw : Option (Mem × RevRegFile)
  unfolding amo_w
  amomaxw = amo_w AmoOp.amomax

  unfoldable pub amominuw : Option (Mem × RevRegFile)
  unfolding amo_w
  amominuw = amo_w AmoOp.amominu

  unfoldable pub amomaxuw : Option (Mem × RevRegFile)
  unfolding amo_w
  amomaxuw = amo_w AmoOp.amomaxu
