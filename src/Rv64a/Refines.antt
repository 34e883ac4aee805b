-- ===== src/Rv64a/Refines.antt =====
-- The operations of RV64A over the memory of `Mem`.
use rev.Prelude.{ℕ, ◌+◌, ◌^◌, ◌<◌, ◌≡◌, refl, arith, Option}
use rev.Word.{u64}
use rev.Inst.{RevInst}
use rev.RegFile.{RevFeature, RevRegFile, x64, set64, step64}
use rev.MemPort.{overlay}
use rev.Mem.Paging.Translate.{IsCoherent}
use rev.Mem.Bytes.RoundTrip.{CanAccess}
use rev.Mem.Amo.{AmoOp, amo_apply}
use rev.Mem.Amo.Laws.{amo_mem-IsUpdated}
use rev.Mem.Lrsc.{Reserved}
use rev.AtomicPort.{AtomicPort, rev_atomics}
use rev.Rv32i.Writes.{store64}
use rev.Rv32a.{amo_flags, operand, add_cost}
use rev.Rv32a.Refines.{amo_flags-selected, second, Updates64}
use rev.Rv64a.{
  amo_d, amoswapd, amoaddd, amoxord, amoandd, amoord, amomind, amomaxd, amominud, amomaxud,
}

-- The function that the table names for an operation.
unfoldable pub run_d :
    {Mem : Type 0}
    → AmoOp
    → AtomicPort Mem
    → RevFeature
    → Mem
    → RevRegFile
    → RevInst
    → Option (Mem × RevRegFile)
run_d AmoOp.amoswap = amoswapd
run_d AmoOp.amoadd = amoaddd
run_d AmoOp.amoxor = amoxord
run_d AmoOp.amoand = amoandd
run_d AmoOp.amoor = amoord
run_d AmoOp.amomin = amomind
run_d AmoOp.amomax = amomaxd
run_d AmoOp.amominu = amominud
run_d AmoOp.amomaxu = amomaxud

run_d-amo_d :
    {Mem : Type 0} (port : AtomicPort Mem) (f : RevFeature) (m : Mem) (r : RevRegFile) (i : RevInst)
    (op : AmoOp)
    → run_d op port f m r i ≡ amo_d port f m r i op
unfolding run_d amoswapd amoaddd amoxord amoandd amoord amomind amomaxd amominud amomaxud
run_d-amo_d port f m r i AmoOp.amoswap = refl
run_d-amo_d port f m r i AmoOp.amoadd = refl
run_d-amo_d port f m r i AmoOp.amoxor = refl
run_d-amo_d port f m r i AmoOp.amoand = refl
run_d-amo_d port f m r i AmoOp.amoor = refl
run_d-amo_d port f m r i AmoOp.amomin = refl
run_d-amo_d port f m r i AmoOp.amomax = refl
run_d-amo_d port f m r i AmoOp.amominu = refl
run_d-amo_d port f m r i AmoOp.amomaxu = refl

-- In a coherent state with five frames left and for eight valid addresses from rs1, each of the nine
-- double word operations leaves the result of the operation, on the double word `old` that was in
-- memory and rs2, both in these eight bytes and in rd; where rs2 is rd it applies the operation to
-- `old` twice. It steps the program counter, adds the drawn cost, and keeps every other register,
-- byte and translation.
pub amo_d_64 :
    (words : ℕ → ℕ → Option ℕ) (draw : ℕ → ℕ → Reserved → Reserved × ℕ) (f : RevFeature)
    (r : RevRegFile) (i : RevInst) (s : Reserved) (op : AmoOp)
    → IsCoherent s.memory.paging
    → s.memory.paging.next_page + 5 < 2 ^ 14
    → CanAccess s.memory.paging (x64 r i.rs1) 8
    → (j : ℕ)
    → Updates64 draw f i r s
        (x64 r i.rs1)
        8
        (run_d op (rev_atomics words draw) f s r i)
        (λ old. amo_apply op 64 old (second i (x64 r i.rs2) old))
        u64
        j
unfolding Updates64 amo_d rev_atomics add_cost step64 set64
amo_d_64 words draw f r i s op ok room can j =
    let (old, t, e, up) =
      amo_mem-IsUpdated s.memory (x64 r i.rs1) 8 (operand i (x64 r i.rs2)) op ok can room
        (amo_flags op i) (amo_flags-selected op i).0 in
    let result = amo_apply op 64 old (second i (x64 r i.rs2) old) in
    let value = overlay 8 (x64 r i.rd) result in
    (
      old,
      t,
      step64 i (set64 i.rd value r),
      rw (run_d-amo_d (rev_atomics words draw) f s r i op, e) refl,
      store64 i r value (u64 result) j (omega arith),
      up,
    )
