-- ===== src/Rv32a/Refines.antt =====
-- The operations of RV32A over the memory of `Mem`: what they leave in the register and in memory.
use rev.Prelude.{
  ℕ, ◌+◌, ◌%◌, ◌^◌, ◌<◌, ◌≡◌, refl, arith, bit_or, Bool, true, false, not, ◌==◌, Option, some,
}
use rev.Word.{u32, u64}
use rev.Inst.{RevInst}
use rev.RegFile.{RevFeature, RevRegFile, is_rv32, x32, x64, set32, set64, step32, step64}
use rev.MemPort.{overlay}
use rev.Mem.Paging.Translate.{IsCoherent}
use rev.Mem.Bytes.{Memory}
use rev.Mem.Bytes.RoundTrip.{CanAccess}
use rev.Mem.Amo.{AmoOp, flag_of, amo_select, amo_apply, operand_or, f_sext64}
use rev.Mem.Amo.Laws.{IsUpdated, amo_mem-IsUpdated}
use rev.Mem.Lrsc.{Reserved}
use rev.AtomicPort.{AtomicPort, rev_atomics}
use rev.Rv32i.Writes.{Wrote32, Wrote64, store32, store64}
use rev.Rv32a.{
  ordered, amo_flags, operand, amo_w, add_cost, amoswapw, amoaddw, amoxorw, amoandw, amoorw,
  amominw, amomaxw, amominuw, amomaxuw,
}

select_lem : (op : AmoOp) (aq rl : Bool) → amo_select (ordered aq rl (flag_of op)) ≡ some op
unfolding amo_select ordered
select_lem op aq rl = ground arith

select_sext_lem :
    (op : AmoOp) (aq rl : Bool)
    → amo_select (bit_or (ordered aq rl (flag_of op)) f_sext64) ≡ some op
unfolding amo_select ordered
select_sext_lem op aq rl = ground arith

-- The flags that an instruction passes name its operation, whatever its order bits.
pub amo_flags-selected :
    (op : AmoOp) (i : RevInst)
    → (amo_select (amo_flags op i) ≡ some op)
      × (amo_select (bit_or (amo_flags op i) f_sext64) ≡ some op)
unfolding amo_flags
amo_flags-selected op i =
    let aq = not (i.aq == 0) in
    let rl = not (i.rl == 0) in (select_lem op aq rl, select_sext_lem op aq rl)

-- The operand of an operation: the register, or the word `old` where the register is rd.
abbrev pub second : RevInst → ℕ → ℕ → ℕ
second i value old = operand_or (operand i value) old

-- The function that the table names for an operation.
unfoldable pub run_w :
    {Mem : Type 0}
    → AmoOp
    → AtomicPort Mem
    → RevFeature
    → Mem
    → RevRegFile
    → RevInst
    → Option (Mem × RevRegFile)
run_w AmoOp.amoswap = amoswapw
run_w AmoOp.amoadd = amoaddw
run_w AmoOp.amoxor = amoxorw
run_w AmoOp.amoand = amoandw
run_w AmoOp.amoor = amoorw
run_w AmoOp.amomin = amominw
run_w AmoOp.amomax = amomaxw
run_w AmoOp.amominu = amominuw
run_w AmoOp.amomaxu = amomaxuw

run_w-amo_w :
    {Mem : Type 0} (port : AtomicPort Mem) (f : RevFeature) (m : Mem) (r : RevRegFile) (i : RevInst)
    (op : AmoOp)
    → run_w op port f m r i ≡ amo_w port f m r i op
unfolding run_w amoswapw amoaddw amoxorw amoandw amoorw amominw amomaxw amominuw amomaxuw
run_w-amo_w port f m r i AmoOp.amoswap = refl
run_w-amo_w port f m r i AmoOp.amoadd = refl
run_w-amo_w port f m r i AmoOp.amoxor = refl
run_w-amo_w port f m r i AmoOp.amoand = refl
run_w-amo_w port f m r i AmoOp.amoor = refl
run_w-amo_w port f m r i AmoOp.amomin = refl
run_w-amo_w port f m r i AmoOp.amomax = refl
run_w-amo_w port f m r i AmoOp.amominu = refl
run_w-amo_w port f m r i AmoOp.amomaxu = refl

-- What an operation leaves: `rd` has `w`, the four or eight bytes at `addr`, which made the word
-- `old`, have the word `value`, the drawn cost is added, and the rest is as it was.
unfoldable pub Updates64 :
    (ℕ → ℕ → Reserved → Reserved × ℕ)
    → RevFeature
    → RevInst
    → RevRegFile
    → Reserved
    → ℕ
    → ℕ
    → Option (Reserved × RevRegFile)
    → (ℕ → ℕ)
    → (ℕ → ℕ)
    → ℕ
    → Type 0
Updates64 draw f i r s addr len result value rd j =
    (old : ℕ) × (t : Memory) × (r' : RevRegFile) × (let drawn =
        draw f.min_cost f.max_cost (record s { memory = t }) in
      result ≡ some (drawn.0, record r' { cost = (r.cost + drawn.1) % 2 ^ 32 }))
    × Wrote64 i r r' (rd (value old)) j
    × IsUpdated s.memory addr len old (value old) t

unfoldable pub Updates32 :
    (ℕ → ℕ → Reserved → Reserved × ℕ)
    → RevFeature
    → RevInst
    → RevRegFile
    → Reserved
    → Option (Reserved × RevRegFile)
    → (ℕ → ℕ)
    → ℕ
    → Type 0
Updates32 draw f i r s result value j =
    (old : ℕ) × (t : Memory) × (r' : RevRegFile) × (let drawn =
        draw f.min_cost f.max_cost (record s { memory = t }) in
      result ≡ some (drawn.0, record r' { cost = (r.cost + drawn.1) % 2 ^ 32 }))
    × Wrote32 i r r' (u32 (value old)) j
    × IsUpdated s.memory (x32 r i.rs1) 4 old (value old) t

module _ (words : ℕ → ℕ → Option ℕ) (draw : ℕ → ℕ → Reserved → Reserved × ℕ) (f : RevFeature)
    (r : RevRegFile) (i : RevInst) (s : Reserved) (op : AmoOp) (ok : IsCoherent s.memory.paging)
    (room : s.memory.paging.next_page + 5 < 2 ^ 14) where
  -- On RV64, in a coherent state with five frames left and for four valid addresses from rs1, each
  -- of the nine word operations leaves the result of the operation, on the word `old` that was in
  -- memory and the low word of rs2, both in these four bytes and in the low word of rd, whose high
  -- word stays; where rs2 is rd it applies the operation to `old` twice. It steps the program
  -- counter, adds the drawn cost, and keeps every other register, byte and translation.
  pub amo_w_64 :
      is_rv32 f ≡ false
      → CanAccess s.memory.paging (x64 r i.rs1) 4
      → (j : ℕ)
      → Updates64 draw f i r s
          (x64 r i.rs1)
          4
          (run_w op (rev_atomics words draw) f s r i)
          (λ old. amo_apply op 32 old (second i (u32 (x64 r i.rs2)) old))
          (λ value. u64 (overlay 4 (x64 r i.rd) value))
          j
  unfolding Updates64 amo_w rev_atomics add_cost step64 set64
  amo_w_64 wide can j =
      let low = u32 (x64 r i.rs2) in
      let flags = bit_or (amo_flags op i) f_sext64 in
      let (old, t, e, up) =
        amo_mem-IsUpdated s.memory (x64 r i.rs1) 4 (operand i low) op ok can room flags
          (amo_flags-selected op i).1 in
      let value = overlay 4 (x64 r i.rd) (amo_apply op 32 old (second i low old)) in
      (
        old,
        t,
        step64 i (set64 i.rd value r),
        rw (run_w-amo_w (rev_atomics words draw) f s r i op, wide, e) refl,
        store64 i r value (u64 value) j refl,
        up,
      )

  -- On RV32, in a coherent state with five frames left and for four valid addresses from rs1, each
  -- of the nine word operations leaves the result of the operation, on the word `old` that was in
  -- memory and rs2, both in these four bytes and in rd; where rs2 is rd it applies the operation to
  -- `old` twice. It steps the program counter, adds the drawn cost, and keeps every other register,
  -- byte and translation.
  pub amo_w_32 :
      is_rv32 f ≡ true
      → CanAccess s.memory.paging (x32 r i.rs1) 4
      → (j : ℕ)
      → Updates32 draw f i r s
          (run_w op (rev_atomics words draw) f s r i)
          (λ old. amo_apply op 32 old (second i (x32 r i.rs2) old))
          j
  unfolding Updates32 amo_w rev_atomics add_cost step32 set32
  amo_w_32 narrow can j =
      let (old, t, e, up) =
        amo_mem-IsUpdated s.memory (x32 r i.rs1) 4 (operand i (x32 r i.rs2)) op ok can room
          (amo_flags op i) (amo_flags-selected op i).0 in
      let result = amo_apply op 32 old (second i (x32 r i.rs2) old) in
      let value = overlay 4 (x32 r i.rd) result in
      (
        old,
        t,
        step32 i (set32 i.rd value r),
        rw (run_w-amo_w (rev_atomics words draw) f s r i op, narrow, e) refl,
        store32 i r value (u32 result) j (omega arith),
        up,
      )
