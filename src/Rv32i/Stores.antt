-- ===== src/Rv32i/Stores.antt =====
-- The stores: the address, the value and the failure of the write.
use rev.Prelude.{◌+◌, ◌*◌, ◌%◌, ◌^◌, ◌<◌, ◌≡◌, refl, true, Option, some, ◌>>=◌}
use rev.Word.{u32}
use rev.Word.Extend.{sign_extend}
use rev.Inst.{RevInst}
use rev.RegFile.{RevFeature, RevRegFile, is_rv32, x32, step32}
use rev.Isa.{StoreOp, width}
use rev.MemPort.{MemPort}
use rev.Rv32i.Memory
use rev.Rv32i.Loads.{address_32}

-- The function that the tables name for a store.
unfoldable pub run_store {ℓ} :
    {Mem : Type ℓ}
    → StoreOp
    → MemPort Mem
    → RevFeature
    → Mem
    → RevRegFile
    → RevInst
    → Option (Mem × RevRegFile)
run_store StoreOp.sb = Memory.sb
run_store StoreOp.sh = Memory.sh
run_store StoreOp.sw = Memory.sw

-- On RV32 each of the three stores writes the low bytes of `rs2` at the value of `rs1` plus the sign
-- extended immediate of 12 bits, fails where the write fails, and then only steps the program
-- counter.
pub store_32 {ℓ} :
    {Mem : Type ℓ} (port : MemPort Mem) (f : RevFeature) (m : Mem) (r : RevRegFile) (i : RevInst)
    → is_rv32 f ≡ true
    → i.imm < 2 ^ 12
    → (op : StoreOp)
    → run_store op port f m r i ≡ (
        port.write f.hart
          (u32 (x32 r i.rs1 + sign_extend 32 12 i.imm))
          (width op)
          (x32 r i.rs2 % 2 ^ (8 * width op))
          m
        >>= (λ m'. some (m', step32 i r)))
unfolding run_store Memory.sb Memory.sh Memory.sw Memory.store Memory.address
store_32 port f m r i narrow short StoreOp.sb = rw (narrow, address_32 r i short) refl
store_32 port f m r i narrow short StoreOp.sh = rw (narrow, address_32 r i short) refl
store_32 port f m r i narrow short StoreOp.sw = rw (narrow, address_32 r i short) refl
