-- ===== src/Rv64i/Moves.antt =====
-- The loads and stores of double words, and the unsigned word load.
use rev.Prelude.{ℕ, ◌+◌, ◌*◌, ◌^◌, ◌<◌, ◌≡◌, refl, arith, Option, some, ◌>>=◌, bit_or}
use rev.Bits.{zero-bit_or}
use rev.Word.{u64}
use rev.Word.Extend.{sign_extend}
use rev.Inst.{RevInst}
use rev.RegFile.{RevFeature, RevRegFile, get, put, x64, set64, step64}
use rev.MemPort.{MemPort, overlay}
use rev.Rv32i.Memory
use rev.Rv32i.Loads.{address_64, Loaded64}
use rev.Rv32i.Immediate.{td_64}
use rev.Rv32i.Writes.{Wrote64}
use rev.Rv64i.Memory as Double

pub data DoubleLoad : Type 0 where
  lwu ld : DoubleLoad

abbrev pub double_bytes : DoubleLoad → ℕ
double_bytes lwu = 4
double_bytes ld = 8

-- The function that the tables name for a load.
unfoldable pub run_double {ℓ} :
    {Mem : Type ℓ}
    → DoubleLoad
    → MemPort Mem
    → RevFeature
    → Mem
    → RevRegFile
    → RevInst
    → Option (Mem × RevRegFile)
run_double lwu = Double.lwu
run_double ld = Double.ld

-- A register cleared and then filled by or.
cleared_or :
    (i : RevInst) (r : RevRegFile) (v j : ℕ)
    → v < 2 ^ 64
    → let r1 = set64 i.rd 0 r in Wrote64 i r (step64 i (set64 i.rd (bit_or (x64 r1 i.rd) v) r1)) v j
unfolding step64 set64 get put
cleared_or i r v j h = (ground (arith, zero-bit_or v), refl, refl)

whole_store :
    (i : RevInst) (r : RevRegFile) (old v j : ℕ)
    → v < 2 ^ 64
    → Wrote64 i r (step64 i (set64 i.rd (overlay 8 old v) r)) v j
unfolding step64 set64 get put
whole_store i r old v j h = (ground arith, refl, refl)

-- lwu and ld read their number of bytes at the value of rs1 plus the sign extended immediate of 12
-- bits and leave the value read in rd, zero extended, step the program counter and add the drawn
-- cost; no other register or field changes. The value read fits the bytes asked for.
pub double_load_64 {ℓ} :
    {Mem : Type ℓ} (port : MemPort Mem) (f : RevFeature) (m : Mem) (r : RevRegFile) (i : RevInst)
    (v : ℕ) (m' : Mem) (op : DoubleLoad)
    → i.imm < 2 ^ 12
    → v < 2 ^ (8 * double_bytes op)
    → port.read_val f.hart (u64 (x64 r i.rs1 + sign_extend 64 12 i.imm)) (double_bytes op) m
      ≡ some (m', v)
    → (j : ℕ) → Loaded64 port f i r m' (run_double op port f m r i) v j
unfolding run_double Double.lwu Double.ld Double.load_address Memory.add_cost step64 set64
double_load_64 port f m r i v m' lwu short low e j =
    (_, rw (address_64 r i short, e) refl, cleared_or i r v j (omega (arith, low)))
double_load_64 port f m r i v m' ld short low e j =
    (_, rw (address_64 r i short, e) refl, whole_store i r (x64 r i.rd) v j low)

-- sd writes the eight bytes of rs2 at the value of rs1 plus the sign extended immediate of 12 bits,
-- fails where the write fails, and then only steps the program counter.
pub sd_64 {ℓ} :
    {Mem : Type ℓ} (port : MemPort Mem) (f : RevFeature) (m : Mem) (r : RevRegFile) (i : RevInst)
    → i.imm < 2 ^ 12
    → Double.sd port f m r i ≡ (
        port.write f.hart (u64 (x64 r i.rs1 + sign_extend 64 12 i.imm)) 8 (x64 r i.rs2) m
        >>= (λ m'. some (m', step64 i r)))
unfolding Double.sd
sd_64 port f m r i short = rw (td_64 i.imm short) refl
