-- ===== src/Rv32i/Loads.antt =====
-- The loads: the address, the extension of the value and the frame.
use native.Mathlib.Nat.{mod-eq_of_lt, pow-suc}
use rev.Prelude.{
  ℕ, ◌+◌, ◌*◌, ◌%◌, ◌^◌, ◌<◌, ◌≡◌, ◌≢◌, refl, ap, ◌∙◌, arith, suc, bit_and, true, false, Option,
  some,
}
use rev.Bits.{bit_and_mask, low-lt, pow_mono, two_pow_pos}
use rev.Word.{u32, u64, signed, to_word, sext, td_u32}
use rev.Word.Extend.{sign_extend, sext-eq-sign_extend, td_u32_lem, extended-eq-sign_extend}
use rev.Inst.{RevInst}
use rev.RegFile.{RevFeature, RevRegFile, get, put, is_rv32, x32, x64, set32, set64, step32, step64}
use rev.Isa.{LoadOp, bytes, loaded}
use rev.MemPort.{MemPort, overlay}
use rev.Rv32i.Memory
use rev.Rv32i.Writes.{Wrote32, Wrote64}

module _ (i : RevInst) (r : RevRegFile) where
  -- A value stored and then rewritten in place.
  store64_twice :
      (a w j : ℕ) (g : ℕ → ℕ)
      → u64 (g (u64 a)) ≡ w
      → let r1 = set64 i.rd a r in Wrote64 i r (step64 i (set64 i.rd (g (x64 r1 i.rd)) r1)) w j
  unfolding step64 set64 get put
  store64_twice a w j g e = (ground arith, refl, refl)

  store64_thrice :
      (a w j : ℕ) (g h : ℕ → ℕ)
      → u64 (h (u64 (g (u64 a)))) ≡ w
      → let r1 = set64 i.rd a r in
        let r2 = set64 i.rd (g (x64 r1 i.rd)) r1 in
        Wrote64 i r (step64 i (set64 i.rd (h (x64 r2 i.rd)) r2)) w j
  unfolding step64 set64 get put
  store64_thrice a w j g h e = (ground arith, refl, refl)

  store32_twice :
      (a w j : ℕ) (g : ℕ → ℕ)
      → u32 (g (u32 a)) ≡ w
      → let r1 = set32 i.rd a r in Wrote32 i r (step32 i (set32 i.rd (g (x32 r1 i.rd)) r1)) w j
  unfolding step32 set32 get put
  store32_twice a w j g e = (ground arith, refl, refl)

  store32_thrice :
      (a w j : ℕ) (g h : ℕ → ℕ)
      → u32 (h (u32 (g (u32 a)))) ≡ w
      → let r1 = set32 i.rd a r in
        let r2 = set32 i.rd (g (x32 r1 i.rd)) r1 in
        Wrote32 i r (step32 i (set32 i.rd (h (x32 r2 i.rd)) r2)) w j
  unfolding step32 set32 get put
  store32_thrice a w j g h e = (ground arith, refl, refl)

-- Masking what a load has left keeps the value.
module _ (old v : ℕ) where
  byte_64 : v < 2 ^ 8 → u64 (bit_and (u64 (overlay 1 old v)) 0xFF) ≡ v
  byte_64 h = omega (arith, bit_and_mask 8 (u64 (overlay 1 old v)))

  half_64 : v < 2 ^ 16 → u64 (bit_and (u64 (overlay 2 old v)) 0xFFFF) ≡ v
  half_64 h = omega (arith, bit_and_mask 16 (u64 (overlay 2 old v)))

  word_64 : v < 2 ^ 32 → u64 (bit_and (u64 (overlay 4 old v)) 0xFFFFFFFF) ≡ v
  word_64 h = omega (arith, bit_and_mask 32 (u64 (overlay 4 old v)))

  byte_32 : v < 2 ^ 8 → u32 (bit_and (u32 (overlay 1 old v)) 0xFF) ≡ v
  byte_32 h = omega (arith, bit_and_mask 8 (u32 (overlay 1 old v)))

  half_32 : v < 2 ^ 16 → u32 (bit_and (u32 (overlay 2 old v)) 0xFFFF) ≡ v
  half_32 h = omega (arith, bit_and_mask 16 (u32 (overlay 2 old v)))

  word_32 : v < 2 ^ 32 → u32 (bit_and (u32 (overlay 4 old v)) 0xFFFFFFFF) ≡ v
  word_32 h = omega (arith, bit_and_mask 32 (u32 (overlay 4 old v)))

sext_64 : (k v : ℕ) → k < 64 → v < 2 ^ suc k → u64 (sext v (suc k)) ≡ sign_extend 64 (suc k) v
unfolding sext
sext_64 k v hk h = mod-eq_of_lt (low-lt 64 _) ∙ sext-eq-sign_extend k v hk h

sext_32 : (k v : ℕ) → k < 32 → v < 2 ^ suc k → u32 (sext v (suc k)) ≡ sign_extend 32 (suc k) v
sext_32 k v hk h =
    rw (sext-eq-sign_extend k v (omega arith) h)
      (ground (arith, pow_mono (suc k) 32 hk, two_pow_pos k, pow-suc 2 k))

-- The function that the tables name for a load.
unfoldable pub run_load {ℓ} :
    {Mem : Type ℓ}
    → LoadOp
    → MemPort Mem
    → RevFeature
    → Mem
    → RevRegFile
    → RevInst
    → Option (Mem × RevRegFile)
run_load LoadOp.lb = Memory.lb
run_load LoadOp.lh = Memory.lh
run_load LoadOp.lw = Memory.lw
run_load LoadOp.lbu = Memory.lbu
run_load LoadOp.lhu = Memory.lhu

module _ (r : RevRegFile) (i : RevInst) where
  -- The address is the base plus the sign extended immediate of 12 bits.
  pub address_64 :
      i.imm < 2 ^ 12
      → u64 (x64 r i.rs1 + to_word 64 (signed 32 (td_u32 i.imm 12)))
        ≡ u64 (x64 r i.rs1 + sign_extend 64 12 i.imm)
  address_64 short =
      let e : td_u32 i.imm 12 ≡ sign_extend 32 12 i.imm =
        td_u32_lem 11 i.imm (omega arith) (omega arith)
        ∙ extended-eq-sign_extend 32 11 i.imm (omega arith) short in
      rw e (ground arith)

  pub address_32 :
      i.imm < 2 ^ 12
      → u32 (x32 r i.rs1 + td_u32 i.imm 12) ≡ u32 (x32 r i.rs1 + sign_extend 32 12 i.imm)
  address_32 short =
      let e : td_u32 i.imm 12 ≡ sign_extend 32 12 i.imm =
        td_u32_lem 11 i.imm (omega arith) (omega arith)
        ∙ extended-eq-sign_extend 32 11 i.imm (omega arith) short in
      rw e refl

-- After a load of `v` that leaves the memory `m'`: the draw of the cost is added to the cost, and
-- up to the cost `r'` is `r` with `w` in `rd` and the program counter stepped.
abbrev pub Loaded64 {ℓ} :
    {Mem : Type ℓ}
    → MemPort Mem
    → RevFeature
    → RevInst
    → RevRegFile
    → Mem
    → Option (Mem × RevRegFile)
    → ℕ
    → ℕ
    → Type ℓ
Loaded64 {Mem = Mem} port f i r m' result w j =
    let drawn = port.rand_cost f.min_cost f.max_cost m' in
    (r' : RevRegFile) × (result ≡ some (drawn.0, record r' { cost = (r.cost + drawn.1) % 2 ^ 32 }))
    × Wrote64 i r r' w j

-- On RV64 each of the five loads reads its number of bytes at the value of `rs1` plus the sign
-- extended immediate of 12 bits and leaves the value read in `rd`, sign extended by `lb`, `lh` and
-- `lw` and zero extended by `lbu` and `lhu`, steps the program counter and adds the drawn cost; no
-- other register or field changes. The value read fits the bytes asked for.
pub load_64 {ℓ} :
    {Mem : Type ℓ} (port : MemPort Mem) (f : RevFeature) (m : Mem) (r : RevRegFile) (i : RevInst)
    (v : ℕ) (m' : Mem) (op : LoadOp)
    → is_rv32 f ≡ false
    → i.imm < 2 ^ 12
    → v < 2 ^ (8 * bytes op)
    → port.read_val f.hart (u64 (x64 r i.rs1 + sign_extend 64 12 i.imm)) (bytes op) m ≡ some (m', v)
    → (j : ℕ) → Loaded64 port f i r m' (run_load op port f m r i) (loaded 64 op v) j
unfolding run_load Memory.lb Memory.lh Memory.lw Memory.lbu Memory.lhu Memory.load Memory.address
    Memory.add_cost step64 set64
load_64 port f m r i v m' LoadOp.lb wide short low e j = (
  _,
  rw (wide, address_64 r i short, e) refl,
  (store64_thrice i r (overlay 1 (x64 r i.rd) v) _ j (λ t. bit_and t 0xff) (λ t. sext t 8)
      (ap (λ t. u64 (sext t 8)) (byte_64 (x64 r i.rd) v low) ∙ sext_64 7 v (omega arith) low)),
)
load_64 port f m r i v m' LoadOp.lh wide short low e j = (
  _,
  rw (wide, address_64 r i short, e) refl,
  (store64_thrice i r (overlay 2 (x64 r i.rd) v) _ j (λ t. bit_and t 0xffff) (λ t. sext t 16)
      (ap (λ t. u64 (sext t 16)) (half_64 (x64 r i.rd) v low) ∙ sext_64 15 v (omega arith) low)),
)
load_64 port f m r i v m' LoadOp.lw wide short low e j = (
  _,
  rw (wide, address_64 r i short, e) refl,
  (store64_thrice i r (overlay 4 (x64 r i.rd) v) _ j (λ t. bit_and t 0xffffffff) (λ t. sext t 32)
      (ap (λ t. u64 (sext t 32)) (word_64 (x64 r i.rd) v low) ∙ sext_64 31 v (omega arith) low)),
)
load_64 port f m r i v m' LoadOp.lbu wide short low e j = (
  _,
  rw (wide, address_64 r i short, e) refl,
  (store64_twice i r (overlay 1 (x64 r i.rd) v) _ j (λ t. bit_and t 0xff)
      (byte_64 (x64 r i.rd) v low)),
)
load_64 port f m r i v m' LoadOp.lhu wide short low e j = (
  _,
  rw (wide, address_64 r i short, e) refl,
  (store64_twice i r (overlay 2 (x64 r i.rd) v) _ j (λ t. bit_and t 0xffff)
      (half_64 (x64 r i.rd) v low)),
)

abbrev pub Loaded32 {ℓ} :
    {Mem : Type ℓ}
    → MemPort Mem
    → RevFeature
    → RevInst
    → RevRegFile
    → Mem
    → Option (Mem × RevRegFile)
    → ℕ
    → ℕ
    → Type ℓ
Loaded32 {Mem = Mem} port f i r m' result w j =
    let drawn = port.rand_cost f.min_cost f.max_cost m' in
    (r' : RevRegFile) × (result ≡ some (drawn.0, record r' { cost = (r.cost + drawn.1) % 2 ^ 32 }))
    × Wrote32 i r r' w j

-- On RV32 each load but `lhu` reads its number of bytes at the value of `rs1` plus the sign
-- extended immediate of 12 bits and leaves the value read in `rd`, sign extended by `lb`, `lh` and
-- `lw` and zero extended by `lbu`, steps the program counter and adds the drawn cost; no other
-- register or field changes. The value read fits the bytes asked for.
pub load_32 {ℓ} :
    {Mem : Type ℓ} (port : MemPort Mem) (f : RevFeature) (m : Mem) (r : RevRegFile) (i : RevInst)
    (v : ℕ) (m' : Mem) (op : LoadOp)
    → is_rv32 f ≡ true
    → i.imm < 2 ^ 12
    → v < 2 ^ (8 * bytes op)
    → port.read_val f.hart (u32 (x32 r i.rs1 + sign_extend 32 12 i.imm)) (bytes op) m ≡ some (m', v)
    → op ≢ LoadOp.lhu
    → (j : ℕ) → Loaded32 port f i r m' (run_load op port f m r i) (loaded 32 op v) j
unfolding run_load Memory.lb Memory.lh Memory.lw Memory.lbu Memory.lhu Memory.load Memory.address
    Memory.add_cost step32 set32
load_32 port f m r i v m' LoadOp.lb narrow short low e _ j = (
  _,
  rw (narrow, address_32 r i short, e) refl,
  (store32_thrice i r (overlay 1 (x32 r i.rd) v) _ j (λ t. bit_and t 0xff) (λ t. sext t 8)
      (ap (λ t. u32 (sext t 8)) (byte_32 (x32 r i.rd) v low) ∙ sext_32 7 v (omega arith) low)),
)
load_32 port f m r i v m' LoadOp.lh narrow short low e _ j = (
  _,
  rw (narrow, address_32 r i short, e) refl,
  (store32_thrice i r (overlay 2 (x32 r i.rd) v) _ j (λ t. bit_and t 0xffff) (λ t. sext t 16)
      (ap (λ t. u32 (sext t 16)) (half_32 (x32 r i.rd) v low) ∙ sext_32 15 v (omega arith) low)),
)
load_32 port f m r i v m' LoadOp.lw narrow short low e _ j = (
  _,
  rw (narrow, address_32 r i short, e) refl,
  (store32_thrice i r (overlay 4 (x32 r i.rd) v) _ j (λ t. bit_and t 0xffffffff) (λ t. sext t 32)
      (ap (λ t. u32 (sext t 32)) (word_32 (x32 r i.rd) v low) ∙ sext_32 31 v (omega arith) low)),
)
load_32 port f m r i v m' LoadOp.lbu narrow short low e _ j = (
  _,
  rw (narrow, address_32 r i short, e) refl,
  (store32_twice i r (overlay 1 (x32 r i.rd) v) _ j (λ t. bit_and t 0xff)
      (byte_32 (x32 r i.rd) v low)),
)
load_32 port f m r i v m' LoadOp.lhu narrow short low e other j = absurd (other refl)
