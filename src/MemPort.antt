-- ===== src/MemPort.antt =====
-- What the instructions use of `RevMem` (include/RevMem.h): `ReadVal`, `WriteU8` to `WriteU32`,
-- `FenceMem` and `RandCost`, as an interface over the state of the memory. An access that ends in
-- `output->fatal` gives no result. `ReadVal` is taken without a memory controller: the value is
-- there when it returns and the hazard is clear.
pub mod Filled
use rev.Prelude.{ℕ, ◌+◌, ◌*◌, ◌/◌, ◌^◌, Option}

pub record MemPort {ℓ} (Mem : Type ℓ) : Type ℓ where
  -- hart, address, bytes
  pub read_val : ℕ → ℕ → ℕ → Mem → Option (Mem × ℕ)
  -- hart, address, bytes, value
  pub write : ℕ → ℕ → ℕ → ℕ → Mem → Option Mem
  pub fence_mem : ℕ → Mem → Mem
  pub rand_cost : ℕ → ℕ → Mem → Mem × ℕ

-- The bytes of a value of `len` bytes stored at the address of a register, on a host that keeps
-- the low byte first.
abbrev pub overlay : ℕ → ℕ → ℕ → ℕ
overlay len old value = old / 2 ^ (8 * len) * 2 ^ (8 * len) + value
