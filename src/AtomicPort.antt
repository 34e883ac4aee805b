-- ===== src/AtomicPort.antt =====
-- What the atomic instructions use of `RevMem` (include/RevMem.h): `AMOVal`, `LR`, `SC` and
-- `RandCost`, as an interface over the state of the memory, and its implementation by the memory of
-- `Mem`. Registers of 64 bits that an operation reaches through a pointer to one of them are an
-- argument of the implementation: the first by its number, the others as they follow it.
use rev.Prelude.{ℕ, ◌>>=◌, Option, some}
use rev.Mem.Amo.{byte_of, amo_mem}
use rev.Mem.Lrsc.{Reserved, Linked, Stored, lr_base, sc_base}

pub record AtomicPort {ℓ} (Mem : Type ℓ) : Type ℓ where
  -- hart, address, bytes, operand (`none` where it is the target), flags; what the target gets
  pub amo_val : ℕ → ℕ → ℕ → Option ℕ → ℕ → Mem → Option (Option ℕ × Mem)
  -- hart, address, bytes, `aq|(rl<<1)`, target register
  pub lr : ℕ → ℕ → ℕ → ℕ → ℕ → Mem → Option (Linked × Mem)
  -- hart, address, bytes, value, register of the value
  pub sc : ℕ → ℕ → ℕ → ℕ → ℕ → Mem → Option (Stored × Mem)
  pub rand_cost : ℕ → ℕ → Mem → Mem × ℕ

unfoldable pub rev_atomics :
    (ℕ → ℕ → Option ℕ) → (ℕ → ℕ → Reserved → Reserved × ℕ) → AtomicPort Reserved
rev_atomics words draw = record {
  amo_val = λ hart addr len operand flags s. do
    (value, memory) ← amo_mem addr len operand flags s.memory
    some (value, record s { memory = memory });
  lr = lr_base;
  sc = λ hart addr len value reg s. sc_base words (words reg) hart addr len (byte_of value) s;
  rand_cost = draw;
}
