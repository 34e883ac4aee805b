-- ===== src/Rv64a/Tests.antt =====
-- An instance of the atomic double word operations.
use rev.Prelude.{ℕ, ◌+◌, ◌<◌, ◌≡◌, true, arith, [], Option, none}
use rev.Fixtures.{start, inst, feature}
use rev.Mem.Paging.{is_valid_virt_addr, in_segments}
use rev.Mem.Fixtures.{memory, memory_bytes, memory-IsCoherent}
use rev.Mem.Bytes.RoundTrip.{CanAccess}
use rev.Mem.Amo.{AmoOp, amo_apply}
use rev.Mem.Lrsc.{Reserved}
use rev.AtomicPort.{rev_atomics}
use rev.RegFile.{get}
use rev.Word.{u64}
use rev.Rv32a.Refines.{second, Updates64}
use rev.Rv64a.Refines.{run_d, amo_d_64}

abbrev state : Reserved
state = record { memory = memory_bytes; lrsc = [] }

abbrev words : ℕ → ℕ → Option ℕ
words reg k = none

abbrev draw : ℕ → ℕ → Reserved → Reserved × ℕ
draw low high s = (s, 1)

low_valid : (k : ℕ) → k < 8 → is_valid_virt_addr memory (7 + k) ≡ true
unfolding is_valid_virt_addr in_segments
low_valid k h = ground arith

low-CanAccess : CanAccess memory 7 8
low-CanAccess = record {
  room = omega arith;
  short = omega arith;
  nonempty = omega arith;
  fits = omega arith;
  valid = low_valid;
}

-- amoswap.d x7, x6, (x5)
amo_d_64_example :
    Updates64 draw
      (feature 64)
      (inst 0)
      start
      state
      7
      8
      (run_d AmoOp.amoswap (rev_atomics words draw) (feature 64) state start (inst 0))
      (λ old. amo_apply AmoOp.amoswap 64 old (second (inst 0) 10 old))
      u64
      7
unfolding get
amo_d_64_example =
    amo_d_64 words draw (feature 64) start (inst 0) state AmoOp.amoswap memory-IsCoherent
      (omega arith) low-CanAccess 7
