-- ===== src/Prefetcher/Tests.antt =====
-- Instances of the laws of the prefetcher: streams of two words over a memory of one page, whose
-- bytes count up to 250 again and again.
use rev.Prelude.{ℕ, ◌+◌, ◌/◌, ◌%◌, ◌^◌, ◌<◌, ◌≤◌, ◌≡◌, ◌≢◌, ◌⊎◌, true, refl, arith, [], some}
use rev.Fixtures.{feature}
use rev.Mem.Fixtures.{memory, memory_bytes, memory-IsCoherent}
use rev.Mem.Paging.{is_valid_virt_addr, in_segments}
use rev.Mem.Paging.Translate.{Translates}
use rev.Mem.Bytes.{Memory}
use rev.Mem.Bytes.Copies.{translate_unique}
use rev.Mem.Amo.{word_of}
use rev.MemPort.Filled.{rev_mem, HoldsCode, read_val-HoldsCode}
use rev.Prefetcher.{RevPrefetcher, Fetch, stalled, fetched, inst_fetch}
use rev.Prefetcher.Laws.{IsPrefetcher, IsRight, instruction, inst_fetch-IsRight}
use rev.Prefetcher.Arrival.{inst_fetch-arrives}

abbrev byte : ℕ → ℕ
byte v = v % 2 ^ 18 % 251

abbrev code : ℕ → ℕ
unfolding word_of
code a = word_of 4 (λ k. byte (a + k))

abbrev loaded : Memory
loaded = record memory_bytes { phys_mem = λ p. p % 251 }

on_page : (v : ℕ) → 0x40000 ≤ v → v < 0x80000 → Translates memory v (v % 2 ^ 18)
on_page v low high =
    let page : v / 2 ^ 18 ≡ 1 = omega (arith, low, high) in
    record { frame = 0; mapped = rw page refl; place = omega arith }

page_valid : (v : ℕ) → 0x40000 ≤ v → v < 0x80000 → is_valid_virt_addr memory v ≡ true
unfolding is_valid_virt_addr in_segments
page_valid v low high = ground (arith, low, high)

loaded-HoldsCode : HoldsCode byte 0x40000 0x80000 loaded
loaded-HoldsCode = record {
  coherent = memory-IsCoherent;
  room = omega arith;
  valid = page_valid;
  mapped = λ v low high. (v % 2 ^ 18, on_page v low high);
  holds = λ v q low high tr.
      let same = translate_unique memory v q (v % 2 ^ 18) tr (on_page v low high) in rw same refl;
}

abbrev draw : ℕ → ℕ → Memory → Memory × ℕ
draw low high m = (m, low)

loaded_reads :
    (a : ℕ) (m : Memory)
    → HoldsCode byte 0x40000 0x80000 m
    → 0x40000 ≤ a
    → a + 4 ≤ 0x80000
    → (m' : Memory) × ((rev_mem draw).read_val 0 a 4 m ≡ some (m', code a))
      × HoldsCode byte 0x40000 0x80000 m'
unfolding code
loaded_reads a m ok low high =
    read_val-HoldsCode draw byte 0x40000 0x80000 (omega arith) 0 a m ok low high

abbrev empty : RevPrefetcher Memory
empty = record { streams = []; mem = loaded }

code_fits : (a : ℕ) → code a < 2 ^ 32
unfolding code word_of
code_fits a = omega arith

inst_fetch-IsRight_example :
    (r : Fetch) × (s' : RevPrefetcher Memory) × (inst_fetch 2
        (rev_mem draw)
        (feature 64)
        0x41002
        empty
      ≡ some (r, s'))
    × IsPrefetcher 2 code
        (omega arith)
        (omega arith)
        (rev_mem draw)
        (feature 64)
        (HoldsCode byte 0x40000 0x80000)
        0x40000
        0x80000
        (omega arith)
        loaded_reads
        s'
    × IsRight 2 code r (instruction code 0x41002)
inst_fetch-IsRight_example =
    inst_fetch-IsRight 2 code (omega arith) (omega arith) (rev_mem draw) (feature 64)
      (HoldsCode byte 0x40000 0x80000) 0x40000 0x80000 (omega arith) loaded_reads code_fits 0x41002
      (omega arith) (omega arith) (omega arith) empty (tt, loaded-HoldsCode)

code_not_mark : code 0x41000 ≢ 0xdeadbeef
unfolding code word_of
code_not_mark e = ground (arith, e)

inst_fetch-arrives_example :
    ((s' : RevPrefetcher Memory) × (inst_fetch 2 (rev_mem draw) (feature 64) 0x41000 empty
        ≡ some (fetched (code 0x41000), s')))
    ⊎ ((s' : RevPrefetcher Memory) × (s'' : RevPrefetcher Memory) × (inst_fetch 2
            (rev_mem draw)
            (feature 64)
            0x41000
            empty
          ≡ some (stalled, s'))
        × (inst_fetch 2 (rev_mem draw) (feature 64) 0x41000 s'
            ≡ some (fetched (code 0x41000), s'')))
inst_fetch-arrives_example =
    inst_fetch-arrives 2 code (omega arith) (omega arith) (rev_mem draw) (feature 64)
      (HoldsCode byte 0x40000 0x80000) 0x40000 0x80000 (omega arith) loaded_reads 0x41000
      (omega arith) (omega arith) (omega arith) code_not_mark empty (tt, loaded-HoldsCode)
