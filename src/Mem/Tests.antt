-- ===== src/Mem/Tests.antt =====
-- Instances of the laws of the address translation.
use rev.Prelude.{ℕ, ◌<◌, true, ◌+◌, ◌≡◌, refl, arith, some}
use rev.Mem.Fixtures.{small_tlb, memory, memory-IsCoherent, memory_bytes}
use rev.Mem.Tlb.{search_tlb, add_to_tlb, flush_tlb}
use rev.Mem.Tlb.Laws.{IsTlb, count, present, tlb_invariant}
use rev.Mem.Bytes.{Memory, write_mem, read_mem}
use rev.Mem.Bytes.RoundTrip.{IsWritten, CanAccess, write_mem-IsWritten, read_mem-write_mem}
use rev.Mem.Paging.{RevMem, calc_phys_addr, is_valid_virt_addr, in_segments}
use rev.Mem.Paging.Translate.{Translates, Translated, calc_phys_addr-Translated}

small_tlb-IsTlb : IsTlb 2 small_tlb
unfolding count present
small_tlb-IsTlb = record { queued = λ v. ground arith; bounded = omega arith }

tlb_invariant_example :
    ((v : ℕ) → IsTlb 2 (search_tlb v small_tlb).1)
    × ((v phys : ℕ) → IsTlb 2 (add_to_tlb 2 v phys small_tlb))
    × IsTlb 2 (flush_tlb small_tlb)
tlb_invariant_example = tlb_invariant 2 small_tlb (omega arith) small_tlb-IsTlb

calc_phys_addr-Translated_example :
    (p : ℕ) × (s' : RevMem) × (calc_phys_addr 2 0x80004 memory ≡ some (p, s'))
    × Translated memory 0x80004 p s'
unfolding is_valid_virt_addr in_segments
calc_phys_addr-Translated_example =
    calc_phys_addr-Translated memory 0x80004 memory-IsCoherent (omega arith) refl

place : Translates memory 0x40010 0x10
place = record { frame = 0; mapped = refl; place = refl }

other_place : Translates memory 0x40011 0x11
other_place = record { frame = 0; mapped = refl; place = refl }

-- Four bytes across the end of the first page.
crossing_valid : (k : ℕ) → k < 4 → is_valid_virt_addr memory (0x3fffe + k) ≡ true
unfolding is_valid_virt_addr in_segments
crossing_valid k h = ground arith

crossing-CanAccess : CanAccess memory 0x3fffe 4
crossing-CanAccess = record {
  room = omega arith;
  short = omega arith;
  nonempty = omega arith;
  fits = omega arith;
  valid = crossing_valid;
}

write_mem-IsWritten_example :
    (t : Memory) × (write_mem 0x3fffe 4 (λ k. k + 1) memory_bytes ≡ some t)
    × IsWritten memory_bytes 0x3fffe 4 (λ k. k + 1) t
write_mem-IsWritten_example =
    write_mem-IsWritten memory_bytes 0x3fffe 4 (λ k. k + 1) memory-IsCoherent crossing-CanAccess

read_mem-write_mem_example :
    (t : Memory) × (result : ℕ → ℕ) × (t' : Memory) × (write_mem 0x3fffe 4 (λ k. k + 1) memory_bytes
      ≡ some t)
    × (read_mem 0x3fffe 4 (λ _. 0) t ≡ some (result, t'))
    × ((k : ℕ) → k < 4 → result k ≡ k + 1)
read_mem-write_mem_example =
    read_mem-write_mem memory_bytes 0x3fffe 4 (λ k. k + 1) (λ _. 0) memory-IsCoherent
      crossing-CanAccess (omega arith)
