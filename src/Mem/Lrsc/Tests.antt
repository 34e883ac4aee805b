-- ===== src/Mem/Lrsc/Tests.antt =====
-- Instances of the laws of the reservations.
use rev.Prelude.{ℕ, ◌≡◌, refl, arith, [], ◌∷◌, Option, some, none}
use rev.Mem.Tlb.{search_tlb}
use rev.Mem.Paging.{calc_phys_addr}
use rev.Mem.Bytes.{Memory, write_mem}
use rev.Mem.Fixtures.{memory_bytes}
use rev.Mem.Lrsc.{Reserved, Linked, lr_base, Stored, failed32, cleared, sc_base}
use rev.Mem.Lrsc.Search.{count_addr, IsExclusive}
use rev.Mem.Lrsc.Laws.{lrsc-IsExclusive, sc_base-once}

-- Hart 0 has a reservation for 0x40000 through register 7.
abbrev held : Reserved
held = record {
  memory = memory_bytes;
  lrsc = record { hart = 0; addr = 0x40000; order = 0; val = 7 } ∷ [];
}

held-IsExclusive : IsExclusive held
unfolding IsExclusive count_addr
held-IsExclusive = λ addr. ground arith

-- All words are 5.
abbrev fives : ℕ → ℕ → Option ℕ
fives reg k = some 5

lrsc-IsExclusive_example :
    ((order target : ℕ) (l : Linked)
      → lr_base 1 0x40000 4 order target held ≡ some (l, held)
      → IsExclusive held)
    × ((target_words : ℕ → ℕ → Option ℕ) (data_words : ℕ → Option ℕ) (bytes : ℕ → ℕ) (o : Stored)
        → sc_base target_words data_words 1 0x40000 4 bytes held ≡ some (o, held)
        → IsExclusive held)
lrsc-IsExclusive_example = lrsc-IsExclusive held held 1 0x40000 4 held-IsExclusive

abbrev byte : ℕ → ℕ
byte k = 1

abbrev written : Memory
written = elim (write_mem 0x40000 4 byte memory_bytes) [ none ↦ memory_bytes | some m ↦ m ]

abbrev stored : Reserved
stored = record { memory = written; lrsc = [] }

store_succeeds : sc_base fives (fives 0) 0 0x40000 4 byte held ≡ some (cleared 4, stored)
unfolding sc_base write_mem calc_phys_addr search_tlb
store_succeeds = refl

sc_base-once_example : sc_base fives (fives 0) 1 0x40000 8 byte stored ≡ some (failed32, stored)
sc_base-once_example =
    sc_base-once fives (fives 0) 0 1 0x40000 4 8 byte byte held stored held-IsExclusive
      store_succeeds
