-- ===== src/Mem/Fixtures.antt =====
-- A memory of one page for the runs of the test modules.
use rev.Prelude.{
  ℕ, ◌≡◌, refl, arith, Bool-cases, inl, inr, [], ◌∷◌, Option, some, none, ◌==◌, if◌then◌else◌,
}
use rev.Mem.Tlb.{Tlb}
use rev.Mem.Bytes.{Memory}
use rev.Mem.Paging.{RevMem}
use rev.Mem.Paging.Translate.{IsCoherent, Translates}

-- One entry, for the first address of the page 1, which has the frame 0.
abbrev cached : ℕ → Option ℕ
cached v = if v == 0x40000 then some 0 else none

abbrev pub small_tlb : Tlb
small_tlb = record { tlb = cached; lru_queue = 0x40000 ∷ []; tlb_hits = 0; tlb_misses = 0 }

abbrev one_page : ℕ → Option ℕ
one_page page = if page == 1 then some 0 else none

abbrev pub memory : RevMem
memory = record {
  mem_segs = record { base_addr = 0; size = 0x100000; top_addr = 0x100000 } ∷ [];
  free_mem_segs = [];
  max_heap_size = 0x1000000;
  stacktop = 0x3fffc00;
  mem_size = 0x4000000;
  heapstart = 0x100000;
  heapend = 0x100000;
  page_map = one_page;
  next_page = 1;
  tlb_size = 2;
  tlb = small_tlb;
}

cached_at : (v p : ℕ) → v ≡ 0x40000 → p ≡ 0 → Translates memory v p
cached_at v p ev ep = rw (ev, ep) (record { frame = 0; mapped = refl; place = refl })

cached_place : (v p : ℕ) → cached v ≡ some p → Translates memory v p
cached_place v p h = elim (Bool-cases (v == 0x40000)) [
  | inl same ↦ cached_at v p (ground arith) (ground arith)
  | inr other ↦ absurd (ground arith)
]

pub memory-IsCoherent : IsCoherent memory
memory-IsCoherent = record {
  used = λ page frame h. ground arith;
  owned = λ page other frame h h'. ground arith;
  cached = cached_place;
  fits = omega arith;
}

abbrev pub memory_bytes : Memory
memory_bytes = record {
  paging = memory;
  phys_mem = λ _. 0;
  future_res = [];
  bytes_read = 0;
  bytes_written = 0;
}
