-- ===== src/Mem/Paging.antt =====
-- `CalcPhysAddr` and `isValidVirtAddr` of src/RevMem.cc, with the state they read. The page size
-- is 262144 bytes, so `addrShift` is 18. An access that ends in `output->fatal` gives no result.
pub mod Translate
use rev.Prelude.{
  ℕ, suc, ◌+◌, ◌-◌, ◌*◌, ◌/◌, ◌%◌, ◌^◌, bit_and, List, [], ◌∷◌, Option, some, none, ◌==◌, ◌&&◌,
  Bool, true, false, ltb, leb, if◌then◌else◌,
}
use rev.Word.{u32, u64}
use rev.Mem.Tlb.{Tlb, search_tlb, add_to_tlb, invalid_addr}

pub record MemSegment : Type 0 where
  pub base_addr : ℕ
  pub size : ℕ
  pub top_addr : ℕ

-- `MemSegment::contains(vAddr)`.
abbrev pub contains : MemSegment → ℕ → Bool
contains seg v = leb seg.base_addr v && ltb v seg.top_addr

-- `pageMap` keeps the frames; the flag beside a frame is always true.
pub record RevMem : Type 0 where
  pub mem_segs : List MemSegment
  pub free_mem_segs : List MemSegment
  pub max_heap_size : ℕ
  pub stacktop : ℕ
  pub mem_size : ℕ
  pub heapstart : ℕ
  pub heapend : ℕ
  pub page_map : ℕ → Option ℕ
  pub next_page : ℕ
  pub tlb_size : ℕ
  pub tlb : Tlb

-- `_STACK_SIZE_`.
abbrev pub stack_size : ℕ
stack_size = 1048576

unfoldable pub in_segments : List MemSegment → ℕ → Bool
in_segments [] v = false
in_segments (seg ∷ segs) v = let rest = in_segments segs v in if contains seg v then true else rest

unfoldable pub is_valid_virt_addr : RevMem → ℕ → Bool
is_valid_virt_addr s v =
    if in_segments s.mem_segs v
    then true
    else if leb (u64 (s.stacktop + 2 ^ 64 - stack_size)) v
    then (if ltb v s.mem_size then true else false)
    else if leb s.heapstart v && leb v s.heapend
    then true
    else false

-- `(frame << addrShift) + ((pageSize - 1) & vAddr)`: the shift is on 32 bits.
abbrev pub phys_addr : ℕ → ℕ → ℕ
phys_addr frame v = u64 (u32 (frame * 2 ^ 18) + bit_and v 262143)

-- The page's frame, by what `pageMap.count(pageNum)` gives: a first touch takes `nextPage`.
unfoldable pub touch : Option ℕ → ℕ → RevMem → ℕ × RevMem
touch none page_num s = (
  s.next_page,
  record s {
    page_map = λ p. if p == page_num then some s.next_page else s.page_map p;
    next_page = u32 (s.next_page + 1);
  },
)
touch (some frame) page_num s = (frame, s)

-- The walk of the page map after a miss.
unfoldable pub walk : ℕ → ℕ → RevMem → Option (ℕ × RevMem)
unfolding touch
walk page_num v s =
    if is_valid_virt_addr s v
    then (let touched = touch (s.page_map page_num) page_num s in
        let phys = phys_addr touched.0 v in
        some (phys, record touched.1 { tlb = add_to_tlb s.tlb_size v phys touched.1.tlb }))
    else none

unfoldable pub calc_phys_addr : ℕ → ℕ → RevMem → Option (ℕ × RevMem)
unfolding walk
calc_phys_addr page_num v s =
    let found = search_tlb v s.tlb in
    let s' = record s { tlb = found.1 } in
    let walked = walk page_num v s' in
    if found.0 == invalid_addr then walked else some (found.0, s')
