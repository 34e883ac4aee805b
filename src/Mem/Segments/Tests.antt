-- ===== src/Mem/Segments/Tests.antt =====
-- Instances of the laws of the segments, and runs where the code departs from them.
use rev.Prelude.{ℕ, ◌+◌, ◌-◌, ◌^◌, ◌≤◌, ◌<◌, ◌≡◌, ◌⊎◌, refl, arith, [], ◌∷◌, some, none, ◌%◌}
use rev.Mem.Paging.{RevMem}
use rev.Mem.Segments.{segment, alloc_mem, alloc_mem_at, dealloc_mem, add_rounded_mem_seg, rounded}
use rev.Mem.Segments.Accounting.{covered, IsHeap}
use rev.Mem.Segments.Alloc.{Allocated, Moved, fits_free, alloc_mem-Allocated}
use rev.Mem.Segments.Dealloc.{first_size, Freed, dealloc_mem-cases, dealloc_mem-alloc_mem}
use rev.Mem.Segments.Rounded.{Widened, NoneBelow, add_rounded_mem_seg-Widened}

-- One allocated segment, and one free.
abbrev heap : RevMem
heap = record {
  mem_segs = segment 0x1000 0x100 ∷ [];
  free_mem_segs = segment 0x2000 0x1000 ∷ [];
  max_heap_size = 0x8000;
  stacktop = 0x3fffc00;
  mem_size = 0x4000000;
  heapstart = 0x2000;
  heapend = 0x4000;
  page_map = λ _. none;
  next_page = 0;
  tlb_size = 2;
  tlb = record { tlb = λ _. none; lru_queue = []; tlb_hits = 0; tlb_misses = 0 };
}

heap-IsHeap : IsHeap heap
unfolding covered
heap-IsHeap = record {
  mem = (record { top = refl; fits = omega arith }, tt);
  free = (record { top = refl; fits = omega arith }, tt);
  disjoint = λ v. ground arith;
}

alloc_mem-Allocated_example :
    (b : ℕ) × (s' : RevMem) × (alloc_mem 0x40 heap ≡ some (b, s'))
    × Allocated heap 0x40 b s'
    × Moved heap s'
unfolding fits_free
alloc_mem-Allocated_example = alloc_mem-Allocated 0x40 heap heap-IsHeap refl

heap_above : (v : ℕ) → 0x4000 ≤ v → covered v heap.mem_segs + covered v heap.free_mem_segs ≡ 0
unfolding covered
heap_above v h = ground arith

dealloc_mem-cases_example :
    ((first_size 0x1000 heap.mem_segs ≡ none)
      × (dealloc_mem 0x1000 0x40 heap ≡ some (2 ^ 64 - 1, heap)))
    ⊎ ((m : ℕ) × (first_size 0x1000 heap.mem_segs ≡ some m)
        × (m < 0x40)
        × (dealloc_mem 0x1000 0x40 heap ≡ none))
    ⊎ ((m : ℕ) × (first_size 0x1000 heap.mem_segs ≡ some m)
        × (0x40 ≤ m)
        × (s' : RevMem) × (dealloc_mem 0x1000 0x40 heap ≡ some (0, s'))
        × Freed heap 0x1000 0x40 s')
dealloc_mem-cases_example = dealloc_mem-cases 0x1000 0x40 heap heap-IsHeap

dealloc_mem-alloc_mem_example :
    (b : ℕ) × (s' : RevMem) × (s'' : RevMem) × (alloc_mem 0x40 heap ≡ some (b, s'))
    × (dealloc_mem b 0x40 s' ≡ some (0, s''))
    × IsHeap s''
    × ((v : ℕ) → covered v s''.mem_segs ≡ covered v heap.mem_segs)
    × ((v : ℕ) → covered v s''.free_mem_segs ≡ covered v heap.free_mem_segs)
unfolding fits_free
dealloc_mem-alloc_mem_example =
    dealloc_mem-alloc_mem 0x40 heap heap-IsHeap (omega arith, tt) (omega arith) refl

upward : NoneBelow 0x1080 0x1180 (segment 0x1000 0x100)
unfolding NoneBelow
upward h = refl

add_rounded_mem_seg-Widened_example :
    (base : ℕ) × (s' : RevMem) × (add_rounded_mem_seg 0x1080 0xc1 0x80 heap ≡ some (base, s'))
    × Widened 0x1080 (0x1080 + rounded 0xc1 0x80) heap.mem_segs s'.mem_segs
    × (rounded 0xc1 0x80 % 0x80 ≡ 0)
    × (0xc1 ≤ rounded 0xc1 0x80)
    × (rounded 0xc1 0x80 < 0xc1 + 0x80)
add_rounded_mem_seg-Widened_example =
    add_rounded_mem_seg-Widened 0x1080 0xc1 0x80 heap (omega arith) (omega arith) heap-IsHeap.mem
      (upward, tt)

-- A range at the start of a longer free segment: the segment keeps its size, and so reaches past
-- its old end.
prefix_keeps_size :
    alloc_mem_at 0x2000 0x100 heap
    ≡ some (
      0x2000,
      record heap {
        mem_segs = segment 0x1000 0x100 ∷ segment 0x2000 0x100 ∷ [];
        free_mem_segs = segment 0x2100 0x1000 ∷ [];
      },
    )
unfolding alloc_mem_at
prefix_keeps_size = refl

-- A new segment whose top alone is in an old one: the old segment loses its own upper part.
below_moves :
    add_rounded_mem_seg 0xf80 0x100 0x80 heap
    ≡ some (0xf80, record heap { mem_segs = segment 0xf80 0x100 ∷ [] })
unfolding add_rounded_mem_seg
below_moves = refl
