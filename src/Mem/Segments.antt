-- ===== src/Mem/Segments.antt =====
-- `MemSegment` of include/RevMem.h and the allocation of segments of src/RevMem.cc. A vector of
-- shared segments is a list; an operation that ends in `output->fatal` gives no result.
pub mod Accounting
pub mod Alloc
pub mod AllocAt
pub mod Dealloc
pub mod Rounded
mod Tests
use rev.Prelude.{
  ℕ, ◌+◌, ◌-◌, ◌%◌, ◌^◌, List, [], ◌∷◌, ◌++◌, Option, some, none, ◌>>=◌, ◌==◌, ◌!=◌, ◌&&◌, ◌||◌,
  false, Bool, ltb, leb, if◌then◌else◌,
}
use rev.Word.{u32, u64}
use rev.Mem.Paging.{MemSegment, contains, RevMem}

-- The constructor of `MemSegment`.
abbrev pub segment : ℕ → ℕ → MemSegment
segment b n = record { base_addr = b; size = n; top_addr = u64 (b + n) }

abbrev pub get_top_addr : MemSegment → ℕ
get_top_addr seg = u64 (seg.base_addr + seg.size)

abbrev pub set_base_addr : ℕ → MemSegment → MemSegment
set_base_addr b seg = record seg {
  base_addr = b;
  top_addr = if seg.size == 0 then seg.top_addr else u64 (seg.size + b);
}

abbrev pub set_size : ℕ → MemSegment → MemSegment
set_size n seg = record seg { size = n; top_addr = u64 (seg.base_addr + n) }

-- `contains(vBaseAddr, Size)`.
abbrev pub contains_range : MemSegment → ℕ → ℕ → Bool
contains_range seg b n = contains seg b && contains seg (u64 (b + n + 2 ^ 64 - 1))

abbrev pub add_mem_seg_at : ℕ → ℕ → RevMem → ℕ × RevMem
add_mem_seg_at b n s = (b, record s { mem_segs = s.mem_segs ++ (segment b n ∷ []) })

-- `RoundedSegSize`.
abbrev pub rounded : ℕ → ℕ → ℕ
rounded n unit = if n % unit == 0 then n else u64 (n + unit - n % unit)

-- The loop of `AddRoundedMemSeg` with what it returns, for the top address of the new segment.
unfoldable pub widen : ℕ → ℕ → List MemSegment → Option (ℕ × List MemSegment)
widen b top [] = none
widen b top (seg ∷ segs) =
    let rest = widen b top segs >>= λ r. some (r.0, seg ∷ r.1) in
    let up = set_size (u64 (seg.size + (top + 2 ^ 64 - get_top_addr seg))) seg in
    let moved = set_base_addr b seg in
    let down = set_size (u64 (moved.size + (moved.base_addr - b))) moved in
    if contains seg b
    then some (seg.base_addr, (if contains seg top then seg else up) ∷ segs)
    else if contains seg top
    then some (b, down ∷ segs)
    else rest

-- `AddRoundedMemSeg` after that loop.
unfoldable pub add_missing : Option (ℕ × List MemSegment) → ℕ → ℕ → RevMem → ℕ × RevMem
add_missing none b size s = add_mem_seg_at b size s
add_missing (some r) b size s = (r.0, record s { mem_segs = r.1 })

unfoldable pub add_rounded_mem_seg : ℕ → ℕ → ℕ → RevMem → Option (ℕ × RevMem)
unfolding widen add_missing
add_rounded_mem_seg b n unit s =
    let size = rounded n unit in
    let added = add_missing (widen b (u64 (b + size)) s.mem_segs) b size s in
    if unit == 0 then none else some added

-- `ExpandHeap`.
unfoldable pub expand_heap : ℕ → RevMem → Option (ℕ × RevMem)
expand_heap n s =
    let new_heap_end = u64 (s.heapend + n) in
    if ltb s.max_heap_size new_heap_end
    then none
    else some (new_heap_end, record s { heapend = new_heap_end })

-- `InitHeap`.
unfoldable pub init_heap : ℕ → RevMem → Option RevMem
init_heap end_of_static_data s =
    let first = u64 (end_of_static_data + 1) in
    if end_of_static_data == 0
    then none
    else some (record s {
      free_mem_segs = s.free_mem_segs ++ (segment first s.max_heap_size ∷ []);
      heapend = first;
      heapstart = first;
    })

-- The loop of `AllocMem` over the free segments: the first that is large enough.
unfoldable pub take_free : ℕ → List MemSegment → Option (ℕ × List MemSegment)
take_free n [] = none
take_free n (seg ∷ segs) =
    let rest = take_free n segs >>= λ r. some (r.0, seg ∷ r.1) in
    let shrunk = set_size (seg.size - n) (set_base_addr (u64 (seg.base_addr + n)) seg) in
    if ltb n seg.size
    then some (seg.base_addr, shrunk ∷ segs)
    else if seg.size == n
    then some (seg.base_addr, segs)
    else rest

-- `AllocMem`, by what that loop gives.
unfoldable pub place : Option (ℕ × List MemSegment) → ℕ → RevMem → Option (ℕ × RevMem)
unfolding expand_heap
place (some r) n s =
    some (r.0, record s { mem_segs = s.mem_segs ++ (segment r.0 n ∷ []); free_mem_segs = r.1 })
place none n s =
    expand_heap n (record s { mem_segs = s.mem_segs ++ (segment s.heapend n ∷ []) }) >>= λ grown.
    some (s.heapend, grown.1)

unfoldable pub alloc_mem : ℕ → RevMem → Option (ℕ × RevMem)
unfolding place take_free
alloc_mem n s = place (take_free n s.free_mem_segs) n s

-- The four cases of `AllocMemAt` for a free segment that holds the range; `segs` follow it.
unfoldable pub carve : ℕ → ℕ → MemSegment → List MemSegment → List MemSegment
carve b n seg segs =
    let top = u64 (b + n) in
    let upper = segment top (u64 (get_top_addr seg + 2 ^ 64 - top)) in
    if (seg.base_addr != b) && (get_top_addr seg != top)
    then set_size (u64 (b + 2 ^ 64 - seg.base_addr)) seg ∷ (segs ++ (upper ∷ []))
    else if (seg.base_addr == b) && (get_top_addr seg != top)
    then set_base_addr top seg ∷ segs
    else if (seg.base_addr != b) && (get_top_addr seg == top)
    then set_size (u64 (seg.size + 2 ^ 64 - n)) seg ∷ segs
    else segs

-- The loop of `AllocMemAt` over the free segments.
unfoldable pub carve_free : ℕ → ℕ → List MemSegment → Option (List MemSegment)
unfolding carve
carve_free b n [] = none
carve_free b n (seg ∷ segs) =
    let rest = carve_free b n segs >>= λ r. some (seg ∷ r) in
    if contains_range seg b n then some (carve b n seg segs) else rest

-- `ret = BaseAddr` and its return: an `int`, widened to 64 bits.
abbrev pub as_int : ℕ → ℕ
as_int b = if ltb (u32 b) (2 ^ 31) then u32 b else u32 b + (2 ^ 64 - 2 ^ 32)

-- The test of `AllocMemAt` against the allocated segments.
unfoldable pub overlaps : ℕ → ℕ → List MemSegment → Bool
overlaps b n [] = false
overlaps b n (seg ∷ segs) = (contains seg b || contains seg (u64 (b + n))) || overlaps b n segs

-- `AllocMemAt` after its first loop.
unfoldable pub settle : Option (List MemSegment) → ℕ → ℕ → RevMem → Option (ℕ × RevMem)
unfolding overlaps
settle none b n s = some (0, s)
settle (some free) b n s =
    let s' = record s { free_mem_segs = free } in
    if as_int b == 0
    then some (0, s')
    else if overlaps b n s.mem_segs
    then none
    else some (as_int b, record s' { mem_segs = s.mem_segs ++ (segment b n ∷ []) })

unfoldable pub alloc_mem_at : ℕ → ℕ → RevMem → Option (ℕ × RevMem)
unfolding carve_free settle
alloc_mem_at b n s = settle (carve_free b n s.free_mem_segs) b n s

-- The loop of `DeallocMem` over the allocated segments.
pub data Released : Type 0 where
  not_found : Released
  beyond : Released
  released : List MemSegment → Released

abbrev pub behind : MemSegment → Released → Released
behind seg not_found = not_found
behind seg beyond = beyond
behind seg (released segs) = released (seg ∷ segs)

unfoldable pub release : ℕ → ℕ → List MemSegment → Released
release b n [] = not_found
release b n (seg ∷ segs) =
    let rest = behind seg (release b n segs) in
    let shrunk = set_size (seg.size - n) (set_base_addr (u64 (b + n)) seg) in
    if seg.base_addr != b
    then rest
    else if ltb seg.size n
    then beyond
    else if ltb n seg.size
    then released (shrunk ∷ segs)
    else released segs

-- The loop of `DeallocMem` over the free segments, with the segment it adds where none is merged.
unfoldable pub merge_free : ℕ → ℕ → List MemSegment → List MemSegment
merge_free b n [] = segment b n ∷ []
merge_free b n (seg ∷ segs) =
    let rest = seg ∷ merge_free b n segs in
    if contains seg (u64 (b + 2 ^ 64 - 1)) then set_size (u64 (seg.size + n)) seg ∷ segs else rest

-- `DeallocMem`, by what its first loop gives: -1 where it finds no segment.
unfoldable pub give_back : Released → ℕ → ℕ → RevMem → Option (ℕ × RevMem)
unfolding merge_free
give_back not_found b n s = some (2 ^ 64 - 1, s)
give_back beyond b n s = none
give_back (released segs) b n s =
    some (0, record s { mem_segs = segs; free_mem_segs = merge_free b n s.free_mem_segs })

unfoldable pub dealloc_mem : ℕ → ℕ → RevMem → Option (ℕ × RevMem)
unfolding give_back release
dealloc_mem b n s = give_back (release b n s.mem_segs) b n s
