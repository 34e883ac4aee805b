-- ===== src/Mem/Segments/Accounting.antt =====
-- How many segments hold an address, and what makes the two segment lists a heap.
use rev.Prelude.{
  All-append, ℕ, ◌+◌, ◌^◌, ◌≤◌, ◌<◌, ◌≡◌, arith, List, [], ◌∷◌, ◌++◌, ◌&&◌, leb, ltb, if◌then◌else◌,
  All,
}
use rev.Mem.Paging.{MemSegment, contains, RevMem}

-- One where `v` lies in the `n` bytes from `b`.
abbrev pub inside : ℕ → ℕ → ℕ → ℕ
inside v b n = if leb b v && ltb v (b + n) then 1 else 0

-- The number of segments that hold `v`.
unfoldable pub covered : ℕ → List MemSegment → ℕ
covered v [] = 0
covered v (seg ∷ segs) = (if contains seg v then 1 else 0) + covered v segs

-- A segment whose top address is its end, below 2 ^ 64.
pub record IsSegment (seg : MemSegment) : Type 0 where
  pub top : seg.top_addr ≡ seg.base_addr + seg.size
  pub fits : seg.base_addr + seg.size < 2 ^ 64

-- No address is in two segments, allocated or free.
pub record IsHeap (s : RevMem) : Type 0 where
  pub mem : All IsSegment s.mem_segs
  pub free : All IsSegment s.free_mem_segs
  pub disjoint : (v : ℕ) → covered v s.mem_segs + covered v s.free_mem_segs ≤ 1

pub covered-append :
    (v : ℕ) (xs ys : List MemSegment) → covered v (xs ++ ys) ≡ covered v xs + covered v ys
unfolding covered
covered-append v [] ys = omega arith
covered-append v (x ∷ xs) ys = omega (arith, covered-append v xs ys)

-- A new last segment.
pub covered-snoc :
    (v : ℕ) (segs : List MemSegment) (seg : MemSegment)
    → IsSegment seg
    → covered v (segs ++ (seg ∷ [])) ≡ covered v segs + inside v seg.base_addr seg.size
unfolding covered
covered-snoc v segs seg h = ground (arith, covered-append v segs (seg ∷ []), h.top)

pub All-snoc :
    (segs : List MemSegment) (seg : MemSegment)
    → All IsSegment segs
    → IsSegment seg
    → All IsSegment (segs ++ (seg ∷ []))
All-snoc segs seg hs h = All-append IsSegment segs (seg ∷ []) hs (h, tt)
