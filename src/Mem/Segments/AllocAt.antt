-- ===== src/Mem/Segments/AllocAt.antt =====
-- `AllocMemAt` cuts its bytes out of a free segment, except at the start of a longer one.
use rev.Prelude.{ℕ, ◌+◌, ◌-◌, ◌^◌, ◌<◌, ◌≡◌, List, [], ◌∷◌, some, ◌||◌, Bool, true, false, All}
use rev.Mem.Paging.{MemSegment}
use rev.Mem.Segments.{segment, contains_range, carve_free}
use rev.Mem.Segments.Accounting.{IsSegment}
use rev.Mem.Segments.Alloc.{Taken}

unfoldable pub holds_range : ℕ → ℕ → List MemSegment → Bool
holds_range b n [] = false
holds_range b n (seg ∷ segs) = contains_range seg b n || holds_range b n segs

-- A free segment that holds the range does not begin with it, or is the range.
unfoldable pub NotPrefix : ℕ → ℕ → MemSegment → Type 0
NotPrefix b n seg = contains_range seg b n ≡ true → seg.base_addr ≡ b → seg.size ≡ n

module _ (b n : ℕ) (some_bytes : 0 < n) (room : b + n < 2 ^ 64) where
  -- The part of a free segment below the range, and above it.
  module _ (seg : MemSegment) (segs : List MemSegment) (h : IsSegment seg) (hs : All IsSegment segs)
      (held : contains_range seg b n ≡ true) where
    lower : MemSegment
    lower = segment seg.base_addr (b - seg.base_addr)

    upper : MemSegment
    upper = segment (b + n) (seg.top_addr - (b + n))

  CarvedBy : List MemSegment → Type 0
  CarvedBy segs = (left : List MemSegment) × (carve_free b n segs ≡ some left) × Taken n segs b left
