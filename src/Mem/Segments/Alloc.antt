-- ===== src/Mem/Segments/Alloc.antt =====
-- `AllocMem` takes its bytes from the free segments, or from the end of the heap.
use rev.Prelude.{
  ℕ, ◌+◌, ◌-◌, ◌^◌, ◌%◌, ◌≤◌, ◌<◌, ◌≡◌, ◌⊎◌, refl, arith, List, [], ◌∷◌, ◌++◌, some, none, ◌==◌,
  ltb, leb, ◌||◌, Bool, true, false, All, Bool-cases, inl, inr,
}
use rev.Mem.Paging.{MemSegment, RevMem}
use rev.Mem.Segments.{segment, set_base_addr, set_size, take_free, place, alloc_mem, expand_heap}
use rev.Mem.Segments.Accounting.{inside, covered, IsSegment, IsHeap, covered-snoc, All-snoc}

-- What a successful search of the free segments leaves.
pub record Taken (n : ℕ) (segs : List MemSegment) (b : ℕ) (left : List MemSegment) : Type 0 where
  pub rest : All IsSegment left
  pub room : b + n < 2 ^ 64
  pub counted : (v : ℕ) → covered v left + inside v b n ≡ covered v segs

-- The first free segment of at least `n` bytes is used.
unfoldable pub fits_free : ℕ → List MemSegment → Bool
fits_free n [] = false
fits_free n (seg ∷ segs) = leb n seg.size || fits_free n segs

module _ (n : ℕ) (seg : MemSegment) (segs : List MemSegment) (h : IsSegment seg)
    (hs : All IsSegment segs) where
  shrunk-Taken :
      n < seg.size
      → Taken n
          (seg ∷ segs)
          seg.base_addr
          (set_size (seg.size - n) (set_base_addr ((seg.base_addr + n) % 2 ^ 64) seg) ∷ segs)
  unfolding covered
  shrunk-Taken lt = record {
    rest = (record { top = ground (arith, h.top, h.fits); fits = ground (arith, h.fits) }, hs);
    room = omega (arith, h.fits);
    counted = λ v. ground (arith, h.top, h.fits);
  }

  exact-Taken : seg.size ≡ n → Taken n (seg ∷ segs) seg.base_addr segs
  unfolding covered
  exact-Taken e = record {
    rest = hs;
    room = omega (arith, h.fits);
    counted = λ v. ground (arith, h.top);
  }

  later-Taken :
      (b : ℕ) (left : List MemSegment) → Taken n segs b left → Taken n (seg ∷ segs) b (seg ∷ left)
  unfolding covered
  later-Taken b left t = record {
    rest = (h, t.rest);
    room = t.room;
    counted = λ v. omega (arith, t.counted v);
  }

-- The search succeeds exactly where a free segment is large enough.
TakenBy : ℕ → List MemSegment → Type 0
TakenBy n segs =
    (b : ℕ) × (left : List MemSegment) × (take_free n segs ≡ some (b, left)) × Taken n segs b left

take_free-Taken :
    (n : ℕ) (segs : List MemSegment) → All IsSegment segs → fits_free n segs ≡ true → TakenBy n segs
unfolding take_free fits_free TakenBy
take_free-Taken n [] hs e = absurd (ground arith)
take_free-Taken n (seg ∷ segs) (h, hs) e = elim (Bool-cases (ltb n seg.size)) [
  | inl lt ↦ (_, _, rw lt refl, shrunk-Taken n seg segs h hs (ground arith))
  | inr ge ↦ elim (Bool-cases (seg.size == n)) [
    | inl eq ↦ (_, _, rw (ge, eq) refl, exact-Taken n seg segs h hs (ground arith))
    | inr ne ↦
        let (b, left, found, t) = take_free-Taken n segs hs (ground arith) in
        (b, seg ∷ left, rw (ge, ne, found) refl, later-Taken n seg segs h hs b left t)
  ]
]

take_free-none :
    (n : ℕ) (segs : List MemSegment) → fits_free n segs ≡ false → take_free n segs ≡ none
unfolding take_free fits_free
take_free-none n [] e = refl
take_free-none n (seg ∷ segs) e = rw (take_free-none n segs (ground arith)) (ground arith)

pub segment-IsSegment : (b n : ℕ) → b + n < 2 ^ 64 → IsSegment (segment b n)
segment-IsSegment b n h = record { top = ground arith; fits = h }

-- The bytes from `b` are in one allocated segment more, and in no other segment; the rest is as it
-- was.
pub record Allocated (s : RevMem) (n b : ℕ) (s' : RevMem) : Type 0 where
  pub heap : IsHeap s'
  pub listed : s'.mem_segs ≡ s.mem_segs ++ (segment b n ∷ [])
  pub owned : (v : ℕ) → covered v s'.mem_segs ≡ covered v s.mem_segs + inside v b n
  pub unused : (v : ℕ) → inside v b n + covered v s.mem_segs ≤ 1
  pub others :
      record s' { mem_segs = s.mem_segs; free_mem_segs = s.free_mem_segs; heapend = s.heapend } ≡ s

-- The bytes came from the free segments.
unfoldable pub Moved : RevMem → RevMem → Type 0
Moved s s' =
    (v : ℕ)
    → covered v s'.mem_segs + covered v s'.free_mem_segs
      ≡ covered v s.mem_segs + covered v s.free_mem_segs

module _ (n : ℕ) (s : RevMem) (ok : IsHeap s) where
  -- A segment of unused bytes put behind the allocated ones.
  pub appended-Allocated :
      (b heap_end : ℕ) (left : List MemSegment)
      → b + n < 2 ^ 64
      → All IsSegment left
      → ((v : ℕ) → inside v b n + covered v s.mem_segs + covered v left ≤ 1)
      → Allocated s n b (record s {
        mem_segs = s.mem_segs ++ (segment b n ∷ []);
        free_mem_segs = left;
        heapend = heap_end;
      })
  appended-Allocated b heap_end left room rest unused =
      let new = segment-IsSegment b n room in
      record {
        heap = record {
          mem = All-snoc s.mem_segs (segment b n) ok.mem new;
          free = rest;
          disjoint = λ v. omega (arith, unused v, covered-snoc v s.mem_segs (segment b n) new);
        };
        listed = refl;
        owned = λ v. covered-snoc v s.mem_segs (segment b n) new;
        unused = λ v. omega (arith, unused v);
        others = refl;
      }

  -- Where a free segment is large enough, AllocMem succeeds: the bytes it returns were in a free
  -- segment and in no allocated one, are now in one allocated segment, every other byte is as it was
  -- and no two segments overlap.
  pub alloc_mem-Allocated :
      fits_free n s.free_mem_segs ≡ true
      → (b : ℕ) × (s' : RevMem) × (alloc_mem n s ≡ some (b, s')) × Allocated s n b s' × Moved s s'
  unfolding alloc_mem place TakenBy Moved
  alloc_mem-Allocated e =
      let (b, left, found, t) = take_free-Taken n s.free_mem_segs ok.free e in
      let new = segment-IsSegment b n t.room in
      (
        b,
        record s { mem_segs = s.mem_segs ++ (segment b n ∷ []); free_mem_segs = left },
        rw found refl,
        appended-Allocated b s.heapend left t.room t.rest
            (λ v. omega (arith, t.counted v, ok.disjoint v)),
        λ v. omega (arith, covered-snoc v s.mem_segs (segment b n) new, t.counted v),
      )

  -- Where no free segment is large enough, the bytes at the end of the heap are unused and the sum
  -- does not wrap, AllocMem takes the bytes at the end of the heap and moves the end behind them, or
  -- is fatal, and it is fatal only where the heap would pass its maximum.
  pub alloc_mem-grown :
      fits_free n s.free_mem_segs ≡ false
      → s.heapend + n < 2 ^ 64
      → ((v : ℕ) → s.heapend ≤ v → covered v s.mem_segs + covered v s.free_mem_segs ≡ 0)
      → ((s.heapend + n ≤ s.max_heap_size)
          × (s' : RevMem) × (alloc_mem n s ≡ some (s.heapend, s'))
          × Allocated s n s.heapend s'
          × (s'.heapend ≡ s.heapend + n))
        ⊎ ((s.max_heap_size < s.heapend + n) × (alloc_mem n s ≡ none))
  unfolding alloc_mem place expand_heap
  alloc_mem-grown e small above = elim (Bool-cases (ltb s.max_heap_size (s.heapend + n))) [
    | inl full ↦ inr (ground arith, rw (take_free-none n s.free_mem_segs e) (ground arith))
    | inr room ↦ inl (
      ground arith,
      record s { mem_segs = s.mem_segs ++ (segment s.heapend n ∷ []); heapend = s.heapend + n },
      rw (take_free-none n s.free_mem_segs e) (ground arith),
      appended-Allocated s.heapend (s.heapend + n) s.free_mem_segs small ok.free
          (λ v. ground (arith, above v, ok.disjoint v)),
      refl,
    )
  ]
