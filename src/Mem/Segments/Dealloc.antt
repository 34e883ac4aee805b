-- ===== src/Mem/Segments/Dealloc.antt =====
-- `DeallocMem` gives the bytes back to the free segments, and undoes `AllocMem`.
use rev.Prelude.{
  ℕ, ◌+◌, ◌-◌, ◌^◌, ◌%◌, ◌≤◌, ◌<◌, ◌≡◌, ◌⊎◌, refl, ◌∙◌, ap, arith, List, [], ◌∷◌, ◌++◌, Option,
  some, none, ◌==◌, ltb, true, if◌then◌else◌, All, Bool-cases, Option-cases, inl, inr,
}
use rev.Mem.Paging.{MemSegment, contains, RevMem}
use rev.Mem.Segments.{
  segment, set_base_addr, set_size, release, not_found, beyond, released, merge_free, give_back,
  dealloc_mem, alloc_mem,
}
use rev.Mem.Segments.Accounting.{inside, covered, IsSegment, IsHeap}
use rev.Mem.Segments.Alloc.{segment-IsSegment, Allocated, Moved, fits_free, alloc_mem-Allocated}

-- The size of the first segment that begins at `b`.
unfoldable pub first_size : ℕ → List MemSegment → Option ℕ
first_size b [] = none
first_size b (seg ∷ segs) =
    let rest = first_size b segs in if seg.base_addr == b then some seg.size else rest

-- What the loop over the allocated segments leaves.
pub record Left (b n : ℕ) (segs left : List MemSegment) : Type 0 where
  pub rest : All IsSegment left
  pub room : b + n < 2 ^ 64
  pub counted : (v : ℕ) → covered v left + inside v b n ≡ covered v segs

module _ (b n : ℕ) (seg : MemSegment) (segs : List MemSegment) (h : IsSegment seg)
    (hs : All IsSegment segs) where
  part-Left :
      seg.base_addr ≡ b
      → n < seg.size
      → Left b n
          (seg ∷ segs)
          (set_size (seg.size - n) (set_base_addr ((b + n) % 2 ^ 64) seg) ∷ segs)
  unfolding covered
  part-Left e lt = record {
    rest = (record { top = ground (arith, h.top, h.fits); fits = ground (arith, h.fits) }, hs);
    room = omega (arith, h.fits);
    counted = λ v. ground (arith, h.top, h.fits);
  }

  whole-Left : seg.base_addr ≡ b → seg.size ≡ n → Left b n (seg ∷ segs) segs
  unfolding covered
  whole-Left eb en = record {
    rest = hs;
    room = omega (arith, h.fits);
    counted = λ v. ground (arith, h.top);
  }

  later-Left : (left : List MemSegment) → Left b n segs left → Left b n (seg ∷ segs) (seg ∷ left)
  unfolding covered
  later-Left left t = record {
    rest = (h, t.rest);
    room = t.room;
    counted = λ v. omega (arith, t.counted v);
  }

release-not_found :
    (b n : ℕ) (segs : List MemSegment) → first_size b segs ≡ none → release b n segs ≡ not_found
unfolding release first_size
release-not_found b n [] e = refl
release-not_found b n (seg ∷ segs) e = elim (Bool-cases (seg.base_addr == b)) [
  | inl here ↦ absurd (ground arith)
  | inr other ↦ rw (release-not_found b n segs (ground arith)) (ground arith)
]

release-beyond :
    (b n m : ℕ) (segs : List MemSegment)
    → first_size b segs ≡ some m
    → m < n
    → release b n segs ≡ beyond
unfolding release first_size
release-beyond b n m [] e lt = absurd (ground arith)
release-beyond b n m (seg ∷ segs) e lt = elim (Bool-cases (seg.base_addr == b)) [
  | inl here ↦ ground arith
  | inr other ↦ rw (release-beyond b n m segs (ground arith) lt) (ground arith)
]

ReleasedBy : ℕ → ℕ → List MemSegment → Type 0
ReleasedBy b n segs =
    (left : List MemSegment) × (release b n segs ≡ released left) × Left b n segs left

release-Left :
    (b n m : ℕ) (segs : List MemSegment)
    → All IsSegment segs
    → first_size b segs ≡ some m
    → n ≤ m
    → ReleasedBy b n segs
unfolding release first_size ReleasedBy
release-Left b n m [] hs e le = absurd (ground arith)
release-Left b n m (seg ∷ segs) (h, hs) e le = elim (Bool-cases (seg.base_addr == b)) [
  | inl here ↦ elim (Bool-cases (ltb n seg.size)) [
    | inl lt ↦ (
      set_size (seg.size - n) (set_base_addr ((b + n) % 2 ^ 64) seg) ∷ segs,
      ground arith,
      part-Left b n seg segs h hs (ground arith) (ground arith),
    )
    | inr ge ↦ (segs, ground arith, whole-Left b n seg segs h hs (ground arith) (ground arith))
  ]
  | inr other ↦
      let (left, found, t) = release-Left b n m segs hs (ground arith) le in
      (seg ∷ left, rw found (ground arith), later-Left b n seg segs h hs left t)
]

merge_free-covered :
    (b n : ℕ) (segs : List MemSegment)
    → All IsSegment segs
    → b + n < 2 ^ 64
    → ((v : ℕ) → inside v b n + covered v segs ≤ 1)
    → (v : ℕ) → covered v (merge_free b n segs) ≡ covered v segs + inside v b n
unfolding merge_free covered
merge_free-covered b n [] hs room free v = ground arith
merge_free-covered b n (seg ∷ segs) (h, hs) room free v =
    let rest = merge_free-covered b n segs hs room (λ u. ground (arith, free u)) v in
    ground (arith, rest, h.top, h.fits, free b)

merge_free-IsSegment :
    (b n : ℕ) (segs : List MemSegment)
    → All IsSegment segs
    → b + n < 2 ^ 64
    → ((v : ℕ) → inside v b n + covered v segs ≤ 1)
    → All IsSegment (merge_free b n segs)
unfolding merge_free covered
merge_free-IsSegment b n [] hs room free = (segment-IsSegment b n room, tt)
merge_free-IsSegment b n (seg ∷ segs) (h, hs) room free =
    let rest = merge_free-IsSegment b n segs hs room (λ u. ground (arith, free u)) in
    elim (Bool-cases (contains seg ((b + 2 ^ 64 - 1) % 2 ^ 64))) [
      | inl near ↦ rw near (
        record {
          top = ground (arith, near, h.top, h.fits, free b);
          fits = ground (arith, near, h.top, h.fits, free b, room);
        },
        hs,
      )
      | inr far ↦ rw far (h, rest)
    ]

-- The bytes from `b` left the allocated segments for the free ones.
pub record Freed (s : RevMem) (b n : ℕ) (s' : RevMem) : Type 0 where
  pub heap : IsHeap s'
  pub owned : (v : ℕ) → covered v s'.mem_segs + inside v b n ≡ covered v s.mem_segs
  pub moved : Moved s s'
  pub others : record s' { mem_segs = s.mem_segs; free_mem_segs = s.free_mem_segs } ≡ s

module _ (b n : ℕ) (s : RevMem) (ok : IsHeap s) where
  given_back-Freed :
      (left : List MemSegment)
      → Left b n s.mem_segs left
      → Freed s b n (record s { mem_segs = left; free_mem_segs = merge_free b n s.free_mem_segs })
  unfolding Moved
  given_back-Freed left t =
      let unused : (v : ℕ) → inside v b n + covered v s.free_mem_segs ≤ 1 =
        λ v. omega (arith, t.counted v, ok.disjoint v) in
      let counted : (v : ℕ)
          → covered v (merge_free b n s.free_mem_segs) ≡ covered v s.free_mem_segs + inside v b n =
        merge_free-covered b n s.free_mem_segs ok.free t.room unused in
      record {
        heap = record {
          mem = t.rest;
          free = merge_free-IsSegment b n s.free_mem_segs ok.free t.room unused;
          disjoint = λ v. omega (arith, t.counted v, ok.disjoint v, counted v);
        };
        owned = t.counted;
        moved = λ v. omega (arith, t.counted v, counted v);
        others = refl;
      }

  pub dealloc_mem-Freed :
      (m : ℕ)
      → first_size b s.mem_segs ≡ some m
      → n ≤ m
      → (s' : RevMem) × (dealloc_mem b n s ≡ some (0, s')) × Freed s b n s'
  unfolding dealloc_mem give_back ReleasedBy
  dealloc_mem-Freed m e le =
      let (left, found, t) = release-Left b n m s.mem_segs ok.mem e le in
      (
        record s { mem_segs = left; free_mem_segs = merge_free b n s.free_mem_segs },
        rw found refl,
        given_back-Freed left t,
      )

  -- DeallocMem in a heap: where no allocated segment begins at the address it returns -1 and leaves
  -- the state; where the first that does is smaller it is fatal; otherwise it returns 0, the bytes
  -- are in one free segment more and in one allocated segment less, every other byte is as it was
  -- and no two segments overlap.
  pub dealloc_mem-cases :
      ((first_size b s.mem_segs ≡ none) × (dealloc_mem b n s ≡ some (2 ^ 64 - 1, s)))
      ⊎ ((m : ℕ) × (first_size b s.mem_segs ≡ some m) × (m < n) × (dealloc_mem b n s ≡ none))
      ⊎ ((m : ℕ) × (first_size b s.mem_segs ≡ some m)
          × (n ≤ m)
          × (s' : RevMem) × (dealloc_mem b n s ≡ some (0, s'))
          × Freed s b n s')
  unfolding dealloc_mem give_back
  dealloc_mem-cases = elim (Option-cases (first_size b s.mem_segs)) [
    | inl e ↦ inl (e, rw (release-not_found b n s.mem_segs e) refl)
    | inr (m, e) ↦ elim (Bool-cases (ltb m n)) [
      | inl lt ↦
          inr (inl (m, e, ground arith, rw (release-beyond b n m s.mem_segs e (ground arith)) refl))
      | inr ge ↦
          let (s', freed, f) = dealloc_mem-Freed m e (ground arith) in
          inr (inr (m, e, ground arith, s', freed, f))
    ]
  ]

-- A segment of the list begins at an address that it holds.
first_size-covered :
    (b m : ℕ) (segs : List MemSegment)
    → All IsSegment segs
    → All (λ seg. 0 < seg.size) segs
    → first_size b segs ≡ some m
    → 1 ≤ covered b segs
unfolding first_size covered
first_size-covered b m [] hs ps e = absurd (ground arith)
first_size-covered b m (seg ∷ segs) (h, hs) (p, ps) e = elim (Bool-cases (seg.base_addr == b)) [
  | inl here ↦ ground (arith, h.top)
  | inr other ↦ omega (arith, first_size-covered b m segs hs ps (ground arith))
]

first_size-append :
    (b n : ℕ) (segs : List MemSegment)
    → first_size b segs ≡ none
    → first_size b (segs ++ (segment b n ∷ [])) ≡ some n
unfolding first_size
first_size-append b n [] e = ground arith
first_size-append b n (seg ∷ segs) e = elim (Bool-cases (seg.base_addr == b)) [
  | inl here ↦ absurd (ground arith)
  | inr other ↦ rw (first_size-append b n segs (ground arith)) (ground arith)
]

-- Freeing what was just allocated.
module _ (n : ℕ) (s : RevMem) (ok : IsHeap s) (positive : All (λ seg. 0 < seg.size) s.mem_segs)
    (some_bytes : 0 < n) where
  new_first_size : (b : ℕ) (s' : RevMem) → Allocated s n b s' → first_size b s'.mem_segs ≡ some n
  new_first_size b s' a = elim (Option-cases (first_size b s.mem_segs)) [
    | inl e ↦ ap (first_size b) a.listed ∙ first_size-append b n s.mem_segs e
    | inr (m, e) ↦
        absurd (ground (arith, first_size-covered b m s.mem_segs ok.mem positive e, a.unused b))
  ]

  -- In a well-formed heap whose allocated segments are not empty, with a free segment that is large
  -- enough for the bytes asked for, of which there is one at least, AllocMem and then DeallocMem of what it returned both succeed, and each address is in as many
  -- allocated and in as many free segments as before.
  pub dealloc_mem-alloc_mem :
      fits_free n s.free_mem_segs ≡ true
      → (b : ℕ) × (s' : RevMem) × (s'' : RevMem) × (alloc_mem n s ≡ some (b, s'))
        × (dealloc_mem b n s' ≡ some (0, s''))
        × IsHeap s''
        × ((v : ℕ) → covered v s''.mem_segs ≡ covered v s.mem_segs)
        × ((v : ℕ) → covered v s''.free_mem_segs ≡ covered v s.free_mem_segs)
  unfolding Moved
  dealloc_mem-alloc_mem e =
      let (b, s', got, a, m) = alloc_mem-Allocated n s ok e in
      let (s'', freed, f) =
        dealloc_mem-Freed b n s' a.heap n (new_first_size b s' a) (omega arith) in
      (
        b,
        s',
        s'',
        got,
        freed,
        f.heap,
        λ v. omega (arith, f.owned v, a.owned v),
        λ v. omega (arith, f.owned v, a.owned v, f.moved v, m v),
      )
