-- ===== src/Mem/Segments/Rounded.antt =====
-- `AddRoundedMemSeg` on segments that do not reach into each other from below.
use rev.Prelude.{
  All-append, ℕ, ◌+◌, ◌-◌, ◌^◌, ◌%◌, ◌/◌, ◌*◌, ◌≤◌, ◌<◌, ◌≡◌, refl, arith, List, [], ◌∷◌, ◌++◌,
  Option, some, none, ◌==◌, ◌>>=◌, ◌||◌, true, if◌then◌else◌, All, Bool-cases, inl, inr,
}
use native.Mathlib.Nat.{div-add-mod, mul-add-mod_self_left, mod_self, mod-eq_of_lt, mod-lt}
use rev.Mem.Paging.{MemSegment, contains, RevMem, in_segments}
use rev.Mem.Segments.{
  segment, set_size, get_top_addr, rounded, widen, add_missing, add_rounded_mem_seg,
}
use rev.Mem.Segments.Accounting.{IsSegment}
use rev.Mem.Segments.Alloc.{segment-IsSegment}

-- Rounding gives the least multiple of the unit that is not below the size.
next_multiple : (n unit : ℕ) → (n + unit - n % unit) % unit ≡ 0
next_multiple n unit =
    let e : n + unit - n % unit ≡ unit * (n / unit) + unit = omega (arith, div-add-mod n unit) in
    rw (e, mul-add-mod_self_left unit (n / unit) unit, mod_self unit) refl

rounded_lem :
    (n unit : ℕ)
    → 0 < unit
    → n + unit < 2 ^ 64
    → (rounded n unit % unit ≡ 0) × (n ≤ rounded n unit) × (rounded n unit < n + unit)
rounded_lem n unit h room = elim (Bool-cases (n % unit == 0)) [
  | inl whole ↦ rw whole (ground arith, omega arith, omega (arith, h))
  | inr part ↦
      let small : n + unit - n % unit < 2 ^ 64 = omega (arith, room) in
      rw (part, mod-eq_of_lt small, next_multiple n unit)
        (refl, omega (arith, mod-lt n h), ground arith)
]

-- What `widen` and the segment added where it finds none leave.
pub record Widened (b top : ℕ) (segs left : List MemSegment) : Type 0 where
  pub rest : All IsSegment left
  pub new : (v : ℕ) → b ≤ v → v < top → in_segments left v ≡ true
  pub old : (v : ℕ) → in_segments segs v ≡ true → in_segments left v ≡ true

-- No segment holds the top address and not the base.
unfoldable pub NoneBelow : ℕ → ℕ → MemSegment → Type 0
NoneBelow b top seg = contains seg top ≡ true → contains seg b ≡ true

-- A search that finds nothing leaves the base in no segment.
module _ (b top : ℕ) where
  here-Widened :
      (seg : MemSegment) (segs : List MemSegment)
      → IsSegment seg
      → All IsSegment segs
      → b ≤ top
      → top < 2 ^ 64
      → contains seg b ≡ true
      → Widened b top (seg ∷ segs) (
          (if contains seg top
            then seg
            else set_size ((seg.size + (top + 2 ^ 64 - get_top_addr seg)) % 2 ^ 64) seg)
          ∷ segs)
  unfolding in_segments
  here-Widened seg segs h hs le room e = elim (Bool-cases (contains seg top)) [
    | inl t ↦
        rw t (record { rest = (h, hs); new = λ v hb ht. ground (arith, e, t); old = λ v hv. hv })
    | inr f ↦ rw f (record {
      rest = (
        record {
          top = ground (arith, h.top, h.fits, e, f);
          fits = ground (arith, h.top, h.fits, e, f);
        },
        hs,
      );
      new = λ v hb ht. ground (arith, h.top, h.fits, e, f);
      old = λ v hv. ground (arith, h.top, h.fits, e, f, hv);
    })
  ]

  later-Widened :
      (seg : MemSegment) (segs left : List MemSegment)
      → IsSegment seg
      → Widened b top segs left
      → Widened b top (seg ∷ segs) (seg ∷ left)
  unfolding in_segments
  later-Widened seg segs left h w = record {
    rest = (h, w.rest);
    new = λ v hb ht. ground (arith, w.new v hb ht);
    old = λ v hv. ground (arith, w.old v, hv);
  }

Outcome : ℕ → ℕ → List MemSegment → Option (ℕ × List MemSegment) → Type 0
Outcome b top segs none = Unit {0}
Outcome b top segs (some r) = Widened b top segs r.1

later-Outcome :
    (b top : ℕ) (seg : MemSegment) (segs : List MemSegment) (found : Option (ℕ × List MemSegment))
    → IsSegment seg
    → Outcome b top segs found
    → Outcome b top (seg ∷ segs) (found >>= λ r. some (r.0, seg ∷ r.1))
unfolding Outcome
later-Outcome b top seg segs none h w = tt
later-Outcome b top seg segs (some r) h w = later-Widened b top seg segs r.1 h w

widen-Outcome :
    (b top : ℕ) (segs : List MemSegment)
    → All IsSegment segs
    → All (NoneBelow b top) segs
    → b ≤ top
    → top < 2 ^ 64
    → Outcome b top segs (widen b top segs)
unfolding widen Outcome NoneBelow
widen-Outcome b top [] hs fs le room = tt
widen-Outcome b top (seg ∷ segs) (h, hs) (f, fs) le room = elim (Bool-cases (contains seg b)) [
  | inl here ↦ rw here (here-Widened b top seg segs h hs le room here)
  | inr other ↦ elim (Bool-cases (contains seg top)) [
    | inl above ↦ absurd (ground (arith, f above, other))
    | inr below ↦
        rw (other, below)
          (later-Outcome b top seg segs (widen b top segs) h
            (widen-Outcome b top segs hs fs le room))
  ]
]

-- in_segments of a new last segment.
in_segments-append :
    (v : ℕ) (xs ys : List MemSegment)
    → in_segments (xs ++ ys) v ≡ (in_segments xs v || in_segments ys v)
unfolding in_segments
in_segments-append v [] ys = refl
in_segments-append v (x ∷ xs) ys = ground (arith, in_segments-append v xs ys)

appended-Widened :
    (b size : ℕ) (segs : List MemSegment)
    → All IsSegment segs
    → b + size < 2 ^ 64
    → Widened b (b + size) segs (segs ++ (segment b size ∷ []))
unfolding in_segments
appended-Widened b size segs hs room = record {
  rest = All-append IsSegment segs (segment b size ∷ []) hs (segment-IsSegment b size room, tt);
  new = λ v hb ht. ground (arith, in_segments-append v segs (segment b size ∷ []));
  old = λ v hv. ground (arith, in_segments-append v segs (segment b size ∷ []));
}

added-Widened :
    (found : Option (ℕ × List MemSegment)) (b size : ℕ) (s : RevMem)
    → All IsSegment s.mem_segs
    → b + size < 2 ^ 64
    → Outcome b (b + size) s.mem_segs found
    → Widened b (b + size) s.mem_segs (add_missing found b size s).1.mem_segs
unfolding add_missing Outcome
added-Widened none b size s hs room w = appended-Widened b size s.mem_segs hs room
added-Widened (some r) b size s hs room w = w

-- AddRoundedMemSeg for a unit above 0, sizes that do not wrap and no segment that holds the rounded
-- top and not the base: it rounds up to the least multiple, every address of the rounded range is in
-- a segment afterwards, every address that was in one still is, and the segments stay well formed.
pub add_rounded_mem_seg-Widened :
    (b n unit : ℕ) (s : RevMem)
    → 0 < unit
    → b + n + unit < 2 ^ 64
    → All IsSegment s.mem_segs
    → All (NoneBelow b (b + rounded n unit)) s.mem_segs
    → (base : ℕ) × (s' : RevMem) × (add_rounded_mem_seg b n unit s ≡ some (base, s'))
      × Widened b (b + rounded n unit) s.mem_segs s'.mem_segs
      × (rounded n unit % unit ≡ 0)
      × (n ≤ rounded n unit)
      × (rounded n unit < n + unit)
unfolding add_rounded_mem_seg
add_rounded_mem_seg-Widened b n unit s h room hs fs =
    let (multiple, least, above) = rounded_lem n unit h (omega (arith, room)) in
    let size = rounded n unit in
    let found = widen b (b + size) s.mem_segs in
    let r = add_missing found b size s in
    (
      r.0,
      r.1,
      ground (arith, above, room),
      added-Widened found b size s hs (omega (arith, above, room))
          (widen-Outcome b (b + size) s.mem_segs hs fs (omega arith) (omega (arith, above, room))),
      multiple,
      least,
      above,
    )
