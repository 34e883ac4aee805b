-- ===== src/Mem/Bytes/RoundTrip.antt =====
-- What `WriteMem` and `ReadMem` do to the bytes of the virtual memory.
use rev.Prelude.{
  ℕ, ◌+◌, ◌-◌, ◌^◌, ◌<◌, ◌≡◌, refl, ◌∙◌, arith, ltb, leb, ◌&&◌, if◌then◌else◌, Bool-cases, inl, inr,
  some, true,
}
use rev.Mem.Paging.{RevMem, is_valid_virt_addr}
use rev.Mem.Paging.Translate.{IsCoherent, Translates}
use rev.Mem.Bytes.{
  Memory, copy_bytes, Access, locate, write_mem, read_mem, finish_write, finish_read,
}
use rev.Mem.Bytes.Copies.{
  copy_bytes_lem, Located, locate-Located, translate_unique, copy_bytes-seen,
}

-- The state `t` has, at each translated address of the `len` bytes from `addr`, the byte of the
-- buffer, and at each other address the byte that was there; what was translated
-- still is.
pub record IsWritten (s : Memory) (addr len : ℕ) (bytes : ℕ → ℕ) (t : Memory) : Type 0 where
  pub coherent : IsCoherent t.paging
  pub kept : (u q : ℕ) → Translates s.paging u q → Translates t.paging u q
  pub contents :
      (u q : ℕ)
      → Translates t.paging u q
      → t.phys_mem q ≡ (if leb addr u && ltb u (addr + len) then bytes (u - addr) else s.phys_mem q)

-- The access of `len` bytes from `addr`: valid addresses, with two frames left and less than a page.
pub record CanAccess (s : RevMem) (addr len : ℕ) : Type 0 where
  pub room : s.next_page + 2 < 2 ^ 14
  pub short : len < 2 ^ 18
  pub nonempty : 0 < len
  pub fits : addr + len < 2 ^ 50
  pub valid : (k : ℕ) → k < len → is_valid_virt_addr s (addr + k) ≡ true

pub located :
    (s : RevMem) (addr len : ℕ)
    → IsCoherent s
    → CanAccess s addr len
    → (a : Access) × (locate addr len s ≡ some a) × Located s addr len a
located s addr len ok can =
    locate-Located s addr len ok can.room can.short can.fits can.valid can.nonempty

-- A byte seen after the copies of both parts.
two_parts :
    (addr n span len u : ℕ) (bytes : ℕ → ℕ) (old near far : ℕ)
    → n + span ≡ len
    → near ≡ (if leb addr u && ltb u (addr + n) then bytes (0 + (u - addr)) else old)
    → far
      ≡ (if leb (addr + n) u && ltb u (addr + n + span) then bytes (n + (u - (addr + n))) else near)
    → far ≡ (if leb addr u && ltb u (addr + len) then bytes (u - addr) else old)
two_parts addr n span len u bytes old near far whole e e' = grind (arith, whole, e, e')

module _ (s : Memory) (addr len : ℕ) (bytes : ℕ → ℕ) (a : Access)
    (loc : Located s.paging addr len a) where
  pub written_contents :
      (u q : ℕ)
      → Translates a.paging u q
      → copy_bytes a.span (copy_bytes a.first s.phys_mem a.phys bytes 0) a.adj_phys bytes a.first q
        ≡ (if leb addr u && ltb u (addr + len) then bytes (u - addr) else s.phys_mem q)
  written_contents u q tr =
      let first = copy_bytes a.first s.phys_mem a.phys bytes 0 in
      let near =
        copy_bytes-seen a.paging a.first addr a.phys s.phys_mem bytes 0 u q loc.coherent loc.near
          tr in
      let far =
        copy_bytes-seen a.paging a.span (addr + a.first) a.adj_phys first bytes a.first u q
          loc.coherent loc.far tr in
      two_parts addr a.first a.span len u bytes (s.phys_mem q) _ _ loc.whole near far

  pub taken_contents :
      (target : ℕ → ℕ) (k q : ℕ)
      → k < len
      → Translates a.paging (addr + k) q
      → copy_bytes a.span
          (copy_bytes a.first target 0 s.phys_mem a.phys)
          a.first
          s.phys_mem
          a.adj_phys
          k
        ≡ s.phys_mem q
  taken_contents target k q h tr =
      let first = copy_bytes a.first target 0 s.phys_mem a.phys in
      let near = copy_bytes_lem a.first target 0 s.phys_mem a.phys k in
      let far = copy_bytes_lem a.span first a.first s.phys_mem a.adj_phys k in
      elim (Bool-cases (ltb k a.first)) [
        | inl low ↦
            let same =
              translate_unique a.paging (addr + k) (a.phys + k) q (loc.near k (ground arith)) tr in
            grind (arith, near, far)
        | inr high ↦
            let j = k - a.first in
            let there = loc.far j (ground (arith, loc.whole)) in
            let back : addr + a.first + j ≡ addr + k = ground arith in
            let same =
              translate_unique a.paging (addr + k) (a.adj_phys + j) q (rw back at there) tr in
            grind (arith, far, loc.whole)
      ]

-- In a coherent state with two frames left, a write of `len` bytes, at least one and fewer than a page
-- (2^18), to valid addresses from `addr` below 2^50 succeeds, also across the end of a page: each
-- address of the range then holds its byte of the buffer, every other translated address holds what
-- it held, and no translation is lost.
pub write_mem-IsWritten :
    (s : Memory) (addr len : ℕ) (bytes : ℕ → ℕ)
    → IsCoherent s.paging
    → CanAccess s.paging addr len
    → (t : Memory) × (write_mem addr len bytes s ≡ some t) × IsWritten s addr len bytes t
unfolding write_mem finish_write
write_mem-IsWritten s addr len bytes ok can =
    let (a, e, loc) = located s.paging addr len ok can in
    (
      finish_write addr len bytes s a,
      rw e refl,
      record {
        coherent = loc.coherent;
        kept = loc.kept;
        contents = written_contents s addr len bytes a loc;
      },
    )

-- A state that differs in what the TLB and the page map hold, seen at the range.
pub again :
    (s : RevMem) (addr len : ℕ) (a : Access)
    → Located s addr len a
    → CanAccess s addr len
    → s.next_page + 4 < 2 ^ 14
    → CanAccess a.paging addr len
again s addr len a loc can more = record {
  room = omega (arith, loc.grown);
  short = can.short;
  nonempty = can.nonempty;
  fits = can.fits;
  valid = λ k h. loc.same_valid (addr + k) ∙ can.valid k h;
}

-- Every byte of a located access is translated.
pub placed :
    (s : RevMem) (addr len : ℕ) (a : Access)
    → Located s addr len a
    → (k : ℕ) → k < len
    → (q : ℕ) × Translates a.paging (addr + k) q
placed s addr len a loc k h = elim (Bool-cases (ltb k a.first)) [
  | inl low ↦ (a.phys + k, loc.near k (ground arith))
  | inr high ↦
      let j = k - a.first in
      let back : addr + a.first + j ≡ addr + k = ground arith in
      (a.adj_phys + j, rw back at (loc.far j (ground (arith, loc.whole))))
]

at_range :
    (addr len k : ℕ) (bytes : ℕ → ℕ) (old : ℕ)
    → k < len
    → (if leb addr (addr + k) && ltb (addr + k) (addr + len) then bytes (addr + k - addr) else old)
      ≡ bytes k
at_range addr len k bytes old h =
    let back : addr + k - addr ≡ k = omega arith in rw back (ground arith)

-- In a coherent state with four frames left, a read of the `len` bytes from `addr` after a write of
-- them gives the bytes written, for valid addresses and fewer bytes than a page, also across the end
-- of a page.
pub read_mem-write_mem :
    (s : Memory) (addr len : ℕ) (bytes target : ℕ → ℕ)
    → IsCoherent s.paging
    → CanAccess s.paging addr len
    → s.paging.next_page + 4 < 2 ^ 14
    → (t : Memory) × (result : ℕ → ℕ) × (t' : Memory) × (write_mem addr len bytes s ≡ some t)
      × (read_mem addr len target t ≡ some (result, t'))
      × ((k : ℕ) → k < len → result k ≡ bytes k)
unfolding write_mem read_mem finish_write finish_read
read_mem-write_mem s addr len bytes target ok can more =
    let (a, e, loc) = located s.paging addr len ok can in
    let (b, e', loc') =
      located a.paging addr len loc.coherent (again s.paging addr len a loc can more) in
    let t = finish_write addr len bytes s a in
    let read = finish_read len target t b in
    (
      t,
      read.0,
      read.1,
      rw e refl,
      rw e' refl,
      λ k h.
          let (q, tr) = placed s.paging addr len a loc k h in
          let taken =
            taken_contents t addr len bytes b loc' target k q h (loc'.kept (addr + k) q tr) in
          let written = written_contents s addr len bytes a loc (addr + k) q tr in
          taken ∙ written ∙ at_range addr len k bytes (s.phys_mem q) h,
    )
