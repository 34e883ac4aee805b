-- ===== src/Mem/Amo/Laws.antt =====
-- What an atomic operation does to the bytes of the virtual memory.
use rev.Prelude.{
  ℕ, zero, suc, ◌+◌, ◌-◌, ◌^◌, ◌<◌, ◌≡◌, refl, ◌∙◌, arith, ltb, if◌then◌else◌, Bool-cases, inl, inr,
  Option, some, true,
}
use rev.Mem.Paging.{RevMem, is_valid_virt_addr}
use rev.Mem.Paging.Translate.{IsCoherent, Translates, calc_phys_addr-Translated}
use rev.Mem.Bytes.{Memory, Access, read_mem, write_mem, finish_read, finish_write}
use rev.Mem.Bytes.Copies.{Located}
use rev.Mem.Bytes.RoundTrip.{IsWritten, CanAccess, located, again, taken_contents, written_contents}
use rev.Mem.Amo.{
  AmoOp, amo_select, amo_apply, word_of, byte_of, operand_or, width, amo_with, amo_mem,
}

pub word_of-same : (n : ℕ) (a b : ℕ → ℕ) → ((k : ℕ) → k < n → a k ≡ b k) → word_of n a ≡ word_of n b
unfolding word_of
word_of-same zero a b same = refl
word_of-same (suc n) a b same =
    let low = word_of-same n a b (λ k h. same k (omega (arith, h))) in
    rw (low, same n (omega arith)) refl

-- Where the bytes of an access stand.
abbrev place : Access → ℕ → ℕ
place a k = if ltb k a.first then a.phys + k else a.adj_phys + (k - a.first)

place-Translates :
    (s : RevMem) (addr len : ℕ) (a : Access)
    → Located s addr len a
    → (k : ℕ) → k < len
    → Translates a.paging (addr + k) (place a k)
place-Translates s addr len a loc k h = elim (Bool-cases (ltb k a.first)) [
  | inl low ↦ rw low (loc.near k (ground arith))
  | inr high ↦
      let j = k - a.first in
      let back : addr + a.first + j ≡ addr + k = ground arith in
      rw high (rw back at (loc.far j (ground (arith, loc.whole))))
]

-- The states `s` and `t` around an atomic operation that leaves `value` in the `len` bytes from
-- `addr`, which held the word `old`; everything else is kept.
pub record IsUpdated (s : Memory) (addr len old value : ℕ) (t : Memory) : Type 0 where
  pub at : ℕ → ℕ
  pub translated : (k : ℕ) → k < len → Translates t.paging (addr + k) (at k)
  pub was : old ≡ word_of len (λ k. s.phys_mem (at k))
  pub writes : IsWritten s addr len (byte_of value) t

module _ (s : Memory) (addr len : ℕ) (operand : Option ℕ) (op : AmoOp) (ok : IsCoherent s.paging)
    (can : CanAccess s.paging addr len) (room : s.paging.next_page + 5 < 2 ^ 14) where
  updated :
      (p : RevMem)
      → IsCoherent p
      → CanAccess p addr len
      → p.next_page + 4 < 2 ^ 14
      → ((u q : ℕ) → Translates s.paging u q → Translates p u q)
      → (old : ℕ) × (t : Memory) × (amo_with (some op) addr len operand (record s { paging = p })
          ≡ some (some (amo_apply op (width len) old (operand_or operand old)), t))
        × IsUpdated s addr len old (amo_apply op (width len) old (operand_or operand old)) t
  unfolding amo_with read_mem write_mem finish_read finish_write
  updated p ok' can' room' kept =
      let before : Memory = record s { paging = p } in
      let (a, ea, la) = located p addr len ok' can' in
      let (b, eb, lb) = located a.paging addr len la.coherent (again p addr len a la can' room') in
      let (bytes, read) = finish_read len (λ _. 0) before a in
      let old = word_of len bytes in
      let value = amo_apply op (width len) old (operand_or operand old) in
      (
        old,
        finish_write addr len (byte_of value) read b,
        rw (ea, eb) refl,
        record {
          at = place a;
          translated = λ k h. lb.kept (addr + k) (place a k) (place-Translates p addr len a la k h);
          was =
              word_of-same len bytes (λ k. s.phys_mem (place a k))
                (λ k h.
                  taken_contents before addr len (byte_of value) a la (λ _. 0) k (place a k) h
                    (place-Translates p addr len a la k h));
          writes = record {
            coherent = lb.coherent;
            kept = λ u q tr. lb.kept u q (la.kept u q (kept u q tr));
            contents = written_contents read addr len (byte_of value) b lb;
          };
        },
      )

  -- In a coherent state with five frames left, an atomic operation whose flag is the first that is
  -- set, on valid addresses and fewer bytes than a page, succeeds: the bytes of the range, which made
  -- the word `old`, then hold the result of the operation on `old` and the operand, `Target` is left
  -- with that result, and every other translated byte and every translation is kept. Where the
  -- operand is `Target` itself the operation applies to `old` twice.
  pub amo_mem-IsUpdated :
      (flags : ℕ)
      → amo_select flags ≡ some op
      → (old : ℕ) × (t : Memory) × (amo_mem addr len operand flags s
          ≡ some (some (amo_apply op (width len) old (operand_or operand old)), t))
        × IsUpdated s addr len old (amo_apply op (width len) old (operand_or operand old)) t
  unfolding amo_mem
  amo_mem-IsUpdated flags selected =
      let first : addr + 0 ≡ addr = omega arith in
      let valid : is_valid_virt_addr s.paging addr ≡ true =
        rw first at (can.valid 0 can.nonempty) in
      let (phys, p, e, tr) =
        calc_phys_addr-Translated s.paging addr ok (omega (arith, room)) valid in
      let can' : CanAccess p addr len = record {
        room = omega (arith, room, tr.grown);
        short = can.short;
        nonempty = can.nonempty;
        fits = can.fits;
        valid = λ k h. tr.same_valid (addr + k) ∙ can.valid k h;
      } in
      rw (e, selected) (updated p tr.coherent can' (omega (arith, room, tr.grown)) tr.kept)
