-- ===== src/MemPort/Filled.antt =====
-- The port filled by `ReadMem` and `WriteMem` of src/RevMem.cc, without a memory controller; `draw` is
-- the draw of the host's `rand`.
use rev.Prelude.{ℕ, ◌+◌, ◌^◌, ◌<◌, ◌≤◌, ◌≡◌, refl, ◌∙◌, arith, some, ◌>>=◌, true}
use rev.MemPort.{MemPort}
use rev.Mem.Paging.{is_valid_virt_addr}
use rev.Mem.Paging.Translate.{IsCoherent, Translates}
use rev.Mem.Bytes.{Memory, read_mem, write_mem, finish_read}
use rev.Mem.Bytes.Copies.{translate_unique}
use rev.Mem.Bytes.RoundTrip.{CanAccess, located, taken_contents}
use rev.Mem.Amo.{word_of, byte_of}
use rev.Mem.Amo.Laws.{word_of-same}

abbrev taken_word : ℕ → (ℕ → ℕ) × Memory → Memory × ℕ
taken_word len r = (r.1, word_of len r.0)

unfoldable pub rev_mem : (ℕ → ℕ → Memory → Memory × ℕ) → MemPort Memory
rev_mem draw = record {
  read_val = λ hart addr len m. read_mem addr len (λ _. 0) m >>= (λ r. some (taken_word len r));
  write = λ hart addr len value m. write_mem addr len (byte_of value) m;
  fence_mem = λ hart m. m;
  rand_cost = draw;
}

-- The memory holds the bytes `code` at the addresses from `low` to `high`, all valid and all on pages
-- that have their frame, in a coherent state with two frames left.
pub record HoldsCode (code : ℕ → ℕ) (low high : ℕ) (m : Memory) : Type 0 where
  pub coherent : IsCoherent m.paging
  pub room : m.paging.next_page + 2 < 2 ^ 14
  pub valid : (v : ℕ) → low ≤ v → v < high → is_valid_virt_addr m.paging v ≡ true
  pub mapped : (v : ℕ) → low ≤ v → v < high → (q : ℕ) × Translates m.paging v q
  pub holds : (v q : ℕ) → low ≤ v → v < high → Translates m.paging v q → m.phys_mem q ≡ code v

module _ (draw : ℕ → ℕ → Memory → Memory × ℕ) (code : ℕ → ℕ) (low high : ℕ)
    (small : high < 2 ^ 50) where
  -- Every read of four bytes gives the word of the code, and the memory still holds it.
  pub read_val-HoldsCode :
      (hart a : ℕ) (m : Memory)
      → HoldsCode code low high m
      → low ≤ a
      → a + 4 ≤ high
      → (m' : Memory) × ((rev_mem draw).read_val hart a 4 m
          ≡ some (m', word_of 4 (λ k. code (a + k))))
        × HoldsCode code low high m'
  unfolding rev_mem read_mem finish_read
  read_val-HoldsCode hart a m ok lower upper =
      let can : CanAccess m.paging a 4 = record {
        room = ok.room;
        short = omega arith;
        nonempty = omega arith;
        fits = omega (arith, upper, small);
        valid = λ k h. ok.valid (a + k) (omega (arith, lower)) (omega (arith, h, upper));
      } in
      let (acc, e, loc) = located m.paging a 4 ok.coherent can in
      let steady =
        loc.steady (λ k h. ok.mapped (a + k) (omega (arith, lower)) (omega (arith, h, upper))) in
      let (bytes, m') = finish_read 4 (λ _. 0) m acc in
      let at : (k : ℕ) → k < 4 → bytes k ≡ code (a + k) = λ k h.
        let (q, tr) = ok.mapped (a + k) (omega (arith, lower)) (omega (arith, h, upper)) in
        taken_contents m a 4 (λ _. 0) acc loc (λ _. 0) k q h (loc.kept (a + k) q tr)
        ∙ ok.holds (a + k) q (omega (arith, lower)) (omega (arith, h, upper)) tr in
      (
        m',
        rw (e, word_of-same 4 bytes (λ k. code (a + k)) at) refl,
        record {
          coherent = loc.coherent;
          room = omega (arith, steady, ok.room);
          valid = λ v h h'. loc.same_valid v ∙ ok.valid v h h';
          mapped = λ v h h'. let (q, tr) = ok.mapped v h h' in (q, loc.kept v q tr);
          holds = λ v q h h' tr.
              let (p, old) = ok.mapped v h h' in
              let same = translate_unique acc.paging v q p tr (loc.kept v p old) in
              rw same (ok.holds v p h h' old);
        },
      )
