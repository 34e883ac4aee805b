-- ===== src/Mem/Bytes/Copies.antt =====
-- A copy within a page, seen through the translation.
use rev.Prelude.{
  ℕ, zero, suc, ◌+◌, ◌-◌, ◌*◌, ◌/◌, ◌%◌, ◌^◌, ◌≤◌, ◌<◌, ◌≡◌, refl, sym, ◌∙◌, arith, ltb, leb, ◌==◌,
  ◌&&◌, if◌then◌else◌, Bool-cases, inl, inr, Option, some, none, true, false,
}
use rev.Word.{u32, u64, minus}
use rev.Mem.Paging.{RevMem, is_valid_virt_addr}
use rev.Mem.Paging.Translate.{
  IsCoherent, Translates, translate-injective, calc_phys_addr-Translated,
}
use rev.Mem.Bytes.{copy_bytes, index_page, end_of_page, Access, locate}

-- The bytes after a copy.
pub copy_bytes_lem :
    (n : ℕ) (target : ℕ → ℕ) (at : ℕ) (source : ℕ → ℕ) (from q : ℕ)
    → copy_bytes n target at source from q
      ≡ (if leb at q && ltb q (at + n) then source (from + (q - at)) else target q)
unfolding copy_bytes
copy_bytes_lem zero target at source from q = ground arith
copy_bytes_lem (suc n) target at source from q = grind (
  arith,
  copy_bytes_lem n (λ p. if p == at then source from else target p) (at + 1) source (from + 1) q,
)

-- What an access of `len` bytes at `addr` finds: translations are kept, and every byte of the range
-- lies in one of the two parts, the `first` bytes or the `span` bytes behind them.
pub record Located (s : RevMem) (addr len : ℕ) (a : Access) : Type 0 where
  pub coherent : IsCoherent a.paging
  pub kept : (u q : ℕ) → Translates s u q → Translates a.paging u q
  pub same_valid : (u : ℕ) → is_valid_virt_addr a.paging u ≡ is_valid_virt_addr s u
  pub grown : a.paging.next_page ≤ s.next_page + 2
  pub steady :
      ((k : ℕ) → k < len → (q : ℕ) × Translates s (addr + k) q) → a.paging.next_page ≡ s.next_page
  pub whole : a.first + a.span ≡ len
  pub near : (k : ℕ) → k < a.first → Translates a.paging (addr + k) (a.phys + k)
  pub far : (k : ℕ) → k < a.span → Translates a.paging (addr + a.first + k) (a.adj_phys + k)

-- The bytes of a page that follow a translated one.
page_run :
    (s : RevMem) (v p k : ℕ)
    → Translates s v p
    → v % 2 ^ 18 + k < 2 ^ 18
    → Translates s (v + k) (p + k)
page_run s v p k tr inside =
    let same : (v + k) / 2 ^ 18 ≡ v / 2 ^ 18 = omega arith in
    record { frame = tr.frame; mapped = rw same tr.mapped; place = omega (arith, tr.place) }

indexed :
    (o : Option ℕ) (frame page : ℕ) (s : RevMem) → o ≡ some frame → index_page o page s ≡ (frame, s)
unfolding index_page
indexed none frame page s e = absurd (grind arith)
indexed (some f) frame page s e = let same : f ≡ frame = ground arith in rw same refl

some-injective : {a b : ℕ} → some a ≡ some b → a ≡ b
some-injective e = ground arith

-- The arithmetic of an access whose first byte is at `p` in the frame `frame`.
module _ (frame addr len p : ℕ) (room : frame + 2 < 2 ^ 14)
    (place : p ≡ frame * 2 ^ 18 + addr % 2 ^ 18) (short : len < 2 ^ 18)
    (fits : addr + len < 2 ^ 50) where
  end_lem : end_of_page frame ≡ frame * 2 ^ 18 + 2 ^ 18
  end_lem = omega arith

  inside_lem : ltb (end_of_page frame) (u64 (p + len)) ≡ false → addr % 2 ^ 18 + len ≤ 2 ^ 18
  inside_lem e = ground (arith, end_lem)

  module _ (cross : ltb (end_of_page frame) (u64 (p + len)) ≡ true) where
    cross_lem : 2 ^ 18 < addr % 2 ^ 18 + len
    cross_lem = ground (arith, end_lem)

    span_lem : u32 (minus 64 (u64 (p + len)) (end_of_page frame)) ≡ addr % 2 ^ 18 + len - 2 ^ 18
    span_lem = rw end_lem (omega (arith, cross_lem))

    adj_lem :
        minus 64 (u64 (addr + len)) (addr % 2 ^ 18 + len - 2 ^ 18) ≡ addr + (2 ^ 18 - addr % 2 ^ 18)
    adj_lem = omega (arith, cross_lem)

    first_lem : minus 64 len (addr % 2 ^ 18 + len - 2 ^ 18) ≡ 2 ^ 18 - addr % 2 ^ 18
    first_lem = omega (arith, cross_lem)

    page_lem :
        u32 ((addr + (2 ^ 18 - addr % 2 ^ 18)) / 2 ^ 18)
        ≡ (addr + (2 ^ 18 - addr % 2 ^ 18)) / 2 ^ 18
    page_lem = omega (arith, cross_lem)

module _ (s : RevMem) (addr len : ℕ) (ok : IsCoherent s) (room : s.next_page + 2 < 2 ^ 14)
    (short : len < 2 ^ 18) (fits : addr + len < 2 ^ 50)
    (valid : (k : ℕ) → k < len → is_valid_virt_addr s (addr + k) ≡ true)
    (some_bytes : 0 < len) where
  pub locate-Located : (a : Access) × (locate addr len s ≡ some a) × Located s addr len a
  unfolding locate
  locate-Located =
      let at_zero : addr + 0 ≡ addr = omega arith in
      let here : is_valid_virt_addr s addr ≡ true = rw at_zero at (valid 0 some_bytes) in
      let (p, s1, e1, tr1) = calc_phys_addr-Translated s addr ok (omega arith) here in
      let frame = tr1.translates.frame in
      let mapped = tr1.translates.mapped in
      let place = tr1.translates.place in
      let at1 = indexed (s1.page_map (addr / 2 ^ 18)) frame (addr / 2 ^ 18) s1 mapped in
      let low : frame + 2 < 2 ^ 14 =
        omega (arith, room, tr1.grown, tr1.coherent.used (addr / 2 ^ 18) frame mapped) in
      elim (Bool-cases (ltb (end_of_page frame) (u64 (p + len)))) [
        | inl cross ↦
            let k0 = 2 ^ 18 - addr % 2 ^ 18 in
            let beyond = cross_lem frame addr len p low place short fits cross in
            let there : is_valid_virt_addr s1 (addr + k0) ≡ true =
              tr1.same_valid (addr + k0) ∙ valid k0 (omega arith) in
            let (p2, s2, e2, tr2) =
              calc_phys_addr-Translated s1 (addr + k0) tr1.coherent (omega (arith, room, tr1.grown))
                there in
            (
              record {
                paging = s2;
                phys = p;
                first = k0;
                adj_phys = p2;
                span = addr % 2 ^ 18 + len - 2 ^ 18;
              },
              rw
                  (
                    e1,
                    at1,
                    cross,
                    span_lem frame addr len p low place short fits cross,
                    adj_lem frame addr len p low place short fits cross,
                    first_lem frame addr len p low place short fits cross,
                    page_lem frame addr len p low place short fits cross,
                    e2,
                  )
                  refl,
              record {
                coherent = tr2.coherent;
                kept = λ u q tr. tr2.kept u q (tr1.kept u q tr);
                same_valid = λ u. tr2.same_valid u ∙ tr1.same_valid u;
                grown = omega (arith, tr1.grown, tr2.grown);
                steady = λ all.
                    let (q, at) = all 0 some_bytes in
                    let first = rw at_zero at at in
                    let (q2, at2) = all k0 (omega arith) in
                    let next = tr1.kept (addr + k0) q2 at2 in
                    tr2.steady next.frame next.mapped ∙ tr1.steady first.frame first.mapped;
                whole = omega arith;
                near = λ k h. page_run s2 addr p k (tr2.kept addr p tr1.translates) (omega arith);
                far = λ k h. page_run s2 (addr + k0) p2 k tr2.translates (omega arith);
              },
            )
        | inr inside ↦
            let fit = inside_lem frame addr len p low place short fits inside in
            (
              record { paging = s1; phys = p; first = len; adj_phys = 0; span = 0 },
              rw (e1, at1, inside) refl,
              record {
                coherent = tr1.coherent;
                kept = tr1.kept;
                same_valid = tr1.same_valid;
                grown = omega (arith, tr1.grown);
                steady = λ all.
                    let (q, at) = all 0 some_bytes in
                    let first = rw at_zero at at in tr1.steady first.frame first.mapped;
                whole = omega arith;
                near = λ k h. page_run s1 addr p k tr1.translates (omega arith);
                far = λ k h. absurd (omega arith);
              },
            )
      ]

-- A translation has one result.
pub translate_unique : (s : RevMem) (v p q : ℕ) → Translates s v p → Translates s v q → p ≡ q
translate_unique s v p q tp tq =
    let same : tp.frame ≡ tq.frame = some-injective (sym tp.mapped ∙ tq.mapped) in
    omega (arith, tp.place, tq.place)

-- A copy into translated bytes, seen at a translated byte.
pub copy_bytes-seen :
    (t : RevMem) (n v p : ℕ) (target source : ℕ → ℕ) (from u q : ℕ)
    → IsCoherent t
    → ((k : ℕ) → k < n → Translates t (v + k) (p + k))
    → Translates t u q
    → copy_bytes n target p source from q
      ≡ (if leb v u && ltb u (v + n) then source (from + (u - v)) else target q)
copy_bytes-seen t n v p target source from u q ok run tr =
    let copied = copy_bytes_lem n target p source from q in
    elim (Bool-cases (leb v u && ltb u (v + n))) [
      | inl inside ↦
          let k = u - v in
          let k_lt : k < n = ground arith in
          let same : v + k ≡ u = ground arith in
          let there = run k k_lt in
          let place : p + k ≡ q = translate_unique t u (p + k) q (rw same at there) tr in
          ground (arith, copied)
      | inr outside ↦ elim (Bool-cases (leb p q && ltb q (p + n))) [
        | inl hit ↦
            let k = q - p in
            let k_lt : k < n = ground arith in
            let same : p + k ≡ q = ground arith in
            let there = run k k_lt in
            let equal : v + k ≡ u = translate-injective t (v + k) u q ok (rw same at there) tr in
            absurd (ground arith)
        | inr miss ↦ rw (outside, copied, miss) refl
      ]
    ]
