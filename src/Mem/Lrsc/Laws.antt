-- ===== src/Mem/Lrsc/Laws.antt =====
-- Reservations are exclusive: an address has one at most, and a store that succeeds uses it up.
use rev.Prelude.{
  bind-some, some-injective, ℕ, ◌/◌, ◌^◌, ◌≤◌, ◌≡◌, ◌≢◌, inl, inr, refl, ap, arith, bit_and, Bool,
  true, false, ◌==◌, List, [], ◌∷◌, ◌++◌, Option, some, none, ◌>>=◌, if◌then◌else◌, Bool-cases,
}
use mathlib.Core.Path.{subst}
use rev.Mem.Paging.{RevMem, calc_phys_addr}
use rev.Mem.Bytes.{Memory, copy_bytes, write_mem}
use rev.Mem.Lrsc.{
  Reservation, Reserved, is_reserved, Linked, loaded, collides, lr_base, or_words, Stored, failed32,
  failed64, cleared, find_reservation, store_if, sc_found, sc_base,
}
use rev.Mem.Lrsc.Search.{
  count_addr, IsExclusive, is_reserved_lem, count_addr-append, find-Taken, find-none,
}

-- What a store conditional does: it fails and changes nothing, or it takes the reservation of the
-- hart for the address, and no other.
pub data Outcome (hart addr len : ℕ) (s : Reserved) : Stored → Reserved → Type 0 where
  fails : (o : Stored) → o ≢ cleared len → Outcome hart addr len s o s
  stores :
      (e : Reservation) (others : List Reservation) (m : Memory)
      → find_reservation hart addr s.lrsc ≡ some (e, others)
      → Outcome hart addr len s (cleared len) (record { memory = m; lrsc = others })

abbrev is_cleared : Stored → Bool
is_cleared (cleared n) = true
is_cleared _ = false

failed32-not : (n : ℕ) → failed32 ≢ cleared n
failed32-not n e = absurd (ground (arith, ap is_cleared e))

failed64-not : (n : ℕ) → failed64 ≢ cleared n
failed64-not n e = absurd (ground (arith, ap is_cleared e))

store-Outcome :
    (zero_test : Bool) (hart addr len : ℕ) (bytes : ℕ → ℕ) (e : Reservation)
    (others : List Reservation) (s s' : Reserved) (o : Stored)
    → find_reservation hart addr s.lrsc ≡ some (e, others)
    → store_if zero_test addr len bytes others s ≡ some (o, s')
    → Outcome hart addr len s o s'
unfolding store_if
store-Outcome true hart addr len bytes e others s s' o found h =
    let failure : Stored = if len == 32 then failed32 else failed64 in
    let not_cleared : failure ≢ cleared len = elim (Bool-cases (len == 32)) [
      | inl short ↦ rw short (failed32-not len)
      | inr long ↦ rw long (failed64-not len)
    ] in
    let pair = some-injective (failure, s) (o, s') h in
    subst (λ (p : Stored × Reserved). Outcome hart addr len s p.0 p.1) pair
      (fails failure not_cleared)
store-Outcome false hart addr len bytes e others s s' o found h =
    let (m, wrote, last) =
      bind-some (write_mem addr len bytes s.memory)
        (λ m. some (cleared len, record { memory = m; lrsc = others })) (o, s') h in
    let pair = some-injective (cleared len, record { memory = m; lrsc = others }) (o, s') last in
    subst (λ (p : Stored × Reserved). Outcome hart addr len s p.0 p.1) pair
      (stores e others m found)

module _ (target_words : ℕ → ℕ → Option ℕ) (data_words : ℕ → Option ℕ) where
  sc_found-Outcome :
      (found : Option (Reservation × List Reservation)) (hart addr len : ℕ) (bytes : ℕ → ℕ)
      (s s' : Reserved) (o : Stored)
      → find_reservation hart addr s.lrsc ≡ found
      → sc_found target_words data_words found addr len bytes s ≡ some (o, s')
      → Outcome hart addr len s o s'
  unfolding sc_found
  sc_found-Outcome none hart addr len bytes s s' o e h =
      let pair = some-injective (failed32, s) (o, s') h in
      subst (λ (p : Stored × Reserved). Outcome hart addr len s p.0 p.1) pair
        (fails failed32 (failed32-not len))
  sc_found-Outcome (some (e, others)) hart addr len bytes s s' o found h =
      let w = if len == 32 then 32 else 64 in
      let second = λ (a : ℕ).
        or_words len 0 w data_words 0
        >>= (λ b. store_if (bit_and a b == 0) addr len bytes others s) in
      let (a, ea, ha) = bind-some (or_words len 0 w (target_words e.val) 0) second (o, s') h in
      let (b, eb, hb) =
        bind-some (or_words len 0 w data_words 0)
          (λ b. store_if (bit_and a b == 0) addr len bytes others s) (o, s') ha in
      store-Outcome (bit_and a b == 0) hart addr len bytes e others s s' o found hb

  -- Every store conditional that returns either fails and changes nothing, or takes the reservation
  -- that its hart has for the address.
  pub sc_base-Outcome :
      (hart addr len : ℕ) (bytes : ℕ → ℕ) (s s' : Reserved) (o : Stored)
      → sc_base target_words data_words hart addr len bytes s ≡ some (o, s')
      → Outcome hart addr len s o s'
  unfolding sc_base
  sc_base-Outcome hart addr len bytes s s' o h =
      sc_found-Outcome (find_reservation hart addr s.lrsc) hart addr len bytes s s' o refl h

-- What an outcome leaves of the reservations.
reservations-IsExclusive :
    (hart addr len : ℕ) (s s' : Reserved) (o : Stored)
    → Outcome hart addr len s o s'
    → IsExclusive s
    → IsExclusive s'
unfolding IsExclusive
reservations-IsExclusive hart addr len s s' o (fails _ _) ok = ok
reservations-IsExclusive hart addr len s s' o (stores e others m found) ok =
    λ x. let t = find-Taken hart addr s.lrsc e others found in ground (arith, t.counts x, ok x)

lr_base-IsExclusive :
    (s s' : Reserved) (hart addr len order target : ℕ) (l : Linked)
    → IsExclusive s
    → lr_base hart addr len order target s ≡ some (l, s')
    → IsExclusive s'
unfolding lr_base IsExclusive
lr_base-IsExclusive s s' hart addr len order target l ok h =
    elim (Bool-cases (is_reserved addr s.lrsc)) [
      | inl held ↦
          let pair = some-injective (collides, s) (l, s') (rw held at h) in
          subst (λ (p : Linked × Reserved). IsExclusive p.1) pair ok
      | inr free ↦
          let entry : Reservation = record {
            hart = hart;
            addr = addr;
            order = order;
            val = target;
          } in
          let (found, e, last) =
            bind-some (calc_phys_addr (addr / 2 ^ 18) addr s.memory.paging)
              (λ (p : ℕ × RevMem). some (
                loaded (copy_bytes len (λ _. 0) 0 s.memory.phys_mem p.0),
                record { memory = record s.memory { paging = p.1 }; lrsc = s.lrsc ++ (entry ∷ []) },
              ))
              (l, s') (rw free at h) in
          let pair =
            some-injective
              (
                loaded (copy_bytes len (λ _. 0) 0 s.memory.phys_mem found.0),
                record {
                  memory = record s.memory { paging = found.1 };
                  lrsc = s.lrsc ++ (entry ∷ []);
                },
              )
              (l, s') last in
          let none_yet = is_reserved_lem addr s.lrsc free in
          let exclusive : (x : ℕ) → count_addr x (s.lrsc ++ (entry ∷ [])) ≤ 1 = λ x.
            elim (Bool-cases (x == addr)) [
              | inl here ↦
                  let same : x ≡ addr = ground (arith, here) in
                  rw same (ground (arith, count_addr-append addr s.lrsc entry, none_yet))
              | inr there ↦ ground (arith, there, count_addr-append x s.lrsc entry, ok x)
            ] in
          subst (λ (p : Linked × Reserved). IsExclusive p.1) pair exclusive
    ]

-- LRBase keeps the reservations exclusive, one at most for an address, whatever it returns, and so
-- does SCBase.
pub lrsc-IsExclusive :
    (s s' : Reserved) (hart addr len : ℕ)
    → IsExclusive s
    → ((order target : ℕ) (l : Linked)
        → lr_base hart addr len order target s ≡ some (l, s')
        → IsExclusive s')
      × ((target_words : ℕ → ℕ → Option ℕ) (data_words : ℕ → Option ℕ) (bytes : ℕ → ℕ) (o : Stored)
          → sc_base target_words data_words hart addr len bytes s ≡ some (o, s')
          → IsExclusive s')
lrsc-IsExclusive s s' hart addr len ok = (
  λ order target l h. lr_base-IsExclusive s s' hart addr len order target l ok h,
  λ target_words data_words bytes o h.
      reservations-IsExclusive hart addr len s s' o
        (sc_base-Outcome target_words data_words hart addr len bytes s s' o h) ok,
)

used_up :
    (hart addr len : ℕ) (s s' : Reserved) (o : Stored)
    → Outcome hart addr len s o s'
    → o ≡ cleared len
    → IsExclusive s
    → count_addr addr s'.lrsc ≡ 0
unfolding IsExclusive
used_up hart addr len s s' o (fails _ not_cleared) e ok = absurd (not_cleared e)
used_up hart addr len s s' o (stores e others m found) _ ok =
    let t = find-Taken hart addr s.lrsc e others found in ground (arith, t.counts addr, ok addr)

-- Where reservations are exclusive and a store conditional succeeds, the next one to its address,
-- of any hart, of any length and with any values, fails, writes 1 to its target and changes nothing.
pub sc_base-once :
    (target_words : ℕ → ℕ → Option ℕ) (data_words : ℕ → Option ℕ) (hart hart' addr len len' : ℕ)
    (bytes bytes' : ℕ → ℕ) (s s' : Reserved)
    → IsExclusive s
    → sc_base target_words data_words hart addr len bytes s ≡ some (cleared len, s')
    → sc_base target_words data_words hart' addr len' bytes' s' ≡ some (failed32, s')
unfolding sc_base sc_found
sc_base-once target_words data_words hart hart' addr len len' bytes bytes' s s' ok h =
    let out = sc_base-Outcome target_words data_words hart addr len bytes s s' (cleared len) h in
    let gone = used_up hart addr len s s' (cleared len) out refl ok in
    rw (find-none hart' addr s'.lrsc gone) refl
