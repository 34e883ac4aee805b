-- ===== src/Mem/Lrsc/Search.antt =====
-- The entries of `LRSC` for an address, and what the searches take.
use rev.Prelude.{
  bind-some, some-injective, ℕ, suc, ◌+◌, ◌≤◌, ◌≡◌, inl, inr, refl, arith, true, false, ◌==◌, ◌&&◌,
  List, [], ◌∷◌, ◌++◌, some, none, if◌then◌else◌, Bool-cases,
}
use mathlib.Core.Path.{subst}
use rev.Mem.Lrsc.{Reservation, Reserved, is_reserved, find_reservation}

unfoldable pub count_addr : ℕ → List Reservation → ℕ
count_addr addr [] = 0
count_addr addr (e ∷ es) =
    let rest = count_addr addr es in if addr == e.addr then suc rest else rest

unfoldable pub IsExclusive : Reserved → Type 0
IsExclusive s = (addr : ℕ) → count_addr addr s.lrsc ≤ 1

pub is_reserved_lem :
    (addr : ℕ) (es : List Reservation) → is_reserved addr es ≡ false → count_addr addr es ≡ 0
unfolding is_reserved count_addr
is_reserved_lem addr [] h = refl
is_reserved_lem addr (e ∷ es) h = ground (arith, is_reserved_lem addr es)

pub count_addr-append :
    (addr : ℕ) (es : List Reservation) (e : Reservation)
    → count_addr addr (es ++ (e ∷ [])) ≡ count_addr addr es + (if addr == e.addr then 1 else 0)
unfolding count_addr
count_addr-append addr [] e = ground arith
count_addr-append addr (x ∷ xs) e = ground (arith, count_addr-append addr xs e)

-- The state after the search of an entry that is there.
pub record Taken (addr : ℕ) (es : List Reservation) (e : Reservation) (others : List Reservation)
    : Type 0 where
  pub same : e.addr ≡ addr
  pub counts : (x : ℕ) → count_addr x es ≡ count_addr x others + (if x == addr then 1 else 0)

head_lem :
    (hart addr : ℕ) (y : Reservation) (ys : List Reservation)
    → ((hart == y.hart) && (addr == y.addr)) ≡ true
    → Taken addr (y ∷ ys) y ys
unfolding count_addr
head_lem hart addr y ys h =
    let same : y.addr ≡ addr = ground (arith, h) in
    record { same = same; counts = λ x. rw same (ground arith) }

tail_lem :
    (addr : ℕ) (y e : Reservation) (ys others : List Reservation)
    → Taken addr ys e others
    → Taken addr (y ∷ ys) e (y ∷ others)
unfolding count_addr
tail_lem addr y e ys others t = record { same = t.same; counts = λ x. ground (arith, t.counts x) }

pub find-Taken :
    (hart addr : ℕ) (es : List Reservation) (e : Reservation) (others : List Reservation)
    → find_reservation hart addr es ≡ some (e, others)
    → Taken addr es e others
unfolding find_reservation
find-Taken hart addr [] e others h = absurd (ground (arith, h))
find-Taken hart addr (y ∷ ys) e others h =
    elim (Bool-cases ((hart == y.hart) && (addr == y.addr))) [
      | inl here ↦
          let pair = some-injective (y, ys) (e, others) (rw here at h) in
          subst (λ (p : Reservation × List Reservation). Taken addr (y ∷ ys) p.0 p.1) pair
            (head_lem hart addr y ys here)
      | inr there ↦
          let (found, below, last) =
            bind-some (find_reservation hart addr ys)
              (λ (f : Reservation × List Reservation). some (f.0, y ∷ f.1)) (e, others)
              (rw there at h) in
          let pair = some-injective (found.0, y ∷ found.1) (e, others) last in
          subst (λ (p : Reservation × List Reservation). Taken addr (y ∷ ys) p.0 p.1) pair
            (tail_lem addr y found.0 ys found.1 (find-Taken hart addr ys found.0 found.1 below))
    ]

pub find-none :
    (hart addr : ℕ) (es : List Reservation)
    → count_addr addr es ≡ 0
    → find_reservation hart addr es ≡ none
unfolding find_reservation count_addr
find-none hart addr [] h = refl
find-none hart addr (y ∷ ys) h = elim (Bool-cases (addr == y.addr)) [
  | inl here ↦ absurd (ground (arith, here, h))
  | inr there ↦
      let rest = find-none hart addr ys (rw there at h) in
      let off : ((hart == y.hart) && (addr == y.addr)) ≡ false = ground (arith, there) in
      rw (off, rest) refl
]
