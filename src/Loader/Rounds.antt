-- ===== src/Loader/Rounds.antt =====
-- The rounds of `WriteCacheLine`, from the start of a line on.
use native.Mathlib.Nat.{add-mod_right, zero-mod}
use rev.Prelude.{
  ℕ, zero, suc, ◌+◌, ◌-◌, ◌%◌, ◌^◌, ◌≤◌, ◌<◌, ◌≡◌, ◌≢◌, refl, ap, ◌∙◌, arith, true, false, ◌==◌,
  ltb, Option, some, if◌then◌else◌, Bool-cases, inl, inr,
}
use rev.Word.{u64, minus}
use rev.Loader.{base_cache_addr, write_lines}

pub base_cache_addr_lem :
    (line a : ℕ)
    → 0 < line
    → (base_cache_addr line a % line ≡ 0)
      × (base_cache_addr line a ≤ a)
      × (a < base_cache_addr line a + line)
unfolding base_cache_addr
base_cache_addr_lem line zero h = (zero-mod line, omega arith, omega (arith, h))
base_cache_addr_lem line (suc a) h =
    let (at, low, near) = base_cache_addr_lem line a h in
    elim (Bool-cases (suc a % line == 0)) [
      | inl here ↦ rw here (ground (arith, here), omega arith, omega (arith, h))
      | inr there ↦
          let within : suc a ≢ base_cache_addr line a + line = λ e.
            let zero_there : suc a % line ≡ 0 =
              ap (λ t. t % line) e ∙ add-mod_right (base_cache_addr line a) line ∙ at in
            absurd (ground (arith, there, zero_there)) in
          rw there (at, omega (arith, low), omega (arith, near, within))
    ]

sum_assoc : (a b c : ℕ) → a + (b + c) ≡ a + b + c
sum_assoc a b c = omega arith

pub zero_sum : (a : ℕ) → 0 + a ≡ a
zero_sum a = omega arith

-- Whatever the chunks are written to: `Next` is what a write of `n` bytes, `k` bytes behind the
-- start, keeps. A chunk is no longer than a line, and where `len` bytes fill a line it lies in one.
unfoldable pub Next {ℓ κ} :
    {Mem : Type ℓ} → (ℕ → ℕ → ℕ → Mem → Option Mem) → (ℕ → Mem → Type κ) → ℕ → ℕ → ℕ → Type (ℓ ⊔ κ)
Next {Mem = Mem} write Done line addr len =
    (k n : ℕ) (m : Mem)
    → k + n ≤ len
    → n ≤ line
    → (line ≤ len → (addr + k) % line + n ≤ line)
    → Done k m
    → (m' : Mem) × (write (addr + k) n k m ≡ some m') × Done (k + n) m'

module _ {ℓ κ} {Mem : Type ℓ} (write : ℕ → ℕ → ℕ → Mem → Option Mem) (Done : ℕ → Mem → Type κ)
    (line addr len : ℕ) (positive : 0 < line) (fits : addr + len + line < 2 ^ 64)
    (next : Next write Done line addr len) where
  round :
      (fuel at from total size : ℕ) (m m1 : Mem)
      → (if ltb line (minus 64 len total) then line else minus 64 len total) ≡ size
      → write at size from m ≡ some m1
      → write_lines write (suc fuel) line len at from total m ≡ (
          if ltb (u64 (total + size)) len
          then write_lines write fuel line len
              (u64 (at + size))
              (u64 (from + size))
              (u64 (total + size))
              m1
          else some m1)
  unfolding write_lines
  round fuel at from total size m m1 e w = rw (e, w) refl

  -- The rounds from `total` on end well in `m`.
  unfoldable pub Ends : ℕ → ℕ → Mem → Type (ℓ ⊔ κ)
  Ends fuel total m =
      (m' : Mem) × (write_lines write fuel line len (addr + total) total total m ≡ some m')
      × Done len m'

  full_round :
      (fuel total : ℕ) (m m1 : Mem)
      → total + line < len
      → write (addr + total) line total m ≡ some m1
      → Ends fuel (total + line) m1
      → Ends (suc fuel) total m
  unfolding Ends
  full_round fuel total m m1 on e1 (m2, e2, done) =
      let left : minus 64 len total ≡ len - total = omega (arith, on, fits) in
      let more : ltb line (len - total) ≡ true = ground (arith, on) in
      let total' : u64 (total + line) ≡ total + line = omega (arith, on, fits) in
      let addr' : u64 (addr + total + line) ≡ addr + (total + line) = omega (arith, on, fits) in
      let again : ltb (total + line) len ≡ true = ground (arith, on) in
      let size : (if ltb line (minus 64 len total) then line else minus 64 len total) ≡ line =
        rw (left, more) refl in
      (
        m2,
        round fuel (addr + total) total total line m m1 size e1 ∙ rw (total', addr', again) e2,
        done,
      )

  last_round :
      (fuel total : ℕ) (m m1 : Mem)
      → total ≤ len
      → len - total ≤ line
      → write (addr + total) (len - total) total m ≡ some m1
      → Done (total + (len - total)) m1
      → Ends (suc fuel) total m
  unfolding Ends
  last_round fuel total m m1 below short e1 done =
      let left : minus 64 len total ≡ len - total = omega (arith, below, fits) in
      let last : ltb line (len - total) ≡ false = ground (arith, short) in
      let whole : total + (len - total) ≡ len = omega (arith, below) in
      let total' : u64 len ≡ len = omega (arith, fits) in
      let stop : ltb len len ≡ false = ground arith in
      let chunk : (if ltb line (minus 64 len total) then line else minus 64 len total)
          ≡ len - total =
        rw (left, last) refl in
      (
        m1,
        round fuel (addr + total) total total (len - total) m m1 chunk e1
            ∙ rw (whole, total', stop) refl,
        rw whole at done,
      )

  -- From the start of a line on, more rounds than bytes are enough.
  pub write_lines-Ends :
      (fuel total : ℕ) (m : Mem)
      → len - total < fuel
      → total ≤ len
      → (addr + total) % line ≡ 0
      → Done total m
      → Ends fuel total m
  unfolding Next
  write_lines-Ends zero total m enough below aligned done = absurd (omega (arith, enough))
  write_lines-Ends (suc fuel) total m enough below aligned done =
      elim (Bool-cases (ltb line (len - total))) [
        | inl more ↦
            let on : total + line < len = ground (arith, more) in
            let (m1, e1, done1) =
              next total line m (omega (arith, on)) (omega arith) (λ _. omega (arith, aligned))
                done in
            let aligned' : (addr + (total + line)) % line ≡ 0 =
              ap (λ t. t % line) (sum_assoc addr total line)
              ∙ add-mod_right (addr + total) line
              ∙ aligned in
            full_round fuel total m m1 on e1 (
              write_lines-Ends fuel (total + line) m1 (omega (arith, enough, positive, on))
                (omega (arith, on)) aligned' done1)
        | inr last ↦
            let short : len - total ≤ line = ground (arith, last) in
            let (m1, e1, done1) =
              next total (len - total) m (omega (arith, below)) short
                (λ _. omega (arith, aligned, short)) done in
            last_round fuel total m m1 below short e1 done1
      ]
