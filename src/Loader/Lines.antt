-- ===== src/Loader/Lines.antt =====
-- The writes of `WriteCacheLine`: they stop, and cover the bytes in order.
use native.Mathlib.Nat.{add-mod_right, add-mod, mod-eq_of_lt}
use rev.Prelude.{
  ℕ, suc, ◌+◌, ◌-◌, ◌%◌, ◌^◌, ◌≤◌, ◌<◌, ◌≡◌, refl, ap, ◌∙◌, arith, true, false, ◌==◌, ltb, Option,
  some, ◌>>=◌, if◌then◌else◌, Bool-cases, inl, inr,
}
use rev.Word.{u64, minus}
use rev.Loader.{base_cache_addr, write_lines, write_cache_line}
use rev.Loader.Rounds.{base_cache_addr_lem, Next, Ends, write_lines-Ends, zero_sum}

module _ {ℓ κ} {Mem : Type ℓ} (write : ℕ → ℕ → ℕ → Mem → Option Mem) (Done : ℕ → Mem → Type κ)
    (line addr len : ℕ) (positive : 0 < line) (fits : addr + len + line < 2 ^ 64)
    (next : Next write Done line addr len) where
  -- The bytes from `addr` to the end of its line.
  first_chunk : ℕ
  first_chunk = base_cache_addr line addr + line - addr

  first_fits : addr % line + first_chunk ≤ line
  unfolding first_chunk
  first_fits =
      let (at, low, near) = base_cache_addr_lem line addr positive in
      let d = addr - base_cache_addr line addr in
      let whole : base_cache_addr line addr + d ≡ addr = omega (arith, low) in
      let d_lt : d < line = omega (arith, near, low) in
      let offset : (base_cache_addr line addr + d) % line ≡ d =
        add-mod (base_cache_addr line addr) d line
        ∙ rw (at, mod-eq_of_lt d_lt) (ap (λ t. t % line) (zero_sum d) ∙ mod-eq_of_lt d_lt) in
      let offset' : addr % line ≡ d = rw whole at offset in omega (arith, offset', low, near)

  first_aligned : (addr + first_chunk) % line ≡ 0
  unfolding first_chunk
  first_aligned =
      let (at, low, near) = base_cache_addr_lem line addr positive in
      let sum : addr + (base_cache_addr line addr + line - addr)
          ≡ base_cache_addr line addr + line =
        omega (arith, near) in
      ap (λ t. t % line) sum ∙ add-mod_right (base_cache_addr line addr) line ∙ at

  first_len : minus 64 (u64 (base_cache_addr line addr + line)) addr ≡ first_chunk
  unfolding first_chunk
  first_len =
      let (at, low, near) = base_cache_addr_lem line addr positive in omega (arith, fits, low, near)

  first_write :
      (n : ℕ) (m : Mem)
      → n ≤ len
      → n ≤ line
      → (line ≤ len → addr % line + n ≤ line)
      → Done 0 m
      → (m' : Mem) × (write addr n 0 m ≡ some m') × Done n m'
  unfolding Next
  first_write n m inside short within done =
      let start : addr + 0 ≡ addr = omega arith in
      rw (start, zero_sum n) at
        (next 0 n m (omega (arith, inside)) short (λ long. rw start (within long)) done)

  -- A write of at least a line.
  long_write :
      (m : Mem)
      → line ≤ len
      → Done 0 m
      → (m' : Mem) × ((write addr first_chunk 0 m >>= (λ m1.
            write_lines write
              (suc len)
              line
              len
              (u64 (addr + first_chunk))
              first_chunk
              first_chunk
              m1))
          ≡ some m')
        × Done len m'
  unfolding Next Ends
  long_write m long done =
      let short : first_chunk ≤ line = omega (arith, first_fits) in
      let (m1, here, done1) =
        first_write first_chunk m (omega (arith, short, long)) short (λ _. first_fits) done in
      let (m2, e2, done2) =
        write_lines-Ends write Done line addr len positive fits next (suc len) first_chunk m1
          (omega arith) (omega (arith, short, long)) first_aligned done1 in
      (m2, ap (λ o. o >>= rest) here ∙ rest-Ends m1 m2 short e2, done2)
    where
      rest : Mem → Option Mem
      rest m1 =
          write_lines write (suc len) line len (u64 (addr + first_chunk)) first_chunk first_chunk m1

      rest-Ends :
          (m1 m2 : Mem)
          → first_chunk ≤ line
          → write_lines write (suc len) line len (addr + first_chunk) first_chunk first_chunk m1
            ≡ some m2
          → rest m1 ≡ some m2
      rest-Ends m1 m2 short e =
          let addr' : u64 (addr + first_chunk) ≡ addr + first_chunk = omega (arith, short, fits) in
          rw addr' e

  module _ (line_size : ℕ) (size : (if line_size == 0 then 64 else line_size) ≡ line)
      (bytes : (len == 0) ≡ false) (m : Mem) where
    short_write :
        ltb len line ≡ true → write_cache_line write line_size addr len m ≡ write addr len 0 m
    unfolding write_cache_line
    short_write short = rw (bytes, size, short) refl

    lines_write :
        ltb len line ≡ false
        → write_cache_line write line_size addr len m ≡ (
            write addr first_chunk 0 m >>= (λ m1.
              write_lines write
                (suc len)
                line
                len
                (u64 (addr + first_chunk))
                first_chunk
                first_chunk
                m1))
    unfolding write_cache_line
    lines_write long = rw (bytes, size, long, first_len) refl

-- Where each chunk can be written, WriteCacheLine returns and has written all the bytes, in order:
-- it stops, its fuel is enough, each chunk starts where the one before has ended, none is longer
-- than a line, and a write of a line or more never sends a chunk across the end of a line.
pub write_cache_line-Done {ℓ κ} :
    {Mem : Type ℓ} (write : ℕ → ℕ → ℕ → Mem → Option Mem) (Done : ℕ → Mem → Type κ)
    (line_size line addr len : ℕ) (m : Mem)
    → (if line_size == 0 then 64 else line_size) ≡ line
    → addr + len + line < 2 ^ 64
    → Next write Done line addr len
    → Done 0 m
    → (m' : Mem) × (write_cache_line write line_size addr len m ≡ some m') × Done len m'
unfolding write_cache_line Next
write_cache_line-Done write Done line_size line addr len m size fits next done =
    let positive : 0 < line = ground (arith, size) in
    elim (Bool-cases (len == 0)) [
      | inl empty ↦
          let none_left : 0 ≡ len = ground (arith, empty) in
          (m, rw empty refl, rw none_left at done)
      | inr bytes ↦ elim (Bool-cases (ltb len line)) [
        | inl short ↦
            let (m1, e1, done1) =
              first_write write Done line addr len positive fits next len m (omega arith)
                (ground (arith, short)) (λ long. absurd (ground (arith, short, long))) done in
            (
              m1,
              short_write write Done line addr len positive fits next line_size size bytes m short
                  ∙ e1,
              done1,
            )
        | inr long ↦
            let (m1, e1, done1) =
              long_write write Done line addr len positive fits next m (ground (arith, long))
                done in
            (
              m1,
              lines_write write Done line addr len positive fits next line_size size bytes m long
                  ∙ e1,
              done1,
            )
      ]
    ]
