-- ===== src/Loader/Tests.antt =====
-- An instance of the law of `WriteCacheLine`.
use rev.Prelude.{ℕ, ◌+◌, ◌≡◌, refl, arith, List, [], ◌∷◌, Option, some}
use rev.Loader.{write_cache_line}
use rev.Loader.Rounds.{Next}
use rev.Loader.Lines.{write_cache_line-Done}

-- A memory that counts the bytes.
abbrev count : ℕ → ℕ → ℕ → ℕ → Option ℕ
count addr n from m = some (m + n)

abbrev Counted : ℕ → ℕ → Type 0
Counted k m = k ≡ m

count-Next : Next count Counted 64 0x1010 200
unfolding Next
count-Next k n m inside short within done = (m + n, refl, omega (arith, done))

write_cache_line-Done_example :
    (m : ℕ) × (write_cache_line count 0 0x1010 200 0 ≡ some m) × Counted 200 m
write_cache_line-Done_example =
    write_cache_line-Done count Counted 0 64 0x1010 200 0 refl (omega arith) count-Next refl

-- A memory that records the writes: the rest of the first line, two lines and what is left.
abbrev record_write : ℕ → ℕ → ℕ → List (ℕ × ℕ) → Option (List (ℕ × ℕ))
record_write addr n from ws = some ((addr, n) ∷ ws)

recorded : write_cache_line record_write 4 6 12 [] ≡ some ((16, 2) ∷ (12, 4) ∷ (8, 4) ∷ (6, 2) ∷ [])
unfolding write_cache_line
recorded = refl
