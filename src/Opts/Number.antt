-- ===== src/Opts/Number.antt =====
-- `std::stoi` and `std::stoull` with base 0, as the standard has them: white space, a sign, and digits in
-- the base that the prefix tells. `none` stands for the exceptions.
use rev.Prelude.{
  ℕ, ◌+◌, ◌-◌, ◌*◌, ◌^◌, ◌==◌, ltb, leb, ◌&&◌, ◌||◌, Bool, true, false, List, [], ◌∷◌, Option, some,
  none, ◌>>=◌, if◌then◌else◌,
}
use rev.Word.{u64}

unfoldable pub digit : ℕ → ℕ → Option ℕ
digit base c =
    let value =
      if leb 48 c && leb c 57
      then c - 48
      else if leb 97 c && leb c 122
      then c - 87
      else if leb 65 c && leb c 90
      then c - 55
      else base in
    if ltb value base then some value else none

-- The value of the digits at the front.
unfoldable pub digits : ℕ → ℕ → List ℕ → ℕ
unfolding digit
digits base acc [] = acc
digits base acc (c ∷ cs) = elim (digit base c) [
  | none ↦ acc
  | some d ↦ digits base (acc * base + d) cs
]

unfoldable pub starts_digit : ℕ → List ℕ → Bool
unfolding digit
starts_digit base [] = false
starts_digit base (c ∷ cs) = elim (digit base c) [ none ↦ false | some d ↦ true ]

unfoldable pub based : ℕ → List ℕ → Option ℕ
unfolding digits starts_digit
based base cs = if starts_digit base cs then some (digits base 0 cs) else none

-- The prefix `0x` counts where a hexadecimal digit follows; a leading 0 is an octal digit itself.
unfoldable pub magnitude : List ℕ → Option ℕ
unfolding based
magnitude [] = none
magnitude (c ∷ []) = based 10 (c ∷ [])
magnitude (c ∷ x ∷ cs) =
    if (c == 48) && ((x == 120) || (x == 88)) && starts_digit 16 cs
    then based 16 cs
    else if c == 48
    then based 8 (c ∷ x ∷ cs)
    else based 10 (c ∷ x ∷ cs)

unfoldable pub signed : List ℕ → Option (Bool × ℕ)
unfolding magnitude
signed [] = none
signed (c ∷ cs) =
    if c == 45
    then (magnitude cs >>= (λ n. some (true, n)))
    else if c == 43
    then (magnitude cs >>= (λ n. some (false, n)))
    else magnitude (c ∷ cs) >>= (λ n. some (false, n))

unfoldable pub skip_space : List ℕ → List ℕ
skip_space [] = []
skip_space (c ∷ cs) =
    let rest = skip_space cs in if (c == 32) || (leb 9 c && leb c 13) then rest else c ∷ cs

-- `(unsigned)(std::stoi(s, nullptr, 0))`.
unfoldable pub stoi : List ℕ → Option ℕ
unfolding signed skip_space
stoi text = signed (skip_space text) >>= (λ (minus, n).
    if minus
    then (if leb n (2 ^ 31) then some (if n == 0 then 0 else 2 ^ 32 - n) else none)
    else if ltb n (2 ^ 31)
    then some n
    else none)

-- A negative one is taken modulo 2^64.
unfoldable pub stoull : List ℕ → Option ℕ
unfolding signed skip_space
stoull text = signed (skip_space text) >>= (λ (minus, n).
    if ltb n (2 ^ 64) then some (if minus then u64 (2 ^ 64 - n) else n) else none)
