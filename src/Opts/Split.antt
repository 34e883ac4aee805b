-- ===== src/Opts/Split.antt =====
-- `RevOpts::splitStr`: the pieces of a string between the occurrences of a character.
use rev.Prelude.{
  ℕ, ◌==◌, ◌≡◌, ◌≢◌, refl, arith, ap, ap₂, ◌∙◌, Bool-cases, inl, inr, List, [], ◌∷◌, ◌++◌, All,
  if◌then◌else◌,
}

-- What stands before the next occurrence, and the pieces behind it.
unfoldable pub pieces : ℕ → List ℕ → List ℕ × List (List ℕ)
pieces c [] = ([], [])
pieces c (x ∷ xs) =
    let (first, others) = pieces c xs in
    if x == c then ([], first ∷ others) else (x ∷ first, others)

-- An empty string has no piece.
unfoldable pub split_str : ℕ → List ℕ → List (List ℕ)
unfolding pieces
split_str c [] = []
split_str c (x ∷ xs) = let (first, others) = pieces c (x ∷ xs) in first ∷ others

-- The pieces with the character between them.
unfoldable pub join : ℕ → List ℕ → List (List ℕ) → List ℕ
join c first [] = first
join c first (p ∷ ps) = first ++ (c ∷ join c p ps)

unfoldable pub join_all : ℕ → List (List ℕ) → List ℕ
unfolding join
join_all c [] = []
join_all c (p ∷ ps) = join c p ps

moved :
    (c x : ℕ) (first : List ℕ) (others : List (List ℕ))
    → join c (x ∷ first) others ≡ x ∷ join c first others
unfolding join
moved c x first [] = refl
moved c x first (p ∷ ps) = refl

join-pieces : (c : ℕ) (xs : List ℕ) → join c ((pieces c xs).0) ((pieces c xs).1) ≡ xs
unfolding pieces join
join-pieces c [] = refl
join-pieces c (x ∷ xs) = elim (Bool-cases (x == c)) [
  | inl here ↦
      let same : c ≡ x = ground (arith, here) in
      rw here (ap₂ (λ y l. y ∷ l) same (join-pieces c xs))
  | inr other ↦
      rw other (moved c x ((pieces c xs).0) ((pieces c xs).1) ∙ ap (λ l. x ∷ l) (join-pieces c xs))
]

-- A piece without the character.
abbrev pub IsFree : ℕ → List ℕ → Type 0
IsFree c p = All (λ x. x ≢ c) p

pieces-IsFree :
    (c : ℕ) (xs : List ℕ) → IsFree c ((pieces c xs).0) × All (IsFree c) ((pieces c xs).1)
unfolding pieces
pieces-IsFree c [] = (tt, tt)
pieces-IsFree c (x ∷ xs) =
    let (first, others) = pieces-IsFree c xs in
    elim (Bool-cases (x == c)) [
      | inl here ↦ rw here (tt, (first, others))
      | inr other ↦ rw other ((λ same. ground (arith, other, same), first), others)
    ]

-- The pieces that splitStr makes of a string, with the character between them, are the string, and no
-- piece holds the character.
pub split_str-join_all :
    (c : ℕ) (text : List ℕ)
    → (join_all c (split_str c text) ≡ text) × All (IsFree c) (split_str c text)
unfolding split_str join_all
split_str-join_all c [] = (refl, tt)
split_str-join_all c (x ∷ xs) = (join-pieces c (x ∷ xs), pieces-IsFree c (x ∷ xs))
