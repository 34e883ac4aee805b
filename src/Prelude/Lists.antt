-- ===== src/Prelude/Lists.antt =====
-- Lists measured and indexed by native numbers, under the library's names.
use Prim.Native.Nat.{ℕ, zero, suc, ◌+◌}
use mathlib.Core.Path.{◌≡◌}
use mathlib.Core.List.{List, [], ◌∷◌, ◌++◌}
use mathlib.Core.Option.{Option, none, some}
use native.Mathlib.Omega.{arith}

module _ {ℓ} {A : Type ℓ} where
  abbrev pub length : List A → ℕ
  length [] = 0
  length (x ∷ xs) = suc (length xs)

  abbrev pub get_elem? : List A → ℕ → Option A
  get_elem? [] i = none
  get_elem? (x ∷ xs) zero = some x
  get_elem? (x ∷ xs) (suc i) = get_elem? xs i

  pub length-append : (xs ys : List A) → length (xs ++ ys) ≡ length xs + length ys
  length-append [] ys = omega arith
  length-append (x ∷ xs) ys = omega (arith, length-append xs ys)

  -- A predicate at every element of a list.
  abbrev pub All {κ} : (A → Type κ) → List A → Type κ
  All P [] = Unit
  All P (x ∷ xs) = P x × All P xs

  pub All-map {κ} : (P Q : A → Type κ) → ((e : A) → P e → Q e) → (es : List A) → All P es → All Q es
  All-map P Q f [] h = h
  All-map P Q f (e ∷ es) (h, hs) = (f e h, All-map P Q f es hs)

  pub All-const {κ} : (P : A → Type κ) → ((e : A) → P e) → (es : List A) → All P es
  All-const P f [] = tt
  All-const P f (e ∷ es) = (f e, All-const P f es)

  pub All-both {κ} :
      (P Q R : A → Type κ)
      → ((e : A) → P e → Q e → R e)
      → (es : List A) → All P es
      → All Q es
      → All R es
  All-both P Q R f [] hp hq = tt
  All-both P Q R f (e ∷ es) (p, ps) (q, qs) = (f e p q, All-both P Q R f es ps qs)

  pub All-append {κ} : (P : A → Type κ) (xs ys : List A) → All P xs → All P ys → All P (xs ++ ys)
  All-append P [] ys hx hy = hy
  All-append P (x ∷ xs) ys (h, hx) hy = (h, All-append P xs ys hx hy)
