-- ===== src/Ext/Entries.antt =====
-- What `get_elem?` gives in a list with more at its end.
use rev.Prelude.{
  ℕ, zero, suc, ◌<◌, ◌≡◌, ◌≢◌, refl, ap, arith, List, [], ◌∷◌, ◌++◌, some, length, get_elem?,
}

module _ {ℓ} {A : Type ℓ} where
  pub get_elem?-bound : (xs : List A) (n : ℕ) (x : A) → get_elem? xs n ≡ some x → n < length xs
  get_elem?-bound [] n x e = absurd (ground (arith, e))
  get_elem?-bound (y ∷ ys) zero x e = omega arith
  get_elem?-bound (y ∷ ys) (suc n) x e = omega (arith, get_elem?-bound ys n x e)

  pub get_elem?-append :
      (xs ys : List A) (n : ℕ) (x : A) → get_elem? xs n ≡ some x → get_elem? (xs ++ ys) n ≡ some x
  get_elem?-append [] ys n x e = absurd (ground (arith, e))
  get_elem?-append (z ∷ zs) ys zero x e = e
  get_elem?-append (z ∷ zs) ys (suc n) x e = get_elem?-append zs ys n x e

  pub get_elem?-last : (xs : List A) (x : A) → get_elem? (xs ++ (x ∷ [])) (length xs) ≡ some x
  get_elem?-last [] x = refl
  get_elem?-last (y ∷ ys) x = get_elem?-last ys x

  pub get_elem?-before :
      (xs : List A) (x : A) (n : ℕ) → n ≢ length xs → get_elem? (xs ++ (x ∷ [])) n ≡ get_elem? xs n
  get_elem?-before [] x zero other = absurd (other refl)
  get_elem?-before [] x (suc n) other = refl
  get_elem?-before (y ∷ ys) x zero other = refl
  get_elem?-before (y ∷ ys) x (suc n) other = get_elem?-before ys x n (λ e. other (ap suc e))
