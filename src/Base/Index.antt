-- ===== src/Base/Index.antt =====
-- Positions in a list and in a list that is put together.
use Prim.Native.Nat.{ℕ, zero, suc, ◌≤◌, ◌<◌}
use mathlib.Core.Path.{◌≡◌, refl}
use mathlib.Core.Logic.{inl, inr}
use mathlib.Core.List.{List, [], ◌∷◌, ◌++◌}
use mathlib.Core.Option.{some}
use mathlib.Core.Bool.{Bool, true, false}
use native.Mathlib.Omega.{arith}
use khealth_tui.Base.Lists.{length, get_elem?}
use khealth_tui.Base.Preds.{All, Any}

module _ {ℓ} {A : Type ℓ} where
  pub get_elem?-append_left :
      (xs ys : List A) (i : ℕ) → i < length xs → get_elem? (xs ++ ys) i ≡ get_elem? xs i
  get_elem?-append_left [] ys i h = elim h [ ]
  get_elem?-append_left (x ∷ xs) ys zero h = refl
  get_elem?-append_left (x ∷ xs) ys (suc i) h = get_elem?-append_left xs ys i (omega arith)

  -- An item with a property that none of the first part has stands behind the first part.
  pub length-le_of_get_elem? :
      (f : A → Bool) (xs ys : List A) (i : ℕ) {a : A}
      → All (λ x. f x ≡ false) xs
      → get_elem? (xs ++ ys) i ≡ some a
      → f a ≡ true
      → length xs ≤ i
  length-le_of_get_elem? f [] ys i h e t = omega arith
  length-le_of_get_elem? f (x ∷ xs) ys zero (p, h) e t = absurd (ground arith)
  length-le_of_get_elem? f (x ∷ xs) ys (suc i) (p, h) e t =
      omega (arith, length-le_of_get_elem? f xs ys i h e t)

module _ {A : Type 0} where
  pub Any-index :
      (P : A → Type 0) (xs : List A)
      → Any P xs
      → (i : ℕ) × (a : A) × (i < length xs) × (get_elem? xs i ≡ some a) × P a
  Any-index P [] h = absurd h
  Any-index P (x ∷ xs) (inl p) = (0, x, omega arith, refl, p)
  Any-index P (x ∷ xs) (inr h) =
      let (i, a, l, e, p) = Any-index P xs h in (suc i, a, omega arith, e, p)
