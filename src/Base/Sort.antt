-- ===== src/Base/Sort.antt =====
-- A stable sort of a list by a Boolean order.
use mathlib.Core.Bool.{Bool}
use khealth_tui.Base.Tests.{if◌then◌else◌}
use mathlib.Core.List.{List, [], ◌∷◌}
use mathlib.Core.Logic.{inl, inr}
use khealth_tui.Base.Preds.{Any}
use khealth_tui.Base.Tests.{Bool-cases}

module _ {ℓ} {A : Type ℓ} (less : A → A → Bool) where
  unfoldable pub insert_by : A → List A → List A
  insert_by x [] = x ∷ []
  insert_by x (y ∷ ys) = let rest = insert_by x ys in if less y x then y ∷ rest else x ∷ y ∷ ys

  unfoldable pub sort_by : List A → List A
  unfolding insert_by
  sort_by [] = []
  sort_by (x ∷ xs) = insert_by x (sort_by xs)

  module _ (P : A → Type 0) where
    Any-insert_by : (x : A) (ys : List A) → Any P (x ∷ ys) → Any P (insert_by x ys)
    unfolding insert_by
    Any-insert_by x [] h = h
    Any-insert_by x (y ∷ ys) h = elim (Bool-cases (less y x)) [
      | inr e ↦ rw e h
      | inl e ↦ rw e (go (Any-insert_by x ys) h)
    ]
      where
        go :
            (Any P (x ∷ ys) → Any P (insert_by x ys))
            → Any P (x ∷ y ∷ ys)
            → Any P (y ∷ insert_by x ys)
        go rest (inl p) = inr (rest (inl p))
        go rest (inr (inl q)) = inl q
        go rest (inr (inr q)) = inr (rest (inr q))

    pub Any-sort_by : (xs : List A) → Any P xs → Any P (sort_by xs)
    unfolding sort_by
    Any-sort_by [] h = h
    Any-sort_by (x ∷ xs) (inl p) = Any-insert_by x (sort_by xs) (inl p)
    Any-sort_by (x ∷ xs) (inr q) = Any-insert_by x (sort_by xs) (inr (Any-sort_by xs q))
