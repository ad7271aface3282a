-- ===== src/Text/Assoc.antt =====
-- Go's maps with string keys, as lists of pairs: reading, writing and deleting.
use khealth_tui.Base.{
  ◌≡◌, ◌≢◌, refl, sym, ◌∙◌, List, [], ◌∷◌, Option, none, some, if◌then◌else◌, Bool-cases, inl, inr,
}
use khealth_tui.Text.Defs.{Text, text_eq}
use khealth_tui.Text.Laws.{text_eq_refl, text_eq→eq}

module _ {ℓ} {A : Type ℓ} where
  abbrev pub get : Text → List (Text × A) → Option A
  get k [] = none
  get k ((j, a) ∷ m) = if text_eq j k then some a else get k m

  abbrev pub del : Text → List (Text × A) → List (Text × A)
  del k [] = []
  del k ((j, a) ∷ m) = let rest = del k m in if text_eq j k then rest else (j, a) ∷ rest

  abbrev pub put : Text → A → List (Text × A) → List (Text × A)
  put k a m = (k, a) ∷ del k m

  pub get-del_same : (k : Text) (m : List (Text × A)) → get k (del k m) ≡ none
  get-del_same k [] = refl
  get-del_same k ((j, a) ∷ m) = elim (Bool-cases (text_eq j k)) [
    | inl e ↦ rw e (get-del_same k m)
    | inr e ↦ rw (e, e) (get-del_same k m)
  ]

  pub get-del_other : (k l : Text) (m : List (Text × A)) → k ≢ l → get k (del l m) ≡ get k m
  get-del_other k l [] n = refl
  get-del_other k l ((j, a) ∷ m) n = elim (Bool-cases (text_eq j l)) [
    | inl e ↦ elim (Bool-cases (text_eq j k)) [
      | inl f ↦ absurd (n (sym (text_eq→eq j k f) ∙ text_eq→eq j l e))
      | inr f ↦ rw (e, f) (get-del_other k l m n)
    ]
    | inr e ↦ elim (Bool-cases (text_eq j k)) [
      | inl f ↦ rw (e, f) refl
      | inr f ↦ rw (e, f) (get-del_other k l m n)
    ]
  ]

  pub get-put_same : (k : Text) (a : A) (m : List (Text × A)) → get k (put k a m) ≡ some a
  get-put_same k a m = rw (text_eq_refl k) refl

  pub get-put_other :
      (k l : Text) (a : A) (m : List (Text × A)) → k ≢ l → get k (put l a m) ≡ get k m
  get-put_other k l a m n = elim (Bool-cases (text_eq l k)) [
    | inl e ↦ absurd (n (sym (text_eq→eq l k e)))
    | inr e ↦ rw e (get-del_other k l m n)
  ]
