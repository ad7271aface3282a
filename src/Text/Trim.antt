-- ===== src/Text/Trim.antt =====
-- What trimming takes off a text.
use khealth_tui.Base.{
  ℕ, ◌≡◌, refl, sym, ap, ◌∙◌, Bool, true, false, [], ◌∷◌, ◌++◌, All, Bool-cases, inl, inr,
}
use mathlib.Core.List.{reverse, reverse-append, reverse-reverse}
use khealth_tui.Text.Defs.{Text, is_space, trim_left, trim_right, trim_space}

trim_left_split :
    (f : ℕ → Bool) (s : Text) → (u : Text) × (s ≡ u ++ trim_left f s) × All (λ c. f c ≡ true) u
trim_left_split f [] = ([], refl, tt)
trim_left_split f (c ∷ s) = elim (Bool-cases (f c)) [
  | inl e ↦ (let (u, q, h) = trim_left_split f s in rw e (c ∷ u, ap (λ t. c ∷ t) q, (e, h)))
  | inr e ↦ rw e ([], refl, tt)
]

trim_right_split : (f : ℕ → Bool) (s : Text) → (v : Text) × (s ≡ trim_right f s ++ v)
trim_right_split f s =
    let (u, q, _) = trim_left_split f (reverse s) in
    (reverse u, sym (reverse-reverse s) ∙ ap reverse q ∙ reverse-append u (trim_left f (reverse s)))

-- A line is its trimmed text between white space and a rest.
pub trim_space_split :
    (s : Text)
    → (u : Text) × (v : Text) × (s ≡ u ++ (trim_space s ++ v)) × All (λ c. is_space c ≡ true) u
unfolding trim_space
trim_space_split s =
    let (u, q, h) = trim_left_split is_space s in
    let (v, r) = trim_right_split is_space (trim_left is_space s) in
    (u, v, q ∙ ap (λ t. u ++ t) r, h)

pub trim_space_nil : trim_space [] ≡ []
unfolding trim_space
trim_space_nil = refl

-- A text that neither begins nor ends with white space is trimmed already.
pub trim_space_ends :
    (q r : ℕ) (v : Text)
    → is_space q ≡ false
    → is_space r ≡ false
    → trim_space (q ∷ (v ++ (r ∷ []))) ≡ q ∷ (v ++ (r ∷ []))
unfolding trim_space
trim_space_ends q r v hq hr =
    let s = q ∷ (v ++ (r ∷ [])) in
    let e : reverse s ≡ r ∷ reverse (q ∷ v) = reverse-append (q ∷ v) (r ∷ []) in
    let left : trim_left is_space s ≡ s = rw hq refl in
    let right : trim_left is_space (r ∷ reverse (q ∷ v)) ≡ r ∷ reverse (q ∷ v) = rw hr refl in
    rw left (
      ap (λ t. reverse (trim_left is_space t)) e
      ∙ ap reverse right
      ∙ ap reverse (sym e)
      ∙ reverse-reverse s)
