-- ===== src/Text/Laws.antt =====
-- Laws of the functions on text.
use khealth_tui.Base.{
  ℕ, suc, ◌≡◌, refl, inl, inr, true, [], ◌∷◌, ◌++◌, ap, append_assoc, arith, ==→eq, ◌==◌,
  Bool-cases, length, &&-true, ◌↔◌,
}
use khealth_tui.Text.Defs.{Text, text_eq, has_prefix, contains, lower_byte, to_lower}

pub text_eq_refl : (s : Text) → text_eq s s ≡ true
text_eq_refl [] = refl
text_eq_refl (c ∷ s) = ground (arith, text_eq_refl s)

pub text_eq→eq : (s t : Text) → text_eq s t ≡ true → s ≡ t
text_eq→eq [] [] h = refl
text_eq→eq [] (d ∷ t) h = cc
text_eq→eq (c ∷ s) [] h = cc
text_eq→eq (c ∷ s) (d ∷ t) h = ground (arith, text_eq→eq s t)

pub text_eq_iff : (s t : Text) → (text_eq s t ≡ true) ↔ (s ≡ t)
text_eq_iff s t = (text_eq→eq s t, λ e. ground (arith, text_eq_refl s))

pub has_prefix-append : (p s : Text) → has_prefix (p ++ s) p ≡ true
has_prefix-append [] s = refl
has_prefix-append (c ∷ p) s = ground (arith, has_prefix-append p s)

-- A text that begins with `p` is `p` and a rest.
pub has_prefix_split : (s p : Text) → has_prefix s p ≡ true → (t : Text) × (s ≡ p ++ t)
has_prefix_split s [] h = (s, refl)
has_prefix_split [] (c ∷ p) h = cc
has_prefix_split (d ∷ s) (c ∷ p) h =
    let (e, r) = &&-true (d == c) (has_prefix s p) h in
    let (t, q) = has_prefix_split s p r in (t, ground (arith, ==→eq d c e))

pub contains-prefix : (s p : Text) → has_prefix s p ≡ true → contains s p ≡ true
contains-prefix [] p h = h
contains-prefix (c ∷ s) p h = ground arith

pub contains-cons : (c : ℕ) (s p : Text) → contains s p ≡ true → contains (c ∷ s) p ≡ true
contains-cons c s p h = ground arith

pub contains-append_left : (u s p : Text) → contains s p ≡ true → contains (u ++ s) p ≡ true
contains-append_left [] s p h = h
contains-append_left (c ∷ u) s p h = contains-cons c (u ++ s) p (contains-append_left u s p h)

-- Any factor of a text is contained in it.
pub contains-middle : (u p v : Text) → contains (u ++ (p ++ v)) p ≡ true
contains-middle u p v =
    contains-append_left u (p ++ v) p (contains-prefix (p ++ v) p (has_prefix-append p v))

pub contains_split :
    (s p : Text) → contains s p ≡ true → (u : Text) × (v : Text) × (s ≡ u ++ (p ++ v))
contains_split [] p h = let (t, e) = has_prefix_split [] p h in ([], t, e)
contains_split (c ∷ s) p h = elim (Bool-cases (has_prefix (c ∷ s) p)) [
  | inl a ↦ (let (t, e) = has_prefix_split (c ∷ s) p a in ([], t, e))
  | inr a ↦ (let (u, v, e) = contains_split s p (ground arith) in (c ∷ u, v, ap (λ t. c ∷ t) e))
]

pub contains_grow : (u s v p : Text) → contains s p ≡ true → contains (u ++ (s ++ v)) p ≡ true
contains_grow u s v p h =
    let (a, b, e) = contains_split s p h in
    let q : u ++ (s ++ v) ≡ (u ++ a) ++ (p ++ (b ++ v)) =
      ground (
        arith,
        e,
        append_assoc u a (p ++ (b ++ v)),
        append_assoc a (p ++ b) v,
        append_assoc p b v,
      ) in
    ground (arith, q, contains-middle (u ++ a) p (b ++ v))

pub to_lower-append : (s t : Text) → to_lower (s ++ t) ≡ to_lower s ++ to_lower t
to_lower-append [] t = refl
to_lower-append (c ∷ s) t = ap (λ r. lower_byte c ∷ r) (to_lower-append s t)

pub length-to_lower : (s : Text) → length (to_lower s) ≡ length s
length-to_lower [] = refl
length-to_lower (c ∷ s) = ap suc (length-to_lower s)
