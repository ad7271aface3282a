-- ===== src/Strutil/Scalar.antt =====
-- internal/strutil/strutil.go, `YAMLScalar`: reading a quoted value back.
use khealth_tui.Base.{
  ℕ, ◌≡◌, refl, ap, ◌∙◌, ◌≢◌, false, [], ◌∷◌, ◌++◌, none, arith, ◌⊎◌, if◌then◌else◌,
}
use khealth_tui.Text.{Text, lit, has_prefix, contains, index_of}
use khealth_tui.Text.Trim.{trim_space_ends}
use khealth_tui.Strutil.{yaml_scalar, unquote, uncomment, last_byte, init}

abbrev pub comment : Text
comment = 32 ∷ 35 ∷ []

last_byte-snoc : (v : Text) (q : ℕ) → last_byte (v ++ (q ∷ [])) ≡ q
last_byte-snoc [] q = refl
last_byte-snoc (c ∷ []) q = refl
last_byte-snoc (c ∷ d ∷ v) q = last_byte-snoc (d ∷ v) q

init-snoc : (v : Text) (q : ℕ) → init (v ++ (q ∷ [])) ≡ v
init-snoc [] q = refl
init-snoc (c ∷ []) q = refl
init-snoc (c ∷ d ∷ v) q = ap (λ t. c ∷ t) (init-snoc (d ∷ v) q)

contains-snoc :
    (v : Text) (q : ℕ)
    → q ≢ 35
    → contains v comment ≡ false
    → contains (v ++ (q ∷ [])) comment ≡ false
contains-snoc [] q n h = ground arith
contains-snoc (c ∷ []) q n h = ground arith
contains-snoc (c ∷ d ∷ v) q n h = ground (arith, contains-snoc (d ∷ v) q n)

index_of-none : (s p : Text) → contains s p ≡ false → index_of s p ≡ none
index_of-none [] p h = rw h refl
index_of-none (c ∷ s) p h = ground (arith, index_of-none s p)

unquote-quoted : (q : ℕ) (v : Text) → (q ≡ 34) ⊎ (q ≡ 39) → unquote (q ∷ (v ++ (q ∷ []))) ≡ v
unfolding unquote
unquote-quoted q [] h = ground arith
unquote-quoted q (c ∷ v) h = ground (arith, last_byte-snoc (c ∷ v) q, init-snoc (c ∷ v) q)

uncomment-none : (s : Text) → index_of s comment ≡ none → uncomment s ≡ s
unfolding uncomment lit
uncomment-none s h = rw (h, uncomment) refl

scalar_of :
    (s : Text)
    → has_prefix s (35 ∷ []) ≡ false
    → index_of s comment ≡ none
    → (if has_prefix s (35 ∷ []) then [] else unquote (uncomment s)) ≡ unquote s
scalar_of s h k = rw (h, uncomment-none s k) refl

-- A value between two double or two single quotes reads as the value, if no comment begins in it.
pub yaml_scalar-quoted :
    (q : ℕ) (v : Text)
    → (q ≡ 34) ⊎ (q ≡ 39)
    → contains v comment ≡ false
    → yaml_scalar (q ∷ (v ++ (q ∷ []))) ≡ v
unfolding yaml_scalar lit
yaml_scalar-quoted q v hq hc =
    let s = q ∷ (v ++ (q ∷ [])) in
    let n : q ≢ 35 = λ e. absurd (ground arith) in
    let start : has_prefix s (35 ∷ []) ≡ false = ground arith in
    let free : contains s comment ≡ false = ground (arith, contains-snoc v q n hc) in
    rw (trim_space_ends q q v (ground arith) (ground arith))
      (scalar_of s start (index_of-none s comment free) ∙ unquote-quoted q v hq)
