-- ===== src/Stig/Checklist/Somewhere.antt =====
-- internal/stig/checklist.go, `targetsOf`: every result has a target.
use khealth_tui.Base.{
  ℕ, ◌≡◌, ◌≢◌, refl, Bool, true, false, not, ◌&&◌, ◌==◌, List, [], ◌∷◌, ◌++◌, map, keep, length,
  ltb, if◌then◌else◌, arith,
}
use khealth_tui.Text.{Text, lit, text_eq}
use khealth_tui.Strutil.{uniq, uniq_loop}
use khealth_tui.Stig.{Result, Target}
use khealth_tui.Stig.Checklist.Targets.{
  segments, narrowed, sshd_targets, inferred, targets_of, semi_head, is_nil, moved_to, dropin_name,
  is_named, is_file,
}

cons-nil : {A : Type 0} (x : A) (xs : List A) → (x ∷ xs) ≢ []
cons-nil x xs h = ground (arith, h)

if-cons :
    {A : Type 0} (b : Bool) (xs ys : List A)
    → (b ≡ true → xs ≢ [])
    → (b ≡ false → ys ≢ [])
    → (if b then xs else ys) ≢ []
if-cons true xs ys f g = f refl
if-cons false xs ys f g = g refl

append-cons : {A : Type 0} (xs ys : List A) → xs ≢ [] → (xs ++ ys) ≢ []
append-cons [] ys h = absurd (h refl)
append-cons (x ∷ xs) ys h = cons-nil x (xs ++ ys)

map-cons : {A B : Type 0} (f : A → B) (xs : List A) → xs ≢ [] → map f xs ≢ []
map-cons f [] h = absurd (h refl)
map-cons f (x ∷ xs) h = cons-nil (f x) (map f xs)

semi_head-cons : (c : ℕ) (ls : List Text) → semi_head c ls ≢ []
semi_head-cons c [] = cons-nil _ _
semi_head-cons c (l ∷ ls) = cons-nil _ _

segments-cons : (s : Text) → segments s ≢ []
unfolding segments
segments-cons [] = cons-nil _ _
segments-cons (c ∷ []) = cons-nil _ _
segments-cons (c ∷ d ∷ s) =
    if-cons ((c == 59) && (d == 32)) ([] ∷ segments s) (semi_head c (segments (d ∷ s)))
      (λ _. cons-nil _ _) (λ _. semi_head-cons c (segments (d ∷ s)))

uniq-cons : (l : List Text) → l ≢ [] → uniq l ≢ []
unfolding uniq uniq_loop
uniq-cons [] h = absurd (h refl)
uniq-cons (s ∷ l) h = cons-nil s (uniq_loop (s ∷ []) l)

is_nil-cons : (ts : List Target) → is_nil ts ≡ false → ts ≢ []
is_nil-cons [] h = absurd (ground (arith, h))
is_nil-cons (t ∷ ts) h = cons-nil t ts

narrowed-cons : (detail : Text) (ts : List Target) → ts ≢ [] → narrowed detail ts ≢ []
unfolding narrowed
narrowed-cons detail ts h =
    let files = keep is_file ts in
    let named = keep (is_named detail) ts in
    if-cons (not (is_nil named) && ltb (length named) (length files)) _ _
      (λ e. append-cons named _ (is_nil-cons named (ground (arith, e)))) (λ _. h)

module _ (find_path find_dropin : Text → Text) where
  sshd-cons :
      (detail : Text) (ts : List Target)
      → ts ≢ []
      → sshd_targets find_path find_dropin detail ts ≢ []
  unfolding sshd_targets
  sshd-cons detail [] h = absurd (h refl)
  sshd-cons detail (t ∷ ts) h =
      if-cons (text_eq t.name (lit "/etc/ssh/sshd_config")) _ _
        (λ _. append-cons _ _ (
          map-cons (moved_to find_path find_dropin t.change) _ (
            uniq-cons _
              (map-cons (dropin_name find_path find_dropin t.name) _ (segments-cons detail)))))
        (λ _. cons-nil t _)

  inferred-cons : (r : Result) → inferred find_path find_dropin r ≢ []
  unfolding inferred
  inferred-cons r h = ground (arith, h)

  -- A fix that names nothing gets the target of a review, and narrowing leaves something.
  pub targets_of-cons : (r : Result) → targets_of find_path find_dropin r ≢ []
  unfolding targets_of
  targets_of-cons r =
      if-cons (is_nil r.targets) _ _ (λ _. inferred-cons r)
        (λ e. narrowed-cons r.detail _ (sshd-cons r.detail r.targets (is_nil-cons r.targets e)))
