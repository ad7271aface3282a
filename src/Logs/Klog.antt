-- ===== src/Logs/Klog.antt =====
-- internal/logs/prefilter.go, `klogMark`: a header found in a trimmed line is found in the line.
use khealth_tui.Base.{
  ℕ, ◌≡◌, refl, Bool, true, false, ◌&&◌, ◌||◌, not, [], ◌∷◌, ◌++◌, Option, none, some, arith, All,
  if◌then◌else◌,
}
use khealth_tui.Text.{Text, is_space, shift}
use khealth_tui.Logs.Knowledge.{is_word, header, in_word, klog_loop, klog_index, klog_mark}

abbrev is_some : Option ℕ → Bool
is_some none = false
is_some (some i) = true

is_some-shift : (o : Option ℕ) → is_some (shift o) ≡ is_some o
is_some-shift none = refl
is_some-shift (some i) = refl

header-append : (sev : ℕ) (s v : Text) → header sev s ≡ true → header sev (s ++ v) ≡ true
unfolding header
header-append sev [] v h = cc
header-append sev (a ∷ []) v h = cc
header-append sev (a ∷ b ∷ []) v h = cc
header-append sev (a ∷ b ∷ c ∷ []) v h = cc
header-append sev (a ∷ b ∷ c ∷ d ∷ []) v h = cc
header-append sev (a ∷ b ∷ c ∷ d ∷ e ∷ []) v h = cc
header-append sev (a ∷ b ∷ c ∷ d ∷ e ∷ f ∷ s) v h = h

found : (b : Bool) (o : Option ℕ) → is_some (if b then some 0 else shift o) ≡ (b || is_some o)
found true o = refl
found false o = is_some-shift o

-- Found, whatever the position.
found_cons :
    (sev : ℕ) (before : Option ℕ) (c : ℕ) (s : Text)
    → is_some (klog_loop sev before (c ∷ s))
      ≡ ((not (in_word before) && header sev (c ∷ s)) || is_some (klog_loop sev (some c) s))
unfolding klog_loop
found_cons sev before c s =
    found (not (in_word before) && header sev (c ∷ s)) (klog_loop sev (some c) s)

found_nil : (sev : ℕ) (before : Option ℕ) → is_some (klog_loop sev before []) ≡ true → ⊥
unfolding klog_loop
found_nil sev before h = ground arith

found-append :
    (sev : ℕ) (before : Option ℕ) (s v : Text)
    → is_some (klog_loop sev before s) ≡ true
    → is_some (klog_loop sev before (s ++ v)) ≡ true
found-append sev before [] v h = absurd (found_nil sev before h)
found-append sev before (c ∷ s) v h = ground (
  arith,
  found_cons sev before c s,
  found_cons sev before c (s ++ v),
  header-append sev (c ∷ s) v,
  found-append sev (some c) s v,
)

found_first :
    (sev : ℕ) (before after : Option ℕ) (s : Text)
    → in_word after ≡ false
    → is_some (klog_loop sev before s) ≡ true
    → is_some (klog_loop sev after s) ≡ true
found_first sev before after [] n h = absurd (found_nil sev before h)
found_first sev before after (c ∷ s) n h =
    ground (arith, found_cons sev before c s, found_cons sev after c s)

space_word : (c : ℕ) → is_space c ≡ true → in_word (some c) ≡ false
unfolding in_word is_word
space_word c h = ground arith

found_behind :
    (sev : ℕ) (before : Option ℕ) (u s : Text)
    → in_word before ≡ false
    → All (λ c. is_space c ≡ true) u
    → is_some (klog_loop sev none s) ≡ true
    → is_some (klog_loop sev before (u ++ s)) ≡ true
found_behind sev before [] s n _ h = found_first sev none before s n h
found_behind sev before (c ∷ u) s n (p, hu) h =
    ground
      (arith, found_cons sev before c (u ++ s), found_behind sev (some c) u s (space_word c p) hu h)

-- The spaces around a text hide no header of it.
pub klog_mark_grow :
    (u s v : Text) (sev : ℕ)
    → All (λ c. is_space c ≡ true) u
    → klog_mark s sev ≡ true
    → klog_mark (u ++ (s ++ v)) sev ≡ true
unfolding klog_mark klog_index in_word
klog_mark_grow u s v sev hu h = from (klog_loop sev none (u ++ (s ++ v))) (
    found_behind sev none u (s ++ v) refl hu
      (found-append sev none s v (to (klog_loop sev none s) h)))
  where
    to : (o : Option ℕ) → (elim o [ none ↦ false | some i ↦ true ]) ≡ true → is_some o ≡ true
    to none h = h
    to (some i) h = refl

    from : (o : Option ℕ) → is_some o ≡ true → (elim o [ none ↦ false | some i ↦ true ]) ≡ true
    from none h = h
    from (some i) h = refl
