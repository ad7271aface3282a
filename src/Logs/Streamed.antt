-- ===== src/Logs/Streamed.antt =====
-- internal/logs/prefilter.go, `MayMatchBytes`: what a reader of large files may drop.
use khealth_tui.Base.{
  ◌≡◌, ◌≢◌, refl, sym, subst, Bool, true, false, List, [], ◌∷◌, ◌++◌, Option, none, some, arith,
  All, Bool-cases, inl, inr, map, ◌⊎◌, if◌then◌else◌, not,
}
use khealth_tui.Text.{Text, lit, text_eq, to_lower, contains, is_space, trim_space}
use khealth_tui.Text.Laws.{contains_grow, to_lower-append}
use khealth_tui.Text.Trim.{trim_space_split, trim_space_nil}
use khealth_tui.Logs.Prefilter.Syntax.{Regexp}
use khealth_tui.Logs.Knowledge.{
  Pattern, pre_error, pre_warn, prepare, pre_passes, need_hit, matches, match_loop, lookup,
  may_match_loop, may_match_bytes,
}
use khealth_tui.Logs.Klog.{klog_mark_grow}

module _ (u s v : Text) (hu : All (λ c. is_space c ≡ true) u) where
  low_grow :
      (n : Text) → contains (to_lower s) n ≡ true → contains (to_lower (u ++ (s ++ v))) n ≡ true
  low_grow n h =
      subst (λ t. contains t n ≡ true) (sym e)
        (contains_grow (to_lower u) (to_lower s) (to_lower v) n h)
    where
      e : to_lower (u ++ (s ++ v)) ≡ to_lower u ++ (to_lower s ++ to_lower v)
      e = cc (to_lower-append u (s ++ v), to_lower-append s v)

  need_hit_grow :
      (need : List Text)
      → need_hit need (to_lower s) ≡ true
      → need_hit need (to_lower (u ++ (s ++ v))) ≡ true
  need_hit_grow [] h = h
  need_hit_grow (n ∷ ns) h = ground (arith, low_grow n, need_hit_grow ns)

  pre_error_grow :
      pre_error s (to_lower s) ≡ true → pre_error (u ++ (s ++ v)) (to_lower (u ++ (s ++ v))) ≡ true
  unfolding pre_error
  pre_error_grow h =
      ground
        (arith, low_grow (lit "level=error"), low_grow (lit "error="), klog_mark_grow u s v 69 hu)

  pre_warn_grow :
      pre_warn s (to_lower s) ≡ true → pre_warn (u ++ (s ++ v)) (to_lower (u ++ (s ++ v))) ≡ true
  unfolding pre_warn
  pre_warn_grow h = ground (arith, low_grow (lit "level=warn"), klog_mark_grow u s v 87 hu)

  prepare_pre :
      (p : Pattern)
      → p.pre ≡ none
      → ((prepare p).pre ≡ none)
        ⊎ (((prepare p).pre ≡ some pre_error) ⊎ ((prepare p).pre ≡ some pre_warn))
  unfolding prepare
  prepare_pre p e = elim (Bool-cases (text_eq p.name (lit "generic-error"))) [
    | inl a ↦ inr (inl (rw a refl))
    | inr a ↦ (elim (Bool-cases (text_eq p.name (lit "generic-warn"))) [
      | inl b ↦ inr (inr (rw a (rw b refl)))
      | inr b ↦ inl (rw a (rw b e))
    ])
  ]

  prepare_grow :
      (p : Pattern)
      → p.pre ≡ none
      → pre_passes (prepare p).pre s (to_lower s) ≡ true
      → pre_passes (prepare p).pre (u ++ (s ++ v)) (to_lower (u ++ (s ++ v))) ≡ true
  prepare_grow p e h = elim (prepare_pre p e) [
    | inl a ↦ rw a refl
    | inr (inl a) ↦ rw a (pre_error_grow (subst (λ o. pre_passes o s (to_lower s) ≡ true) a h))
    | inr (inr a) ↦ rw a (pre_warn_grow (subst (λ o. pre_passes o s (to_lower s) ≡ true) a h))
  ]

-- A pattern's own test in `mayMatch`.
may_head :
    (pre : Option (Text → Text → Bool)) (need : List Text) (t low : Text) (later : Bool)
    → pre_passes pre t low ≡ true
    → (need ≢ [] → need_hit need low ≡ true)
    → (elim pre [
      | some f ↦ (if f t low then true else later)
      | none ↦ (elim need [ [] ↦ true | n ∷ ns ↦ (if need_hit (n ∷ ns) low then true else later) ])
    ])
      ≡ true
may_head (some f) need t low later h g = rw h refl
may_head none [] t low later h g = refl
may_head none (n ∷ ns) t low later h g = rw (g (λ z. absurd (ground (arith, z)))) refl

may_rest :
    (pre : Option (Text → Text → Bool)) (need : List Text) (t low : Text) (later : Bool)
    → later ≡ true
    → (elim pre [
      | some f ↦ (if f t low then true else later)
      | none ↦ (elim need [ [] ↦ true | n ∷ ns ↦ (if need_hit (n ∷ ns) low then true else later) ])
    ])
      ≡ true
may_rest (some f) need t low later h = ground arith
may_rest none [] t low later h = refl
may_rest none (n ∷ ns) t low later h = ground arith

passed_of :
    (b : Bool) (need : List Text) (low : Text) (m : Bool)
    → (if not b
        then false
        else elim need [ [] ↦ m | n ∷ ns ↦ (if need_hit (n ∷ ns) low then m else false) ])
      ≡ true
    → (b ≡ true) × (need ≢ [] → need_hit need low ≡ true)
passed_of false need low m h = absurd (ground (arith, h))
passed_of true [] low m h = (refl, λ n. absurd (n refl))
passed_of true (n ∷ ns) low m h = (refl, λ _. ground (arith, h))

module _ (match_string : Regexp → Text → Bool) (patterns : List Pattern) where
  passed :
      (p : Pattern) (t low : Text)
      → matches match_string patterns p t low ≡ true
      → (pre_passes p.pre t low ≡ true) × (p.need ≢ [] → need_hit p.need low ≡ true)
  unfolding matches
  passed p t low h = passed_of (pre_passes p.pre t low) p.need low (match_string p.re t) h

  may_tail :
      (p : Pattern) (ps : List Pattern) (t low : Text)
      → may_match_loop match_string patterns ps t low ≡ true
      → may_match_loop match_string patterns (p ∷ ps) t low ≡ true
  unfolding may_match_loop
  may_tail p ps t low h =
      may_rest p.pre p.need t low (may_match_loop match_string patterns ps t low) h

  module _ (u s v : Text) (hu : All (λ c. is_space c ≡ true) u) where
    matched_may :
        (table : List Pattern)
        → All (λ p. Pattern.pre p ≡ none) table
        → (match_loop match_string patterns (map prepare table) s (to_lower s) ≡ none)
          ⊎ (may_match_loop match_string patterns
                (map prepare table)
                (u ++ (s ++ v))
                (to_lower (u ++ (s ++ v)))
              ≡ true)
    unfolding match_loop may_match_loop
    matched_may [] h = inl refl
    matched_may (p ∷ table) (e, h) =
        elim (Bool-cases (matches match_string patterns (prepare p) s (to_lower s))) [
          | inl m ↦
              let (pp, pn) = passed (prepare p) s (to_lower s) m in
              let line = u ++ (s ++ v) in
              inr (
                may_head (prepare p).pre (prepare p).need line (to_lower line)
                  (may_match_loop match_string patterns (map prepare table) line (to_lower line))
                  (prepare_grow u s v hu p e pp)
                  (λ n. need_hit_grow u s v hu (prepare p).need (pn n)))
          | inr m ↦ (elim (matched_may table h) [
            | inl z ↦ inl (rw m z)
            | inr g ↦ inr (
                may_tail (prepare p) (map prepare table) (u ++ (s ++ v)) (to_lower (u ++ (s ++ v)))
                  g)
          ])
        ]

-- Whatever the regular expressions match: a line that is not blank and that `MayMatchBytes` rejects is
-- one for which `Lookup` has no pattern, with a table whose patterns `init` has prepared.
pub may_match_bytes_lem :
    (match_string : Regexp → Text → Bool) (table : List Pattern) (line : Text)
    → All (λ p. Pattern.pre p ≡ none) table
    → trim_space line ≢ []
    → may_match_bytes match_string (map prepare table) line ≡ false
    → lookup match_string (map prepare table) line ≡ none
unfolding may_match_bytes lookup
may_match_bytes_lem match_string table [] ht hn h = absurd (hn trim_space_nil)
may_match_bytes_lem match_string table (c ∷ l) ht hn h =
    let (u, v, e, hu) = trim_space_split (c ∷ l) in
    elim (matched_may match_string (map prepare table) u (trim_space (c ∷ l)) v hu table ht) [
      | inl z ↦ z
      | inr g ↦ absurd (
          ground (
            arith,
            h,
            subst
                (λ t.
                  may_match_loop match_string (map prepare table) (map prepare table) t (to_lower t)
                  ≡ true)
                (sym e) g,
          ))
    ]
