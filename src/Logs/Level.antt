-- ===== src/Logs/Level.antt =====
-- internal/logs/patterns.go, `match`: the catch-alls defer to the level of the line itself.
use khealth_tui.Base.{
  ◌≡◌, ◌≢◌, subst, Bool, true, false, List, [], ◌∷◌, Option, some, arith, Bool-cases, inl, inr,
}
use khealth_tui.Text.{Text, lit}
use khealth_tui.Text.Laws.{text_eq_iff}
use khealth_tui.Logs.Prefilter.Syntax.{Regexp}
use khealth_tui.Logs.Knowledge.{
  Class, class_info, class_startup, class_warn, class_error, Pattern, matches, match_loop, find,
  by_level, is_generic, own_level,
}

-- `p` may claim a line of level `c`.
abbrev pub Allows : Class → Pattern → Type 0
Allows class_info p = is_generic p ≡ false
Allows class_warn p = p.name ≢ lit "generic-error"
Allows class_startup p = Unit
Allows class_error p = Unit

find-name : (ps : List Pattern) (n : Text) (p : Pattern) → find ps n ≡ some p → p.name ≡ n
unfolding find
find-name [] n p h = cc
find-name (q ∷ ps) n p h = ground (arith, text_eq_iff q.name n, find-name ps n p)

warn_error : lit "generic-warn" ≢ lit "generic-error"
unfolding lit
warn_error h = ground (arith, h)

plain-Allows : (c : Class) (q : Pattern) → is_generic q ≡ false → Allows c q
unfolding is_generic
plain-Allows class_info q g = g
plain-Allows class_warn q g = λ n. ground (arith, g, n, text_eq_iff q.name (lit "generic-error"))
plain-Allows class_startup q g = tt
plain-Allows class_error q g = tt

module _ (match_string : Regexp → Text → Bool) (patterns : List Pattern) where
  by_level-Allows :
      (c : Class) (q : Pattern) (later : Option Pattern) (p : Pattern)
      → is_generic q ≡ true
      → (later ≡ some p → Allows c p)
      → by_level match_string patterns c q later ≡ some p
      → Allows c p
  unfolding by_level
  by_level-Allows class_info q later p g hl h = hl h
  by_level-Allows class_startup q later p g hl h = tt
  by_level-Allows class_error q later p g hl h = tt
  by_level-Allows class_warn q later p g hl h = λ n. absurd (
      warn_error (
        ground (
          arith,
          h,
          n,
          find-name patterns (lit "generic-warn") p,
          text_eq_iff q.name (lit "generic-error"),
        )))

  -- A pattern that claims a line is no catch-all if the line's own level is info, and it is not
  -- "generic-error" if that level is warning.
  pub match_loop-Allows :
      (ps : List Pattern) (t lower : Text) (p : Pattern)
      → match_loop match_string patterns ps t lower ≡ some p
      → Allows (own_level t lower) p
  unfolding match_loop
  match_loop-Allows [] t lower p h = cc
  match_loop-Allows (q ∷ ps) t lower p h =
      elim (Bool-cases (matches match_string patterns q t lower)) [
        | inl m ↦ (elim (Bool-cases (is_generic q)) [
          | inl g ↦
              by_level-Allows (own_level t lower) q (match_loop match_string patterns ps t lower) p
                g (match_loop-Allows ps t lower p) (ground (arith, h, m, g))
          | inr g ↦
              let e : q ≡ p = ground (arith, h, m, g) in
              subst (Allows (own_level t lower)) e (plain-Allows (own_level t lower) q g)
        ])
        | inr m ↦ match_loop-Allows ps t lower p (ground (arith, h, m))
      ]
