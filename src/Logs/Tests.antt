-- ===== src/Logs/Tests.antt =====
-- A small knowledge base and a few lines.
use khealth_tui.Base.{
  ◌≡◌, refl, Bool, true, false, List, [], ◌∷◌, Option, none, some, map, arith, inl, inr,
}
use khealth_tui.Text.{Text, lit, codes, contains, to_lower, trim_space}
use khealth_tui.Logs.Prefilter.{need_literals}
use khealth_tui.Logs.Prefilter.Syntax.{
  Regexp, literal, zero_width, alternate, concat, one_rune, end, ◌⨾◌, repeat, Matches,
}
use khealth_tui.Logs.Prefilter.Sets.{Hit}
use khealth_tui.Logs.Prefilter.Sound.{Hit-need_literals}
use khealth_tui.Logs.Knowledge.{
  Class, class_startup, class_warn, class_error, Pattern, prepare, lookup, may_match_bytes,
  own_level, match_loop,
}
use khealth_tui.Logs.Streamed.{may_match_bytes_lem}
use khealth_tui.Logs.Level.{Allows, match_loop-Allows}

-- Start(ing|ed) rke2
abbrev start_re : Regexp
start_re = concat (
    literal false (codes "Start")
    ⨾ alternate (literal false (codes "ing") ⨾ literal false (codes "ed") ⨾ end)
    ⨾ literal false (codes " rke2")
    ⨾ end)

start_needs : need_literals start_re ≡ codes "starting rke2" ∷ codes "started rke2" ∷ []
unfolding need_literals
start_needs = refl

Hit-need_literals_example : Hit (to_lower (codes "x Started rke2 y")) (need_literals start_re)
unfolding Matches need_literals
Hit-need_literals_example =
    Hit-need_literals start_re (codes "x ") (codes "Started rke2") (codes " y")
      (
        codes "Start",
        codes "ed rke2",
        refl,
        refl,
        (codes "ed", codes " rke2", refl, inr (inl refl), (codes " rke2", [], refl, refl, refl)),
      )
      (λ e. absurd (ground (arith, e)))

-- A matcher of lone literals; the other expressions match everything.
abbrev run_re : Regexp → Text → Bool
run_re (literal fold rs) t = contains t rs
run_re _ t = true

abbrev entry : Text → Class → Regexp → Pattern
entry n c r = record { name = n; class = c; re = r; persist = 0; need = []; pre = none }

abbrev table : List Pattern
table =
    entry (codes "wait-etcd") class_startup (literal false (codes "Waiting for etcd"))
    ∷ entry (codes "generic-warn") class_warn (
        alternate (
          literal false (codes "level=warn")
          ⨾ concat (
              zero_width
              ⨾ literal false (codes "W")
              ⨾ repeat 4 (some 4) (one_rune (λ t. true))
              ⨾ end)
          ⨾ end))
    ∷ entry (codes "generic-error") class_error
        (alternate (literal false (codes "level=error") ⨾ literal false (codes "error=") ⨾ end))
    ∷ []

-- The line's own level is warning, and it quotes an error.
abbrev quoting : Text
quoting = codes "level=warn msg=x error=y"

abbrev name_of : Option Pattern → Text
name_of none = []
name_of (some p) = p.name

warned : name_of (lookup run_re (map prepare table) quoting) ≡ codes "generic-warn"
unfolding lookup prepare lit need_literals trim_space
warned = refl

may_match_bytes_lem_example : lookup run_re (map prepare table) (codes " all is well") ≡ none
unfolding may_match_bytes prepare lit need_literals trim_space
may_match_bytes_lem_example =
    may_match_bytes_lem run_re table (codes " all is well") (refl, (refl, (refl, tt)))
      (λ e. absurd (ground (arith, e))) refl

abbrev warn_pattern : Pattern
warn_pattern = prepare (
    entry (codes "generic-warn") class_warn (
      alternate (
        literal false (codes "level=warn")
        ⨾ concat (
            zero_width ⨾ literal false (codes "W") ⨾ repeat 4 (some 4) (one_rune (λ t. true)) ⨾ end)
        ⨾ end)))

match_loop-Allows_example : Allows (own_level quoting (to_lower quoting)) warn_pattern
unfolding match_loop prepare lit need_literals
match_loop-Allows_example =
    match_loop-Allows run_re (map prepare table) (map prepare table) quoting (to_lower quoting)
      warn_pattern refl
