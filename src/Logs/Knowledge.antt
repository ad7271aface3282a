-- ===== src/Logs/Knowledge.antt =====
-- internal/logs/patterns.go and prefilter.go: the knowledge base and the pattern that claims a line.
use khealth_tui.Base.{
  ℕ, Bool, true, false, ◌&&◌, ◌||◌, not, List, [], ◌∷◌, Option, none, some, any, if◌then◌else◌, ltb,
  leb, ◌==◌, length,
}
use khealth_tui.Text.{Text, lit, text_eq, to_lower, contains, index_of, trim_space, is_digit, shift}
use khealth_tui.Logs.Prefilter.{need_literals}
use khealth_tui.Logs.Prefilter.Syntax.{Regexp}

pub data Class : Type 0 where
  class_info : Class
  class_startup : Class
  class_warn : Class
  class_error : Class

-- `Pattern`; `persist` is in nanoseconds, `need` is empty for nil.
pub record Pattern : Type 0 where
  pub name : Text
  pub class : Class
  pub re : Regexp
  pub persist : ℕ
  pub need : List Text
  pub pre : Option (Text → Text → Bool)

unfoldable pub is_word : ℕ → Bool
is_word c = is_digit c || ((c == 95) || ((leb 97 c && leb c 122) || (leb 65 c && leb c 90)))

-- A header of severity `sev` begins the text.
unfoldable pub header : ℕ → Text → Bool
header sev (c ∷ d1 ∷ d2 ∷ d3 ∷ d4 ∷ sp ∷ rest) =
    (c == sev) && (is_digit d1 && (is_digit d2 && (is_digit d3 && (is_digit d4 && (sp == 32)))))
header sev _ = false

-- The byte before the text, if there is one, is part of a word.
unfoldable pub in_word : Option ℕ → Bool
unfolding is_word
in_word none = false
in_word (some c) = is_word c

-- The loop of `klogIndex` from the byte behind `before`.
unfoldable pub klog_loop : ℕ → Option ℕ → Text → Option ℕ
unfolding header in_word
klog_loop sev before [] = none
klog_loop sev before (c ∷ s) =
    let later = klog_loop sev (some c) s in
    if not (in_word before) && header sev (c ∷ s) then some 0 else shift later

unfoldable pub klog_index : Text → ℕ → Option ℕ
unfolding klog_loop
klog_index line sev = klog_loop sev none line

unfoldable pub klog_mark : Text → ℕ → Bool
unfolding klog_index
klog_mark line sev = elim (klog_index line sev) [ none ↦ false | some i ↦ true ]

unfoldable pub pre_error : Text → Text → Bool
unfolding klog_mark
pre_error line lower =
    contains lower (lit "level=error") || (contains lower (lit "error=") || klog_mark line 69)

unfoldable pub pre_warn : Text → Text → Bool
unfolding klog_mark
pre_warn line lower = contains lower (lit "level=warn") || klog_mark line 87

-- What `init` does to one pattern of the table.
unfoldable pub prepare : Pattern → Pattern
unfolding pre_error pre_warn
prepare p =
    let q = record p { need = need_literals p.re } in
    if text_eq p.name (lit "generic-error")
    then record q { pre = some pre_error }
    else if text_eq p.name (lit "generic-warn")
    then record q { pre = some pre_warn }
    else q

unfoldable pub is_generic : Pattern → Bool
is_generic p = text_eq p.name (lit "generic-error") || text_eq p.name (lit "generic-warn")

abbrev pub pre_passes : Option (Text → Text → Bool) → Text → Text → Bool
pre_passes none line lower = true
pre_passes (some f) line lower = f line lower

abbrev pub need_hit : List Text → Text → Bool
need_hit need lower = any (λ n. contains lower n) need

unfoldable pub find : List Pattern → Text → Option Pattern
find [] name = none
find (p ∷ ps) name = if text_eq p.name name then some p else find ps name

-- The level markers of `levelMarks`, then those of klog.
abbrev level_marks : List (Text × Class)
level_marks =
    (lit "level=info", class_info)
    ∷ (lit "level=debug", class_info)
    ∷ (lit "level=trace", class_info)
    ∷ (lit "level=warn", class_warn)
    ∷ (lit "level=error", class_error)
    ∷ (lit "[info]", class_info)
    ∷ (lit "[debug]", class_info)
    ∷ (lit "[warning]", class_warn)
    ∷ (lit "[warn]", class_warn)
    ∷ (lit "[error]", class_error)
    ∷ []

abbrev klog_marks : List (ℕ × Class)
klog_marks = (73, class_info) ∷ (87, class_warn) ∷ (69, class_error) ∷ []

-- One round of either loop of `ownLevel`.
unfoldable pub nearer : Option ℕ → Class → ℕ × Class → ℕ × Class
nearer none c s = s
nearer (some i) c (first, old) = if ltb i first then (i, c) else (first, old)

unfoldable pub mark_loop : Text → List (Text × Class) → ℕ × Class → ℕ × Class
unfolding nearer
mark_loop lower [] s = s
mark_loop lower ((mark, c) ∷ rest) s = mark_loop lower rest (nearer (index_of lower mark) c s)

unfoldable pub klog_level_loop : Text → List (ℕ × Class) → ℕ × Class → ℕ × Class
unfolding nearer klog_index
klog_level_loop t [] s = s
klog_level_loop t ((sev, c) ∷ rest) s = klog_level_loop t rest (nearer (klog_index t sev) c s)

unfoldable pub own_level : Text → Text → Class
unfolding mark_loop klog_level_loop
own_level t lower =
    (klog_level_loop t klog_marks (mark_loop lower level_marks (length lower, class_error))).1

-- `match_string` is regexp's MatchString; `patterns` the table, prepared by `init`.
module _ (match_string : Regexp → Text → Bool) (patterns : List Pattern) where
  unfoldable pub matches : Pattern → Text → Text → Bool
  matches p line lower = if not (pre_passes p.pre line lower) then false else elim p.need [
    | [] ↦ match_string p.re line
    | n ∷ ns ↦ (if need_hit (n ∷ ns) lower then match_string p.re line else false)
  ]

  -- A generic pattern that matches, by the level of the line itself; `later` is the rest of the loop.
  unfoldable pub by_level : Class → Pattern → Option Pattern → Option Pattern
  unfolding find
  by_level class_info p later = later
  by_level class_warn p later =
      if text_eq p.name (lit "generic-error") then find patterns (lit "generic-warn") else some p
  by_level class_startup p later = some p
  by_level class_error p later = some p

  unfoldable pub match_loop : List Pattern → Text → Text → Option Pattern
  unfolding matches is_generic own_level by_level
  match_loop [] t lower = none
  match_loop (p ∷ ps) t lower =
      let later = match_loop ps t lower in
      if not (matches p t lower)
      then later
      else if is_generic p
      then by_level (own_level t lower) p later
      else some p

  unfoldable pub lookup : Text → Option Pattern
  unfolding match_loop
  lookup line = let t = trim_space line in match_loop patterns t (to_lower t)

  unfoldable pub may_match_loop : List Pattern → Text → Text → Bool
  may_match_loop [] t lower = false
  may_match_loop (p ∷ ps) t lower =
      let later = may_match_loop ps t lower in
      elim p.pre [
        | some f ↦ (if f t lower then true else later)
        | none ↦ elim p.need [
          | [] ↦ true
          | n ∷ ns ↦ (if need_hit (n ∷ ns) lower then true else later)
        ]
      ]

  unfoldable pub may_match : Text → Bool
  unfolding may_match_loop
  may_match line = let t = trim_space line in may_match_loop patterns t (to_lower t)

  -- `MayMatchBytes`: the line is not trimmed, and lower-cased byte by byte.
  unfoldable pub may_match_bytes : Text → Bool
  unfolding may_match_loop
  may_match_bytes [] = false
  may_match_bytes (c ∷ s) = may_match_loop patterns (c ∷ s) (to_lower (c ∷ s))
