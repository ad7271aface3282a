-- ===== src/Logs/Summary.antt =====
-- internal/logs/patterns.go: classifying the lines of a node into one summary.
pub mod Counts
pub mod Windows
use khealth_tui.Base.{
  ℕ, zero, suc, ◌+◌, ◌-◌, ◌*◌, Bool, true, false, ◌&&◌, ◌||◌, not, List, [], ◌∷◌, ◌++◌, Option,
  none, some, if◌then◌else◌, ltb, leb, ◌==◌, length, get_elem?, take, drop, any,
}
use khealth_tui.Text.{Text, lit, text_eq, trim_space, to_lower, repeat, index_of}
use khealth_tui.Logs.Prefilter.Syntax.{Regexp}
use khealth_tui.Logs.Knowledge.{
  Class, class_info, class_startup, class_warn, class_error, Pattern, is_generic, match_loop,
}

-- A time is a count of nanoseconds, and 0 the zero time. What is found by the expressions of the file:
-- the groups of `journalTime`, `klogTime` (month, day, hour, minute, second, fraction) and `logfmtTime`;
-- the end of `journalTime`; the replacements of `Signature`. And package time's Parse, Date and AddDate.
pub record Readers : Type 0 where
  pub journal_groups : Text → Option (Text × Text)
  pub klog_groups : Text → Option (Text × Text × Text × Text × Text × Text)
  pub logfmt_group : Text → Option Text
  pub journal_end : Text → Option ℕ
  pub cut_klog : Text → Text
  pub cut_logfmt : Text → Text
  pub blank_quoted : Text → Text
  pub blank_digits : Text → Text
  pub parse_rfc3339 : Text → Option ℕ
  pub date_in_year_of : ℕ → ℕ → ℕ → ℕ → ℕ → ℕ → ℕ → ℕ
  pub a_year_before : ℕ → ℕ

pub record Match : Type 0 where
  pub line : Text
  pub time : ℕ
  pub unit : Text
  pub class : Class
  pub pattern : Option Pattern
  pub source : Text
  pub line_no : ℕ

pub record Summary : Type 0 where
  pub total : ℕ
  pub counts : Class → ℕ
  pub by_name : Text → ℕ
  pub found : List Match
  pub startup : ℕ
  pub starts : List ℕ
  pub ups : List ℕ
  pub last_line : ℕ
  pub now : ℕ

pub record Source : Type 0 where
  pub unit : Text
  pub lines : List Text
  pub name : Text
  pub numbers : List ℕ

abbrev pub minute : ℕ
minute = 60000000000

abbrev pub class_no : Class → ℕ
class_no class_info = 0
class_no class_startup = 1
class_no class_warn = 2
class_no class_error = 3

abbrev pub same_class : Class → Class → Bool
same_class a b = class_no a == class_no b

abbrev pub is_zero : ℕ → Bool
is_zero t = t == 0

-- `counts[c]++` and `counts[c]--`.
abbrev pub more : Class → (Class → ℕ) → Class → ℕ
more c f d = if same_class c d then suc (f d) else f d

abbrev pub less : Class → (Class → ℕ) → Class → ℕ
less c f d = if same_class c d then f d - 1 else f d

abbrev pub more_named : Text → (Text → ℕ) → Text → ℕ
more_named n f m = if text_eq n m then suc (f m) else f m

abbrev pub less_named : Text → (Text → ℕ) → Text → ℕ
less_named n f m = if text_eq n m then f m - 1 else f m

-- strconv.Atoi of a group of digits.
abbrev pub number_from : ℕ → Text → ℕ
number_from n [] = n
number_from n (c ∷ s) = number_from (10 * n + (c - 48)) s

-- The window of a start marker: its end, moved by the "up" markers that follow it.
unfoldable pub window_end : ℕ → ℕ → List ℕ → ℕ
window_end st e [] = e
window_end st e (up ∷ ups) =
    let e1 =
      if ltb st up && (ltb up (st + 10 * minute) && ltb e (up + 2 * minute))
      then up + 2 * minute
      else e in
    window_end st e1 ups

-- The loop of `StartupWindows`; the last window is kept apart from those before it.
unfoldable pub windows_loop : List ℕ → List (ℕ × ℕ) → Option (ℕ × ℕ) → List ℕ → List (ℕ × ℕ)
unfolding window_end
windows_loop ups out none [] = out
windows_loop ups out (some w) [] = out ++ (w ∷ [])
windows_loop ups out none (st ∷ starts) =
    windows_loop ups out (some (st, window_end st (st + 5 * minute) ups)) starts
windows_loop ups out (some (s, e)) (st ∷ starts) =
    let e1 = window_end st (st + 5 * minute) ups in
    let joined = windows_loop ups out (some (s, if ltb e e1 then e1 else e)) starts in
    let apart = windows_loop ups (out ++ ((s, e) ∷ [])) (some (st, e1)) starts in
    if leb st e then joined else apart

unfoldable pub startup_windows : Summary → List (ℕ × ℕ)
unfolding windows_loop
startup_windows s = windows_loop s.ups [] none s.starts

unfoldable pub in_startup : Summary → ℕ → Bool
unfolding startup_windows
in_startup s t =
    if is_zero t then false else any (λ (w : ℕ × ℕ). leb w.0 t && leb t w.1) (startup_windows s)

-- What `classify` keeps of the markers.
unfoldable pub keep_marker : Text → ℕ → Summary → Summary
keep_marker name t s =
    if text_eq name (lit "rke2-up")
    then record s {
      startup = (if ltb s.startup t then t else s.startup);
      ups = (if is_zero t then s.ups else s.ups ++ (t ∷ []));
    }
    else if text_eq name (lit "rke2-start") || text_eq name (lit "kubelet-started")
    then record s { starts = (if is_zero t then s.starts else s.starts ++ (t ∷ [])) }
    else s

-- `classify` behind the look-up.
unfoldable pub record_match : Option Pattern → Match → Summary → Summary
unfolding keep_marker
record_match none m s = record s { counts = more m.class s.counts; found = s.found ++ (m ∷ []) }
record_match (some p) m s =
    let s1 = keep_marker p.name m.time s in
    let m1 = record m { pattern = some p; class = p.class } in
    record s1 {
      by_name = more_named p.name s1.by_name;
      counts = more p.class s1.counts;
      found = s1.found ++ (m1 ∷ []);
    }

-- The time at which an escalated pattern is too old.
abbrev pub persist_of : Option Pattern → ℕ
persist_of none = 0
persist_of (some p) = p.persist

unfoldable pub persists : Summary → ℕ → Match → Bool
persists s now m =
    let from = if is_zero s.startup then now - 10 * minute else s.startup in
    if not (same_class m.class class_startup) || (is_zero (persist_of m.pattern) || is_zero m.time)
    then false
    else ltb (from + persist_of m.pattern) m.time

-- The loop of `escalate`: the matches and the counts.
unfoldable pub escalate_loop : (Match → Bool) → (Class → ℕ) → List Match → List Match × (Class → ℕ)
escalate_loop old counts [] = ([], counts)
escalate_loop old counts (m ∷ ms) =
    let kept = escalate_loop old counts ms in
    let raised = escalate_loop old (more class_warn (less class_startup counts)) ms in
    if old m then (record m { class = class_warn } ∷ raised.0, raised.1) else (m ∷ kept.0, kept.1)

unfoldable pub escalate : ℕ → Summary → Summary
unfolding persists escalate_loop
escalate now s =
    let (ms, counts) = escalate_loop (persists s now) s.counts s.found in
    record s { found = ms; counts = counts }

abbrev pub generic_match : Option Pattern → Bool
generic_match none = false
generic_match (some p) = is_generic p

abbrev pub name_of : Option Pattern → Text
name_of none = []
name_of (some p) = p.name

-- The second loop of `demoteStartupNoise`.
unfoldable pub demote_loop :
    Pattern
    → (Match → Bool)
    → (Class → ℕ)
    → (Text → ℕ)
    → List Match
    → List Match × (Class → ℕ) × (Text → ℕ)
demote_loop noise test counts names [] = ([], counts, names)
demote_loop noise test counts names (m ∷ ms) =
    let kept = demote_loop noise test counts names ms in
    let moved =
      demote_loop noise test (more class_startup (less m.class counts))
        (more_named noise.name (less_named (name_of m.pattern) names)) ms in
    if test m
    then (record m { pattern = some noise; class = class_startup } ∷ moved.0, moved.1, moved.2)
    else (m ∷ kept.0, kept.1, kept.2)
