-- ===== src/Logs/Classify.antt =====
-- internal/logs/patterns.go: `Signature`, the timestamps and `ClassifySources`.
pub mod Counted
mod Tests
use khealth_tui.Base.{
  ℕ, zero, suc, ◌+◌, ◌-◌, ◌*◌, Bool, true, false, ◌&&◌, ◌||◌, not, List, [], ◌∷◌, ◌++◌, Option,
  none, some, if◌then◌else◌, ltb, leb, ◌==◌, length, get_elem?, take, drop, any, keep, map,
}
use khealth_tui.Text.{Text, lit, text_eq, trim_space, to_lower, repeat, index_of}
use khealth_tui.Logs.Prefilter.Syntax.{Regexp}
use khealth_tui.Logs.Knowledge.{
  Class, class_info, class_startup, class_warn, class_error, Pattern, is_generic, match_loop,
}
use khealth_tui.Logs.Summary.{
  Readers, Match, Summary, Source, minute, is_zero, number_from, in_startup, startup_windows,
  record_match, escalate, generic_match, demote_loop,
}

abbrev is_nil : {A : Type 0} → List A → Bool
is_nil [] = true
is_nil (x ∷ xs) = false

-- The ": " behind a journal prefix, if it stands within the first bytes.
unfoldable pub after_pid : Option ℕ → Text → Text
after_pid none t = t
after_pid (some i) t = if ltb i 12 then drop (i + 2) t else t

abbrev pub at_least : ℕ → Text → Text
at_least n s = s ++ repeat 48 (n - length s)

module _ (rd : Readers) where
  open rd use {
    journal_groups, klog_groups, logfmt_group, journal_end, cut_klog, cut_logfmt, blank_quoted,
    blank_digits, parse_rfc3339, date_in_year_of, a_year_before,
  }

  unfoldable pub signature : Text → Text
  unfolding after_pid
  signature line =
      let t = trim_space line in
      let u : Text = elim (journal_end t) [
        | none ↦ t
        | some n ↦ (let r = trim_space (drop n t) in after_pid (index_of r (lit ": ")) r)
      ] in
      let v = blank_digits (blank_quoted (cut_logfmt (cut_klog u))) in
      if ltb 80 (length v) then take 80 v else v

  abbrev time_or_zero : Option ℕ → ℕ
  time_or_zero none = 0
  time_or_zero (some t) = t

  abbrev byte_is : Option ℕ → ℕ → Bool
  byte_is none b = false
  byte_is (some c) b = c == b

  -- `parseISO`: a colon is put into the offset.
  unfoldable pub parse_iso : Text → ℕ
  parse_iso ts =
      let n = length ts in
      let coloned =
        if ltb 5 n
          && (not (byte_is (get_elem? ts (n - 3)) 58) && not (byte_is (get_elem? ts (n - 1)) 90))
        then take (n - 2) ts ++ (58 ∷ drop (n - 2) ts)
        else ts in
      time_or_zero (parse_rfc3339 coloned)

  unfoldable pub file_time : Text → ℕ → ℕ
  file_time t now = elim (klog_groups t) [
    | some (mo, d, h, mi, s, frac) ↦
        let pt =
          date_in_year_of now (number_from 0 mo) (number_from 0 d) (number_from 0 h)
            (number_from 0 mi) (number_from 0 s)
            (if is_nil frac then 0 else number_from 0 (at_least 9 frac)) in
        if ltb (now + 1440 * minute) pt then a_year_before pt else pt
    | none ↦ (elim (logfmt_group t) [ none ↦ 0 | some g ↦ time_or_zero (parse_rfc3339 g) ])
  ]

  -- The match of line `i` of a source before it is classified.
  unfoldable pub new_match : Source → ℕ → ℕ → Text → Match
  unfolding parse_iso file_time
  new_match src now i line =
      let t = trim_space line in
      let no : ℕ = elim (get_elem? src.numbers i) [ none ↦ suc i | some n ↦ n ] in
      let m : Match = record {
        line = line;
        time = 0;
        unit = src.unit;
        class = class_info;
        pattern = none;
        source = src.name;
        line_no = no;
      } in
      if is_nil src.unit
      then elim (journal_groups t) [
        | none ↦ m
        | some (ts, u) ↦ record m { unit = u; time = parse_iso ts }
      ]
      else record m { time = file_time t now }

  -- `demoteStartupNoise`; `noise` is the pattern `startupUnmatched`.
  unfoldable pub recurs : Summary → Text → Bool
  unfolding signature in_startup
  recurs s sig =
      any
        (λ m.
          generic_match (Match.pattern m)
          && (not (is_zero (Match.time m) || in_startup s (Match.time m))
              && text_eq (signature (Match.line m)) sig))
        s.found

  unfoldable pub is_noise : Summary → Match → Bool
  unfolding recurs
  is_noise s m =
      generic_match m.pattern && (in_startup s m.time && not (recurs s (signature m.line)))

  unfoldable pub demote : Pattern → Summary → Summary
  unfolding is_noise demote_loop
  demote noise s =
      let (ms, counts, names) = demote_loop noise (is_noise s) s.counts s.by_name s.found in
      if is_nil (startup_windows s)
      then s
      else record s { found = ms; counts = counts; by_name = names }

  -- `sort_found` is sort.SliceStable by the times.
  module _ (match_string : Regexp → Text → Bool) (table : List Pattern) (noise : Pattern)
      (sort_found : List Match → List Match) where
    unfoldable pub classify : Match → Summary → Summary
    unfolding record_match
    classify m s =
        let t = trim_space m.line in
        record_match (match_loop match_string table table t (to_lower t)) m s

    -- One line: `LastLine` and `Total` are set before `classify`.
    unfoldable pub take_line : Source → ℕ → Text → Summary → Summary
    unfolding classify new_match
    take_line src i line s =
        if is_nil (trim_space line)
        then s
        else let m = new_match src s.now i line in
          classify m (record s {
            total = suc s.total;
            last_line = (if ltb s.last_line m.time then m.time else s.last_line);
          })

    unfoldable pub lines_loop : Source → ℕ → List Text → Summary → Summary
    unfolding take_line
    lines_loop src i [] s = s
    lines_loop src i (line ∷ lines) s = lines_loop src (suc i) lines (take_line src i line s)

    unfoldable pub sources_loop : List Source → Summary → Summary
    unfolding lines_loop
    sources_loop [] s = s
    sources_loop (src ∷ srcs) s = sources_loop srcs (lines_loop src 0 src.lines s)

    abbrev pub empty_summary : ℕ → Summary
    empty_summary now = record {
      total = 0;
      counts = λ c. 0;
      by_name = λ n. 0;
      found = [];
      startup = 0;
      starts = [];
      ups = [];
      last_line = 0;
      now = now;
    }

    unfoldable pub classify_sources : List Source → ℕ → Summary
    unfolding sources_loop escalate demote
    classify_sources srcs now =
        let s = sources_loop srcs (empty_summary now) in
        let sorted = if ltb 1 (length srcs) then record s { found = sort_found s.found } else s in
        demote noise (escalate now sorted)
