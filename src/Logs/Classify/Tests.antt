-- ===== src/Logs/Classify/Tests.antt =====
-- A node that starts, with an unexplained error that does not come back.
use khealth_tui.Base.{
  ℕ, ◌+◌, ◌*◌, ◌≡◌, refl, inl, inr, arith, Bool, true, false, List, [], ◌∷◌, none, some,
}
use khealth_tui.Text.{Text, lit, codes, contains, trim_space}
use khealth_tui.Logs.Prefilter.{need_literals}
use khealth_tui.Logs.Prefilter.Syntax.{Regexp, literal}
use khealth_tui.Logs.Knowledge.{
  Class, class_info, class_startup, class_warn, class_error, Pattern, prepare,
}
use khealth_tui.Logs.Summary.{Readers, Summary, Source, minute, in_startup, startup_windows}
use khealth_tui.Logs.Summary.Windows.{Apart, windows-Apart, start_in_startup}
use khealth_tui.Logs.Classify.{classify_sources}
use khealth_tui.Logs.Classify.Counted.{Sums, classify_sources-Sums}

-- A line "5 ..." is of the unit "u" at the time 5 + 10^12 (the digit is all of the time).
abbrev readers : Readers
readers = record {
  journal_groups = λ t. elim t [ [] ↦ none | c ∷ s ↦ some (c ∷ [], codes "u") ];
  klog_groups = λ t. none;
  logfmt_group = λ t. none;
  journal_end = λ t. some 1;
  cut_klog = λ t. t;
  cut_logfmt = λ t. t;
  blank_quoted = λ t. t;
  blank_digits = λ t. t;
  parse_rfc3339 = λ t. elim t [ [] ↦ none | c ∷ s ↦ some (c + 1000000000000) ];
  date_in_year_of = λ n mo d h mi s f. n;
  a_year_before = λ t. t;
}

abbrev entry : Text → Class → Text → Pattern
entry n c t = record {
  name = n;
  class = c;
  re = literal false t;
  persist = 0;
  need = [];
  pre = none;
}

abbrev base : List Pattern
base =
    prepare (entry (codes "rke2-start") class_info (codes "Starting rke2"))
    ∷ prepare (entry (codes "generic-error") class_error (codes "error="))
    ∷ []

abbrev run_re : Regexp → Text → Bool
run_re (literal fold rs) t = contains t rs
run_re _ t = true

abbrev node : List Source
node =
    record {
      unit = [];
      lines = codes "5 Starting rke2" ∷ codes "6 error=no route" ∷ codes " " ∷ [];
      name = codes "journal";
      numbers = [];
    }
    ∷ []

abbrev summary : Summary
summary =
    classify_sources readers run_re base (entry (codes "startup-unmatched") class_startup [])
      (λ ms. ms) node 2000000000000

-- The error is demoted to startup noise.
demoted :
    ◌≡◌ {A = ℕ × ℕ × ℕ}
      (summary.counts class_error, summary.counts class_startup, summary.total)
      (0, 1, 2)
unfolding classify_sources trim_space khealth_tui.Logs.Knowledge.match_loop prepare lit
    need_literals
demoted = refl

classify_sources-Sums_example : Sums summary
classify_sources-Sums_example =
    classify_sources-Sums readers run_re base (entry (codes "startup-unmatched") class_startup [])
      (λ ms. ms) (λ f ms. refl) node 2000000000000

-- Two sources: the markers of the second one are older than the window of the first.
abbrev with_starts : List ℕ → Summary
with_starts ts = record {
  total = 0;
  counts = λ c. 0;
  by_name = λ n. 0;
  found = [];
  startup = 0;
  starts = ts;
  ups = [];
  last_line = 0;
  now = 0;
}

-- A marker that comes behind a later one lies in no window.
lost_window : in_startup (with_starts (100 * minute ∷ 10 * minute ∷ [])) (10 * minute) ≡ false
unfolding in_startup startup_windows
lost_window = refl

abbrev two_starts : Summary
two_starts = with_starts (10 * minute ∷ 100 * minute ∷ [])

windows-Apart_example : Apart (startup_windows two_starts)
windows-Apart_example = windows-Apart two_starts

start_in_startup_example : in_startup two_starts (100 * minute) ≡ true
start_in_startup_example =
    start_in_startup two_starts (100 * minute) (omega arith, (omega arith, tt))
      (λ e. absurd (ground (arith, e))) (inr (inl refl))
