-- ===== src/Logs/Classify/Counted.antt =====
-- internal/logs/patterns.go, `ClassifySources`: the summary is right about its own matches.
use khealth_tui.Base.{
  ℕ, suc, ◌+◌, ◌≡◌, refl, sym, ◌∙◌, Bool, true, false, List, [], ◌∷◌, arith, Bool-cases, inl, inr,
  if◌then◌else◌, length, ltb,
}
use khealth_tui.Text.{Text, trim_space, to_lower}
use khealth_tui.Logs.Prefilter.Syntax.{Regexp}
use khealth_tui.Logs.Knowledge.{Class, Pattern, match_loop}
use khealth_tui.Logs.Summary.{
  Readers, Match, Summary, Source, same_class, escalate, startup_windows, persists,
}
use khealth_tui.Logs.Summary.Counts.{
  tally, Counted, record_match-Counted, record_match-length, escalate-Counted, escalate_loop-length,
  demote_loop-tally, demote_loop-length,
}
use khealth_tui.Logs.Classify.{
  take_line, lines_loop, sources_loop, classify_sources, classify, demote, is_noise, is_nil,
  new_match, empty_summary,
}

-- How many items pass a test.
abbrev pub count : (Match → Bool) → List Match → ℕ
count f [] = 0
count f (m ∷ ms) = (if f m then 1 else 0) + count f ms

tally_count :
    (c : Class) (ms : List Match) → tally c ms ≡ count (λ m. same_class (Match.class m) c) ms
unfolding tally
tally_count c [] = refl
tally_count c (m ∷ ms) = omega (arith, tally_count c ms)

length_count : (ms : List Match) → length ms ≡ count (λ m. true) ms
length_count [] = refl
length_count (m ∷ ms) = omega (arith, length_count ms)

-- The counts agree with the matches, and there is one match for each line that was counted.
abbrev pub Sums : Summary → Type 0
Sums s = Counted s × (length s.found ≡ s.total)

module _ (rd : Readers) (match_string : Regexp → Text → Bool) (table : List Pattern)
    (noise : Pattern) (sort_found : List Match → List Match) where
  take_line-Sums :
      (src : Source) (i : ℕ) (line : Text) (s : Summary)
      → Sums s
      → Sums (take_line rd match_string table noise sort_found src i line s)
  unfolding take_line classify
  take_line-Sums src i line s (h, l) = elim (Bool-cases (is_nil (trim_space line))) [
    | inl e ↦ rw e (h, l)
    | inr e ↦
        let m = new_match rd src s.now i line in
        let t = trim_space m.line in
        let s1 : Summary = record s {
          total = suc s.total;
          last_line = (if ltb s.last_line m.time then m.time else s.last_line);
        } in
        let p = match_loop match_string table table t (to_lower t) in
        let (a, b) = record_match-length p m s1 in
        rw e (record_match-Counted p m s1 h, omega (arith, a, b, l))
  ]

  lines_loop-Sums :
      (src : Source) (i : ℕ) (lines : List Text) (s : Summary)
      → Sums s
      → Sums (lines_loop rd match_string table noise sort_found src i lines s)
  unfolding lines_loop
  lines_loop-Sums src i [] s h = h
  lines_loop-Sums src i (line ∷ lines) s h =
      lines_loop-Sums src (suc i) lines _ (take_line-Sums src i line s h)

  sources_loop-Sums :
      (srcs : List Source) (s : Summary)
      → Sums s
      → Sums (sources_loop rd match_string table noise sort_found srcs s)
  unfolding sources_loop
  sources_loop-Sums [] s h = h
  sources_loop-Sums (src ∷ srcs) s h =
      sources_loop-Sums srcs _ (lines_loop-Sums src 0 src.lines s h)

  escalate-Sums : (now : ℕ) (s : Summary) → Sums s → Sums (escalate now s)
  unfolding escalate
  escalate-Sums now s (h, l) =
      (escalate-Counted now s h, escalate_loop-length (persists s now) s.counts s.found ∙ l)

  demote-Sums : (s : Summary) → Sums s → Sums (demote rd noise s)
  unfolding demote
  demote-Sums s (h, l) = elim (Bool-cases (is_nil (startup_windows s))) [
    | inl e ↦ rw e (h, l)
    | inr e ↦ rw e (
      (λ c.
          demote_loop-tally noise (is_noise rd s) (λ d. 0) s.counts s.by_name s.found
            (λ d. omega (arith, h d)) c
          ∙ omega arith),
      demote_loop-length noise (is_noise rd s) s.counts s.by_name s.found ∙ l,
    )
  ]

  sorted-Sums :
      ((f : Match → Bool) (ms : List Match) → count f (sort_found ms) ≡ count f ms)
      → (b : Bool) (s : Summary) → Sums s
      → Sums (if b then record s { found = sort_found s.found } else s)
  sorted-Sums hs false s h = h
  sorted-Sums hs true s (h, l) = (
    (λ c.
        h c
        ∙ tally_count c s.found
        ∙ sym (hs (λ m. same_class (Match.class m) c) s.found)
        ∙ sym (tally_count c (sort_found s.found))),
    length_count (sort_found s.found) ∙ hs (λ m. true) s.found ∙ sym (length_count s.found) ∙ l,
  )

  -- With a sort that keeps every match as often as it was: after `ClassifySources` each class has the
  -- count of its matches, and there are as many matches as lines counted in the total.
  pub classify_sources-Sums :
      ((f : Match → Bool) (ms : List Match) → count f (sort_found ms) ≡ count f ms)
      → (srcs : List Source) (now : ℕ)
      → Sums (classify_sources rd match_string table noise sort_found srcs now)
  unfolding classify_sources tally
  classify_sources-Sums hs srcs now =
      let s0 = empty_summary rd match_string table noise sort_found now in
      let s = sources_loop rd match_string table noise sort_found srcs s0 in
      let sorted = if ltb 1 (length srcs) then record s { found = sort_found s.found } else s in
      demote-Sums (escalate now sorted) (
        escalate-Sums now sorted
          (sorted-Sums hs (ltb 1 (length srcs)) s (sources_loop-Sums srcs s0 ((λ c. refl), refl))))
