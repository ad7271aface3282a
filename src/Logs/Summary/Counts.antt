-- ===== src/Logs/Summary/Counts.antt =====
-- internal/logs/patterns.go: the counts of a summary are the numbers of its matches per class.
use khealth_tui.Base.{
  ℕ, suc, ◌+◌, ◌≡◌, refl, sym, ap, ◌∙◌, subst, Bool, true, List, [], ◌∷◌, ◌++◌, Option, none, some,
  arith, Bool-cases, inl, inr, if◌then◌else◌, length,
}
use khealth_tui.Text.{Text}
use khealth_tui.Logs.Knowledge.{Class, class_info, class_startup, class_warn, class_error, Pattern}
use khealth_tui.Logs.Summary.{
  Match, Summary, same_class, more, less, keep_marker, record_match, escalate_loop, escalate,
  demote_loop, persists, class_no, more_named, less_named, name_of,
}

-- How many matches have the class.
unfoldable pub tally : Class → List Match → ℕ
tally c [] = 0
tally c (m ∷ ms) = (if same_class m.class c then 1 else 0) + tally c ms

-- The invariant of `Summary`.
abbrev pub Counted : Summary → Type 0
Counted s = (c : Class) → s.counts c ≡ tally c s.found

pub tally-append : (c : Class) (xs ys : List Match) → tally c (xs ++ ys) ≡ tally c xs + tally c ys
unfolding tally
tally-append c [] ys = omega arith
tally-append c (m ∷ xs) ys = omega (arith, tally-append c xs ys)

keep_marker-counts : (n : Text) (t : ℕ) (s : Summary) → (keep_marker n t s).counts ≡ s.counts
unfolding keep_marker
keep_marker-counts n t s = ground arith

keep_marker-found : (n : Text) (t : ℕ) (s : Summary) → (keep_marker n t s).found ≡ s.found
unfolding keep_marker
keep_marker-found n t s = ground arith

more_one :
    (c : Class) (f : Class → ℕ) (m : Match) (ms : List Match) (d : Class)
    → f d ≡ tally d ms
    → more m.class f d ≡ tally d (ms ++ (m ∷ []))
unfolding tally
more_one c f m ms d h = ground (arith, tally-append d ms (m ∷ []))

pub record_match-Counted :
    (p : Option Pattern) (m : Match) (s : Summary) → Counted s → Counted (record_match p m s)
unfolding record_match
record_match-Counted none m s h c = more_one c s.counts m s.found c (h c)
record_match-Counted (some p) m s h c =
    let s1 = keep_marker p.name m.time s in
    let m1 : Match = record m { pattern = some p; class = p.class } in
    more_one p.class s1.counts m1 s1.found c (
      ap (λ f. f c) (keep_marker-counts p.name m.time s)
      ∙ h c
      ∙ ap (tally c) (sym (keep_marker-found p.name m.time s)))

abbrev one : Class → Class → ℕ
one a b = if same_class a b then 1 else 0

-- Moving one match from the class `old` to `new` keeps the counts right.
move_count :
    (old new : Class) (counts : Class → ℕ) (d : Class) (k t : ℕ)
    → counts d ≡ k + (one old d + t)
    → more new (less old counts) d ≡ (k + one new d) + t
move_count old new counts d k t h = ground arith

-- The matches before the loop's are counted apart.
pub escalate_loop-tally :
    (old : Match → Bool) (k counts : Class → ℕ) (ms : List Match)
    → ((m : Match) → old m ≡ true → m.class ≡ class_startup)
    → ((c : Class) → counts c ≡ k c + tally c ms)
    → (c : Class)
    → (escalate_loop old counts ms).1 c ≡ k c + tally c (escalate_loop old counts ms).0
unfolding escalate_loop tally
escalate_loop-tally old k counts [] hs h c = h c
escalate_loop-tally old k counts (m ∷ ms) hs h c = elim (Bool-cases (old m)) [
  | inl e ↦
      let ih =
        escalate_loop-tally old (λ d. k d + one class_warn d)
          (more class_warn (less class_startup counts)) ms hs
          (λ d.
            move_count class_startup class_warn counts d (k d) (tally d ms)
              (subst (λ x. counts d ≡ k d + (one x d + tally d ms)) (hs m e) (h d)))
          c in
      rw e (omega (arith, ih))
  | inr e ↦
      let ih =
        escalate_loop-tally old (λ d. k d + one m.class d) counts ms hs (λ d. omega (arith, h d))
          c in
      rw e (omega (arith, ih))
]

pub demote_loop-tally :
    (noise : Pattern) (test : Match → Bool) (k counts : Class → ℕ) (names : Text → ℕ)
    (ms : List Match)
    → ((c : Class) → counts c ≡ k c + tally c ms)
    → (c : Class)
    → (demote_loop noise test counts names ms).1 c
      ≡ k c + tally c (demote_loop noise test counts names ms).0
unfolding demote_loop tally
demote_loop-tally noise test k counts names [] h c = h c
demote_loop-tally noise test k counts names (m ∷ ms) h c = elim (Bool-cases (test m)) [
  | inl e ↦
      let ih =
        demote_loop-tally noise test (λ d. k d + one class_startup d)
          (more class_startup (less m.class counts))
          (more_named noise.name (less_named (name_of m.pattern) names)) ms
          (λ d. move_count m.class class_startup counts d (k d) (tally d ms) (h d)) c in
      rw e (omega (arith, ih))
  | inr e ↦
      let ih =
        demote_loop-tally noise test (λ d. k d + one m.class d) counts names ms
          (λ d. omega (arith, h d)) c in
      rw e (omega (arith, ih))
]

persists-startup :
    (s : Summary) (now : ℕ) (m : Match) → persists s now m ≡ true → m.class ≡ class_startup
unfolding persists
persists-startup s now m h = of_no m.class (ground (arith, h))
  where
    of_no : (c : Class) → class_no c ≡ 1 → c ≡ class_startup
    of_no class_info h = absurd (ground (arith, h))
    of_no class_startup h = refl
    of_no class_warn h = absurd (ground (arith, h))
    of_no class_error h = absurd (ground (arith, h))

pub escalate-Counted : (now : ℕ) (s : Summary) → Counted s → Counted (escalate now s)
unfolding escalate
escalate-Counted now s h c =
    escalate_loop-tally (persists s now) (λ d. 0) s.counts s.found (persists-startup s now)
      (λ d. omega (arith, h d)) c
    ∙ omega arith

length-snoc : {A : Type 0} (xs : List A) (x : A) → length (xs ++ (x ∷ [])) ≡ suc (length xs)
length-snoc [] x = refl
length-snoc (y ∷ xs) x = ap suc (length-snoc xs x)

keep_marker-total : (n : Text) (t : ℕ) (s : Summary) → (keep_marker n t s).total ≡ s.total
unfolding keep_marker
keep_marker-total n t s = ground arith

pub record_match-length :
    (p : Option Pattern) (m : Match) (s : Summary)
    → (length (record_match p m s).found ≡ suc (length s.found))
      × ((record_match p m s).total ≡ s.total)
unfolding record_match
record_match-length none m s = (length-snoc s.found m, refl)
record_match-length (some p) m s =
    let m1 : Match = record m { pattern = some p; class = p.class } in
    (
      length-snoc (keep_marker p.name m.time s).found m1
          ∙ ap (λ l. suc (length l)) (keep_marker-found p.name m.time s),
      keep_marker-total p.name m.time s,
    )

pub escalate_loop-length :
    (old : Match → Bool) (counts : Class → ℕ) (ms : List Match)
    → length (escalate_loop old counts ms).0 ≡ length ms
unfolding escalate_loop
escalate_loop-length old counts [] = refl
escalate_loop-length old counts (m ∷ ms) = ground (
  arith,
  escalate_loop-length old counts ms,
  escalate_loop-length old (more class_warn (less class_startup counts)) ms,
)

pub demote_loop-length :
    (noise : Pattern) (test : Match → Bool) (counts : Class → ℕ) (names : Text → ℕ)
    (ms : List Match)
    → length (demote_loop noise test counts names ms).0 ≡ length ms
unfolding demote_loop
demote_loop-length noise test counts names [] = refl
demote_loop-length noise test counts names (m ∷ ms) = ground (
  arith,
  demote_loop-length noise test counts names ms,
  demote_loop-length noise test (more class_startup (less m.class counts))
      (more_named noise.name (less_named (name_of m.pattern) names)) ms,
)
