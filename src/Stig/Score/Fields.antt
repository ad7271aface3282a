-- ===== src/Stig/Score/Fields.antt =====
-- internal/stig/score.go: the numbers of a scorecard, and what each counts.
use khealth_tui.Base.{ℕ, ◌+◌, ◌≡◌, sym, Bool, true, false, ◌&&◌, List, [], ◌∷◌, arith, All}
use khealth_tui.Text.{Text, lit, text_eq}
use khealth_tui.Stig.{Status, pass, fail, manual, not_applicable, unknown}
use khealth_tui.Stig.Score.{Score, Outcome, bit, outcome, add, new_score, has_key}

-- The numbers of a scorecard.
pub data Field : Type 0 where
  opened : Field
  not_a_finding : Field
  na : Field
  not_reviewed : Field
  open_one : Field
  open_two : Field
  open_three : Field
  total_one : Field
  total_two : Field
  total_three : Field

abbrev pub field : Field → Score → ℕ
field opened s = s.opened
field not_a_finding s = s.not_a_finding
field na s = s.na
field not_reviewed s = s.not_reviewed
field open_one s = s.cat_open.one
field open_two s = s.cat_open.two
field open_three s = s.cat_open.three
field total_one s = s.cat_total.one
field total_two s = s.cat_total.two
field total_three s = s.cat_total.three

abbrev is_fail : Status → Bool
is_fail fail = true
is_fail _ = false

abbrev is_scored : Status → Bool
is_scored fail = true
is_scored pass = true
is_scored _ = false

abbrev is_pass : Status → Bool
is_pass pass = true
is_pass _ = false

abbrev is_na : Status → Bool
is_na not_applicable = true
is_na _ = false

abbrev is_open_question : Status → Bool
is_open_question manual = true
is_open_question unknown = true
is_open_question _ = false

-- Which outcomes a number counts.
abbrev pub wants : Field → Status → Text → Bool
wants opened st cat = is_fail st
wants not_a_finding st cat = is_pass st
wants na st cat = is_na st
wants not_reviewed st cat = is_open_question st
wants open_one st cat = is_fail st && text_eq cat (lit "I")
wants open_two st cat = is_fail st && text_eq cat (lit "II")
wants open_three st cat = is_fail st && text_eq cat (lit "III")
wants total_one st cat = is_scored st && text_eq cat (lit "I")
wants total_two st cat = is_scored st && text_eq cat (lit "II")
wants total_three st cat = is_scored st && text_eq cat (lit "III")

add-field :
    (k : Field) (s : Score) (st : Status) (cat : Text)
    → field k (add s st cat) ≡ field k s + bit (wants k st cat)
unfolding add
add-field opened s pass cat = ground arith
add-field opened s fail cat = ground arith
add-field opened s manual cat = ground arith
add-field opened s not_applicable cat = ground arith
add-field opened s unknown cat = ground arith
add-field not_a_finding s pass cat = ground arith
add-field not_a_finding s fail cat = ground arith
add-field not_a_finding s manual cat = ground arith
add-field not_a_finding s not_applicable cat = ground arith
add-field not_a_finding s unknown cat = ground arith
add-field na s pass cat = ground arith
add-field na s fail cat = ground arith
add-field na s manual cat = ground arith
add-field na s not_applicable cat = ground arith
add-field na s unknown cat = ground arith
add-field not_reviewed s pass cat = ground arith
add-field not_reviewed s fail cat = ground arith
add-field not_reviewed s manual cat = ground arith
add-field not_reviewed s not_applicable cat = ground arith
add-field not_reviewed s unknown cat = ground arith
add-field open_one s pass cat = ground arith
add-field open_one s fail cat = ground arith
add-field open_one s manual cat = ground arith
add-field open_one s not_applicable cat = ground arith
add-field open_one s unknown cat = ground arith
add-field open_two s pass cat = ground arith
add-field open_two s fail cat = ground arith
add-field open_two s manual cat = ground arith
add-field open_two s not_applicable cat = ground arith
add-field open_two s unknown cat = ground arith
add-field open_three s pass cat = ground arith
add-field open_three s fail cat = ground arith
add-field open_three s manual cat = ground arith
add-field open_three s not_applicable cat = ground arith
add-field open_three s unknown cat = ground arith
add-field total_one s pass cat = ground arith
add-field total_one s fail cat = ground arith
add-field total_one s manual cat = ground arith
add-field total_one s not_applicable cat = ground arith
add-field total_one s unknown cat = ground arith
add-field total_two s pass cat = ground arith
add-field total_two s fail cat = ground arith
add-field total_two s manual cat = ground arith
add-field total_two s not_applicable cat = ground arith
add-field total_two s unknown cat = ground arith
add-field total_three s pass cat = ground arith
add-field total_three s fail cat = ground arith
add-field total_three s manual cat = ground arith
add-field total_three s not_applicable cat = ground arith
add-field total_three s unknown cat = ground arith

-- A count of outcomes, as a function of what is counted.
abbrev pub Counts : Type 0
Counts = (Outcome → Bool) → ℕ

abbrev pub count_from : ℕ → (Outcome → Bool) → List Outcome → ℕ
count_from n f [] = n
count_from n f (o ∷ os) = count_from (n + bit (f o)) f os

-- An outcome of the key that the number counts.
abbrev pub counted : Text → Text → Field → Outcome → Bool
counted b n k o = (text_eq b o.benchmark && text_eq n o.node) && wants k o.status o.cat

-- Each number of the scorecard is the count of what it wants.
abbrev pub IsTally : Counts → Score → Type 0
IsTally e s = (k : Field) → field k s ≡ e (counted s.benchmark s.node k)

abbrev pub Differs : Text → Text → Score → Type 0
Differs b n s = has_key b n s ≡ false

-- A key without a scorecard has no outcome yet.
abbrev pub IsNew : Counts → List Score → Type 0
IsNew e acc = (b n : Text) (k : Field) → All (Differs b n) acc → e (counted b n k) ≡ 0

abbrev pub more : Counts → Outcome → Counts
more e o f = e f + bit (f o)

-- The scorecard of the outcome's key counts it.
pub add-IsTally :
    (e : Counts) (s : Score) (b n : Text) (st : Status) (cat : Text)
    → has_key b n s ≡ true
    → IsTally e s
    → IsTally (more e (outcome b n st cat)) (add s st cat)
unfolding add
add-IsTally e s b n pass cat h t k = ground (arith, t k, add-field k s pass cat, h)
add-IsTally e s b n fail cat h t k = ground (arith, t k, add-field k s fail cat, h)
add-IsTally e s b n manual cat h t k = ground (arith, t k, add-field k s manual cat, h)
add-IsTally e s b n not_applicable cat h t k =
    ground (arith, t k, add-field k s not_applicable cat, h)
add-IsTally e s b n unknown cat h t k = ground (arith, t k, add-field k s unknown cat, h)

-- The others do not.
pub IsTally-other :
    (e : Counts) (s : Score) (o : Outcome)
    → has_key o.benchmark o.node s ≡ false
    → IsTally e s
    → IsTally (more e o) s
IsTally-other e s o h t k = ground (arith, t k, h)

pub new_score-IsTally :
    (e : Counts) (b n : Text) → ((k : Field) → e (counted b n k) ≡ 0) → IsTally e (new_score b n)
new_score-IsTally e b n h opened = sym (h opened)
new_score-IsTally e b n h not_a_finding = sym (h not_a_finding)
new_score-IsTally e b n h na = sym (h na)
new_score-IsTally e b n h not_reviewed = sym (h not_reviewed)
new_score-IsTally e b n h open_one = sym (h open_one)
new_score-IsTally e b n h open_two = sym (h open_two)
new_score-IsTally e b n h open_three = sym (h open_three)
new_score-IsTally e b n h total_one = sym (h total_one)
new_score-IsTally e b n h total_two = sym (h total_two)
new_score-IsTally e b n h total_three = sym (h total_three)
