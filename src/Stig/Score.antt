-- ===== src/Stig/Score.antt =====
-- internal/stig/score.go: the scorecards of the benchmarks.
pub mod Fields
pub mod Keys
pub mod Tally
mod Tests
use khealth_tui.Base.{ℕ, ◌+◌, Bool, true, false, not, ◌&&◌, List, [], ◌∷◌, ◌++◌, if◌then◌else◌, map}
use khealth_tui.Text.{Text, lit, text_eq, text_less}
use khealth_tui.Stig.{Status, pass, fail, manual, not_applicable, unknown, Result, benchmark_name}

-- One number per severity.
pub record Cats : Type 0 where
  pub one : ℕ
  pub two : ℕ
  pub three : ℕ

pub record Score : Type 0 where
  pub benchmark : Text
  pub node : Text
  pub opened : ℕ
  pub not_a_finding : ℕ
  pub na : ℕ
  pub not_reviewed : ℕ
  pub cat_open : Cats
  pub cat_total : Cats

abbrev pub no_cats : Cats
no_cats = record { one = 0; two = 0; three = 0 }

abbrev pub new_score : Text → Text → Score
new_score benchmark node = record {
  benchmark = benchmark;
  node = node;
  opened = 0;
  not_a_finding = 0;
  na = 0;
  not_reviewed = 0;
  cat_open = no_cats;
  cat_total = no_cats;
}

abbrev pub bit : Bool → ℕ
bit b = if b then 1 else 0

abbrev pub bump : Text → Cats → Cats
bump cat c = record {
  one = c.one + bit (text_eq cat (lit "I"));
  two = c.two + bit (text_eq cat (lit "II"));
  three = c.three + bit (text_eq cat (lit "III"));
}

unfoldable pub add : Score → Status → Text → Score
add s pass cat = record s { not_a_finding = s.not_a_finding + 1; cat_total = bump cat s.cat_total }
add s fail cat = record s {
  opened = s.opened + 1;
  cat_open = bump cat s.cat_open;
  cat_total = bump cat s.cat_total;
}
add s not_applicable cat = record s { na = s.na + 1 }
add s manual cat = record s { not_reviewed = s.not_reviewed + 1 }
add s unknown cat = record s { not_reviewed = s.not_reviewed + 1 }

-- One call of `add`, with the key of its scorecard.
pub record Outcome : Type 0 where
  pub benchmark : Text
  pub node : Text
  pub status : Status
  pub cat : Text

abbrev pub outcome : Text → Text → Status → Text → Outcome
outcome b n st cat = record { benchmark = b; node = n; status = st; cat = cat }

unfoldable pub outcomes : Bool → List Result → List Outcome
outcomes per_node [] = []
outcomes per_node (r ∷ rs) =
    let rest = outcomes per_node rs in
    let b = benchmark_name r in
    let nodes =
      if per_node then map (λ (x : Text × Status). outcome b x.0 x.1 r.cat) r.per_node else [] in
    outcome b [] r.status r.cat ∷ (nodes ++ rest)

abbrev pub has_key : Text → Text → Score → Bool
has_key benchmark node s = text_eq s.benchmark benchmark && text_eq s.node node

-- `get(b, n).add(...)`.
unfoldable pub score : List Score → Outcome → List Score
unfolding add
score [] o = add (new_score o.benchmark o.node) o.status o.cat ∷ []
score (s ∷ acc) o =
    let rest = score acc o in
    if has_key o.benchmark o.node s then add s o.status o.cat ∷ acc else s ∷ rest

unfoldable pub score_loop : List Score → List Outcome → List Score
unfolding score
score_loop acc [] = acc
score_loop acc (o ∷ os) = score_loop (score acc o) os

abbrev pub score_less : Score → Score → Bool
score_less s t =
    if text_eq s.benchmark t.benchmark
    then text_less s.node t.node
    else text_less s.benchmark t.benchmark

-- `sort.Slice`; the keys differ.
unfoldable pub insert_score : Score → List Score → List Score
insert_score s [] = s ∷ []
insert_score s (t ∷ ts) =
    let rest = insert_score s ts in if score_less s t then s ∷ t ∷ ts else t ∷ rest

unfoldable pub sort_scores : List Score → List Score
unfolding insert_score
sort_scores [] = []
sort_scores (s ∷ ss) = insert_score s (sort_scores ss)

unfoldable pub scores : List Result → Bool → List Score
unfolding outcomes score_loop sort_scores
scores rs per_node = sort_scores (score_loop [] (outcomes per_node rs))
