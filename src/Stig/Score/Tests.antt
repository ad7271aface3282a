-- ===== src/Stig/Score/Tests.antt =====
-- internal/stig/score.go: two results, and the theorem applied to them.
use khealth_tui.Base.{◌≡◌, refl, true, List, [], ◌∷◌, All, map}
use khealth_tui.Text.{Text, codes}
use khealth_tui.Stig.{Result, Status, pass, fail}
use khealth_tui.Stig.Score.{scores, outcomes, Score}
use khealth_tui.Stig.Score.Fields.{IsTally, count_from}
use khealth_tui.Stig.Score.Tally.{scores-IsTally}

abbrev result : Text → Status → List (Text × Status) → Result
result id st nodes = record {
  id = id;
  title = [];
  cat = codes "II";
  group = codes "os";
  status = st;
  detail = [];
  fix = [];
  ref = [];
  per_node = nodes;
  targets = [];
}

abbrev results : List Result
results =
    result (codes "CIS-1.1") fail ((codes "n1", pass) ∷ (codes "n2", fail) ∷ [])
    ∷ result (codes "CIS-1.2") pass []
    ∷ []

two_open : map (λ (s : Score). s.opened) (scores results true) ≡ 1 ∷ 0 ∷ 1 ∷ []
unfolding scores khealth_tui.Stig.benchmark_name khealth_tui.Text.lit khealth_tui.Text.text_less
two_open = refl

scores-IsTally_example :
    All (IsTally (λ f. count_from 0 f (outcomes true results))) (scores results true)
scores-IsTally_example = scores-IsTally results true
