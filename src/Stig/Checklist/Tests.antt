-- ===== src/Stig/Checklist/Tests.antt =====
-- internal/stig/checklist.go: two results with one change, and the theorem applied to them.
use khealth_tui.Base.{◌≡◌, refl, List, [], ◌∷◌, All, map}
use khealth_tui.Text.{Text, codes}
use khealth_tui.Stig.{Result, Status, fail, manual, Target, file}
use khealth_tui.Stig.Checklist.{Group, Item, checklist}
use khealth_tui.Stig.Checklist.Covers.{Covered, checklist-Covered}

abbrev sysctl : Target
sysctl = record { kind = file; name = codes "/etc/sysctl.d/90.conf"; change = codes "a = 1" }

abbrev result : Text → Status → Text → Result
result id st node = record {
  id = id;
  title = [];
  cat = codes "II";
  group = codes "os";
  status = st;
  detail = [];
  fix = [];
  ref = [];
  per_node = (node, st) ∷ [];
  targets = sysctl ∷ [];
}

abbrev results : List Result
results = result (codes "V-1") manual (codes "n2") ∷ result (codes "V-2") fail (codes "n1") ∷ []

abbrev none_found : Text → Text
none_found s = []

merged :
    map
      (λ (g : Group). map (λ (it : Item). it.ids) g.items)
      (checklist none_found none_found results)
    ≡ ((codes "V-1" ∷ codes "V-2" ∷ []) ∷ []) ∷ []
unfolding checklist khealth_tui.Base.Sort.sort_by khealth_tui.Stig.Checklist.Targets.targets_of
    khealth_tui.Text.lit khealth_tui.Stig.Checklist.Targets.kind_text
    khealth_tui.Strutil.first_non_empty
merged = refl

checklist-Covered_example :
    All (Covered none_found none_found (checklist none_found none_found results)) results
checklist-Covered_example = checklist-Covered none_found none_found results
