-- ===== src/Version/Tests.antt =====
-- Versions of charts.
use khealth_tui.Base.{◌≡◌, ◌≢◌, refl, arith}
use khealth_tui.Text.{codes, cut, trim_prefix, lit}
use khealth_tui.Version.{minus, plus, compare_versions}
use khealth_tui.Version.Order.{opposite, compare_versions-opposite, compare_versions_trans}

newer_patch : compare_versions (codes "v1.9.3") (codes "1.10.0") ≡ minus
unfolding compare_versions cut trim_prefix lit
newer_patch = refl

-- The texts of prereleases are compared byte by byte, not number by number.
late_candidate : compare_versions (codes "1.2.0-rc.10") (codes "1.2.0-rc.9") ≡ minus
unfolding compare_versions cut trim_prefix lit
late_candidate = refl

compare_versions-opposite_example :
    compare_versions (codes "1.10.0") (codes "v1.9.3")
    ≡ opposite (compare_versions (codes "v1.9.3") (codes "1.10.0"))
compare_versions-opposite_example = compare_versions-opposite (codes "v1.9.3") (codes "1.10.0")

compare_versions_trans_example : compare_versions (codes "1.2") (codes "v2.0.0") ≢ plus
unfolding compare_versions cut trim_prefix lit
compare_versions_trans_example =
    compare_versions_trans (codes "1.2") (codes "1.10.1") (codes "v2.0.0") (λ e. ground (arith, e))
      (λ e. ground (arith, e))
