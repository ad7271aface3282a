-- ===== src/Stig.antt =====
-- internal/stig/stig.go and score.go: the results of rules, and the reference that a result belongs to.
pub mod Score
pub mod Checklist
use khealth_tui.Base.{
  ℕ, Bool, true, false, ◌||◌, List, [], ◌∷◌, ◌++◌, Option, none, some, if◌then◌else◌,
}
use khealth_tui.Text.{Text, lit, text_eq, has_prefix}

pub record Benchmark : Type 0 where
  pub name : Text
  pub version : Text
  pub prefixes : List Text

unfoldable pub matches_any : Text → List Text → Bool
matches_any id [] = false
matches_any id (p ∷ ps) = has_prefix id p || matches_any id ps

-- `Benchmarks`, without the notes.
unfoldable pub benchmarks : List Benchmark
benchmarks =
    record {
      name = lit "DISA Kubernetes STIG";
      version = lit "V2R6 (01 Apr 2026)";
      prefixes = lit "V-242" ∷ lit "V-245" ∷ lit "V-2548" ∷ lit "V-2748" ∷ [];
    }
    ∷ record {
      name = lit "DISA Rancher Government RKE2 STIG";
      version = lit "V2R7 (01 Jul 2026)";
      prefixes = lit "V-2545" ∷ lit "V-268" ∷ lit "RKE2-" ∷ [];
    }
    ∷ record {
      name = lit "DISA Rancher Government MCM STIG";
      version = lit "V2R2 (05 Jan 2026)";
      prefixes = lit "V-2528" ∷ lit "V-257292" ∷ [];
    }
    ∷ record {
      name = lit "CIS Kubernetes Benchmark";
      version = lit "v2.0.1 (Jun 2026) / rke2 CIS self-assessment v1.12";
      prefixes = lit "CIS-" ∷ [];
    }
    ∷ record {
      name = lit "Generic OS checks";
      version = lit "(no STIG ID)";
      prefixes = lit "OS-" ∷ [];
    }
    ∷ []

pub data Status : Type 0 where
  pass : Status
  fail : Status
  manual : Status
  not_applicable : Status
  unknown : Status

pub data TargetKind : Type 0 where
  file : TargetKind
  resource : TargetKind
  boot : TargetKind
  packages : TargetKind
  unit : TargetKind
  review : TargetKind

pub record Target : Type 0 where
  pub kind : TargetKind
  pub name : Text
  pub change : Text

-- `Result`, with the fields that are read here; `per_node` has one entry per node.
pub record Result : Type 0 where
  pub id : Text
  pub title : Text
  pub cat : Text
  pub group : Text
  pub status : Status
  pub detail : Text
  pub fix : Text
  pub ref : Text
  pub per_node : List (Text × Status)
  pub targets : List Target

unfoldable pub benchmark_in : List Benchmark → Text → Text
unfolding matches_any
benchmark_in [] id = lit "custom"
benchmark_in (b ∷ bs) id =
    if matches_any id b.prefixes then b.name ++ (lit " " ++ b.version) else benchmark_in bs id

unfoldable pub benchmark_name : Result → Text
unfolding benchmark_in benchmarks
benchmark_name r = if text_eq r.ref [] then benchmark_in benchmarks r.id else r.ref
