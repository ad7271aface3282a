-- ===== src/Rescue/Preflight/Tests.antt =====
-- internal/rescue/rescue.go, `Preflight`: a small cluster, and the theorems applied to it.
use khealth_tui.Base.{
  ℕ, ◌+◌, ◌*◌, ◌≢◌, refl, Bool, true, false, List, [], ◌∷◌, Option, none, some, arith,
  if◌then◌else◌, All, Any,
}
use khealth_tui.Text.{Text, lit, text_eq, codes, split}
use khealth_tui.Etcd.{Member, EndpointStatus, Probe}
use khealth_tui.Rescue.Types
use khealth_tui.Rescue.Types.{Node, Plan, second, minute}
use khealth_tui.Rescue.Env.{Env}
use khealth_tui.Rescue.Facts.{parse_facts, no_facts}
use khealth_tui.Rescue.Facts.Told.{SaysOk, parse_facts-ok}
use khealth_tui.Rescue.Preflight.{Checked, preflight}
use khealth_tui.Rescue.Preflight.Passed.{Passed, preflight-Passed}
use khealth_tui.Rescue.Preflight.Kept.{Serves, preflight-Serves}
use khealth_tui.Rescue.Preflight.Measured.{Found, preflight_snapshot}

abbrev member : Member
member = record {
  id = codes "1";
  name = codes "a";
  peer_urls = [];
  client_urls = [];
  is_learner = false;
}

abbrev endpoint : EndpointStatus
endpoint = record {
  endpoint = [];
  version = [];
  db_size = 0;
  leader_id = codes "1";
  member_id = codes "1";
  raft_term = 2;
  raft_index = 3;
}

abbrev probe : Probe
probe = record {
  members = member ∷ [];
  statuses = endpoint ∷ [];
  endpoint_health = true ∷ [];
  alarms = [];
}

abbrev passed : Text
passed = codes "node=a\npreflight=ok\nsnapshot_size=5\n"

-- The preflight passes on every node, and the status is that of a cluster with one member.
abbrev cluster : Env
cluster = record {
  World = ℕ;
  run = λ w r. (
    record {
      stdout = if text_eq r.script (codes "preflight") then passed else [];
      stderr = [];
      err = none;
    },
    w + second,
  );
  now = λ w. w;
  pause = λ w d. w + d;
  ctx_err = λ w. none;
  aborted = λ w. false;
  emit = λ w e. w;
  parse_ctl = λ n out. probe;
  url_host = λ t. [];
  split_host_port = λ t. none;
  is_ip = λ t. false;
}

abbrev node : Text → Node
node name = record { name = name; host = name; ip = name; data_dir = []; facts = no_facts }

abbrev plan : Bool → Plan
plan rejoin = record {
  kind = Types.rke2;
  dd = codes "/d";
  target = node (codes "a");
  others = node (codes "b") ∷ [];
  snapshot = codes "/s/x";
  s3 = false;
  take_snapshot = true;
  stamp = codes "1";
  poll_interval = 4 * second;
  wait_timeout = 15 * minute;
  rejoin = rejoin;
  member_count = 0;
  left_out = [];
}

-- The follower's answer arrives first.
abbrev arrival : List (Option ℕ)
arrival = some 0 ∷ none ∷ []

abbrev checked : Bool → Checked cluster
checked rejoin = preflight cluster arrival 0 (plan rejoin)

parse_facts-ok_example : Any SaysOk (split passed 10)
unfolding parse_facts split lit khealth_tui.Text.cut khealth_tui.Text.trim_space
parse_facts-ok_example = parse_facts-ok passed refl

preflight-Passed_example :
    All (Passed cluster) ((checked false).plan.target ∷ (checked false).plan.others)
unfolding preflight split lit khealth_tui.Text.cut khealth_tui.Text.trim_space
preflight-Passed_example = preflight-Passed cluster arrival 0 (plan false) (refl, (refl, tt)) refl

preflight-Serves_example : Serves cluster (checked true).plan
unfolding preflight split lit khealth_tui.Text.cut khealth_tui.Text.trim_space
    khealth_tui.Rescue.Status.parse_status khealth_tui.Etcd.leader
preflight-Serves_example = preflight-Serves cluster arrival 0 (plan true) refl refl

preflight_snapshot_example :
    ((checked false).plan.target.facts.snapshot_size ≢ 0)
    × Found cluster (codes "a") (codes "/s/x") (checked false).plan.target.facts.snapshot_size
unfolding preflight split lit khealth_tui.Text.cut khealth_tui.Text.trim_space
preflight_snapshot_example =
    preflight_snapshot cluster arrival 0 (plan false) refl refl (λ e. absurd (ground (arith, e)))
      refl refl
