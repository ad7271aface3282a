-- ===== src/Etcd/Merge/Tests.antt =====
-- internal/etcd/probe.go, `Merge` and `LastLeader`: a full probe and a light one after it.
use khealth_tui.Base.{◌≡◌, ◌⊎◌, refl, Bool, true, false, [], ◌∷◌, none, some, if◌then◌else◌}
use khealth_tui.Text.{codes}
use khealth_tui.Etcd.Merge.{Scan, LeaderEvent, last_leader, merge}
use khealth_tui.Etcd.Merge.Newest.{IsFull, cycles, newest, cycles-newest}
use khealth_tui.Etcd.Merge.Last.{IsLast, last_leader-IsLast}

abbrev scan : Bool → Scan
scan light = record {
  local_member_id = [];
  leader_events =
      record { time = 5; term = 2; leader = codes "a"; line = [] }
      ∷ record { time = 1; term = 3; leader = codes "b"; line = [] }
      ∷ [];
  leader_log_skipped = light;
  peers = record { peers = []; self_name = if light then [] else codes "n1" };
  peers_skipped = light;
  files = record { sources = []; config_dump = []; snapshot_dirs = []; backup_hints = [] };
  encryption = none;
  rke2_config = [];
  full_skipped = light;
  ctl = record {
    via = [];
    diag = [];
    out = [];
    members = [];
    statuses = [];
    alarms = [];
    endpoint_health = [];
  };
  etcdctl_skipped = light;
}

carried : (merge (scan true) (some (scan false))).peers.self_name ≡ codes "n1"
unfolding merge
carried = refl

cycles-newest_example :
    IsFull (cycles (scan false) (scan true ∷ []))
    × ((cycles (scan false) (scan true ∷ [])).peers
        ≡ (newest (λ p. p.peers_skipped) (scan false) (scan true ∷ [])).peers)
    × ((cycles (scan false) (scan true ∷ [])).files
        ≡ (newest (λ p. p.full_skipped) (scan false) (scan true ∷ [])).files)
    × ((cycles (scan false) (scan true ∷ [])).ctl
        ≡ (newest (λ p. p.etcdctl_skipped) (scan false) (scan true ∷ [])).ctl)
cycles-newest_example = cycles-newest (scan false) (scan true ∷ []) (refl, refl, refl)

last_leader-IsLast_example :
    (((scan false).leader_events ≡ []) × (last_leader (scan false) ≡ none))
    ⊎ ((ev : LeaderEvent) × (last_leader (scan false) ≡ some ev)
        × IsLast ev (scan false).leader_events)
last_leader-IsLast_example = last_leader-IsLast (scan false)
