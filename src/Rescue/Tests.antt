-- ===== src/Rescue/Tests.antt =====
-- internal/rescue/rescue.go: a small cluster, and the theorems applied to it.
use khealth_tui.Base.{
  ℕ, ◌+◌, ◌≡◌, refl, inl, inr, Bool, true, false, [], ◌∷◌, Option, none, some, arith, if◌then◌else◌,
  ◌≢◌, length, ◌↔◌, All, ◌*◌,
}
use khealth_tui.Text.{Text, lit, text_eq, codes, split, cut, trim_space}
use khealth_tui.Etcd.Leader.{leader_iff}
use khealth_tui.Etcd.{Member, EndpointStatus, Probe, leader}
use khealth_tui.Rescue.Types
use khealth_tui.Rescue.Types.{Node, Facts, Plan, second, minute, done, failed, skipped, State}
use khealth_tui.Rescue.Env.{Env}
use khealth_tui.Rescue.Status.{Status, parse_status, ready, readyz_ok}
use khealth_tui.Rescue.Ready.{IsReady, ready_iff}
use khealth_tui.Rescue.Monad.{St}
use khealth_tui.Rescue.Exec.Poll.{Printed}
use khealth_tui.Rescue.Exec.Ends.{IsClock, Ends}
use khealth_tui.Rescue.Wait.{wait_status, status_check, cluster_reset}
use khealth_tui.Rescue.Wait.Seen.{wait_status_seen, status_request}
use khealth_tui.Rescue.Perform.{perform}
use khealth_tui.Rescue.Perform.Ends.{perform-Ends}
use khealth_tui.Rescue.Output.{first_after, lines, has_marker}
use khealth_tui.Rescue.Exec.{poll, exec_ok, verdict, request}
use khealth_tui.Rescue.Reset.{restore_verified}
use khealth_tui.Rescue.Run.{
  agent_nodes, failure, touched, Shared, Outcome, enter, has_err, run, run_loop, run_step,
}
use khealth_tui.Rescue.Build.{
  after_backup, restore_part, rejoin_all, rejoin_steps, build, stop_of, backup_of,
}
use khealth_tui.Rescue.Outcome.{Ended, states, asked_to_stop, run-Ended, run_ok_iff, run_cancelled}
use khealth_tui.Rescue.Order.{DoneBefore, data_after_stops, back_after_moves}

abbrev facts : Facts
facts = record {
  ok = true;
  hostname = [];
  bin = [];
  svc_state = [];
  owner = [];
  mode = [];
  member = [];
  server_url = [];
  node_ip = [];
  agent = [];
  profile = [];
  s3_secret = [];
  manifest = [];
  api_endpoint = [];
  member_name = [];
  peer_url = [];
  image = [];
  initial_cluster = [];
  snapshot = [];
  err = [];
  size_kb = 0;
  avail_kb = 0;
  mount = false;
  rescue = codes "/rescue";
  config = [];
  has_server = false;
  cluster_init = false;
  rancher = false;
  addrs = [];
  s3 = false;
  etcd_user = false;
  tools = [];
  snapshot_size = 0;
  snapshot_time = 0;
}

abbrev node : Text → Node
node name = record { name = name; host = name; ip = name; data_dir = []; facts = facts }

abbrev plan : Plan
plan = record {
  kind = Types.rke2;
  dd = codes "/d";
  target = node (codes "a");
  others = node (codes "b") ∷ [];
  snapshot = codes "/s/x";
  s3 = false;
  take_snapshot = true;
  stamp = codes "1";
  poll_interval = 4 * second;
  wait_timeout = 15 * minute;
  rejoin = false;
  member_count = 0;
  left_out = [];
}

abbrev member : Member
member = record {
  id = codes "1";
  name = codes "a";
  peer_urls = [];
  client_urls = [];
  is_learner = false;
}

abbrev status_of : EndpointStatus
status_of = record {
  endpoint = [];
  version = [];
  db_size = 0;
  leader_id = codes "1";
  member_id = codes "1";
  raft_term = 2;
  raft_index = 3;
}

abbrev probe : Probe
probe = record {
  members = member ∷ [];
  statuses = status_of ∷ [];
  endpoint_health = true ∷ [];
  alarms = [];
}

-- The service stops, the data moves, the status is fine; every other script fails.
abbrev answer : Text → Text
answer script =
    if text_eq script (codes "stop")
    then codes "stopped=ok"
    else if text_eq script (codes "backup")
    then codes "backup=ok"
    else if text_eq script (codes "status")
    then codes "svc_state=active\nreadyz=200\n"
    else codes "ERROR: no"

-- The world is the clock in nanoseconds; a call takes a second.
abbrev cluster : Option Text → Env
cluster ctx = record {
  World = ℕ;
  run = λ w r. (record { stdout = answer r.script; stderr = []; err = none }, w + second);
  now = λ w. w;
  pause = λ w d. w + d;
  ctx_err = λ w. ctx;
  aborted = λ w. false;
  emit = λ w e. w;
  parse_ctl = λ n out. probe;
  url_host = λ t. [];
  split_host_port = λ t. none;
  is_ip = λ t. false;
}

abbrev fresh : (ctx : Option Text) → Shared (cluster ctx)
fresh ctx = record { notes = []; agent_off = []; clusters = []; world = 0 }

clock : (ctx : Option Text) → IsClock (cluster ctx)
clock ctx = record { call_forward = λ w r. omega arith; pause_lasts = λ w d. omega arith }

leader_iff_example :
    (leader probe ≡ codes "1")
    ↔ ((probe.statuses ≢ []) × All (λ (s : EndpointStatus). s.leader_id ≡ codes "1") probe.statuses)
leader_iff_example = leader_iff probe (codes "1") (λ e. cc)

abbrev ready_status : Status
ready_status = record {
  svc = codes "active";
  health = [];
  readyz = codes "200";
  members = 1;
  learners = 0;
  healthy = 1;
  leader = codes "1";
  alarms = 0;
  probe = probe;
}

ready_iff_example : ((ready ready_status 1 true []).0 ≡ true) ↔ IsReady ready_status 1 true []
ready_iff_example = ready_iff ready_status 1 true []

ready_test : (ready ready_status 1 true []).0 ≡ true
unfolding ready readyz_ok lit
ready_test = refl

-- Stop b, stop a, move a, move b; then the restore fails and the rest is skipped.
restore_test :
    states (run plan (build (cluster none) plan) (fresh none)).steps
    ≡ done ∷ done ∷ done ∷ done ∷ failed ∷ skipped ∷ skipped ∷ skipped ∷ skipped ∷ skipped ∷ skipped
      ∷ skipped ∷ skipped ∷ skipped ∷ skipped ∷ skipped ∷ []
unfolding run run_step build perform lit agent_nodes failure exec_ok verdict first_after lines split
    request has_marker after_backup restore_part restore_verified cluster_reset rejoin_all
    rejoin_steps
restore_test = refl

abbrev restore_run : Outcome (cluster none)
restore_run = run plan (build (cluster none) plan) (fresh none)

run-Ended_example :
    (f : Bool) × Ended
      (asked_to_stop plan (build (cluster none) plan) (fresh none))
      f
      (states restore_run.steps)
    × (f ≡ true → has_err restore_run.err ≡ true)
    × (length restore_run.steps ≡ length (build (cluster none) plan))
run-Ended_example = run-Ended plan (build (cluster none) plan) (fresh none)

run_ok_iff_example : (restore_run.err ≡ none) ↔ (
    All (λ (s : State). s ≡ done) (states restore_run.steps)
    × ((cluster none).aborted
          (run_loop plan [] 0 none (build (cluster none) plan) (fresh none)).1.world
        ≡ false))
run_ok_iff_example = run_ok_iff plan (build (cluster none) plan) (fresh none) (λ w. refl)

abbrev cancelled : Option Text
cancelled = some (codes "context canceled")

abbrev cancelled_run : Outcome (cluster cancelled)
cancelled_run = run plan (build (cluster cancelled) plan) (fresh cancelled)

run_cancelled_example :
    All (λ (s : State). s ≡ skipped) (states cancelled_run.steps) × (cancelled_run.err ≡ none)
run_cancelled_example =
    run_cancelled plan (build (cluster cancelled) plan) (fresh cancelled) refl refl

-- The move of the data of `a`, the third step, comes after the stop of `b`.
data_after_stops_example : DoneBefore plan (fresh none) 2 (stop_of plan (node (codes "b")))
unfolding run run_step build perform lit agent_nodes failure exec_ok verdict first_after lines split
    request has_marker after_backup restore_part restore_verified cluster_reset rejoin_all
    rejoin_steps touched
data_after_stops_example =
    data_after_stops plan (fresh none) 2 {s = backup_of plan.target} (node (codes "b")) refl refl
      refl (done, refl, inl refl) (inr (inl refl))

-- The restore, the fifth step, comes after the move of the data of `b`.
back_after_moves_example : DoneBefore plan (fresh none) 4 (backup_of (node (codes "b")))
unfolding run run_step build perform lit agent_nodes failure exec_ok verdict first_after lines split
    request has_marker after_backup restore_part restore_verified cluster_reset rejoin_all
    rejoin_steps touched
back_after_moves_example =
    back_after_moves plan (fresh none) 4 (node (codes "b")) refl refl refl (failed, refl, inr refl)
      (inr (inl refl))

abbrev waiting : St (cluster none)
waiting = enter (fresh none) (stop_of plan (node (codes "a")))

wait_status_seen_example :
    (out : Text) × Printed (cluster none) (status_request plan (node (codes "a")) true false) out
    × IsReady (parse_status (cluster none).parse_ctl (codes "a") out) 1 true []
unfolding wait_status poll status_check parse_status cut trim_space ready leader readyz_ok run
    run_step build perform lit agent_nodes failure exec_ok verdict first_after lines split request
    has_marker after_backup restore_part restore_verified cluster_reset rejoin_all rejoin_steps
wait_status_seen_example =
    wait_status_seen plan (node (codes "a")) 1 true false [] waiting
      (wait_status plan (node (codes "a")) 1 true false [] waiting).1 refl

perform-Ends_example :
    Ends (perform plan (Types.wait_status (node (codes "a")) 3 true false []) waiting)
perform-Ends_example =
    perform-Ends plan (clock none) (omega arith)
      (Types.wait_status (node (codes "a")) 3 true false []) waiting
