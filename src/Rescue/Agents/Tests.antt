-- ===== src/Rescue/Agents/Tests.antt =====
-- internal/rescue/rescue.go: a rejoin in which every script succeeds.
use khealth_tui.Base.{ℕ, ◌+◌, ◌*◌, ◌≡◌, refl, false, true, [], ◌∷◌, none}
use khealth_tui.Text.{Text, codes}
use khealth_tui.Etcd.{Member, EndpointStatus, Probe}
use khealth_tui.Rescue.Types
use khealth_tui.Rescue.Types.{Node, Plan, second, minute}
use khealth_tui.Rescue.Env.{Env}
use khealth_tui.Rescue.Facts.{no_facts}
use khealth_tui.Rescue.Run.{Shared, run}
use khealth_tui.Rescue.Build.{build}
use khealth_tui.Rescue.Agents.Answered.{Restarts}
use khealth_tui.Rescue.Agents.{agents_back}

abbrev member : Member
member = record {
  id = codes "1";
  name = codes "a";
  peer_urls = [];
  client_urls = [];
  is_learner = false;
}

abbrev endpoint : EndpointStatus
endpoint = record {
  endpoint = [];
  version = [];
  db_size = 0;
  leader_id = codes "1";
  member_id = codes "1";
  raft_term = 2;
  raft_index = 3;
}

abbrev probe : Probe
probe = record {
  members = member ∷ [];
  statuses = endpoint ∷ [];
  endpoint_health = true ∷ [];
  alarms = [];
}

abbrev answer : Text
answer =
    codes
      "host=b\nagent=ok\nstopped=ok\nbackup=ok\nmember_remove=ok\nstarted=ok\ncleanup=ok\nsvc_state=active\nreadyz=200\n"

abbrev cluster : Env
cluster = record {
  World = ℕ;
  run = λ w r. (record { stdout = answer; stderr = []; err = none }, w + second);
  now = λ w. w;
  pause = λ w d. w + d;
  ctx_err = λ w. none;
  aborted = λ w. false;
  emit = λ w e. w;
  parse_ctl = λ n out. probe;
  url_host = λ t. [];
  split_host_port = λ t. none;
  is_ip = λ t. false;
}

abbrev plan : Plan
plan = record {
  kind = Types.rke2;
  dd = codes "/d";
  target = record {
    name = codes "a";
    host = codes "a";
    ip = codes "a";
    data_dir = [];
    facts = no_facts;
  };
  others =
      record {
        name = codes "b";
        host = codes "b";
        ip = [];
        data_dir = [];
        facts = record no_facts { agent = codes "active" };
      }
      ∷ [];
  snapshot = [];
  s3 = false;
  take_snapshot = false;
  stamp = codes "1";
  poll_interval = 4 * second;
  wait_timeout = 15 * minute;
  rejoin = true;
  member_count = 1;
  left_out = [];
}

abbrev start : Shared cluster
start = record { notes = []; agent_off = []; clusters = []; world = 0 }

agents_back_example :
    ((run plan (build cluster plan) start).shared.agent_off ≡ [])
    × Restarts cluster plan (build cluster plan)
unfolding run build khealth_tui.Rescue.Run.agent_nodes khealth_tui.Text.lit
    khealth_tui.Rescue.Run.run_step khealth_tui.Rescue.Run.failure
    khealth_tui.Rescue.Perform.perform khealth_tui.Rescue.Exec.exec_ok
    khealth_tui.Rescue.Exec.verdict khealth_tui.Rescue.Output.first_after
    khealth_tui.Rescue.Output.lines khealth_tui.Text.split khealth_tui.Rescue.Output.has_marker
    khealth_tui.Rescue.Build.stale_addr khealth_tui.Rescue.Build.rejoin_steps
    khealth_tui.Rescue.Status.parse_status khealth_tui.Rescue.Status.ready khealth_tui.Text.cut
    khealth_tui.Text.trim_space khealth_tui.Etcd.leader khealth_tui.Rescue.Exec.poll
    khealth_tui.Rescue.Wait.wait_status khealth_tui.Rescue.Wait.status_check
    khealth_tui.Rescue.Build.current_addr khealth_tui.Rescue.Status.readyz_ok
agents_back_example =
    agents_back cluster plan start refl
      (refl, (refl, (refl, (refl, (refl, (refl, (refl, (refl, (refl, (refl, tt))))))))))
