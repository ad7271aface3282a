-- ===== src/Rescue/Build.antt =====
-- internal/rescue/rescue.go: `build` and what it calls, the steps of a plan. `add` is a list cell.
pub mod Quiet
use khealth_tui.Base.{
  ℕ, zero, suc, ◌+◌, ◌*◌, Bool, true, false, not, ◌&&◌, List, [], ◌∷◌, ◌++◌, none, some,
  if◌then◌else◌, any, map, length, drop, take,
}
use khealth_tui.Text.{Text, lit, text_eq, itoa, last_index_byte}
use khealth_tui.Strutil.{first_non_empty}
use khealth_tui.Rescue.Types
use khealth_tui.Rescue.Types.{
  Kind, rke2, k3s, kubeadm, Node, Facts, Plan, Action, Step, pending, minute, run_script, run_noted,
  unpark_api, restart_cni, register, patch_manifest,
}
use khealth_tui.Rescue.Env.{Env}
use khealth_tui.Rescue.Wait.{svc}
use khealth_tui.Rescue.Run.{agent_nodes, is_rancher, drop_in_path}

-- `add`.
abbrev pub step : Text → Node → Action → Step
step title n a = record {
  title = title;
  node = n.name;
  state = pending;
  log = [];
  live = [];
  error = [];
  started = none;
  finished = none;
  action = a;
}

-- `HasAddr`.
unfoldable pub has_addr : Facts → Text → Bool
has_addr f ip =
    if text_eq ip []
    then true
    else elim f.addrs [ [] ↦ true | a ∷ rest ↦ any (λ b. text_eq b ip) (a ∷ rest) ]

unfoldable pub join_url : Plan → Text
join_url p = lit "https://" ++ (p.target.ip ++ (lit ":" ++ port p.kind))
  where
    port : Kind → Text
    port k3s = lit "6443"
    port _ = lit "9345"

-- What follows the last "/" of the snapshot's path.
unfoldable pub snap_label : Text → Text
snap_label s = elim (last_index_byte s b'/') [ none ↦ s | some i ↦ drop (suc i) s ]

-- The directory of the fresh snapshot.
unfoldable pub snap_dir : Text → Text
snap_dir s = elim (last_index_byte s b'/') [
  | none ↦ lit "/var/lib/etcd-backup"
  | some i ↦ elim i [ zero ↦ lit "/var/lib/etcd-backup" | suc j ↦ take (suc j) s ]
]

abbrev pub stop_of : Plan → Node → Step
stop_of p n =
    step (lit "Stop " ++ svc p) n (run_script n (lit "stop") [] (8 * minute) (lit "stopped=ok"))

abbrev pub backup_of : Node → Step
backup_of n =
    step (lit "Move etcd data to " ++ n.facts.rescue) n
      (run_script n (lit "backup") [] (5 * minute) (lit "backup=ok"))

abbrev pub agent_stop_of : Plan → Node → Step
agent_stop_of p n =
    step
      (lit "Stop rancher-system-agent (its plans rewrite 50-rancher.yaml and restart "
        ++ (svc p ++ lit ")"))
      n (Types.agent_stop n)

abbrev pub agent_start_of : Node → Step
agent_start_of n = step (lit "Start rancher-system-agent") n (Types.agent_start n)

verify_of : Node → ℕ → Step
verify_of t want = step (lit "Verify the cluster") t (Types.wait_status t want true false [])

start_of : Text → Node → Text → Step
start_of title n role =
    step title n
      (run_script n (lit "start") ((lit "ROLE", role) ∷ []) (2 * minute) (lit "started=ok"))

perms_of : Node → Step
perms_of t =
    step (lit "Set data dir owner/mode") t
      (run_script t (lit "perms") ((lit "OWNER", t.facts.owner) ∷ []) (5 * minute) (lit "perms=ok"))

cleanup_of : Text → Node → Step
cleanup_of title n = step title n (run_script n (lit "join_cleanup") [] minute (lit "cleanup=ok"))

abbrev cni_title : Text
cni_title = lit "Restart the CNI agent (it drops the local pod routes while the apiserver comes up)"

abbrev api_title : Text
api_title = lit "Start kube-apiserver, restart controllers and kubelet"

abbrev of_total : ℕ → ℕ → Text
of_total want total = lit " (" ++ (itoa want ++ (lit "/" ++ (itoa total ++ lit ")")))

-- What the code reads of a node through net/url and net.
module _ (env : Env) where
  open env use {url_host, split_host_port, is_ip}

  unfoldable pub peer_host : Node → Text
  peer_host n = let h = url_host n.facts.peer_url in if text_eq h [] then n.ip else h

  -- The first text of the list that is not empty and passes a test.
  first_that : (Text → Bool) → List Text → Text
  first_that f [] = []
  first_that f (ip ∷ ips) = if not (text_eq ip []) && f ip then ip else first_that f ips

  unfoldable pub stale_addr : Node → Text
  unfolding first_that
  stale_addr n =
      first_that (λ ip. not (has_addr n.facts ip))
        (n.facts.node_ip ∷ url_host n.facts.peer_url ∷ n.ip ∷ [])

  ssh_host : Node → Text
  ssh_host n = elim (split_host_port n.host) [ none ↦ n.host | some h ↦ h ]

  unfoldable pub current_addr : Node → Text
  unfolding first_that ssh_host
  current_addr n = elim n.facts.addrs [
    | [] ↦ n.ip
    | a ∷ rest ↦ first_non_empty (
        first_that (λ ip. is_ip ip && has_addr n.facts ip)
          (ssh_host n ∷ n.ip ∷ url_host n.facts.peer_url ∷ [])
        ∷ a
        ∷ [])
  ]

  join_steps : Plan → Node → Node → ℕ → ℕ → List Step
  join_steps p t o want total =
      step (lit "Rejoin: start " ++ (svc p ++ (lit " (join via " ++ (join_url p ++ lit ")")))) o (
        run_noted o (lit "start") ((lit "JOIN", join_url p) ∷ (lit "ROLE", lit "other") ∷ [])
          (2 * minute) (lit "started=ok")
          (lit "wrote "
            ++ (drop_in_path p
                ++ (lit " on "
                    ++ (o.name ++ lit " for the rejoin (removed again once it was a member)")))))
      ∷ step (lit "Wait until " ++ (o.name ++ (lit " is a healthy member" ++ of_total want total)))
          t (Types.wait_status t want false false (current_addr o))
      ∷ cleanup_of (lit "Remove the join drop-in") o
      ∷ []

  learner_steps : Node → Node → ℕ → ℕ → List Step
  learner_steps t o want total =
      step (lit "Register " ++ (o.name ++ lit " as a learner member")) t (register t o want)
      ∷ step (lit "Patch the etcd manifest (--initial-cluster, state=existing)") o
          (patch_manifest o want)
      ∷ start_of (lit "Start etcd (static pod)") o (lit "other")
      ∷ step
          (lit "Wait until "
            ++ (o.name ++ (lit " has synced and is promoted" ++ of_total want total)))
          t
          (Types.wait_status t want false true
            (first_non_empty (url_host o.facts.peer_url ∷ o.ip ∷ [])))
      ∷ step api_title o (unpark_api o want)
      ∷ []

  -- `rejoinSteps`.
  unfoldable pub rejoin_steps : Plan → Node → Node → ℕ → ℕ → List Step
  unfolding join_steps learner_steps cleanup_of start_of
  rejoin_steps p t o want total =
      (if is_rancher p.kind then join_steps p t o want total else learner_steps t o want total)
      ++ step (lit "Check etcd status") t (Types.wait_status t want false false []) ∷ []

  -- The loop `for i, o := range p.Others`.
  unfoldable pub rejoin_all : Plan → ℕ → ℕ → List Node → List Step
  rejoin_all p i total [] = []
  rejoin_all p i total (o ∷ os) =
      rejoin_steps p p.target o (i + 2) total ++ rejoin_all p (suc i) total os

  build_rke2 : Plan → List Step
  unfolding perms_of
  build_rke2 p =
      let t = p.target in
      step
        (lit "Restore "
          ++ (snap_label p.snapshot
              ++ lit " and reset membership (cluster-reset), verify the data dir was replaced"))
        t (Types.restore_verified t)
      ∷ perms_of t
      ∷ step
          (lit "Start "
            ++ (svc p ++ lit " (server: overridden to none until every follower is back)"))
          t
          (run_noted t (lit "start") ((lit "ROLE", lit "target") ∷ []) (2 * minute)
            (lit "started=ok")
            (lit "wrote "
              ++ (drop_in_path p
                  ++ (lit " on "
                      ++ (t.name
                          ++ lit
                              " (server: \"\") for the restore (removed again once every follower was back)")))))
      ∷ step
          (lit
            "Wait for etcd and the apiserver (second cluster-reset if the member does not come up alone)")
          t (Types.target_up t)
      ∷ step cni_title t
          (run_script t (lit "cni_restart") ((lit "NODE", t.name) ∷ []) (4 * minute) (lit "cni=ok"))
      ∷ rejoin_all p 0 (1 + length p.others) p.others

  build_kubeadm : Plan → List Step
  unfolding perms_of start_of
  build_kubeadm p =
      let t = p.target in
      step (lit "Restore " ++ (snap_label p.snapshot ++ lit " as a one-member cluster")) t (
        run_script t (lit "restore_kubeadm")
          ((lit "SNAP", p.snapshot)
            ∷ (lit "NAME", t.facts.member_name)
            ∷ (lit "PEER", t.facts.peer_url)
            ∷ (lit "IMAGE", t.facts.image)
            ∷ [])
          (15 * minute) (lit "restore=ok"))
      ∷ perms_of t
      ∷ start_of (lit "Start etcd (static pod)") t (lit "target")
      ∷ step (lit "Wait for etcd") t (Types.wait_status t 1 false false [])
      ∷ step api_title t (unpark_api t 1)
      ∷ (rejoin_all p 0 (1 + length p.others) p.others ++ step cni_title t (restart_cni t) ∷ [])

  -- The steps between the move of the data and the end.
  unfoldable pub restore_part : Plan → List Step
  unfolding build_rke2 build_kubeadm
  restore_part p = if is_rancher p.kind then build_rke2 p else build_kubeadm p

  snapshot_part : Plan → List Step
  snapshot_part p =
      if p.take_snapshot
      then step (lit "Take a fresh snapshot") p.target (
          run_script p.target (lit "snapshot") ((lit "DIR", snap_dir p.snapshot) ∷ []) (5 * minute)
            (lit "snapshot=ok"))
        ∷ []
      else []

  -- The steps of a restore behind the move of the data.
  unfoldable pub after_backup : Plan → List Step
  unfolding verify_of cleanup_of snapshot_part
  after_backup p =
      restore_part p
      ++ (verify_of p.target (1 + length p.others)
          ∷ ((if is_rancher p.kind
                then cleanup_of (lit "Remove the server: override") p.target ∷ []
                else [])
              ++ (map agent_start_of (agent_nodes p) ++ snapshot_part p)))

  unfoldable pub build_restore : Plan → List Step
  build_restore p =
      map (agent_stop_of p) (agent_nodes p)
      ++ (map (stop_of p) p.others
          ++ (stop_of p p.target ∷ (map backup_of (p.target ∷ p.others) ++ after_backup p)))

  -- The steps of rke2 and k3s for the member entry and the pinned address.
  entry_part : Plan → Node → List Step
  entry_part p o =
      let old = stale_addr o in
      let cur = current_addr o in
      step
        (lit "Remove the stale member entry for "
          ++ (o.name ++ (lit " (" ++ (peer_host o ++ lit ")"))))
        p.target
        (run_script p.target (lit "member_remove") ((lit "PEER", peer_host o) ∷ []) (2 * minute)
          (lit "member_remove=ok"))
      ∷ (if not (text_eq old []) && text_eq o.facts.node_ip old
          then step
              (lit "Rewrite node-ip " ++ (old ++ (lit " -> " ++ (cur ++ lit " in config.yaml")))) o
              (run_script o (lit "fix_node_ip") ((lit "OLD", old) ∷ (lit "NEW", cur) ∷ []) minute
                (lit "fix_node_ip=ok"))
            ∷ []
          else [])

  unfoldable pub build_rejoin : Plan → Node → List Step
  unfolding entry_part verify_of
  build_rejoin p o =
      map (agent_stop_of p) (agent_nodes p)
      ++ (stop_of p o
          ∷ backup_of o
          ∷ ((if is_rancher p.kind then entry_part p o else [])
              ++ (rejoin_steps p p.target o p.member_count p.member_count
                  ++ (verify_of p.target p.member_count ∷ map agent_start_of (agent_nodes p)))))

  -- `build`. A rejoin plan has one server to rejoin; without one the source's `p.Others[0]` panics,
  -- and the model has no steps.
  unfoldable pub build : Plan → List Step
  unfolding build_rejoin build_restore
  build p =
      if p.rejoin then elim p.others [ [] ↦ [] | o ∷ os ↦ build_rejoin p o ] else build_restore p
