-- ===== src/Rescue/Assess.antt =====
-- internal/rescue/rescue.go, `assess`, `addressWarnings` and `rancherWarnings`: what the operator is told
-- before a rescue.
use khealth_tui.Base.{
  ◌*◌, ◌/◌, Bool, true, false, not, ◌&&◌, ◌||◌, List, [], ◌∷◌, ◌++◌, Option, none, some, ltb,
  if◌then◌else◌, map, keep,
}
use khealth_tui.Text.{Text, lit, text_eq, concat, join, itoa, cut, to_lower}
use khealth_tui.Rescue.Types.{Kind, kubeadm, Node, Plan}
use khealth_tui.Rescue.Env.{Env}
use khealth_tui.Rescue.Wait.{svc}
use khealth_tui.Rescue.Run.{touched, agent_nodes, drop_in_path}
use khealth_tui.Rescue.Build.{has_addr, join_url, stale_addr, current_addr}

-- A warning under a condition.
abbrev when : Bool → Text → List Text
when b w = if b then w ∷ [] else []

abbrev is_nil : {A : Type 0} → List A → Bool
is_nil [] = true
is_nil (x ∷ xs) = false

abbrev pub is_kubeadm : Kind → Bool
is_kubeadm kubeadm = true
is_kubeadm _ = false

-- strings.EqualFold of ASCII texts.
abbrev equal_fold : Text → Text → Bool
equal_fold a b = text_eq (to_lower a) (to_lower b)

abbrev short_name : Text → Text
short_name h = elim (cut h 46) [ none ↦ h | some (a, b) ↦ a ]

unfoldable pub rancher_warnings : Plan → List Text
unfolding touched agent_nodes
rancher_warnings p =
    let names = map Node.name (agent_nodes p) in
    let prov = map Node.name (keep (λ (n : Node). n.facts.rancher) (touched p)) in
    when (not (is_nil names)) (
      concat (
        lit "rancher-system-agent runs on "
        ∷ join names (lit ", ")
        ∷ lit
            ": it is stopped before anything else and started again only once every server is back and the drop-ins are gone - a plan applied in between rewrites 50-rancher.yaml and starts or restarts "
        ∷ svc p
        ∷ lit
            ". Do not change the cluster in Rancher meanwhile; a plan it sends is applied when the agent is back"
        ∷ []))
    ++ when (not (is_nil prov)) (
        concat (
          join prov (lit ", ")
          ∷ lit
              " provisioned by Rancher (config.yaml.d/50-rancher.yaml): Rancher's own restore (Cluster Management > Snapshots) is the supported route while Rancher can still reach the cluster's agents"
          ∷ []))

module _ (env : Env) where
  open env use {url_host, is_ip}

  -- Whether the node is the one that rejoins.
  abbrev rejoining : Plan → Node → Bool
  rejoining p n = p.rejoin && (elim p.others [ [] ↦ false | o ∷ os ↦ text_eq n.name o.name ])

  -- The end of the warning about a node that changed its address.
  unfoldable pub moved_hint : Plan → Node → Text → Text → Text
  moved_hint p n old cur =
      if text_eq n.facts.node_ip old
      then concat (
          lit ": config.yaml pins node-ip: "
          ∷ old
          ∷ lit ", so etcd and the kubelet try to bind an address that is gone"
          ∷ [])
        ++ (if rejoining p n
            then concat (
                lit " - the rejoin rewrites it to "
                ∷ cur
                ∷ lit " (a copy of the file is kept)"
                ∷ [])
            else concat (lit " - fix node-ip before starting " ∷ svc p ∷ lit " there" ∷ []))
      else if text_eq (url_host n.facts.peer_url) old
      then concat (lit ": the cluster lists its member at " ∷ old ∷ [])
        ++ (if rejoining p n then lit " - that entry is the one the rejoin removes" else [])
      else []

  -- The first loop: the warnings, and the map `moved` with its last entry first.
  unfoldable pub moved_loop : Plan → List (Text × Node) → List Node → List Text × List (Text × Node)
  unfolding stale_addr current_addr moved_hint
  moved_loop p moved [] = ([], moved)
  moved_loop p moved (n ∷ ns) =
      let old = stale_addr env n in
      let cur = current_addr env n in
      let same = moved_loop p moved ns in
      let more = moved_loop p ((old, n) ∷ moved) ns in
      if text_eq old [] then same else (
        (concat (
                n.name
                ∷ lit " no longer holds "
                ∷ old
                ∷ lit " (it answers at "
                ∷ cur
                ∷ lit ")"
                ∷ [])
              ++ moved_hint p n old cur)
            ∷ more.0,
        more.1,
      )

  unfoldable pub node_at : Text → List (Text × Node) → Option Node
  node_at h [] = none
  node_at h ((k, n) ∷ moved) = if text_eq k h then some n else node_at h moved

  -- The name of the last server that holds the address, or whose own name it is.
  unfoldable pub known_loop : Text → Text → List Node → Text
  unfolding has_addr
  known_loop h known [] = known
  known_loop h known (o ∷ os) =
      let holds = (not (is_nil o.facts.addrs) && has_addr o.facts h) || text_eq o.ip h in
      let named =
        equal_fold h o.name
        || (equal_fold h o.facts.hostname
            || (equal_fold (short_name h) o.name || equal_fold (short_name h) o.facts.hostname)) in
      known_loop h (if holds || (not (is_ip h) && named) then o.name else known) os

  -- The warning about one server's `server:` line, if it has one.
  unfoldable pub server_warning : Plan → List Node → List (Text × Node) → Node → List Text
  unfolding node_at known_loop current_addr
  server_warning p all moved n =
      let h = url_host n.facts.server_url in
      let known = known_loop h [] all in
      let joins = n.name ++ (lit " joins through server: " ++ n.facts.server_url) in
      if text_eq h [] then [] else elim (node_at h moved) [
        | some m ↦
            (concat (
              joins
              ∷ lit ", the old address of "
              ∷ m.name
              ∷ lit ": after the rejoin nothing answers there. "
              ∷ svc p
              ∷ lit " restarts from its saved server list while that lasts, but point server: at "
              ∷ current_addr env m
              ∷ lit " (or a VIP) once "
              ∷ m.name
              ∷ lit " is back"
              ∷ []))
            ∷ []
        | none ↦
            (if text_eq known [] && is_ip h
              then concat (
                  joins
                  ∷ lit
                      ", which is no address of a server in this rescue (a VIP, or a server that is gone?)"
                  ∷ [])
              else if text_eq known []
              then concat (
                  joins
                  ∷ lit
                      ", a DNS name that is no server in this rescue (a VIP or load balancer?): not resolved here - from the next restart on it must reach a server that is back, or "
                  ∷ svc p
                  ∷ lit " there cannot start"
                  ∷ [])
              else concat (
                  n.name
                  ∷ lit " keeps server: "
                  ∷ n.facts.server_url
                  ∷ lit " ("
                  ∷ known
                  ∷ lit
                      ") for its next restarts - the rescue overrides it with a temporary drop-in and leaves the file alone; a VIP or DNS name in front of the servers is what rke2 recommends for server:"
                  ∷ []))
            ∷ []
      ]

  unfoldable pub server_loop : Plan → List Node → List (Text × Node) → List Node → List Text
  unfolding server_warning
  server_loop p all moved [] = []
  server_loop p all moved (n ∷ ns) = server_warning p all moved n ++ server_loop p all moved ns

  unfoldable pub address_warnings : Plan → List Text
  unfolding moved_loop server_loop
  address_warnings p =
      let all = p.target ∷ p.others in
      let (w, moved) = moved_loop p [] all in w ++ server_loop p all moved all

  -- Who stands behind the API endpoint `ep`.
  unfoldable pub who_loop : Text → Text → List Node → Text
  who_loop ep who [] = who
  who_loop ep who (o ∷ os) =
      who_loop ep
        (if text_eq o.ip ep || text_eq (url_host o.facts.peer_url) ep
          then o.name ++ lit ", a follower that stays stopped until it rejoins"
          else who)
        os

  unfoldable pub endpoint_warning : Plan → List Text
  unfolding who_loop
  endpoint_warning p =
      let t = p.target in
      let ep = url_host t.facts.api_endpoint in
      let outside = concat (
        lit "an address outside the control plane (a VIP or load balancer: it must route to "
        ∷ t.name
        ∷ lit
            " once its apiserver is back, or the target cannot reach the API until the endpoint node has rejoined)"
        ∷ []) in
      when
        (not (text_eq ep [])
          && (not (text_eq ep t.ip)
              && (not (text_eq ep (lit "127.0.0.1")) && not (text_eq ep (lit "localhost")))))
        (concat (
          lit "the API endpoint of "
          ∷ t.name
          ∷ lit " is "
          ∷ t.facts.api_endpoint
          ∷ lit ": "
          ∷ who_loop ep outside p.others
          ∷ lit ". kubectl, kube-proxy and the CNI pods on "
          ∷ t.name
          ∷ lit
              " use it, so the CNI agent is restarted only after every follower is back, and left alone if the endpoint still does not answer"
          ∷ []))

  abbrev unnamed : Node → Bool
  unnamed n = text_eq n.facts.member_name [] || text_eq n.facts.peer_url []

  unfoldable pub unnamed_loop : List Node → List Text
  unnamed_loop [] = []
  unnamed_loop (o ∷ os) =
      when (unnamed o) (
        concat (
          lit "the etcd manifest on "
          ∷ o.name
          ∷ lit " has no --name / --initial-advertise-peer-urls: it cannot be re-added"
          ∷ []))
      ++ unnamed_loop os

  unfoldable pub kubeadm_warnings : Plan → List Text
  unfolding endpoint_warning unnamed_loop
  kubeadm_warnings p =
      let t = p.target in
      when (unnamed t) (
        concat (
          lit "the etcd manifest on "
          ∷ t.name
          ∷ lit " has no --name / --initial-advertise-peer-urls: the restore cannot name the member"
          ∷ []))
      ++ (when (is_nil t.facts.tools) (
            concat (
              lit "no etcdutl/etcdctl/ctr/podman on "
              ∷ t.name
              ∷ lit ": nothing can run 'snapshot restore' there (install etcdutl)"
              ∷ []))
          ++ (endpoint_warning p ++ unnamed_loop p.others))

  unfoldable pub others_loop : Plan → List Node → List Text
  others_loop p [] = []
  others_loop p (o ∷ os) =
      when (not (is_kubeadm p.kind) && not o.facts.has_server) (
        concat (
          o.name
          ∷ lit
              " has no server: in its config (cluster-init node): without the temporary join drop-in it would found a new cluster"
          ∷ []))
      ++ (when
            (not (text_eq o.facts.svc_state (lit "active")) && not (text_eq o.facts.svc_state []))
            (concat (o.name ∷ lit ": " ∷ svc p ∷ lit " is " ∷ o.facts.svc_state ∷ []))
          ++ others_loop p os)

  unfoldable pub rke2_warnings : Plan → List Text
  rke2_warnings p =
      let t = p.target in
      when t.facts.has_server (
        concat (
          t.name
          ∷ lit " has server: "
          ∷ t.facts.server_url
          ∷ lit
              ": the restored node must come up without one (it would try to join there instead of serving the restored data), so it starts with server: \"\" from "
          ∷ drop_in_path p
          ∷ lit " until every follower is back"
          ∷ []))
      ++ when (not (is_nil p.others)) (
          concat (
            lit "each follower rejoins through "
            ∷ join_url p
            ∷ lit " (temporary "
            ∷ drop_in_path p
            ∷ lit
                ", removed once it is a member): its own server: may point at a server that is still stopped"
            ∷ []))

  -- The warnings about the target's snapshot and disk.
  unfoldable pub target_warnings : Plan → List Text
  target_warnings p =
      let t = p.target.facts in
      when (p.s3 && not (text_eq t.s3_secret [])) (
        concat (
          lit "the S3 settings live in secret "
          ∷ t.s3_secret
          ∷ lit
              ", which the cluster-reset cannot read while the apiserver is down: put them in config.yaml (etcd-s3-* keys) or restore a local file"
          ∷ []))
      ++ (when (not p.s3 && (ltb 0 t.snapshot_size && ltb t.snapshot_size (1024 * 1024))) (
            concat (
              lit "the snapshot is only "
              ∷ itoa t.snapshot_size
              ∷ lit " bytes: is it a complete etcd snapshot?"
              ∷ []))
          ++ (when (ltb 0 t.avail_kb && (ltb 0 t.size_kb && ltb t.avail_kb t.size_kb)) (
                concat (
                  p.target.name
                  ∷ lit " has "
                  ∷ itoa (t.avail_kb / 1024)
                  ∷ lit " MB free on the etcd filesystem, less than the current data ("
                  ∷ itoa (t.size_kb / 1024)
                  ∷ lit " MB): the restore may run out of space"
                  ∷ []))
              ++ when (text_eq t.member (lit "missing") || text_eq t.member (lit "no"))
                  (p.target.name ++ lit " has no etcd member data on disk right now")))

  unfoldable pub assess : Plan → List Text
  unfolding target_warnings kubeadm_warnings others_loop rke2_warnings address_warnings
      rancher_warnings
  assess p =
      target_warnings p
      ++ ((if is_kubeadm p.kind then kubeadm_warnings p else [])
          ++ (others_loop p p.others
              ++ ((if is_kubeadm p.kind then [] else rke2_warnings p)
                  ++ (when (is_nil p.others && is_nil p.left_out)
                        (lit "single-server cluster: the restore reboots the only control plane")
                      ++ (address_warnings p ++ rancher_warnings p)))))
