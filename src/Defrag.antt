-- ===== src/Defrag.antt =====
-- internal/etcd/defrag.go: defragmenting every member of an etcd cluster, one at a time.
pub mod Order
pub mod OneBad
mod Tests
use khealth_tui.Base.{
  ℕ, zero, suc, ◌-◌, Bool, true, false, not, List, [], ◌∷◌, ◌++◌, Option, none, some, if◌then◌else◌,
  any,
}
use khealth_tui.Text.{Text, lit, text_eq, trim_space}
use khealth_tui.Strutil.{first_line}
use khealth_tui.Etcd.{Member, Probe}

-- What the run meets: `kubectl exec` into the etcd pod (a client-go call), the clock, the context, and
-- the JSON readers behind parseEndpointHealth and parseEtcdctl (the `Healthy` flags; the sizes).
pub record Env : Type 1 where
  pub World : Type 0
  pub exec_in_pod : World → List Text → (Text × Text × Option Text) × World
  pub now : World → ℕ
  -- select on ctx.Done and `defragHealthWait`.
  pub pause : World → World
  pub ctx_done : World → Bool
  pub parse_health : Text → List Bool
  pub parse_sizes : Text → List ℕ

-- `DefragStep`; an empty `skipped` means that the member was touched, and `took` is in nanoseconds.
pub record Step : Type 0 where
  pub member : Text
  pub endpoint : Text
  pub leader : Bool
  pub before : ℕ
  pub after : ℕ
  pub took : ℕ
  pub err : Option Text
  pub healthy : Bool
  pub skipped : Text

pub record Report : Type 0 where
  pub steps : List Step
  pub aborted : Text

cert_paths : Text → Text × Text × Text
cert_paths dist =
    if text_eq dist (lit "rke2")
    then (
      lit "/var/lib/rancher/rke2/server/tls/etcd/server-ca.crt",
      lit "/var/lib/rancher/rke2/server/tls/etcd/server-client.crt",
      lit "/var/lib/rancher/rke2/server/tls/etcd/server-client.key",
    )
    else if text_eq dist (lit "k3s")
    then (
      lit "/var/lib/rancher/k3s/server/tls/etcd/server-ca.crt",
      lit "/var/lib/rancher/k3s/server/tls/etcd/server-client.crt",
      lit "/var/lib/rancher/k3s/server/tls/etcd/server-client.key",
    )
    else (
      lit "/etc/kubernetes/pki/etcd/ca.crt",
      lit "/etc/kubernetes/pki/etcd/healthcheck-client.crt",
      lit "/etc/kubernetes/pki/etcd/healthcheck-client.key",
    )

argv : Text → Text → List Text → List Text
unfolding cert_paths
argv dist timeout args =
    let (ca, cert, key) = cert_paths dist in
    lit "etcdctl"
    ∷ (lit "--cacert=" ++ ca)
    ∷ (lit "--cert=" ++ cert)
    ∷ (lit "--key=" ++ key)
    ∷ (lit "--command-timeout=" ++ timeout)
    ∷ lit "--dial-timeout=5s"
    ∷ args

-- The members that are not the leader, in order, and the last one that is.
followers : Text → List Member → List Member
followers id [] = []
followers id (m ∷ ms) = let rest = followers id ms in if text_eq m.id id then rest else m ∷ rest

last_leader : Text → List Member → Option Member → Option Member
last_leader id [] l = l
last_leader id (m ∷ ms) l = last_leader id ms (if text_eq m.id id then some m else l)

abbrev opt_list : Option Member → List Member
opt_list none = []
opt_list (some m) = m ∷ []

unfoldable pub ordered : Text → List Member → List Member
unfolding followers last_leader
ordered id ms = followers id ms ++ opt_list (last_leader id ms none)

-- A step before anything is done.
new_step : Text → Member → Step
new_step id m = record {
  member = (if text_eq m.name [] then m.id else m.name);
  endpoint = [];
  leader = text_eq m.id id;
  before = 0;
  after = 0;
  took = 0;
  err = none;
  healthy = false;
  skipped = [];
}

-- Why a member is left alone, if it is.
why_skipped : Text → Member → Text
why_skipped aborted m =
    if not (text_eq aborted [])
    then lit "an earlier member is unhealthy"
    else if m.is_learner
    then lit "learner (not serving reads or writes yet)"
    else elim m.client_urls [ [] ↦ lit "no client URL" | u ∷ us ↦ [] ]

abbrev first_url : List Text → Text
first_url [] = []
first_url (u ∷ us) = u

module _ (env : Env) (dist : Text) where
  open env use {World, exec_in_pod, now, pause, ctx_done, parse_health, parse_sizes}

  -- The closure `run`: the output and the error.
  run : World → Text → List Text → (Text × Option Text) × World
  unfolding argv
  run w timeout args =
      let (r, w') = exec_in_pod w (argv dist timeout args) in
      (
        (
          r.0,
          elim r.2 [
            | none ↦ none
            | some e ↦ some (e ++ (lit ": " ++ first_line (trim_space (r.1 ++ (10 ∷ r.0)))))
          ],
        ),
        w',
      )

  size_of : Text × Option Text → ℕ
  size_of (out, some e) = 0
  size_of (out, none) = elim (parse_sizes (lit "---STATUS\n" ++ (out ++ 10 ∷ []))) [
    | [] ↦ 0
    | n ∷ ns ↦ n
  ]

  db_size : World → Text → ℕ × World
  unfolding run size_of
  db_size w ep =
      let (r, w') =
        run w (lit "10s") (ep ∷ lit "endpoint" ∷ lit "status" ∷ lit "-w" ∷ lit "json" ∷ []) in
      (size_of r, w')

  -- The health check says healthy.
  says_healthy : Text × Option Text → Bool
  says_healthy (out, some e) = false
  says_healthy (out, none) = any (λ (b : Bool). b) (parse_health out)

  -- The loop `for i := 0; i < 5 && !step.Healthy; i++`.
  health_loop : ℕ → World → Text → Bool × World
  unfolding run says_healthy
  health_loop zero w ep = (false, w)
  health_loop (suc i) w ep =
      let (r, w1) =
        run w (lit "10s") (ep ∷ lit "endpoint" ∷ lit "health" ∷ lit "-w" ∷ lit "json" ∷ []) in
      let w2 = pause w1 in
      let again = health_loop i w2 ep in
      if says_healthy r then (true, w1) else if ctx_done w2 then (false, w2) else again

  -- The steps of the loop body from the first call on: the step, and `rep.Aborted`.
  touch : World → Member → Step → Step × Text × World
  unfolding run db_size health_loop
  touch w m s =
      let url = first_url m.client_urls in
      let ep = lit "--endpoints=" ++ url in
      let (size, w1) = db_size w ep in
      let (r, w2) = run w1 (lit "10m") (ep ∷ lit "defrag" ∷ []) in
      let s1 = record s { endpoint = url; before = size; took = now w2 - now w1 } in
      let (size2, w3) = db_size w2 ep in
      let (ok, w4) = health_loop 5 w3 ep in
      elim r.1 [
        | some e ↦ (
          record s1 { err = some e },
          s.member ++ lit " failed to defragment; the remaining members were left alone",
          w2,
        )
        | none ↦ (
          record s1 { after = size2; healthy = ok },
          (if ok
              then []
              else s.member
                ++ lit " is not healthy after its defrag; the remaining members were left alone"),
          w4,
        )
      ]

  -- The loop over the members; the text is `rep.Aborted`.
  members_loop : World → Text → Text → List Member → List Step × Text × World
  unfolding new_step why_skipped touch
  members_loop w id aborted [] = ([], aborted, w)
  members_loop w id aborted (m ∷ ms) =
      let s = new_step id m in
      let why = why_skipped aborted m in
      let (s1, aborted1, w1) = touch w m s in
      let left = members_loop w id aborted ms in
      let went = members_loop w1 id aborted1 ms in
      if text_eq why []
      then (s1 ∷ went.0, went.1, went.2)
      else (record s { skipped = why } ∷ left.0, left.1, left.2)

  unfoldable pub defrag : World → List Member → Text → Report × World
  unfolding members_loop
  defrag w members id =
      let (steps, aborted, w1) = members_loop w id [] (ordered id members) in
      (record { steps = steps; aborted = aborted }, w1)
