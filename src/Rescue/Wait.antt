-- ===== src/Rescue/Wait.antt =====
-- internal/rescue/rescue.go: the waits (`waitStatus`, `waitTargetAlone`) and the cluster reset of
-- rke2 and k3s (`clusterReset`).
pub mod Seen
pub mod Ends
pub mod Keeps
use khealth_tui.Base.{
  ℕ, ◌-◌, ◌*◌, ◌/◌, Bool, true, false, not, ◌&&◌, ◌||◌, List, [], ◌∷◌, ◌++◌, Option, none, some,
  ltb, ◌==◌, if◌then◌else◌, map,
}
use khealth_tui.Text.{Text, lit, text_eq, itoa, contains, join}
use khealth_tui.Etcd.{Member, Probe}
use khealth_tui.Etcd
use khealth_tui.Rescue.Types.{Kind, rke2, k3s, kubeadm, Node, Plan, minute}
use khealth_tui.Rescue.Env.{Env}
use khealth_tui.Rescue.Output.{lines, last_after, last_error}
use khealth_tui.Rescue.Status.{Status, parse_status, ready}
use khealth_tui.Rescue.Monad.{
  plain, needs_reset, ok, M, ◌>>=◌, ◌>>◌, return, fail, log_lines, set_live, push_live,
}
use khealth_tui.Rescue.Exec.{Vars, exec_ok, poll, duration_text}

unfoldable pub svc : Plan → Text
svc p = by_kind p.kind
  where
    by_kind : Kind → Text
    by_kind rke2 = lit "rke2-server"
    by_kind k3s = lit "k3s"
    by_kind kubeadm = lit "kubelet (etcd + kube-apiserver static pods)"

-- Byte order of texts, as Go's `<=` on strings.
abbrev text_leb : Text → Text → Bool
text_leb [] t = true
text_leb (c ∷ s) [] = false
text_leb (c ∷ s) (d ∷ t) = ltb c d || ((c == d) && text_leb s t)

insert_text : Text → List Text → List Text
insert_text t [] = t ∷ []
insert_text t (u ∷ us) = if text_leb t u then t ∷ u ∷ us else u ∷ insert_text t us

-- sort.Strings.
unfoldable pub sort_texts : List Text → List Text
unfolding insert_text
sort_texts [] = []
sort_texts (t ∷ ts) = insert_text t (sort_texts ts)

member_summary : Probe → Member → Text
member_summary pr m = elim (Etcd.status pr.statuses m.id) [
  | none ↦ m.name
  | some e ↦ m.name ++ (lit " term " ++ (itoa e.raft_term ++ (lit " idx " ++ itoa e.raft_index)))
]

status_summary : Status → Text
unfolding member_summary sort_texts
status_summary st = join (sort_texts (map (member_summary st.probe) st.probe.members)) (lit "; ")

-- The line that a wait logs when it succeeded.
unfoldable pub status_line : Node → Status → Text
unfolding status_summary
status_line n st =
    n.name
    ++ (lit ": "
        ++ (itoa st.members
            ++ (lit " members, "
                ++ (itoa st.healthy
                    ++ (lit " healthy, leader "
                        ++ (st.leader ++ (lit ", " ++ status_summary st)))))))

abbrev pub flag : Bool → Text → Vars
flag true k = (k, lit "1") ∷ []
flag false k = []

svc_failed : Plan → Node → Text
unfolding svc
svc_failed p n = svc p ++ (lit " is in state failed on " ++ n.name)

-- `aloneGrace`.
unfoldable pub alone_grace : Plan → ℕ
alone_grace p = if ltb p.wait_timeout (5 * minute) then p.wait_timeout / 3 else 5 * minute

-- Why the restored target will not come up alone, if that is plain by now.
stuck : Plan → Bool → Status → Option Text
unfolding alone_grace duration_text
stuck p late st =
    if ltb 1 st.members
    then some
        (lit "the member list still has " ++ (itoa st.members ++ lit " members after the restore"))
    else if late && (st.members == 0 || text_eq st.leader [])
    then some (
        lit "no single-member leader " ++ (duration_text (alone_grace p) ++ lit " after the start"))
    else none

reset_log : Node → Text
reset_log n = n.facts.rescue ++ lit "/cluster-reset.log"

module _ {env : Env} (p : Plan) where
  open env use {World, now, parse_ctl}

  -- The end of a check: done with the status, or a line that says what is missing.
  judged : Status → Bool × Text → M env (Option Status)
  judged st (true, why) = return (some st)
  judged st (false, why) = do push_live (lit "waiting: " ++ why); return none

  -- The closure of `waitStatus`.
  unfoldable pub status_check : Node → ℕ → Bool → Text → Text → M env (Option Status)
  unfolding judged svc_failed
  status_check n want api ip out =
      let st = parse_status parse_ctl n.name out in
      let verdict = ready st want api ip in
      if contains st.svc (lit "failed")
      then fail (plain (svc_failed p n ++ (lit " (" ++ (verdict.1 ++ lit ")"))))
      else judged st verdict

  settled : Node → Status → M env (Unit {0})
  settled n st = do log_lines (status_line n st ∷ []); set_live []

  unfoldable pub wait_status : Node → ℕ → Bool → Bool → Text → M env (Unit {0})
  unfolding settled
  wait_status n want api promote ip = do
    last ←
        poll p n (lit "status") (flag api (lit "API") ++ flag promote (lit "PROMOTE"))
          p.wait_timeout (status_check n want api ip)
    settled n last

  read_clock : M env ℕ
  read_clock s = (ok (now s.world), s)

  -- The closure of `waitTargetAlone`; `start` is the time at which the wait began.
  unfoldable pub alone_check : Node → ℕ → Text → M env (Option Status)
  unfolding judged svc_failed stuck read_clock
  alone_check n start out = do
    t ← read_clock
    let st = parse_status parse_ctl n.name out
    if contains st.svc (lit "failed")
        then fail (plain (svc_failed p n))
        else elim (stuck p (ltb (alone_grace p) (t - start)) st) [
          | some reason ↦ fail (needs_reset reason)
          | none ↦ judged st (ready st 1 true [])
        ]

  unfoldable pub wait_target_alone : Node → M env (Unit {0})
  unfolding settled read_clock
  wait_target_alone n = do
    start ← read_clock
    last ← poll p n (lit "status") ((lit "API", lit "1") ∷ []) p.wait_timeout (alone_check n start)
    settled n last

  -- The closure of `clusterReset`.
  unfoldable pub reset_check : Node → Text → M env (Option (Unit {0}))
  unfolding reset_log
  reset_check n out =
      let code = last_after (lit "exit=") [] (lines out) in
      if text_eq code []
      then return none
      else if contains out (lit "cluster membership has been reset")
      then (do
        log_lines (
            (lit "cluster-reset finished (exit "
              ++ (code ++ (lit "); log kept at " ++ reset_log n)))
            ∷ [])
        return (some tt))
      else fail (
          plain (
            lit "cluster-reset exited "
            ++ (code
                ++ (lit " without resetting membership: "
                    ++ (last_error out ++ (lit " (full log: " ++ (reset_log n ++ lit ")")))))))

  unfoldable pub cluster_reset : Node → Text → Bool → M env (Unit {0})
  unfolding reset_log
  cluster_reset n snapshot force = do
    exec_ok p n (lit "reset_rke2")
        ((lit "SNAP", snapshot)
          ∷ (flag (p.s3 && not (text_eq snapshot [])) (lit "S3") ++ flag force (lit "FORCE")))
        (2 * minute) (lit "started=ok")
    poll p n (lit "poll")
        ((lit "LOG", reset_log n) ∷ (lit "EXIT", n.facts.rescue ++ lit "/cluster-reset.exit") ∷ [])
        (2 * p.wait_timeout) (reset_check n)
