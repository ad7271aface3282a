-- ===== src/Rescue/Perform.antt =====
-- internal/rescue/rescue.go: what the closure of a step does when the step runs.
pub mod Ends
pub mod Keeps
use khealth_tui.Base.{
  ℕ, ◌*◌, true, false, not, List, [], ◌∷◌, ◌++◌, Option, none, some, if◌then◌else◌, keep, ◌==◌,
}
use khealth_tui.Text.{Text, lit, text_eq, has_prefix, trim_prefix}
use khealth_tui.Rescue.Types
use khealth_tui.Rescue.Types.{Node, Plan, Action, minute}
use khealth_tui.Rescue.Env.{Env}
use khealth_tui.Rescue.Output.{lines, last_after}
use khealth_tui.Rescue.Monad.{Error, plain, ok, M, ◌>>=◌, ◌>>◌, return, fail, note}
use khealth_tui.Rescue.Exec.{exec, exec_ok}
use khealth_tui.Rescue.Wait.{wait_status}
use khealth_tui.Rescue.Reset.{restore_verified, target_up}

-- The value of the variable `initialCluster` with this number; it starts empty.
abbrev pub cluster_of : ℕ → List (ℕ × Text) → Text
cluster_of k [] = []
cluster_of k ((j, v) ∷ m) = if j == k then v else cluster_of k m

abbrev pub without : Text → List Text → List Text
without t = keep (λ u. not (text_eq u t))

module _ {env : Env} (p : Plan) where
  -- p.agentOff[name] = true; delete(p.agentOff, name).
  agent_is_off : Text → M env (Unit {0})
  agent_is_off name s = (ok tt, record s { agent_off = name ∷ without name s.agent_off })

  agent_is_on : Text → M env (Unit {0})
  agent_is_on name s = (ok tt, record s { agent_off = without name s.agent_off })

  unfoldable pub agent : Node → Text → M env Text
  agent n action =
      exec_ok p n (lit "agent") ((lit "ACTION", action) ∷ []) (2 * minute) (lit "agent=ok")

  set_cluster : ℕ → Text → M env (Unit {0})
  set_cluster k v s = (ok tt, record s { clusters = (k, v) ∷ s.clusters })

  read_cluster : ℕ → M env Text
  read_cluster k s = (ok (cluster_of k s.clusters), s)

  check_cluster : Text → M env (Unit {0})
  check_cluster v =
      if text_eq v []
      then fail (plain (lit "member add printed no initial cluster list"))
      else return tt

  -- One note for each line that says why the CNI agent was left alone.
  skipped_notes : Node → List Text → M env (Unit {0})
  skipped_notes n [] = return tt
  skipped_notes n (l ∷ ls) =
      if has_prefix l (lit "cni_skipped=")
      then (do
        note (
            lit "the CNI agent on "
            ++ (n.name ++ (lit " was NOT restarted: " ++ trim_prefix l (lit "cni_skipped="))))
        skipped_notes n ls)
      else skipped_notes n ls

  or_error : Option Error → M env (Unit {0})
  or_error none = return tt
  or_error (some e) = fail e

  unfoldable pub perform : Action → M env (Unit {0})
  unfolding agent agent_is_off agent_is_on set_cluster read_cluster check_cluster skipped_notes
      or_error
  perform (Types.agent_stop n) = do agent n (lit "stop"); agent_is_off n.name
  perform (Types.agent_start n) = do agent n (lit "start"); agent_is_on n.name
  perform (Types.run_script n script vars timeout marker) = do
    exec_ok p n script vars timeout marker
    return tt
  perform (Types.run_noted n script vars timeout marker text) = do
    exec_ok p n script vars timeout marker
    note text
  perform (Types.wait_status n want api promote ip) = wait_status p n want api promote ip
  perform (Types.restore_verified t) = restore_verified p t
  perform (Types.target_up t) = target_up p t
  perform (Types.unpark_api n want) = do
    exec_ok p n (lit "unpark_api") [] (3 * minute) (lit "unpark=ok")
    wait_status p n want true false []
  perform (Types.restart_cni t) = do
    r ← exec p t (lit "cni_restart") ((lit "NODE", t.name) ∷ []) (4 * minute) (lit "cni=ok")
    skipped_notes t (lines r.0)
    or_error r.1
  perform (Types.register t o k) = do
    out ←
        exec_ok p t (lit "member_add")
          ((lit "NAME", o.facts.member_name) ∷ (lit "PEER", o.facts.peer_url) ∷ []) (2 * minute)
          (lit "member_add=ok")
    v ← read_cluster k
    let v' = last_after (lit "initial_cluster=") v (lines out)
    set_cluster k v'
    check_cluster v'
  perform (Types.patch_manifest o k) = do
    v ← read_cluster k
    exec_ok p o (lit "patch_manifest") ((lit "INITIAL_CLUSTER", v) ∷ []) (2 * minute)
        (lit "patched=ok")
    return tt
