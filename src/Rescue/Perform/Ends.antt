-- ===== src/Rescue/Perform/Ends.antt =====
-- internal/rescue/rescue.go: every closure of a step ends.
use khealth_tui.Base.{
  ◌*◌, ◌<◌, ◌≢◌, true, false, Bool-cases, inl, inr, arith, List, [], ◌∷◌, Option, none, some,
}
use khealth_tui.Text.{Text, lit, has_prefix, remove_byte}
use khealth_tui.Rescue.Types
use khealth_tui.Rescue.Types.{Node, Plan, Action, minute}
use khealth_tui.Rescue.Env.{Env}
use khealth_tui.Rescue.Output.{lines}
use khealth_tui.Rescue.Monad.{Error, out_of_rounds, St}
use khealth_tui.Rescue.Exec.{exec, exec_ok, verdict, request}
use khealth_tui.Rescue.Exec.Ends.{IsClock, Ends, Total, Total-bind, exec_ok-Total, verdict_ends}
use khealth_tui.Rescue.Wait.Ends.{wait_status-Total}
use khealth_tui.Rescue.Reset.Ends.{restore_verified-Total, target_up-Total}
use khealth_tui.Rescue.Perform.{
  perform, agent, agent_is_off, agent_is_on, set_cluster, read_cluster, check_cluster,
  skipped_notes, or_error,
}

module _ {env : Env} (p : Plan) (clock : IsClock env) (pos : 0 < p.poll_interval) where
  agent-Total : (n : Node) (a : Text) → Total (agent {env = env} p n a)
  unfolding agent
  agent-Total n a = exec_ok-Total p n _ _ _ _

  notes-Total : (n : Node) (ls : List Text) → Total (skipped_notes {env = env} p n ls)
  unfolding skipped_notes
  notes-Total n [] s = λ q. cc
  notes-Total n (l ∷ ls) s = elim (Bool-cases (has_prefix l (lit "cni_skipped="))) [
    | inl e ↦ rw e (notes-Total n ls _)
    | inr e ↦ rw e (notes-Total n ls s)
  ]

  check-Total : (v : Text) → Total (check_cluster {env = env} p v)
  unfolding check_cluster
  check-Total v s = ground arith

  or_error-Total : (v : Option Error) → v ≢ some out_of_rounds → Total (or_error {env = env} p v)
  unfolding or_error
  or_error-Total none h s = λ q. cc
  or_error-Total (some e) h s = ground arith

  -- A step's closure ends, whatever the runner answers: with a poll interval above 0 and a clock that
  -- does not run backwards, `perform` never runs out of the rounds of the model.
  pub perform-Ends : (a : Action) (s : St env) → Ends (perform p a s)
  unfolding perform agent_is_off agent_is_on
  perform-Ends (Types.agent_stop n) s = Total-bind (agent p n _) _ (agent-Total n _) (λ o t q. cc) s
  perform-Ends (Types.agent_start n) s =
      Total-bind (agent p n _) _ (agent-Total n _) (λ o t q. cc) s
  perform-Ends (Types.run_script n script vars timeout marker) s =
      Total-bind (exec_ok p n _ _ _ _) _ (exec_ok-Total p n _ _ _ _) (λ o t q. cc) s
  perform-Ends (Types.run_noted n script vars timeout marker text) s =
      Total-bind (exec_ok p n _ _ _ _) _ (exec_ok-Total p n _ _ _ _) (λ o t q. cc) s
  perform-Ends (Types.wait_status n want api promote ip) s =
      wait_status-Total p clock pos n want api promote ip s
  perform-Ends (Types.restore_verified t) s = restore_verified-Total p clock pos t s
  perform-Ends (Types.target_up t) s = target_up-Total p clock pos t s
  perform-Ends (Types.unpark_api n want) s =
      Total-bind (exec_ok p n _ _ _ _) _ (exec_ok-Total p n _ _ _ _)
        (λ _. wait_status-Total p clock pos n want true false []) s
  perform-Ends (Types.restart_cni t) s =
      let res =
        (env.run s.world
          (request p t (lit "cni_restart") ((lit "NODE", t.name) ∷ []) (4 * minute))).0 in
      let out = remove_byte 13 res.stdout in
      unfold exec in
      (Total-bind (skipped_notes p t (lines out))
        (λ _. or_error p (verdict t (lit "cni=ok") out res)) (notes-Total t (lines out))
        (λ _.
          or_error-Total (verdict t (lit "cni=ok") out res) (verdict_ends t (lit "cni=ok") out res))
        _)
  perform-Ends (Types.register t o k) s =
      Total-bind (exec_ok p t _ _ _ _) _ (exec_ok-Total p t _ _ _ _)
        (λ out u. unfold set_cluster read_cluster in check-Total _ _) s
  perform-Ends (Types.patch_manifest o k) s =
      unfold read_cluster in
      (Total-bind (exec_ok p o _ _ _ _) _ (exec_ok-Total p o _ _ _ _) (λ o t q. cc) s)
