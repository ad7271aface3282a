-- ===== src/Rescue/Perform/Keeps.antt =====
-- internal/rescue/rescue.go: what each closure of a step does to the record of the stopped agents.
use khealth_tui.Base.{
  Bool, ◌*◌, ◌≡◌, refl, ap, true, false, Bool-cases, inl, inr, arith, List, [], ◌∷◌, Option, none,
  some,
}
use khealth_tui.Text.{Text, lit, has_prefix, remove_byte}
use khealth_tui.Rescue.Types
use khealth_tui.Rescue.Types.{Node, Plan, Action, minute}
use khealth_tui.Rescue.Env.{Env}
use khealth_tui.Rescue.Output.{lines}
use khealth_tui.Rescue.Monad.{Error, St, Res, ok, err, bind_res}
use khealth_tui.Rescue.Exec.{exec, exec_ok, verdict, request}
use khealth_tui.Rescue.Exec.Keeps.{Keeps, Keeps-bind, exec_ok-Keeps}
use khealth_tui.Rescue.Wait.Keeps.{wait_status-Keeps}
use khealth_tui.Rescue.Reset.Keeps.{restore_verified-Keeps, target_up-Keeps}
use khealth_tui.Rescue.Perform.{
  perform, agent, agent_is_off, agent_is_on, set_cluster, read_cluster, check_cluster,
  skipped_notes, or_error, without,
}

-- The closure is one of those that stop or start rancher-system-agent.
abbrev pub is_agent : Action → Bool
is_agent (Types.agent_stop n) = true
is_agent (Types.agent_start n) = true
is_agent _ = false

module _ {env : Env} (p : Plan) where
  agent-Keeps : (n : Node) (a : Text) → Keeps (agent {env = env} p n a)
  unfolding agent
  agent-Keeps n a = exec_ok-Keeps p n _ _ _ _

  notes-Keeps : (n : Node) (ls : List Text) → Keeps (skipped_notes {env = env} p n ls)
  unfolding skipped_notes
  notes-Keeps n [] s = refl
  notes-Keeps n (l ∷ ls) s = elim (Bool-cases (has_prefix l (lit "cni_skipped="))) [
    | inl e ↦ rw e (notes-Keeps n ls _)
    | inr e ↦ rw e (notes-Keeps n ls s)
  ]

  check-Keeps : (v : Text) → Keeps (check_cluster {env = env} p v)
  unfolding check_cluster
  check-Keeps v s = ground arith

  or_error-Keeps : (v : Option Error) → Keeps (or_error {env = env} p v)
  unfolding or_error
  or_error-Keeps none s = refl
  or_error-Keeps (some e) s = refl

  -- Every other closure leaves the record alone.
  pub perform-Keeps : (a : Action) → is_agent a ≡ false → Keeps (perform {env = env} p a)
  unfolding perform
  perform-Keeps (Types.agent_stop n) h s = absurd (ground (arith, h))
  perform-Keeps (Types.agent_start n) h s = absurd (ground (arith, h))
  perform-Keeps (Types.run_script n script vars timeout marker) h s =
      Keeps-bind (exec_ok p n _ _ _ _) _ (exec_ok-Keeps p n _ _ _ _) (λ o t. refl) s
  perform-Keeps (Types.run_noted n script vars timeout marker text) h s =
      Keeps-bind (exec_ok p n _ _ _ _) _ (exec_ok-Keeps p n _ _ _ _) (λ o t. refl) s
  perform-Keeps (Types.wait_status n want api promote ip) h s =
      wait_status-Keeps p n want api promote ip s
  perform-Keeps (Types.restore_verified t) h s = restore_verified-Keeps p t s
  perform-Keeps (Types.target_up t) h s = target_up-Keeps p t s
  perform-Keeps (Types.unpark_api n want) h s =
      Keeps-bind (exec_ok p n _ _ _ _) _ (exec_ok-Keeps p n _ _ _ _)
        (λ _. wait_status-Keeps p n want true false []) s
  perform-Keeps (Types.restart_cni t) h s =
      let res =
        (env.run s.world
          (request p t (lit "cni_restart") ((lit "NODE", t.name) ∷ []) (4 * minute))).0 in
      let out = remove_byte 13 res.stdout in
      unfold exec in
      (Keeps-bind (skipped_notes p t (lines out))
        (λ _. or_error p (verdict t (lit "cni=ok") out res)) (notes-Keeps t (lines out))
        (λ _. or_error-Keeps (verdict t (lit "cni=ok") out res)) _)
  perform-Keeps (Types.register t o k) h s =
      Keeps-bind (exec_ok p t _ _ _ _) _ (exec_ok-Keeps p t _ _ _ _)
        (λ out u. unfold set_cluster read_cluster in check-Keeps _ _) s
  perform-Keeps (Types.patch_manifest o k) h s =
      unfold read_cluster in
      (Keeps-bind (exec_ok p o _ _ _ _) _ (exec_ok-Keeps p o _ _ _ _) (λ o t. refl) s)

-- What a closure that succeeds leaves of the record.
abbrev pub after_action : Action → List Text → List Text
after_action (Types.agent_stop n) off = n.name ∷ without n.name off
after_action (Types.agent_start n) off = without n.name off
after_action _ off = off

module _ {env : Env} (p : Plan) where
  stopped-off :
      (name : Text) (r : Res Text × St env) (off : List Text)
      → r.1.agent_off ≡ off
      → (bind_res r.0 r.1 (λ _. agent_is_off p name)).0 ≡ ok tt
      → (bind_res r.0 r.1 (λ _. agent_is_off p name)).1.agent_off ≡ name ∷ without name off
  unfolding agent_is_off
  stopped-off name (ok o, t) off h k = ap (λ l. name ∷ without name l) h
  stopped-off name (err e, t) off h k = absurd (ground (arith, k))

  started-off :
      (name : Text) (r : Res Text × St env) (off : List Text)
      → r.1.agent_off ≡ off
      → (bind_res r.0 r.1 (λ _. agent_is_on p name)).0 ≡ ok tt
      → (bind_res r.0 r.1 (λ _. agent_is_on p name)).1.agent_off ≡ without name off
  unfolding agent_is_on
  started-off name (ok o, t) off h k = ap (without name) h
  started-off name (err e, t) off h k = absurd (ground (arith, k))

  pub perform-after :
      (a : Action) (s : St env)
      → (perform p a s).0 ≡ ok tt
      → (perform p a s).1.agent_off ≡ after_action a s.agent_off
  unfolding perform
  perform-after (Types.agent_stop n) s h =
      stopped-off n.name (agent p n (lit "stop") s) s.agent_off (agent-Keeps p n (lit "stop") s) h
  perform-after (Types.agent_start n) s h =
      started-off n.name (agent p n (lit "start") s) s.agent_off (agent-Keeps p n (lit "start") s) h
  perform-after (Types.run_script n script vars timeout marker) s h =
      perform-Keeps p (Types.run_script n script vars timeout marker) refl s
  perform-after (Types.run_noted n script vars timeout marker text) s h =
      perform-Keeps p (Types.run_noted n script vars timeout marker text) refl s
  perform-after (Types.wait_status n want api promote ip) s h =
      perform-Keeps p (Types.wait_status n want api promote ip) refl s
  perform-after (Types.restore_verified t) s h = perform-Keeps p (Types.restore_verified t) refl s
  perform-after (Types.target_up t) s h = perform-Keeps p (Types.target_up t) refl s
  perform-after (Types.unpark_api n want) s h = perform-Keeps p (Types.unpark_api n want) refl s
  perform-after (Types.restart_cni t) s h = perform-Keeps p (Types.restart_cni t) refl s
  perform-after (Types.register t o k) s h = perform-Keeps p (Types.register t o k) refl s
  perform-after (Types.patch_manifest o k) s h = perform-Keeps p (Types.patch_manifest o k) refl s
