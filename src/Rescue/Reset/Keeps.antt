-- ===== src/Rescue/Reset/Keeps.antt =====
-- internal/rescue/rescue.go: `restoreVerified` and `targetUp` leave the record of the stopped agents alone.
use khealth_tui.Base.{ℕ, refl, ◌∙◌, true, false, Bool-cases, inl, inr, [], ltb}
use khealth_tui.Text.{Text, lit, text_eq}
use khealth_tui.Rescue.Types.{Node, Plan}
use khealth_tui.Rescue.Env.{Env}
use khealth_tui.Rescue.Monad.{plain, needs_reset, out_of_rounds, Res, ok, err, M, fail}
use khealth_tui.Rescue.Exec.{exec_ok}
use khealth_tui.Rescue.Exec.Keeps.{Keeps, Keeps-bind, exec_ok-Keeps}
use khealth_tui.Rescue.Wait.{wait_target_alone, cluster_reset}
use khealth_tui.Rescue.Wait.Keeps.{wait_status-Keeps, wait_target_alone-Keeps, cluster_reset-Keeps}
use khealth_tui.Rescue.Reset.{
  restore_verified, target_up, restore_judged, restore_round, since_now, attempt, recover,
  second_reset,
}

module _ {env : Env} (p : Plan) where
  judged-Keeps :
      (t : Node) (k : ℕ) (since why : Text) (again : M env (Unit {0}))
      → Keeps again
      → Keeps (restore_judged p t k since why again)
  unfolding restore_judged
  judged-Keeps t k since why again ha s = elim (Bool-cases (text_eq why (lit "yes"))) [
    | inl e ↦ rw e refl
    | inr e ↦ (elim (Bool-cases (ltb 1 k)) [
      | inl f ↦ rw (e, f) refl
      | inr f ↦
          rw (e, f)
            (Keeps-bind (exec_ok p t _ _ _ _) (λ _. again) (exec_ok-Keeps p t _ _ _ _) (λ _. ha) _)
    ])
  ]

  round-Keeps :
      (t : Node) (k : ℕ) (again : M env (Unit {0}))
      → Keeps again
      → Keeps (restore_round p t k again)
  unfolding restore_round since_now
  round-Keeps t k again h s =
      Keeps-bind (cluster_reset p t p.snapshot (ltb 1 k)) _
        (cluster_reset-Keeps p t p.snapshot (ltb 1 k))
        (λ _.
          Keeps-bind (exec_ok p t _ _ _ _) _ (exec_ok-Keeps p t _ _ _ _)
            (λ out. judged-Keeps t k _ _ again h))
        s

  pub restore_verified-Keeps : (t : Node) → Keeps (restore_verified {env = env} p t)
  unfolding restore_verified
  restore_verified-Keeps t =
      round-Keeps t 1 (restore_round p t 2 (fail out_of_rounds))
        (round-Keeps t 2 (fail out_of_rounds) (λ s. refl))

  second-Keeps : (t : Node) (reason : Text) → Keeps (second_reset {env = env} p t reason)
  unfolding second_reset
  second-Keeps t reason s =
      Keeps-bind (exec_ok p t _ _ _ _) _ (exec_ok-Keeps p t _ _ _ _)
        (λ _. Keeps-bind (cluster_reset p t [] true) _ (cluster_reset-Keeps p t [] true) (λ _.
          Keeps-bind (exec_ok p t _ _ _ _) _ (exec_ok-Keeps p t _ _ _ _) (λ _.
            Keeps-bind (exec_ok p t _ _ _ _) _ (exec_ok-Keeps p t _ _ _ _)
              (λ _. wait_status-Keeps p t 1 true false []))))
        _

  recover-Keeps : (t : Node) (r : Res (Unit {0})) → Keeps (recover {env = env} p t r)
  unfolding recover
  recover-Keeps t (ok _) s = refl
  recover-Keeps t (err (needs_reset reason)) s = second-Keeps t reason s
  recover-Keeps t (err (plain e)) s = refl
  recover-Keeps t (err out_of_rounds) s = refl

  pub target_up-Keeps : (t : Node) → Keeps (target_up {env = env} p t)
  unfolding target_up attempt
  target_up-Keeps t s =
      recover-Keeps t (wait_target_alone p t s).0 (wait_target_alone p t s).1
      ∙ wait_target_alone-Keeps p t s
