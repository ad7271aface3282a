-- ===== src/Rescue/Reset/Ends.antt =====
-- internal/rescue/rescue.go: `restoreVerified` and `targetUp` end; the restore runs at most twice.
use khealth_tui.Base.{ℕ, ◌<◌, ◌≡◌, ◌≢◌, refl, true, false, Bool-cases, ◌⊎◌, inl, inr, [], ltb}
use khealth_tui.Text.{Text, lit, text_eq}
use khealth_tui.Rescue.Types.{Node, Plan}
use khealth_tui.Rescue.Env.{Env}
use khealth_tui.Rescue.Monad.{plain, needs_reset, out_of_rounds, Res, ok, err, M, fail}
use khealth_tui.Rescue.Exec.{exec_ok}
use khealth_tui.Rescue.Exec.Ends.{IsClock, Total, Total-bind, exec_ok-Total}
use khealth_tui.Rescue.Wait.{wait_target_alone, cluster_reset}
use khealth_tui.Rescue.Wait.Ends.{wait_status-Total, wait_target_alone-Total, cluster_reset-Total}
use khealth_tui.Rescue.Reset.{
  restore_verified, target_up, restore_judged, restore_round, since_now, attempt, recover,
  second_reset,
}

module _ {env : Env} (p : Plan) (clock : IsClock env) (pos : 0 < p.poll_interval) where
  -- The first round goes on with `again`; the second does not.
  judged-Total :
      (t : Node) (k : ℕ) (since why : Text) (again : M env (Unit {0}))
      → (ltb 1 k ≡ true) ⊎ Total again
      → Total (restore_judged p t k since why again)
  unfolding restore_judged
  judged-Total t k since why again h s = elim (Bool-cases (text_eq why (lit "yes"))) [
    | inl e ↦ rw e (λ q. cc)
    | inr e ↦ elim (Bool-cases (ltb 1 k)) [
      | inl f ↦ rw (e, f) (λ q. cc)
      | inr f ↦ elim h [
        | inl c ↦ absurd (cc)
        | inr ha ↦
            rw (e, f)
              (Total-bind (exec_ok p t _ _ _ _) (λ _. again) (exec_ok-Total p t _ _ _ _) (λ _. ha)
                _)
      ]
    ]
  ]

  round-Total :
      (t : Node) (k : ℕ) (again : M env (Unit {0}))
      → (ltb 1 k ≡ true) ⊎ Total again
      → Total (restore_round p t k again)
  unfolding restore_round since_now
  round-Total t k again h s =
      Total-bind (cluster_reset p t p.snapshot (ltb 1 k)) _
        (cluster_reset-Total p clock pos t p.snapshot (ltb 1 k))
        (λ _.
          Total-bind (exec_ok p t _ _ _ _) _ (exec_ok-Total p t _ _ _ _)
            (λ out. judged-Total t k _ _ again h))
        s

  pub restore_verified-Total : (t : Node) → Total (restore_verified {env = env} p t)
  unfolding restore_verified
  restore_verified-Total t =
      round-Total t 1 (restore_round p t 2 (fail out_of_rounds))
        (inr (round-Total t 2 (fail out_of_rounds) (inl refl)))

  second-Total : (t : Node) (reason : Text) → Total (second_reset {env = env} p t reason)
  unfolding second_reset
  second-Total t reason s =
      Total-bind (exec_ok p t _ _ _ _) _ (exec_ok-Total p t _ _ _ _)
        (λ _.
          Total-bind (cluster_reset p t [] true) _ (cluster_reset-Total p clock pos t [] true) (λ _.
            Total-bind (exec_ok p t _ _ _ _) _ (exec_ok-Total p t _ _ _ _) (λ _.
              Total-bind (exec_ok p t _ _ _ _) _ (exec_ok-Total p t _ _ _ _)
                (λ _. wait_status-Total p clock pos t 1 true false []))))
        _

  recover-Total :
      (t : Node) (r : Res (Unit {0})) → r ≢ err out_of_rounds → Total (recover {env = env} p t r)
  unfolding recover
  recover-Total t (ok _) h s = λ q. cc
  recover-Total t (err (needs_reset reason)) h s = second-Total t reason s
  recover-Total t (err (plain e)) h s = λ q. cc
  recover-Total t (err out_of_rounds) h s = absurd (h refl)

  pub target_up-Total : (t : Node) → Total (target_up {env = env} p t)
  unfolding target_up attempt
  target_up-Total t s =
      recover-Total t (wait_target_alone p t s).0 (wait_target_alone-Total p clock pos t s)
        (wait_target_alone p t s).1
