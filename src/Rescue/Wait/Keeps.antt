-- ===== src/Rescue/Wait/Keeps.antt =====
-- internal/rescue/rescue.go: the waits and the cluster reset leave the record of the stopped agents alone.
use khealth_tui.Base.{ℕ, refl, Bool, arith}
use khealth_tui.Text.{Text}
use khealth_tui.Rescue.Types.{Node, Plan}
use khealth_tui.Rescue.Env.{Env}
use khealth_tui.Rescue.Status.{Status}
use khealth_tui.Rescue.Exec.{poll, exec_ok}
use khealth_tui.Rescue.Exec.Keeps.{Keeps, Keeps-bind, poll-Keeps, exec_ok-Keeps}
use khealth_tui.Rescue.Wait.{
  status_check, wait_status, judged, settled, alone_check, wait_target_alone, reset_check,
  cluster_reset, read_clock, stuck,
}

module _ {env : Env} (p : Plan) where
  status_check-Keeps :
      (n : Node) (want : ℕ) (api : Bool) (ip out : Text)
      → Keeps (status_check {env = env} p n want api ip out)
  unfolding status_check judged
  status_check-Keeps n want api ip out s = ground arith

  alone_check-Keeps :
      (n : Node) (start : ℕ) (out : Text) → Keeps (alone_check {env = env} p n start out)
  unfolding alone_check judged read_clock stuck
  alone_check-Keeps n start out s = ground arith

  reset_check-Keeps : (n : Node) (out : Text) → Keeps (reset_check {env = env} p n out)
  unfolding reset_check
  reset_check-Keeps n out s = ground arith

  settled-Keeps : (n : Node) (st : Status) → Keeps (settled {env = env} p n st)
  unfolding settled
  settled-Keeps n st s = refl

  pub wait_status-Keeps :
      (n : Node) (want : ℕ) (api promote : Bool) (ip : Text)
      → Keeps (wait_status {env = env} p n want api promote ip)
  unfolding wait_status
  wait_status-Keeps n want api promote ip =
      Keeps-bind (poll p n _ _ _ (status_check p n want api ip)) (settled p n)
        (poll-Keeps p n _ _ _ (status_check p n want api ip) (status_check-Keeps n want api ip))
        (settled-Keeps n)

  pub wait_target_alone-Keeps : (n : Node) → Keeps (wait_target_alone {env = env} p n)
  unfolding wait_target_alone read_clock
  wait_target_alone-Keeps n s =
      Keeps-bind (poll p n _ _ _ (alone_check p n (env.now s.world))) (settled p n)
        (poll-Keeps p n _ _ _ (alone_check p n (env.now s.world))
          (alone_check-Keeps n (env.now s.world)))
        (settled-Keeps n) s

  pub cluster_reset-Keeps :
      (n : Node) (snapshot : Text) (force : Bool)
      → Keeps (cluster_reset {env = env} p n snapshot force)
  unfolding cluster_reset
  cluster_reset-Keeps n snapshot force =
      Keeps-bind (exec_ok p n _ _ _ _) _ (exec_ok-Keeps p n _ _ _ _)
        (λ out. poll-Keeps p n _ _ _ (reset_check p n) (reset_check-Keeps n))
