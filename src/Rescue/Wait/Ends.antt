-- ===== src/Rescue/Wait/Ends.antt =====
-- internal/rescue/rescue.go: the waits and the cluster reset end.
use khealth_tui.Base.{ℕ, ◌<◌, Bool, arith}
use khealth_tui.Text.{Text}
use khealth_tui.Rescue.Types.{Node, Plan}
use khealth_tui.Rescue.Env.{Env}
use khealth_tui.Rescue.Status.{Status}
use khealth_tui.Rescue.Exec.{poll, exec_ok}
use khealth_tui.Rescue.Exec.Ends.{IsClock, IsCheck, poll-Ends, Total, Total-bind, exec_ok-Total}
use khealth_tui.Rescue.Wait.{
  status_check, wait_status, judged, settled, alone_check, wait_target_alone, reset_check,
  cluster_reset, read_clock, stuck,
}

module _ {env : Env} (p : Plan) where
  status_check-IsCheck :
      (n : Node) (want : ℕ) (api : Bool) (ip : Text)
      → IsCheck (status_check {env = env} p n want api ip)
  unfolding status_check judged
  status_check-IsCheck n want api ip out s = ground arith

  alone_check-IsCheck : (n : Node) (start : ℕ) → IsCheck (alone_check {env = env} p n start)
  unfolding alone_check judged read_clock stuck
  alone_check-IsCheck n start out s = ground arith

  reset_check-IsCheck : (n : Node) → IsCheck (reset_check {env = env} p n)
  unfolding reset_check
  reset_check-IsCheck n out s = ground arith

  settled-Total : (n : Node) (st : Status) → Total (settled {env = env} p n st)
  unfolding settled
  settled-Total n st s = λ q. cc

module _ {env : Env} (p : Plan) (clock : IsClock env) (pos : 0 < p.poll_interval) where
  pub wait_status-Total :
      (n : Node) (want : ℕ) (api promote : Bool) (ip : Text)
      → Total (wait_status {env = env} p n want api promote ip)
  unfolding wait_status
  wait_status-Total n want api promote ip =
      Total-bind (poll p n _ _ _ (status_check p n want api ip)) (settled p n)
        (λ s.
          poll-Ends p clock n _ _ _ (status_check p n want api ip) s pos
            (status_check-IsCheck p n want api ip))
        (settled-Total p n)

  pub wait_target_alone-Total : (n : Node) → Total (wait_target_alone {env = env} p n)
  unfolding wait_target_alone read_clock
  wait_target_alone-Total n s =
      Total-bind (poll p n _ _ _ (alone_check p n (env.now s.world))) (settled p n)
        (λ s1.
          poll-Ends p clock n _ _ _ (alone_check p n (env.now s.world)) s1 pos
            (alone_check-IsCheck p n (env.now s.world)))
        (settled-Total p n) s

  pub cluster_reset-Total :
      (n : Node) (snapshot : Text) (force : Bool)
      → Total (cluster_reset {env = env} p n snapshot force)
  unfolding cluster_reset
  cluster_reset-Total n snapshot force =
      Total-bind (exec_ok p n _ _ _ _) _ (exec_ok-Total p n _ _ _ _)
        (λ out s. poll-Ends p clock n _ _ _ (reset_check p n) s pos (reset_check-IsCheck p n))
