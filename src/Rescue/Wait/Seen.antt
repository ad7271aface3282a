-- ===== src/Rescue/Wait/Seen.antt =====
-- internal/rescue/rescue.go, `waitStatus`: what a wait that succeeded has seen.
use khealth_tui.Base.{
  ℕ, ◌*◌, sym, subst, ◌≡◌, refl, Bool, true, false, Bool-cases, inl, inr, arith, some, ◌++◌,
}
use khealth_tui.Text.{Text, lit, contains}
use khealth_tui.Rescue.Types.{Node, Plan, second}
use khealth_tui.Rescue.Env.{Env, Request}
use khealth_tui.Rescue.Monad.{Res, ok, err, St, bind_res}
use khealth_tui.Rescue.Status.{Status, parse_status, ready}
use khealth_tui.Rescue.Ready.{IsReady, ready_iff}
use khealth_tui.Rescue.Exec.{request, poll}
use khealth_tui.Rescue.Exec.Poll.{Printed, poll_found}
use khealth_tui.Rescue.Wait.{status_check, wait_status, judged, settled, flag}

-- The request of `waitStatus`.
abbrev pub status_request : Plan → Node → Bool → Bool → Request
status_request p n api promote =
    request p n (lit "status") (flag api (lit "API") ++ flag promote (lit "PROMOTE")) (90 * second)

module _ {env : Env} (p : Plan) where
  judged_found :
      (st : Status) (v : Bool × Text) (s t : St env) (c : Status)
      → judged p st v s ≡ (ok (some c), t)
      → (v.0 ≡ true) × (st ≡ c)
  unfolding judged
  judged_found st (true, why) s t c h = ground arith
  judged_found st (false, why) s t c h = absurd (ground arith)

  check_found :
      (n : Node) (want : ℕ) (api : Bool) (ip out : Text) (s t : St env) (c : Status)
      → status_check p n want api ip out s ≡ (ok (some c), t)
      → (c ≡ parse_status env.parse_ctl n.name out) × IsReady c want api ip
  unfolding status_check
  check_found n want api ip out s t c h = elim (Bool-cases (contains st.svc (lit "failed"))) [
    | inl e ↦ absurd (ground arith)
    | inr e ↦
        (let (r, q) = judged_found st (ready st want api ip) s t c (rw e at h) in
          (sym q, subst (λ x. IsReady x want api ip) q ((ready_iff st want api ip).0 r)))
  ]
    where
      st : Status
      st = parse_status env.parse_ctl n.name out

  -- When `waitStatus` succeeds, the runner has answered its request with an output whose parsed status
  -- is ready: `want` members, all voting and healthy, with a leader and no alarm, a member at the peer
  -- address `ip` unless that is empty, and an apiserver that answers if `api` is set.
  pub wait_status_seen :
      (n : Node) (want : ℕ) (api promote : Bool) (ip : Text) (s t : St env)
      → wait_status p n want api promote ip s ≡ (ok tt, t)
      → (out : Text) × Printed env (status_request p n api promote) out
        × IsReady (parse_status env.parse_ctl n.name out) want api ip
  unfolding wait_status
  wait_status_seen n want api promote ip s t h =
      go
        (poll p n (lit "status") (flag api (lit "API") ++ flag promote (lit "PROMOTE"))
          p.wait_timeout (status_check p n want api ip) s)
        refl h
    where
      go :
          (r : Res Status × St env)
          → poll p n
              (lit "status")
              (flag api (lit "API") ++ flag promote (lit "PROMOTE"))
              p.wait_timeout
              (status_check p n want api ip)
              s
            ≡ r
          → bind_res r.0 r.1 (settled p n) ≡ (ok tt, t)
          → (out : Text) × Printed env (status_request p n api promote) out
            × IsReady (parse_status env.parse_ctl n.name out) want api ip
      go (ok c, u) e q =
          let (out, pr, (s0, k)) =
            poll_found p n (lit "status") (flag api (lit "API") ++ flag promote (lit "PROMOTE"))
              p.wait_timeout (status_check p n want api ip) s u c e in
          let (a, b) = check_found n want api ip out s0 u c k in
          (out, pr, subst (λ x. IsReady x want api ip) a b)
      go (err x, u) e q = absurd (ground arith)
