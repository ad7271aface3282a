-- ===== src/Rescue/Reset.antt =====
-- internal/rescue/rescue.go: `restoreVerified` and `targetUp`.
pub mod Ends
pub mod Keeps
use khealth_tui.Base.{ℕ, ◌/◌, ◌*◌, true, false, [], ◌∷◌, ◌++◌, ltb, if◌then◌else◌}
use khealth_tui.Text.{Text, lit, text_eq, itoa, trim_prefix}
use khealth_tui.Rescue.Types.{Node, Plan, second, minute}
use khealth_tui.Rescue.Env.{Env}
use khealth_tui.Rescue.Output.{lines, last_after}
use khealth_tui.Rescue.Monad.{
  plain, needs_reset, out_of_rounds, Res, ok, err, M, ◌>>=◌, ◌>>◌, return, fail, log_lines, note,
}
use khealth_tui.Rescue.Exec.{exec_ok, data_dir_of}
use khealth_tui.Rescue.Wait.{flag, cluster_reset, wait_status, wait_target_alone}

module _ {env : Env} (p : Plan) where
  open env use {now}

  -- fmt.Sprint(time.Now().Unix()).
  since_now : M env Text
  since_now s = (ok (itoa (now s.world / second)), s)

  -- The end of a round of `restoreVerified`: `why` is what verify_restore.sh said.
  restore_judged : Node → ℕ → Text → Text → M env (Unit {0}) → M env (Unit {0})
  restore_judged t attempt since why again =
      if text_eq why (lit "yes")
      then log_lines (
          lit
            "data dir replaced by the restore (old data moved to etcd-old-<time>, member/snap/db rewritten)"
          ∷ [])
      else (let reason = trim_prefix why (lit "no ") in
          if ltb 1 attempt
          then fail (
              plain (
                lit "the cluster-reset did not replace "
                ++ (data_dir_of p t ++ (lit " (second attempt): " ++ reason))))
          else (do
            log_lines (
                (lit "the cluster-reset did not replace the data dir: "
                  ++ (reason ++ lit "; moving it aside and restoring again"))
                ∷ [])
            note (
                lit "the first cluster-reset on "
                ++ (t.name
                    ++ (lit " did not replace the data dir ("
                        ++ (reason
                            ++ lit "); it was moved aside and the restore ran a second time"))))
            exec_ok p t (lit "wipe_again") ((lit "SINCE", since) ∷ []) (5 * minute) (lit "wiped=ok")
            again))

  -- One round of the loop of `restoreVerified`.
  restore_round : Node → ℕ → M env (Unit {0}) → M env (Unit {0})
  unfolding since_now restore_judged
  restore_round t attempt again = do
    since ← since_now
    cluster_reset p t p.snapshot (ltb 1 attempt)
    out ←
        exec_ok p t (lit "verify_restore")
          ((lit "SNAP", p.snapshot) ∷ (lit "SINCE", since) ∷ flag p.s3 (lit "S3")) (2 * minute)
          (lit "verify=ok")
    restore_judged t attempt since (last_after (lit "restored=") [] (lines out)) again

  -- The second round never starts a third one.
  unfoldable pub restore_verified : Node → M env (Unit {0})
  unfolding restore_round
  restore_verified t = restore_round t 1 (restore_round t 2 (fail out_of_rounds))

  -- The error of `m`, if any.
  attempt : M env (Unit {0}) → M env (Res (Unit {0}))
  attempt m s = let (r, t) = m s in (ok r, t)

  second_reset : Node → Text → M env (Unit {0})
  second_reset t reason = do
    log_lines ((lit "second cluster-reset needed: " ++ reason) ∷ [])
    note (
        lit "a second cluster-reset was needed on "
        ++ (t.name
            ++ (lit " ("
                ++ (reason
                    ++ lit
                        "): the restored member did not come up as a one-member cluster, a known rke2 behavior of the combined restore + reset"))))
    exec_ok p t (lit "stop") [] (8 * minute) (lit "stopped=ok")
    cluster_reset p t [] true
    exec_ok p t (lit "perms") ((lit "OWNER", t.facts.owner) ∷ []) (5 * minute) (lit "perms=ok")
    exec_ok p t (lit "start") ((lit "ROLE", lit "target") ∷ []) (2 * minute) (lit "started=ok")
    wait_status p t 1 true false []

  recover : Node → Res (Unit {0}) → M env (Unit {0})
  unfolding second_reset
  recover t (ok _) = return tt
  recover t (err (needs_reset reason)) = second_reset t reason
  recover t (err e) = fail e

  unfoldable pub target_up : Node → M env (Unit {0})
  unfolding attempt recover
  target_up t = do r ← attempt (wait_target_alone p t); recover t r
