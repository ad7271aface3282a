-- ===== src/Ssh/Run/Once.antt =====
-- internal/sshrun/runner.go, `Run` and `Stream`: the output and the error of a result belong together.
use khealth_tui.Base.{ℕ, ◌≡◌, ◌≢◌, ◌⊎◌, ◌++◌, Option, true, [], ◌∷◌, none, some}
use khealth_tui.Text.{Text, lit, contains, to_lower, concat}
use khealth_tui.Strutil.{first_line}
use khealth_tui.Ssh.{Method}
use khealth_tui.Ssh.Env
use khealth_tui.Ssh.Env.{Env, Conf, Output, Ended}
use khealth_tui.Ssh.Become.{command, method_text}
use khealth_tui.Ssh.Run.{Result, input}

-- The error that asks for a new probe of the escalation.
abbrev refusal : Method → Text → Text
refusal m printed =
    concat
      (method_text m ∷ lit ": " ∷ first_line printed ∷ lit " (escalation will be re-probed)" ∷ [])

module _ (env : Env) (cfg : Conf) where
  open env use {World, run_session, slot}

  -- What `wait` says of the end of a session, by that end alone.
  abbrev pub told : Ended → Option Text
  told (Env.done e) = e
  told (Env.killed e) = some e
  told (Env.dead e) =
      some (e ++ lit ": the SSH connection stopped answering (host down or rebooting?)")

  -- The error that a session with this output gives: that of its end, or, when a tool has asked for a
  -- password, the first line that the tool printed to its stderr.
  abbrev pub Explains : Method → Output → Option Text → Type 0
  Explains m o e =
      (e ≡ told o.ended)
      ⊎ ((told o.ended ≢ none)
          × (m.tool ≢ [])
          × (contains (to_lower o.stderr) (lit "password") ≡ true)
          × (e ≡ some (refusal m o.stderr)))

  -- Either the script has not run, which is an error, and nothing was printed; or one session has got
  -- it whole, its output stands behind `out`, its end or its stderr gives the error, and without an
  -- error it has ended by itself and well.
  abbrev pub Attempt : Text → Text → Result → Type 0
  Attempt script out res =
      ((res.stdout ≡ out) × (res.stderr ≡ []) × (res.err ≢ none))
      ⊎ ((w : World) × (c : ℕ) × (m : Method) × (res.stdout
            ≡ out ++ (run_session w c (command m).0 (input env cfg m script)).0.stdout)
          × (res.stderr ≡ (run_session w c (command m).0 (input env cfg m script)).0.stderr)
          × Explains m (run_session w c (command m).0 (input env cfg m script)).0 res.err
          × (res.err ≡ none
              → (run_session w c (command m).0 (input env cfg m script)).0.ended ≡ Env.done none))
