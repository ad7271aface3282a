-- ===== src/Ssh/Run.antt =====
-- internal/sshrun/runner.go: running a script on a host, as one caller sees it.
pub mod Once
pub mod Dials
use khealth_tui.Base.{
  ℕ, ◌+◌, Bool, true, false, not, ◌&&◌, ◌||◌, List, [], ◌∷◌, ◌++◌, Option, none, some,
  if◌then◌else◌, keep, length, ◌==◌,
}
use khealth_tui.Text.{Text, lit, text_eq, has_prefix, contains, join, to_lower, concat, cut}
use khealth_tui.Text.Assoc.{get, put, del}
use khealth_tui.Strutil.{first_line}
use khealth_tui.Ssh.{Runner, Method, Found, look, start_dial, dialed, dial_failed, drop_host}
use khealth_tui.Ssh
use khealth_tui.Ssh.Env.{Env, Conf, Output}
use khealth_tui.Ssh.Become.{
  Detected, method, no_method, Site, new_session, wait, detect_become, command, method_text,
  become_password_of,
}

-- `Prologue`.
unfoldable pub prologue : Text
prologue =
    lit "command -v renice >/dev/null 2>&1 && renice -n 19 -p $$ >/dev/null 2>&1\n"
    ++ lit "command -v ionice >/dev/null 2>&1 && ionice -c 2 -n 7 -p $$ >/dev/null 2>&1\n"

unfoldable pub is_conn_err : Text → Bool
is_conn_err s =
    contains s (lit "EOF")
    || (contains s (lit "broken pipe")
        || (contains s (lit "connection reset") || contains s (lit "use of closed")))

abbrev is_cred : Text → Bool
is_cred n =
    has_prefix n (lit "key ")
    || (text_eq n (lit "ssh-agent") || text_eq n (lit "password fallback"))

unfoldable pub explain_dial : Conf → Text → Text
explain_dial cfg err =
    let bastion = has_prefix err (lit "bastion:") in
    let jump = elim (cut cfg.bastion 64) as (λ _. Text) [ none ↦ cfg.user | some (u, h) ↦ u ] in
    let tried = join (keep is_cred cfg.notes) (lit ", ") in
    if not (contains err (lit "unable to authenticate"))
    then err
    else concat (
        (if bastion then lit "bastion: " else [])
        ∷ lit "ssh: authentication refused for user "
        ∷ (if bastion then jump else cfg.user)
        ∷ lit " (offered: "
        ∷ (if text_eq tried [] then lit "no key, no agent, no password" else tried)
        ∷ lit
            "): set --ssh-user / --ssh-key (or ssh.user / ssh.key in the config, --ask-pass for a password); khealth user@host remembers them per cluster"
        ∷ [])

-- `Result`, without the fingerprint of the host's key.
pub record Result : Type 0 where
  pub stdout : Text
  pub stderr : Text
  pub err : Option Text
  pub started : ℕ
  pub finished : ℕ
  pub script_size : ℕ

module _ (env : Env) (cfg : Conf) where
  open env use {World, now, dial, run_session, slot, has_port, join_host_port}

  unfoldable pub addr_of : Text → Text
  addr_of host = if has_port host then host else join_host_port host cfg.port

  -- `client`, when nobody else calls it: the connection, or the error.
  unfoldable pub client : Site env → Text → Option ℕ × Text × Site env
  client (r, w) addr = elim (look r addr (now w)) [
    | Ssh.cached c ↦ (some c, [], (r, w))
    | Ssh.refused e ↦ (none, e, (r, w))
    | Ssh.absent ↦
        (let r1 = start_dial r in
          let (answer, w1) = dial w addr cfg.user in
          elim answer [
            | none ↦ (some r1.dials, [], (dialed r1 addr r1.dials, w1))
            | some e ↦ (none, e, (dial_failed r1 addr e (now w1), w1))
          ])
  ]

  -- How to become root on the host, found out once and kept with the connection.
  unfoldable pub method_for : Site env → Text → ℕ → Detected × Site env
  method_for (r, w) addr c = elim (get addr r.become) [
    | some m ↦ (method m, (r, w))
    | none ↦
        (let (d, s1) = detect_become env cfg (r, w) addr c in
          elim d [
            | no_method e ↦ (no_method e, s1)
            | method m ↦ (method m, (record s1.0 { become = put addr m s1.0.become }, s1.1))
          ])
  ]

  abbrev forgot : Runner → Text → Runner
  forgot r addr = record r { become = del addr r.become }

  -- The standard input of a method's command, and the result of what it printed.
  abbrev pub input : Method → Text → Text
  input m script = if (command m).1 then become_password_of cfg ++ (10 ∷ script) else script

  abbrev pub ran : Text → Text → Output → ℕ → ℕ → Option Text → Result
  ran script out o start end e = record {
    stdout = out ++ o.stdout;
    stderr = o.stderr;
    err = e;
    started = start;
    finished = end;
    script_size = length script;
  }

  -- The script's run with a method, on a session; its output goes behind `out`.
  unfoldable pub run_with : Site env → Text → ℕ → Method → Text → Text → Result × Site env
  unfolding command
  run_with (r, w) addr c m script out =
      let (o, w1) = run_session w c (command m).0 (input m script) in
      let (e, s2) = wait env (r, w1) addr c o.ended in
      let end = now s2.1 in
      elim e [
        | none ↦ (ran script out o (now w) end none, s2)
        | some x ↦
            (if not (text_eq m.tool []) && contains (to_lower o.stderr) (lit "password")
              then (
                ran script out o (now w) end (
                    some (
                      concat (
                        method_text m
                        ∷ lit ": "
                        ∷ first_line o.stderr
                        ∷ lit " (escalation will be re-probed)"
                        ∷ []))),
                (forgot s2.0 addr, s2.1),
              )
              else (ran script out o (now w) end (some x), s2))
      ]

  -- A return before the script has run.
  abbrev pub early : ℕ → Site env → Text → Text → Text → Result × Site env
  early start s script out e = (
    record {
      stdout = out;
      stderr = [];
      err = some e;
      started = start;
      finished = now s.1;
      script_size = length script;
    },
    s,
  )

  -- `runOnce`; `out` is what `stdout` already holds.
  unfoldable pub run_once : Site env → Text → Text → Text → Result × Site env
  unfolding client method_for run_with explain_dial
  run_once s host script out =
      let start = now s.1 in
      let addr = addr_of host in
      let (conn, e, s1) = client s addr in
      elim conn [
        | none ↦ early start s1 script out (explain_dial cfg e)
        | some c ↦
            (let (refusal, s2) = new_session env s1 addr c in
              elim refusal [
                | some x ↦ early start s2 script out x
                | none ↦
                    (let (d, s3) = method_for s2 addr c in
                      elim d [
                        | no_method x ↦ early start s3 script out x
                        | method m ↦ run_with s3 addr c m script out
                      ])
              ])
      ]

  abbrev pub conn_failed : Result → Bool
  conn_failed res = elim res.err [ none ↦ false | some e ↦ is_conn_err e ]

  abbrev pub dropped : Site env → Text → Site env
  dropped s host = (drop_host s.0 (addr_of host), s.1)

  abbrev pub with_prologue : Text → Text
  with_prologue script = if cfg.nice then prologue ++ script else script

  abbrev pub no_slot : Text → Result
  no_slot e = record {
    stdout = [];
    stderr = [];
    err = some e;
    started = 0;
    finished = 0;
    script_size = 0;
  }

  -- `Run`: one more attempt on a new connection after a connection error, with the output reset.
  unfoldable pub run : Site env → Text → Text → Result × Site env
  unfolding run_once is_conn_err
  run (r, w) host script =
      let (full, w1) = slot w in
      let text = with_prologue script in
      let (res, s2) = run_once (r, w1) host text [] in
      let again = run_once (dropped s2 host) host text [] in
      elim full [
        | some e ↦ (no_slot e, (r, w1))
        | none ↦ (if conn_failed res then again else (res, s2))
      ]

  -- `Stream`: `stdout` is what its writer has got, so that there is no second attempt once it got something.
  unfoldable pub stream : Site env → Text → Text → Result × Site env
  unfolding run_once is_conn_err
  stream (r, w) host script =
      let (full, w1) = slot w in
      let text = with_prologue script in
      let (res, s2) = run_once (r, w1) host text [] in
      let again = run_once (dropped s2 host) host text res.stdout in
      elim full [
        | some e ↦ (no_slot e, (r, w1))
        | none ↦ (if conn_failed res && (length res.stdout == 0) then again else (res, s2))
      ]
