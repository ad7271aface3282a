-- ===== src/Ssh/Become.antt =====
-- internal/sshrun/become.go: how a script becomes root on a host.
pub mod Root
use khealth_tui.Base.{
  ℕ, Bool, true, false, not, ◌&&◌, ◌||◌, List, [], ◌∷◌, ◌++◌, Option, none, some, if◌then◌else◌,
  keep,
}
use khealth_tui.Text.{
  Text, lit, text_eq, has_prefix, trim_prefix, trim_space, contains, split, join, to_lower, concat,
}
use khealth_tui.Strutil.{first_line}
use khealth_tui.Ssh.{Runner, drop_dead, Method}
use khealth_tui.Ssh.Env
use khealth_tui.Ssh.Env.{Env, Conf, Opened, Ended, Output}

unfoldable pub become_tools : List Text
become_tools = lit "sudo" ∷ lit "dzdo" ∷ lit "doas" ∷ []

unfoldable pub command : Method → Text × Bool
command m =
    if text_eq m.tool []
    then (lit "/bin/sh -s", false)
    else if m.with_pass
    then (m.tool ++ lit " -S -p '' /bin/sh -s", true)
    else (m.tool ++ lit " -n /bin/sh -s", false)

unfoldable pub method_text : Method → Text
method_text m =
    if text_eq m.tool []
    then lit "root"
    else if m.with_pass
    then m.tool ++ lit " (password)"
    else m.tool ++ lit " (NOPASSWD)"

abbrev pub elem : Text → List Text → Bool
elem t [] = false
elem t (s ∷ ss) = text_eq s t || elem t ss

-- One line of the probe: the names in `have`, and the uid, the first line that is no tool.
unfoldable pub probe_line : Text × List Text → Text → Text × List Text
probe_line (uid, have) raw =
    let l = trim_space raw in
    if has_prefix l (lit "tool=")
    then (uid, trim_prefix l (lit "tool=") ∷ have)
    else if not (text_eq l []) && text_eq uid []
    then (l, have)
    else (uid, have)

unfoldable pub probe_loop : Text × List Text → List Text → Text × List Text
unfolding probe_line
probe_loop acc [] = acc
probe_loop acc (l ∷ ls) = probe_loop (probe_line acc l) ls

unfoldable pub parse_become_probe : Text → Text × List Text
unfolding probe_loop become_tools
parse_become_probe out =
    let (uid, have) = probe_loop ([], []) (split out 10) in
    (uid, keep (λ t. elem t have) become_tools)

unfoldable pub not_permitted : Text → Bool
not_permitted s =
    contains s (lit "not in the sudoers")
    || (contains s (lit "not allowed")
        || (contains s (lit "operation not permitted")
            || (contains s (lit "no authorization") || contains s (lit "not authorized"))))

unfoldable pub no_terminal : Text → Bool
no_terminal s =
    contains s (lit "no tty")
    || (contains s (lit "have a tty")
        || (contains s (lit "terminal is required") || contains s (lit "askpass")))

unfoldable pub classify_become_failure : Text → Text → Bool × Text
unfolding not_permitted no_terminal
classify_become_failure tool stderr =
    let s = to_lower stderr in
    if contains s (lit "password")
    then (true, lit "password required")
    else if not_permitted s
    then (false, lit "not permitted for this user")
    else if no_terminal s
    then (false, lit "needs a terminal (requiretty?)")
    else if not (text_eq (first_line stderr) [])
    then (false, first_line stderr)
    else (false, tool ++ lit " did not return uid 0")

unfoldable pub become_password_of : Conf → Text
become_password_of cfg =
    if not (text_eq cfg.become_password []) then cfg.become_password else cfg.password

unfoldable pub or_none : List Text → Text
or_none [] = lit "none"
or_none (t ∷ ts) = join (t ∷ ts) (lit ", ")

abbrev pub is_nil : List Text → Bool
is_nil [] = true
is_nil (t ∷ ts) = false

-- A method, or the error that names what was tried.
pub data Detected : Type 0 where
  method : Method → Detected
  no_method : Text → Detected

module _ (env : Env) where
  open env use {World, open_session, run_session}

  -- What a call leaves behind: the runner and the world.
  abbrev pub Site : Type 0
  Site = Runner × World

  -- `newSession`: `none` for a session.
  unfoldable pub new_session : Site → Text → ℕ → Option Text × Site
  new_session (r, w) addr c =
      let (o, w1) = open_session w c in
      elim o [
        | Env.opened ↦ (none, (r, w1))
        | Env.refused e ↦ (some (lit "session: " ++ e), (r, w1))
        | Env.late e ↦ (
          some (
              lit "session: "
              ++ (e ++ lit ": the SSH connection stopped answering (host down or rebooting?)")),
          (drop_dead r addr c, w1),
        )
      ]

  -- `wait`, on how the command ended.
  unfoldable pub wait : Site → Text → ℕ → Ended → Option Text × Site
  wait (r, w) addr c (Env.done e) = (e, (r, w))
  wait (r, w) addr c (Env.killed e) = (some e, (r, w))
  wait (r, w) addr c (Env.dead e) = (
    some (e ++ lit ": the SSH connection stopped answering (host down or rebooting?)"),
    (drop_dead r addr c, w),
  )

  pub record Ran : Type 0 where
    pub out : Text
    pub err_out : Text
    pub err : Option Text

  unfoldable pub exec : Site → Text → ℕ → Text → Text → Ran × Site
  unfolding new_session wait
  exec s addr c cmd stdin =
      let (e, s1) = new_session s addr c in
      elim e [
        | some x ↦ (record { out = []; err_out = []; err = some x }, s1)
        | none ↦
            (let (o, w2) = run_session s1.1 c cmd stdin in
              let (x, s3) = wait (s1.0, w2) addr c o.ended in
              (record { out = o.stdout; err_out = o.stderr; err = x }, s3))
      ]

  abbrev pub is_zero : Ran → Bool
  is_zero ran = elim ran.err [ none ↦ text_eq (trim_space ran.out) (lit "0") | some e ↦ false ]

  -- The two commands that ask a tool for the uid.
  abbrev pub ask : Text → Text
  ask tool = tool ++ lit " -n id -u"

  abbrev pub ask_pass : Text → Text
  ask_pass tool = tool ++ lit " -S -p '' id -u"

  -- The reason why a tool that asked for a password is not used, once that was tried.
  abbrev rejected : Text → Text → Text
  rejected tool stderr =
      let reason = (classify_become_failure tool stderr).1 in
      if text_eq reason (lit "password required") then lit "password rejected" else reason

  -- The loop over the candidates, with the reasons so far.
  unfoldable pub try_tools : Site → Text → ℕ → Text → Text → List Text → List Text → Detected × Site
  unfolding exec
  try_tools s addr c uid password reasons [] = (
    no_method
        (concat (lit "cannot become root as uid " ∷ uid ∷ lit ": " ∷ join reasons (lit "; ") ∷ [])),
    s,
  )
  try_tools s addr c uid password reasons (tool ∷ tools) =
      let (ran, s1) = exec s addr c (ask tool) [] in
      let (needs, reason) = classify_become_failure tool ran.err_out in
      let (ran2, s2) = exec s1 addr c (ask_pass tool) (password ++ (10 ∷ [])) in
      let next = λ (t : Site) (why : Text).
        try_tools t addr c uid password (reasons ++ ((tool ++ (lit ": " ++ why)) ∷ [])) tools in
      if is_zero ran
      then (method (record { tool = tool; with_pass = false }), s1)
      else if not needs
      then next s1 reason
      else if text_eq tool (lit "doas")
      then next s1 (lit "password required (doas cannot read one from stdin: grant nopass)")
      else if text_eq password []
      then next s1 (
          lit
            "password required (none configured: use --ask-pass, KHT_BECOME_PASSWORD or ssh.become_password)")
      else if is_zero ran2
      then (method (record { tool = tool; with_pass = true }), s2)
      else next s2 (rejected tool ran2.err_out)

  abbrev pub direct : Method
  direct = record { tool = []; with_pass = false }

  unfoldable pub become_probe : Text
  become_probe =
      lit
        "id -u; for t in sudo dzdo doas; do command -v $t >/dev/null 2>&1 && echo tool=$t; done; exit 0\n"

  -- The rest of `detectBecome`, when the login is not root.
  unfoldable pub from_tools : Conf → Site → Text → ℕ → Text → List Text → Detected × Site
  unfolding try_tools
  from_tools cfg s addr c uid available =
      let auto = text_eq cfg.become (lit "auto") in
      let candidates = if auto then available else cfg.become ∷ [] in
      if not auto && not (elem cfg.become available)
      then (
        no_method (
            concat (
              lit "ssh.become: "
              ∷ cfg.become
              ∷ lit " is not installed on this host (found: "
              ∷ or_none available
              ∷ lit ")"
              ∷ [])),
        s,
      )
      else if is_nil candidates
      then (
        no_method (
            concat (
              lit "uid "
              ∷ uid
              ∷ lit
                  " and none of sudo, dzdo, doas is installed; log in as root or set ssh.sudo: false"
              ∷ [])),
        s,
      )
      else try_tools s addr c uid (become_password_of cfg) [] candidates

  unfoldable pub detect_become : Conf → Site → Text → ℕ → Detected × Site
  unfolding from_tools
  detect_become cfg s addr c =
      let (ran, s1) = exec s addr c (lit "/bin/sh -s") become_probe in
      let (uid, available) = parse_become_probe ran.out in
      if text_eq cfg.become (lit "none") then (method direct, s) else elim ran.err [
        | some e ↦ (no_method (lit "become probe: " ++ e), s1)
        | none ↦
            (if text_eq uid (lit "0")
              then (method direct, s1)
              else from_tools cfg s1 addr c uid available)
      ]
