-- ===== src/Rescue/Exec.antt =====
-- internal/rescue/rescue.go: `render` (the values it substitutes), `exec` and `poll`.
pub mod Poll
pub mod Ends
pub mod Keeps
use khealth_tui.Base.{
  ℕ, zero, suc, ◌+◌, ◌*◌, ◌/◌, ◌%◌, Bool, false, not, List, [], ◌∷◌, ◌++◌, Option, none, some, ltb,
  leb, if◌then◌else◌, keep, map,
}
use khealth_tui.Text.{Text, lit, text_eq, itoa, remove_byte, trim_space}
use khealth_tui.Strutil.{first_line}
use khealth_tui.Rescue.Types.{Kind, rke2, k3s, kubeadm, Node, Plan, second}
use khealth_tui.Rescue.Env.{Env, Request, Result}
use khealth_tui.Rescue.Output.{
  chomp, lines, first_after, has_marker, last_interesting, live_lines, clean,
}
use khealth_tui.Rescue.Monad.{
  Error, plain, out_of_rounds, ok, err, M, ◌>>=◌, ◌>>◌, return, fail, log_lines, set_live,
}

abbrev pub kind_text : Kind → Text
kind_text rke2 = lit "rke2"
kind_text k3s = lit "k3s"
kind_text kubeadm = lit "kubeadm"

-- `dataDir`.
unfoldable pub data_dir_of : Plan → Node → Text
data_dir_of p n = if text_eq n.data_dir [] then by_kind p.kind else n.data_dir
  where
    by_kind : Kind → Text
    by_kind kubeadm = lit "/var/lib/etcd"
    by_kind _ = p.dd ++ lit "/server/db/etcd"

abbrev pub Vars : Type 0
Vars = List (Text × Text)

-- The map `all` of `render`: the values given stand before the defaults, so they are found first.
unfoldable pub render_vars : Plan → Node → Vars → Vars
unfolding data_dir_of clean
render_vars p n vars =
    map (λ (kv : Text × Text). (kv.0, clean kv.1))
      (vars
        ++ ((lit "KIND", kind_text p.kind)
            ∷ (lit "DD", p.dd)
            ∷ (lit "DATADIR", data_dir_of p n)
            ∷ (lit "STAMP", p.stamp)
            ∷ (lit "RESCUE", n.facts.rescue)
            ∷ (lit "IP", n.ip)
            ∷ (lit "ROLE", lit "other")
            ∷ (lit "SNAP", [])
            ∷ (lit "S3", lit "0")
            ∷ (lit "API", lit "0")
            ∷ (lit "PROMOTE", lit "0")
            ∷ (lit "JOIN", [])
            ∷ (lit "OWNER", [])
            ∷ (lit "NAME", [])
            ∷ (lit "PEER", [])
            ∷ (lit "IMAGE", [])
            ∷ (lit "INITIAL_CLUSTER", [])
            ∷ (lit "LOG", [])
            ∷ (lit "EXIT", [])
            ∷ (lit "DIR", [])
            ∷ (lit "FORCE", lit "0")
            ∷ (lit "SINCE", lit "0")
            ∷ (lit "NODE", [])
            ∷ (lit "OLD", [])
            ∷ (lit "NEW", [])
            ∷ (lit "ACTION", [])
            ∷ []))

unfoldable pub request : Plan → Node → Text → Vars → ℕ → Request
unfolding render_vars
request p n script vars timeout = record {
  host = n.host;
  script = script;
  vars = render_vars p n vars;
  timeout = timeout;
}

-- The lines that `exec` adds to the log of the step.
unfoldable pub logged : Node → Text → List Text
unfolding lines chomp
logged n out =
    map (λ (l : Text). n.name ++ (lit ": " ++ l))
      (keep (λ (l : Text). not (text_eq (trim_space l) [])) (lines (chomp out)))

-- The error that `exec` returns, if any, from what came back.
ssh_error : Node → Text → Text → Text
ssh_error n e stderr =
    lit "ssh "
    ++ (n.host
        ++ (lit ": "
            ++ (first_line e
                ++ (if text_eq (trim_space stderr) []
                    then []
                    else lit ": " ++ first_line (trim_space stderr)))))

no_marker : Text → Text → Text
no_marker marker e =
    lit "script did not report " ++ (marker ++ (if text_eq e [] then [] else lit ": " ++ e))

unfoldable pub verdict : Node → Text → Text → Result → Option Error
unfolding ssh_error no_marker
verdict n marker out res = elim (first_after (lit "ERROR: ") (lines out)) [
  | some e ↦ some (plain e)
  | none ↦
      (if has_marker out marker then none else elim res.err [
        | some e ↦ some (plain (ssh_error n e res.stderr))
        | none ↦ some (plain (no_marker marker (last_interesting (out ++ 10 ∷ res.stderr))))
      ])
]

-- Duration.String of the duration rounded to a second.
unfoldable pub duration_text : ℕ → Text
duration_text d =
    let t = (d + 500000000) / second in
    let s = itoa (t % 60) ++ lit "s" in
    let m = itoa (t / 60 % 60) ++ (lit "m" ++ s) in
    if ltb t 60 then s else if ltb t 3600 then m else itoa (t / 3600) ++ (lit "h" ++ m)

timed_out : ℕ → Text → Text
timed_out timeout last =
    lit "timed out after "
    ++ (duration_text timeout ++ (lit "; last state: " ++ last_interesting last))

-- `res.Err != nil && strings.TrimSpace(out) == ""`.
abbrev pub silent : Result → Bool
silent res = elim res.err [
  | none ↦ false
  | some e ↦ text_eq (trim_space (remove_byte 13 res.stdout)) []
]

abbrev pub why_silent : Result → Text
why_silent res = elim res.err [ none ↦ [] | some e ↦ e ]

-- Each round of `poll` that goes on has paused for `PollInterval`.
unfoldable pub rounds : Plan → ℕ → ℕ
rounds p timeout = timeout / p.poll_interval + 3

module _ {env : Env} where
  open env use {ctx_err}

  abbrev wake : {C : Type 0} → M env C → M env C
  wake next s = elim (ctx_err s.world) [ some e ↦ (err (plain e), s) | none ↦ next s ]

module _ {env : Env} (p : Plan) where
  open env use {World, run, now, pause, ctx_err}

  call : Request → M env Result
  call r s = let (res, w) = run s.world r in (ok res, record s { world = w })

  -- `exec`: the output, and the error.
  unfoldable pub exec : Node → Text → Vars → ℕ → Text → M env (Text × Option Error)
  unfolding call
  exec n script vars timeout marker = do
    res ← call (request p n script vars timeout)
    let out = remove_byte 13 res.stdout
    log_lines (logged n out)
    return (out, verdict n marker out res)

  abbrev or_fail : Text → Option Error → M env Text
  or_fail out none = return out
  or_fail out (some e) = fail e

  -- `out, err := p.exec(...); if err != nil { return err }`.
  unfoldable pub exec_ok : Node → Text → Vars → ℕ → Text → M env Text
  unfolding exec
  exec_ok n script vars timeout marker = do r ← exec n script vars timeout marker; or_fail r.0 r.1

  -- What follows a round that was not the last: the context, the deadline, then the select between
  -- `PollInterval` and the context.
  after_round : {C : Type 0} → ℕ → ℕ → Text → M env C → M env C
  unfolding timed_out
  after_round deadline timeout last next s = elim (ctx_err s.world) [
    | some e ↦ (err (plain e), s)
    | none ↦
        (if ltb deadline (now s.world)
          then (err (plain (timed_out timeout last)), s)
          else wake next (record s { world = pause s.world p.poll_interval }))
  ]

  -- A round whose script printed nothing because the call failed.
  silent_round : {C : Type 0} → Node → ℕ → ℕ → (ℕ → Text → M env C) → ℕ → Text → Text → M env C
  unfolding after_round
  silent_round n deadline timeout go failures last why =
      if leb 5 (failures + 1)
      then fail (plain (lit "ssh " ++ (n.host ++ (lit " keeps failing: " ++ why))))
      else after_round deadline timeout last (go (failures + 1) last)

  -- What `check` said of the output.
  checked_round : {C : Type 0} → ℕ → ℕ → (ℕ → Text → M env C) → Text → Option C → M env C
  unfolding after_round
  checked_round deadline timeout go out (some c) = return c
  checked_round deadline timeout go out none = after_round deadline timeout out (go 0 out)

  -- What a round makes of the result. `go` is the rest of the loop, from its two variables.
  round :
      {C : Type 0}
      → Node
      → ℕ
      → ℕ
      → (Text → M env (Option C))
      → (ℕ → Text → M env C)
      → ℕ
      → Text
      → Result
      → M env C
  unfolding silent_round checked_round
  round n deadline timeout check go failures last res =
      let out = remove_byte 13 res.stdout in
      if silent res
      then (do
        set_live ((n.name ++ (lit ": ssh: " ++ first_line (why_silent res))) ∷ [])
        silent_round n deadline timeout go failures last (why_silent res))
      else (do
        set_live (live_lines out)
        found ← check out
        checked_round deadline timeout go out found)

  -- The loop of `poll`. `check` returns what its closure captured when it says done.
  unfoldable pub poll_loop :
      {C : Type 0} → ℕ → Node → Request → ℕ → ℕ → (Text → M env (Option C)) → ℕ → Text → M env C
  unfolding round call
  poll_loop zero n r deadline timeout check failures last = fail out_of_rounds
  poll_loop (suc f) n r deadline timeout check failures last = do
    res ← call r
    round n deadline timeout check (poll_loop f n r deadline timeout check) failures last res

  unfoldable pub poll : {C : Type 0} → Node → Text → Vars → ℕ → (Text → M env (Option C)) → M env C
  unfolding poll_loop rounds
  poll n script vars timeout check s =
      poll_loop (rounds p timeout) n (request p n script vars (90 * second)) (now s.world + timeout)
        timeout check 0 [] s
