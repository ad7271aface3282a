-- ===== src/Rescue/Preflight.antt =====
-- internal/rescue/rescue.go, `Preflight`: the checks on every node before a rescue is built.
pub mod Passed
pub mod Kept
pub mod Measured
mod Tests
use khealth_tui.Base.{
  ℕ, zero, suc, ◌+◌, ◌*◌, ◌/◌, ◌%◌, Bool, true, false, not, ◌&&◌, ◌||◌, List, [], ◌∷◌, ◌++◌, Option,
  none, some, ltb, leb, ◌==◌, if◌then◌else◌, map, keep, get_elem?,
}
use khealth_tui.Text.{Text, lit, text_eq, concat, itoa, trim_space}
use khealth_tui.Strutil.{first_line}
use khealth_tui.Rescue.Types.{Kind, Node, Facts, Plan, Step, minute}
use khealth_tui.Rescue.Env.{Env, Request, Result}
use khealth_tui.Rescue.Status.{Status, parse_status}
use khealth_tui.Rescue.Exec.{Vars, request, data_dir_of}
use khealth_tui.Rescue.Wait.{svc}
use khealth_tui.Rescue.Facts.{parse_facts, no_facts}
use khealth_tui.Rescue.Build.{build}
use khealth_tui.Rescue.Assess.{assess, address_warnings, rancher_warnings}

-- fmt's %q of an ASCII text.
abbrev hex_digit : ℕ → ℕ
hex_digit d = if ltb d 10 then d + 48 else d + 87

abbrev quote_byte : ℕ → Text
quote_byte c =
    if (c == 34) || (c == 92)
    then 92 ∷ c ∷ []
    else if leb 32 c && ltb c 127
    then c ∷ []
    else if (leb 7 c && leb c 13)
    then 92 ∷ escape_letter c ∷ []
    else lit "\\x" ++ (hex_digit (c / 16) ∷ hex_digit (c % 16) ∷ [])
  where
    escape_letter : ℕ → ℕ
    escape_letter c =
        if c == 7
        then b'a'
        else if c == 8
        then b'b'
        else if c == 9
        then b't'
        else if c == 10
        then b'n'
        else if c == 11
        then b'v'
        else if c == 12
        then b'f'
        else b'r'

abbrev quote_bytes : Text → Text
quote_bytes [] = []
quote_bytes (c ∷ s) = quote_byte c ++ quote_bytes s

unfoldable pub quoted : Text → Text
quoted s = 34 ∷ (quote_bytes s ++ (34 ∷ []))

-- How `Preflight` returns: nil, an error, or the run-time panic of an index out of range.
pub data Verdict : Type 0 where
  ready : Verdict
  refused : Text → Verdict
  panics : Verdict

-- The facts that an answer of the runner gives.
unfoldable pub facts_of : Result → Facts
unfolding parse_facts
facts_of res =
    let f = parse_facts res.stdout in
    let why = elim res.err as (λ _. Text) [
      | none ↦ lit "preflight did not complete"
      | some e ↦
          (let s = trim_space res.stderr in
            first_line e ++ (if text_eq s [] then [] else lit ": " ++ first_line s))
    ] in
    if f.ok then f else if text_eq f.err [] then record f { err = why } else f

unfoldable pub preflight_vars : Plan → Text → Vars
preflight_vars p role =
    (lit "ROLE", role)
    ∷ (if text_eq role (lit "target")
        then (lit "SNAP", p.snapshot) ∷ (if p.s3 then (lit "S3", lit "1") ∷ [] else [])
        else [])

-- Writing the facts of one answer: the target's (the source's index -1), or those of a follower.
abbrev pub with_facts : Node → Facts → Node
with_facts n f = record n { facts = f }

unfoldable pub place_at : ℕ → Facts → List Node → List Node
place_at i f [] = []
place_at zero f (n ∷ ns) = with_facts n f ∷ ns
place_at (suc i) f (n ∷ ns) = n ∷ place_at i f ns

unfoldable pub place : Option ℕ → Facts → Plan → Plan
unfolding place_at
place none f p = record p { target = with_facts p.target f }
place (some i) f p = record p { others = place_at i f p.others }

abbrev pub node_of : Plan → Option ℕ → Option Node
node_of p none = some p.target
node_of p (some i) = get_elem? p.others i

abbrev role_of : Plan → Option ℕ → Text
role_of p none = if p.rejoin then lit "other" else lit "target"
role_of p (some i) = lit "other"

-- A follower that failed its preflight.
unfoldable pub left_out_warning : Plan → Node → Text
left_out_warning p n = concat (
    n.name
    ∷ lit " failed its preflight and is left out: "
    ∷ n.facts.err
    ∷ lit ". It is NOT stopped and NOT rejoined; if its "
    ∷ svc p
    ∷ lit " is running it keeps an orphaned etcd until you stop it, move "
    ∷ data_dir_of p n
    ∷ lit " aside and start it again"
    ∷ [])

abbrev pub is_ok : Node → Bool
is_ok n = n.facts.ok

unfoldable pub left_out_warnings : Plan → List Node → List Text
unfolding left_out_warning
left_out_warnings p [] = []
left_out_warnings p (n ∷ ns) =
    if is_ok n then left_out_warnings p ns else left_out_warning p n ∷ left_out_warnings p ns

-- The plan without the followers that failed.
unfoldable pub keep_others : Plan → Plan
keep_others p = record p {
  others = keep is_ok p.others;
  left_out = keep (λ (n : Node). not (is_ok n)) p.others;
}

abbrev failed_text : Node → Text
failed_text n = n.name ++ (lit ": " ++ n.facts.err)

module _ (env : Env) where
  open env use {World, run, parse_ctl}

  unfoldable pub preflight_node : World → Plan → Node → Text → Facts × World
  unfolding facts_of preflight_vars request
  preflight_node w p n role =
      let (res, w1) = run w (request p n (lit "preflight") (preflight_vars p role) (2 * minute)) in
      if text_eq n.host []
      then (record no_facts { err = lit "no SSH address" }, w)
      else (facts_of res, w1)

  -- The answers in the order in which they arrive.
  unfoldable pub gather : List (Option ℕ) → World → Plan → Plan × World
  unfolding preflight_node place
  gather [] w p = (p, w)
  gather (i ∷ is) w p = elim (node_of p i) [
    | none ↦ gather is w p
    | some n ↦ (let (f, w1) = preflight_node w p n (role_of p i) in gather is w1 (place i f p))
  ]

  -- What the status of the anchor must show before a server rejoins through it.
  unfoldable pub serves : Status → Bool
  serves st = not ((st.members == 0) || (text_eq st.leader [] || (st.healthy == 0)))

  abbrev pub anchor_status : World → Plan → Status × World
  anchor_status w p =
      let (res, w1) = run w (request p p.target (lit "status") [] (2 * minute)) in
      (parse_status parse_ctl p.target.name res.stdout, w1)

  no_quorum : Plan → Status → Text
  no_quorum p st = concat (
      p.target.name
      ∷ lit " does not serve a working cluster (members "
      ∷ itoa st.members
      ∷ lit ", healthy "
      ∷ itoa st.healthy
      ∷ lit ", leader "
      ∷ quoted st.leader
      ∷ lit "): the surviving members have no quorum - restore a snapshot instead"
      ∷ [])

  sees : Plan → Status → Node → Text
  sees p st o = concat (
      p.target.name
      ∷ lit " sees "
      ∷ itoa st.members
      ∷ lit " members, "
      ∷ itoa st.healthy
      ∷ lit " healthy, leader "
      ∷ st.leader
      ∷ lit "; "
      ∷ o.name
      ∷ lit " rejoins through it and keeps that data (nothing is restored)"
      ∷ [])

  -- What `Preflight` leaves behind.
  pub record Checked : Type 0 where
    pub verdict : Verdict
    pub plan : Plan
    pub warnings : List Text
    pub steps : List Step
    pub world : World

  -- An early return: no steps are built.
  abbrev pub stop : Verdict → Plan → List Text → World → Checked
  stop v p ws w = record { verdict = v; plan = p; warnings = ws; steps = []; world = w }

  -- The checks of a rejoin, by the followers of the plan.
  unfoldable pub check_joiner : Plan → World → List Node → Checked
  unfolding serves no_quorum sees
  check_joiner p w [] = stop panics p [] w
  check_joiner p w (o ∷ []) =
      let (st, w1) = anchor_status w p in
      let p1 = record p { member_count = st.members } in
      if not o.facts.ok
      then stop (refused (failed_text o)) p [] w
      else if not (serves st)
      then stop (refused (no_quorum p st)) p [] w1
      else record {
        verdict = ready;
        plan = p1;
        warnings = sees p st o ∷ (address_warnings env p1 ++ rancher_warnings p1);
        steps = build env p1;
        world = w1;
      }
  check_joiner p w (o ∷ x ∷ os) = stop (refused (failed_text o)) p [] w

  unfoldable pub check_rejoin : Plan → World → Checked
  unfolding check_joiner
  check_rejoin p w = check_joiner p w p.others

  unfoldable pub check_restore : Plan → World → Checked
  unfolding keep_others left_out_warnings
  check_restore p w =
      let p1 = keep_others p in
      let ws = left_out_warnings p p.others in
      if not p1.s3 && (not (text_eq p1.snapshot []) && (p1.target.facts.snapshot_size == 0))
      then stop
          (refused (
            concat (
              p1.target.name
              ∷ lit ": no snapshot at "
              ∷ p1.snapshot
              ∷ lit " (stat found nothing) - check the path, or pick one from the list"
              ∷ [])))
          p1 ws w
      else record {
        verdict = ready;
        plan = p1;
        warnings = ws ++ assess env p1;
        steps = build env p1;
        world = w;
      }

  -- `order` is the order in which the answers of the nodes arrive.
  unfoldable pub preflight : List (Option ℕ) → World → Plan → Checked
  unfolding gather check_rejoin check_restore
  preflight order w p =
      let (p1, w1) = gather order w p in
      if text_eq p.target.host []
      then stop (refused (lit "no SSH address for " ++ p.target.name)) p [] w
      else if text_eq p.target.ip []
      then stop
          (refused (
            lit "no address known for "
            ++ (p.target.name ++ lit " (needed for the peer / join URL)")))
          p [] w
      else if not p1.target.facts.ok
      then stop (refused (failed_text p1.target)) p1 [] w1
      else if p1.rejoin
      then check_rejoin p1 w1
      else check_restore p1 w1
