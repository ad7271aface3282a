-- ===== src/Rescue/Agents.antt =====
-- internal/rescue/rescue.go: the agents that a rescue stops and starts again.
pub mod Answered
mod Tests
use khealth_tui.Base.{
  ℕ, suc, ◌≡◌, ◌≢◌, refl, sym, ◌∙◌, ap, subst, Bool, true, false, not, List, [], ◌∷◌, ◌++◌, Option,
  none, some, All, Any, In, All-append, All-append_left, All-append_right, All-map_pred, Bool-cases,
  inl, inr, arith, map, keep, append_assoc,
}
use khealth_tui.Text.{Text, text_eq}
use khealth_tui.Text.Laws.{text_eq→eq, text_eq_refl}
use khealth_tui.Rescue.Types
use khealth_tui.Rescue.Types.{Node, Plan, Step, State, done, failed, skipped}
use khealth_tui.Rescue.Env.{Env}
use khealth_tui.Rescue.Monad.{Res, ok, err, St}
use khealth_tui.Rescue.Perform.{perform, without}
use khealth_tui.Rescue.Perform.Keeps.{after_action, perform-after, is_agent}
use khealth_tui.Rescue.Run.{
  Shared, run, run_loop, run_step, stops, has_err, agent_nodes, enter, close_step, skip_step,
}
use khealth_tui.Rescue.Outcome.{skip_all, step_end, loop_go}
use khealth_tui.Rescue.Build.{build, agent_stop_of, agent_start_of}
use khealth_tui.Rescue.Agents.Answered.{Owes, perform-Owes, Restarts, build-Restarts}
use khealth_tui.Rescue.Build.Quiet.{NoAgent, Parts, build-Parts}

-- The record after all steps have succeeded.
abbrev replay : List Step → List Text → List Text
replay [] off = off
replay (s ∷ steps) off = replay steps (after_action s.action off)

replay-append :
    (xs ys : List Step) (off : List Text) → replay (xs ++ ys) off ≡ replay ys (replay xs off)
replay-append [] ys off = refl
replay-append (x ∷ xs) ys off = replay-append xs ys (after_action x.action off)

after_action-other :
    (a : Types.Action) (off : List Text) → is_agent a ≡ false → after_action a off ≡ off
after_action-other (Types.agent_stop n) off h = absurd (ground (arith, h))
after_action-other (Types.agent_start n) off h = absurd (ground (arith, h))
after_action-other (Types.run_script n script vars timeout marker) off h = refl
after_action-other (Types.run_noted n script vars timeout marker text) off h = refl
after_action-other (Types.wait_status n want api promote ip) off h = refl
after_action-other (Types.restore_verified t) off h = refl
after_action-other (Types.target_up t) off h = refl
after_action-other (Types.unpark_api n want) off h = refl
after_action-other (Types.restart_cni t) off h = refl
after_action-other (Types.register t o k) off h = refl
after_action-other (Types.patch_manifest o k) off h = refl

replay-NoAgent : (steps : List Step) (off : List Text) → NoAgent steps → replay steps off ≡ off
replay-NoAgent [] off h = refl
replay-NoAgent (s ∷ steps) off (h, hs) =
    ap (replay steps) (after_action-other s.action off h) ∙ replay-NoAgent steps off hs

-- The record holds names of the nodes only.
abbrev Within : List Node → List Text → Type 0
Within ns off = All (λ t. Any (λ (n : Node). n.name ≡ t) ns) off

without-All :
    (P : Text → Type 0) (name : Text) (off : List Text) → All P off → All P (without name off)
without-All P name [] h = tt
without-All P name (t ∷ off) (h, hs) = elim (Bool-cases (text_eq t name)) [
  | inl e ↦ rw e (without-All P name off hs)
  | inr e ↦ rw e (h, without-All P name off hs)
]

stops-Within :
    (p : Plan) (all ns : List Node) (off : List Text)
    → All (λ n. Any (λ (m : Node). m.name ≡ n.name) all) ns
    → Within all off
    → Within all (replay (map (agent_stop_of p) ns) off)
stops-Within p all [] off h w = w
stops-Within p all (n ∷ ns) off (h, hs) w =
    stops-Within p all ns (n.name ∷ without n.name off) hs (h, without-All _ n.name off w)

names-All : (ns : List Node) → All (λ n. Any (λ (m : Node). m.name ≡ n.name) ns) ns
names-All [] = tt
names-All (n ∷ ns) = (inl refl, All-map_pred ns (λ m h. inr h) (names-All ns))

-- Starting an agent takes its name out.
without-Within :
    (n : Node) (ns : List Node) (off : List Text)
    → Within (n ∷ ns) off
    → Within ns (without n.name off)
without-Within n ns [] h = tt
without-Within n ns (t ∷ off) (inl h, hs) = elim (Bool-cases (text_eq t n.name)) [
  | inl e ↦ rw e (without-Within n ns off hs)
  | inr e ↦ absurd (ground (arith, e, ap (text_eq t) h, text_eq_refl t))
]
without-Within n ns (t ∷ off) (inr h, hs) = elim (Bool-cases (text_eq t n.name)) [
  | inl e ↦ rw e (without-Within n ns off hs)
  | inr e ↦ rw e (h, without-Within n ns off hs)
]

starts-nil :
    (ns : List Node) (off : List Text) → Within ns off → replay (map agent_start_of ns) off ≡ []
starts-nil [] [] h = refl
starts-nil [] (t ∷ off) (h, hs) = absurd h
starts-nil (n ∷ ns) off h = starts-nil ns (without n.name off) (without-Within n ns off h)

replay-build : (env : Env) (p : Plan) → replay (build env p) [] ≡ []
replay-build env p = go (build-Parts env p)
  where
    go : Parts env p → replay (build env p) [] ≡ []
    go (inl e) = ap (λ l. replay l []) e
    go (inr (mid, end, e, m, z)) =
        let ns = agent_nodes p in
        let stops = map (agent_stop_of p) ns in
        let starts = map agent_start_of ns in
        let off = replay stops [] in
        ap (λ l. replay l []) e
        ∙ replay-append stops (mid ++ (starts ++ end)) []
        ∙ replay-append mid (starts ++ end) off
        ∙ ap (replay (starts ++ end)) (replay-NoAgent mid off m)
        ∙ replay-append starts end off
        ∙ ap (replay end) (starts-nil ns off (stops-Within p ns ns [] (names-All ns) tt))
        ∙ replay-NoAgent end [] z

-- One step that is done has changed the record as its closure does when it succeeds, and its closure
-- has had its answer.
step-off :
    {env : Env} (p : Plan) (before after : List Step) (i : ℕ) (s : Step) (h : Shared env)
    → (run_step p before after i s h).0.state ≡ done
    → ((run_step p before after i s h).1.agent_off ≡ after_action s.action h.agent_off)
      × Owes env p s.action
unfolding run_step
step-off {env} p before after i s h = go (perform p s.action st).0 refl
  where
    s1 : Step
    s1 = record s { state = Types.running; started = some (env.now h.world) }

    h1 : Shared env
    h1 = record h {
      world =
          env.emit h.world (record {
            steps = before ++ s1 ∷ after;
            current = some i;
            is_done = false;
            err = none;
          });
    }

    st : St env
    st = enter h1 s1

    go :
        (r : Res (Unit {0}))
        → (perform p s.action st).0 ≡ r
        → (run_step p before after i s h).0.state ≡ done
        → ((run_step p before after i s h).1.agent_off ≡ after_action s.action h.agent_off)
          × Owes env p s.action
    go (ok _) e k = (perform-after p s.action st e, perform-Owes p s.action st e)
    go (err x) e k = absurd (ground (arith, e, k))

-- The loop, when all steps are done in the end.
AllDone : List Step → Type 0
AllDone = All (λ s. s.state ≡ done)

loop-off :
    {env : Env} (p : Plan) (before : List Step) (i : ℕ) (steps : List Step) (h : Shared env)
    → AllDone (run_loop p before i none steps h).0
    → ((run_loop p before i none steps h).1.agent_off ≡ replay steps h.agent_off)
      × All (λ s. Owes env p s.action) steps
unfolding AllDone
loop-off p before i [] h d = (unfold run_loop in refl, tt)
loop-off {env} p before i (s ∷ after) h d = elim (Bool-cases (stops none h)) [
  | inl st ↦
      (let skip = skip_all p before i none (s ∷ after) h st in
        let behind =
          All-append_right (λ x. x.state ≡ done) before _ (subst (λ r. AllDone r.0) skip d) in
        absurd (ground (arith, behind.0)))
  | inr st ↦
      (let r = run_step p before after i s h in
        let go = loop_go p before i s after h st in
        let d2 = subst (λ x. AllDone x.0) go d in
        elim (step_end p before after i s h) [
          | inl (hd, he) ↦
              (let d3 =
                  subst (λ e. AllDone (run_loop p (before ++ r.0 ∷ []) (suc i) e after r.1).0) he
                    d2 in
                let rest = loop-off p (before ++ r.0 ∷ []) (suc i) after r.1 d3 in
                let own = step-off p before after i s h hd in
                (
                  ap (λ x. x.1.agent_off) go
                      ∙ ap (λ e. (run_loop p (before ++ r.0 ∷ []) (suc i) e after r.1).1.agent_off)
                          he
                      ∙ rest.0
                      ∙ ap (replay after) own.0,
                  (own.1, rest.1),
                ))
          | inr (hf, he) ↦
              (let skip =
                  skip_all p (before ++ r.0 ∷ []) (suc i) r.2 after r.1 (ground (arith, he)) in
                let d3 = subst (λ x. AllDone x.0) skip d2 in
                let failed_one =
                  All-append_right (λ x. x.state ≡ done) before (r.0 ∷ [])
                    (All-append_left (λ x. x.state ≡ done) (before ++ r.0 ∷ []) _ d3) in
                absurd (ground (arith, failed_one.0, hf)))
        ])
]

-- A rescue that began with no agent stopped and has all its steps done leaves no rancher-system-agent on
-- record as stopped: behind each step that stops an agent stands a step that starts the agent of that
-- node, and on the node's host the agent script answered agent=ok to ACTION=stop and to ACTION=start.
pub agents_back :
    (env : Env) (p : Plan) (h : Shared env)
    → h.agent_off ≡ []
    → All (λ s. s.state ≡ done) (run p (build env p) h).steps
    → ((run p (build env p) h).shared.agent_off ≡ []) × Restarts env p (build env p)
unfolding run AllDone
agents_back env p h e d =
    let r = loop-off p [] 0 (build env p) h d in
    (r.0 ∙ ap (replay (build env p)) e ∙ replay-build env p, build-Restarts env p r.1)
