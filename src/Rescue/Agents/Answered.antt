-- ===== src/Rescue/Agents/Answered.antt =====
-- internal/rescue/rescue.go: the calls of the agent script, and where they stand in the plan.
use khealth_tui.Base.{
  ◌*◌, ◌≡◌, refl, sym, ◌∙◌, ap, subst, Bool, true, false, List, [], ◌∷◌, ◌++◌, none, All, Any,
  Any-append_left, Any-append_right, All-append_left, All-append_right, Option-cases, inl, inr,
  arith, map,
}
use khealth_tui.Text.{Text, lit, remove_byte}
use khealth_tui.Rescue.Types
use khealth_tui.Rescue.Types.{Node, Plan, Action, Step, minute}
use khealth_tui.Rescue.Env.{Env, Result}
use khealth_tui.Rescue.Output.{has_marker}
use khealth_tui.Rescue.Monad.{Res, ok, err, St, M, bind_res}
use khealth_tui.Rescue.Exec.{exec_ok, verdict, request}
use khealth_tui.Rescue.Perform.{perform, agent}
use khealth_tui.Rescue.Perform.Keeps.{is_agent}
use khealth_tui.Rescue.Build.{build, agent_stop_of, agent_start_of}
use khealth_tui.Rescue.Run.{agent_nodes}
use khealth_tui.Rescue.Build.Quiet.{NoAgent, build-Parts}

-- The runner has answered `agent=ok` to the agent script on the node's host with this ACTION.
abbrev pub Answered : Env → Plan → Node → Text → Type 0
Answered env p n action =
    (w : env.World) × (has_marker
        (remove_byte 13
          (env.run w
            (request p n (lit "agent") ((lit "ACTION", action) ∷ []) (2 * minute))).0.stdout)
        (lit "agent=ok")
      ≡ true)

-- What the answers of the agent script owe to a step that is done.
abbrev pub Owes : Env → Plan → Action → Type 0
Owes env p (Types.agent_stop n) = Answered env p n (lit "stop")
Owes env p (Types.agent_start n) = Answered env p n (lit "start")
Owes env p _ = Unit

verdict-marker :
    (n : Node) (marker out : Text) (res : Result)
    → verdict n marker out res ≡ none
    → has_marker out marker ≡ true
unfolding verdict
verdict-marker n marker out res h = ground (arith, h)

module _ {env : Env} (p : Plan) where
  agent-Answered :
      (n : Node) (action out : Text) (s : St env)
      → (agent p n action s).0 ≡ ok out
      → Answered env p n action
  unfolding agent exec_ok khealth_tui.Rescue.Exec.exec
  agent-Answered n action out s h =
      let res =
        (env.run s.world
          (request p n (lit "agent") ((lit "ACTION", action) ∷ []) (2 * minute))).0 in
      let o = remove_byte 13 res.stdout in
      elim (Option-cases (verdict n (lit "agent=ok") o res)) [
        | inl e ↦ (s.world, verdict-marker n (lit "agent=ok") o res e)
        | inr (x, e) ↦ absurd (ground (arith, h, e))
      ]

  bound-Answered :
      (n : Node) (action : Text) (f : Text → M env (Unit {0})) (s : St env)
      → (bind_res (agent p n action s).0 (agent p n action s).1 f).0 ≡ ok tt
      → Answered env p n action
  bound-Answered n action f s h = go (agent p n action s).0 refl h
    where
      go :
          (r : Res Text)
          → (agent p n action s).0 ≡ r
          → (bind_res r (agent p n action s).1 f).0 ≡ ok tt
          → Answered env p n action
      go (ok o) e k = agent-Answered n action o s e
      go (err x) e k = absurd (ground (arith, k))

  -- A closure that succeeds has had its answer.
  pub perform-Owes : (a : Action) (s : St env) → (perform p a s).0 ≡ ok tt → Owes env p a
  unfolding perform
  perform-Owes (Types.agent_stop n) s h = bound-Answered n (lit "stop") _ s h
  perform-Owes (Types.agent_start n) s h = bound-Answered n (lit "start") _ s h
  perform-Owes (Types.run_script n script vars timeout marker) s h = tt
  perform-Owes (Types.run_noted n script vars timeout marker text) s h = tt
  perform-Owes (Types.wait_status n want api promote ip) s h = tt
  perform-Owes (Types.restore_verified t) s h = tt
  perform-Owes (Types.target_up t) s h = tt
  perform-Owes (Types.unpark_api n want) s h = tt
  perform-Owes (Types.restart_cni t) s h = tt
  perform-Owes (Types.register t o k) s h = tt
  perform-Owes (Types.patch_manifest o k) s h = tt

-- Behind each step that stops an agent stands one that starts it on that node, and the script has
-- answered both.
abbrev pub Restarts : Env → Plan → List Step → Type 0
Restarts env p [] = Unit
Restarts env p (s ∷ steps) =
    ((n : Node)
      → s.action ≡ Types.agent_stop n
      → Answered env p n (lit "stop")
        × Any (λ (u : Step). (u.action ≡ Types.agent_start n) × Answered env p n (lit "start"))
            steps)
    × Restarts env p steps

-- The step stops an agent.
abbrev is_stop : Action → Bool
is_stop (Types.agent_stop n) = true
is_stop _ = false

is_stop-agent : (a : Action) → is_agent a ≡ false → is_stop a ≡ false
is_stop-agent (Types.agent_stop n) h = h
is_stop-agent (Types.agent_start n) h = refl
is_stop-agent (Types.run_script n script vars timeout marker) h = refl
is_stop-agent (Types.run_noted n script vars timeout marker text) h = refl
is_stop-agent (Types.wait_status n want api promote ip) h = refl
is_stop-agent (Types.restore_verified t) h = refl
is_stop-agent (Types.target_up t) h = refl
is_stop-agent (Types.unpark_api n want) h = refl
is_stop-agent (Types.restart_cni t) h = refl
is_stop-agent (Types.register t o k) h = refl
is_stop-agent (Types.patch_manifest o k) h = refl

true-false : false ≡ true → ⊥
true-false h = ground (arith, h)

module _ (env : Env) (p : Plan) where
  quiet-Restarts :
      (steps rest : List Step)
      → NoAgent steps
      → Restarts env p rest
      → Restarts env p (steps ++ rest)
  quiet-Restarts [] rest h r = r
  quiet-Restarts (s ∷ steps) rest (h, hs) r = (
    (λ n e. absurd (true-false (sym (is_stop-agent s.action h) ∙ ap is_stop e))),
    quiet-Restarts steps rest hs r,
  )

  starts-Restarts :
      (ns : List Node) (rest : List Step)
      → Restarts env p rest
      → Restarts env p (map agent_start_of ns ++ rest)
  starts-Restarts [] rest r = r
  starts-Restarts (n ∷ ns) rest r =
      ((λ m e. absurd (true-false (ap is_stop e))), starts-Restarts ns rest r)

  -- A start of the node stands in the rest, and was answered.
  abbrev StartIn : List Step → Node → Type 0
  StartIn rest n =
      Any (λ (u : Step). (u.action ≡ Types.agent_start n) × Answered env p n (lit "start")) rest

  stop-same : (n m : Node) → Types.agent_stop n ≡ Types.agent_stop m → n ≡ m
  stop-same n m e = ap (λ (a : Action). node_of n a) e
    where
      node_of : Node → Action → Node
      node_of d (Types.agent_stop k) = k
      node_of d _ = d

  stops-Restarts :
      (ns : List Node) (rest : List Step)
      → All (λ s. Owes env p s.action) (map (agent_stop_of p) ns)
      → All (StartIn rest) ns
      → Restarts env p rest
      → Restarts env p (map (agent_stop_of p) ns ++ rest)
  stops-Restarts [] rest o h r = r
  stops-Restarts (n ∷ ns) rest (o, os) (h, hs) r = (
    (λ m e.
        let same = stop-same n m e in
        (
          subst (λ k. Answered env p k (lit "stop")) same o,
          Any-append_right _ (map (agent_stop_of p) ns) rest (subst (StartIn rest) same h),
        )),
    stops-Restarts ns rest os hs r,
  )

  starts-StartIn :
      (ns : List Node)
      → All (λ s. Owes env p s.action) (map agent_start_of ns)
      → All (StartIn (map agent_start_of ns)) ns
  starts-StartIn [] o = tt
  starts-StartIn (n ∷ ns) (o, os) = (inl (refl, o), more ns (starts-StartIn ns os))
    where
      more :
          (ms : List Node)
          → All (StartIn (map agent_start_of ns)) ms
          → All (StartIn (map agent_start_of (n ∷ ns))) ms
      more [] h = tt
      more (m ∷ ms) (h, hs) = (inr h, more ms hs)

  within :
      (mid starts end : List Step) (ns : List Node)
      → All (StartIn starts) ns
      → All (StartIn (mid ++ (starts ++ end))) ns
  within mid starts end [] h = tt
  within mid starts end (n ∷ ns) (h, hs) = (
    Any-append_right _ mid (starts ++ end) (Any-append_left _ starts end h),
    within mid starts end ns hs,
  )

  -- The plan, when each of its steps has had the answers that it needs.
  pub build-Restarts : All (λ s. Owes env p s.action) (build env p) → Restarts env p (build env p)
  build-Restarts o = elim (build-Parts env p) [
    | inl e ↦ subst (Restarts env p) (sym e) tt
    | inr (mid, end, e, m, z) ↦
        (let ns = agent_nodes p in
          let stops = map (agent_stop_of p) ns in
          let starts = map agent_start_of ns in
          let all = subst (All (λ s. Owes env p s.action)) e o in
          let behind =
            All-append_right (λ s. Owes env p s.action) stops (mid ++ (starts ++ end)) all in
          let owed =
            All-append_left (λ s. Owes env p s.action) starts end
              (All-append_right (λ s. Owes env p s.action) mid (starts ++ end) behind) in
          subst (Restarts env p) (sym e) (
            stops-Restarts ns (mid ++ (starts ++ end))
              (All-append_left (λ s. Owes env p s.action) stops (mid ++ (starts ++ end)) all)
              (within mid starts end ns (starts-StartIn ns owed))
              (quiet-Restarts mid (starts ++ end) m (
                starts-Restarts ns end
                  (subst (Restarts env p) (append-nil_of end) (quiet-Restarts end [] z tt))))))
  ]
    where
      append-nil_of : (l : List Step) → l ++ [] ≡ l
      append-nil_of [] = refl
      append-nil_of (x ∷ l) = ap (λ r. x ∷ r) (append-nil_of l)
