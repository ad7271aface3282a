-- ===== src/Rescue/Build/Quiet.antt =====
-- internal/rescue/rescue.go, `build`: which steps stop or start rancher-system-agent.
use khealth_tui.Base.{
  ap, ◌∙◌, ◌⊎◌, inl, inr, append_assoc, append-nil, Bool-cases, ℕ, suc, ◌+◌, ◌≡◌, refl, Bool, true,
  false, not, ◌&&◌, List, [], ◌∷◌, ◌++◌, All, All-append, length, map, if◌then◌else◌,
}
use khealth_tui.Text.{text_eq, lit}
use khealth_tui.Rescue.Types.{Node, Plan, Step}
use khealth_tui.Rescue.Env.{Env}
use khealth_tui.Rescue.Perform.Keeps.{is_agent}
use khealth_tui.Rescue.Run.{is_rancher, agent_nodes}
use khealth_tui.Rescue.Build.{
  rejoin_steps, join_steps, learner_steps, cleanup_of, start_of, rejoin_all, build_rke2,
  build_kubeadm, perms_of, restore_part, snapshot_part, verify_of, entry_part, stop_of, backup_of,
  stale_addr, build, build_restore, build_rejoin, after_backup, agent_stop_of, agent_start_of,
}

-- No step of the list stops or starts an agent.
abbrev pub NoAgent : List Step → Type 0
NoAgent = All (λ s. is_agent s.action ≡ false)

either-NoAgent :
    (b : Bool) (xs ys : List Step) → NoAgent xs → NoAgent ys → NoAgent (if b then xs else ys)
either-NoAgent true xs ys h k = h
either-NoAgent false xs ys h k = k

map-NoAgent :
    (g : Node → Step) (ns : List Node)
    → ((n : Node) → is_agent (g n).action ≡ false)
    → NoAgent (map g ns)
map-NoAgent g [] h = tt
map-NoAgent g (n ∷ ns) h = (h n, map-NoAgent g ns h)

module _ (env : Env) where
  rejoin_steps-NoAgent :
      (p : Plan) (t o : Node) (want total : ℕ) → NoAgent (rejoin_steps env p t o want total)
  unfolding rejoin_steps join_steps learner_steps cleanup_of start_of
  rejoin_steps-NoAgent p t o want total =
      All-append _ _ _
        (either-NoAgent (is_rancher p.kind) _ _ (refl, (refl, (refl, tt)))
          (refl, (refl, (refl, (refl, (refl, tt))))))
        (refl, tt)

  rejoin_all-NoAgent :
      (p : Plan) (i total : ℕ) (os : List Node) → NoAgent (rejoin_all env p i total os)
  unfolding rejoin_all
  rejoin_all-NoAgent p i total [] = tt
  rejoin_all-NoAgent p i total (o ∷ os) =
      All-append _ _ _ (rejoin_steps-NoAgent p p.target o (i + 2) total)
        (rejoin_all-NoAgent p (suc i) total os)

  restore_part-NoAgent : (p : Plan) → NoAgent (restore_part env p)
  unfolding restore_part build_rke2 build_kubeadm perms_of start_of
  restore_part-NoAgent p =
      let rejoined = rejoin_all-NoAgent p 0 (1 + length p.others) p.others in
      either-NoAgent (is_rancher p.kind) _ _ (refl, (refl, (refl, (refl, (refl, rejoined)))))
        (refl, (refl, (refl, (refl, (refl, All-append _ _ _ rejoined (refl, tt))))))

  entry_part-NoAgent : (p : Plan) (o : Node) → NoAgent (entry_part env p o)
  unfolding entry_part
  entry_part-NoAgent p o = (
    refl,
    either-NoAgent
        (not (text_eq (stale_addr env o) []) && text_eq o.facts.node_ip (stale_addr env o)) _ _
        (refl, tt) tt,
  )

  snapshot_part-NoAgent : (p : Plan) → NoAgent (snapshot_part env p)
  unfolding snapshot_part
  snapshot_part-NoAgent p = either-NoAgent p.take_snapshot _ _ (refl, tt) tt

  -- The steps are the stops of the agents, steps without agents, the starts of the agents, and more steps
  -- without agents; a rejoin plan without a follower has no steps.
  abbrev pub Parts : Plan → Type 0
  Parts p =
      (build env p ≡ [])
      ⊎ ((mid : List Step) × (end : List Step) × (build env p
            ≡ map (agent_stop_of p) (agent_nodes p)
              ++ (mid ++ (map agent_start_of (agent_nodes p) ++ end)))
          × NoAgent mid
          × NoAgent end)

  restore-Parts : (p : Plan) → p.rejoin ≡ false → Parts p
  unfolding build build_restore after_backup verify_of cleanup_of
  restore-Parts p h =
      let cleanup =
        if is_rancher p.kind
        then cleanup_of (lit "Remove the server: override") p.target ∷ []
        else [] in
      let verified = verify_of p.target (1 + length p.others) ∷ cleanup in
      let moved = map backup_of (p.target ∷ p.others) in
      let stops = map (stop_of p) p.others in
      inr (
        stops ++ (stop_of p p.target ∷ (moved ++ (restore_part env p ++ verified))),
        snapshot_part env p,
        rw h (simp append_assoc),
        All-append _ stops _ (map-NoAgent (stop_of p) p.others (λ n. refl)) (
          refl,
          All-append _ moved _ (map-NoAgent backup_of (p.target ∷ p.others) (λ n. refl)) (
              All-append _ (restore_part env p) _ (restore_part-NoAgent p)
                (refl, either-NoAgent (is_rancher p.kind) _ _ (refl, tt) tt)),
        ),
        snapshot_part-NoAgent p,
      )

  abbrev chosen : Plan → Bool → List Node → List Step
  chosen p b ns =
      if b
      then elim ns as (λ _. List Step) [ [] ↦ [] | o ∷ os ↦ build_rejoin env p o ]
      else build_restore env p

  build-chosen :
      (p : Plan) (others : List Node)
      → p.others ≡ others
      → p.rejoin ≡ true
      → build env p ≡ chosen p true others
  unfolding build
  build-chosen p others e h = ap (λ b. chosen p b p.others) h ∙ ap (chosen p true) e

  rejoin-Parts : (p : Plan) (others : List Node) → p.others ≡ others → p.rejoin ≡ true → Parts p
  unfolding build_rejoin verify_of
  rejoin-Parts p [] e h = inl (build-chosen p [] e h)
  rejoin-Parts p (o ∷ os) e h =
      let entry = if is_rancher p.kind then entry_part env p o else [] in
      let rejoined = rejoin_steps env p p.target o p.member_count p.member_count in
      inr (
        stop_of p o
            ∷ backup_of o
            ∷ (entry ++ (rejoined ++ (verify_of p.target p.member_count ∷ []))),
        [],
        build-chosen p (o ∷ os) e h ∙ simp (append_assoc, append-nil),
        (
          refl,
          (
            refl,
            All-append _ entry _
                (either-NoAgent (is_rancher p.kind) _ _ (entry_part-NoAgent p o) tt)
                (All-append _ rejoined _
                  (rejoin_steps-NoAgent p p.target o p.member_count p.member_count) (refl, tt)),
          ),
        ),
        tt,
      )

  pub build-Parts : (p : Plan) → Parts p
  build-Parts p = elim (Bool-cases p.rejoin) [
    | inl h ↦ rejoin-Parts p p.others refl h
    | inr h ↦ restore-Parts p h
  ]
