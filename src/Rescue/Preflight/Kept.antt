-- ===== src/Rescue/Preflight/Kept.antt =====
-- internal/rescue/rescue.go, `Preflight`: what a verdict rests on, and the cluster that must serve.
use khealth_tui.Base.{
  ℕ, ◌≡◌, ◌≢◌, refl, ◌∷◌, Bool, true, false, not, List, [], Option, none, some, arith, Option-cases,
  inl, inr, get_elem?, if◌then◌else◌,
}
use khealth_tui.Text.{Text, lit, text_eq}
use khealth_tui.Text.Laws.{text_eq_iff}
use khealth_tui.Rescue.Types.{Node, Plan}
use khealth_tui.Rescue.Env.{Env}
use khealth_tui.Rescue.Preflight.{
  ready, Checked, preflight, gather, preflight_node, place, role_of, check_rejoin, check_joiner,
  check_restore, serves, anchor_status,
}

-- Each of the fields that say what is restored.
abbrev pub goal : Plan → Bool × Bool × Text
goal p = (p.rejoin, p.s3, p.snapshot)

module _ (env : Env) where
  gather-goal :
      (order : List (Option ℕ)) (w : env.World) (p : Plan) → goal (gather env order w p).0 ≡ goal p
  unfolding gather place
  gather-goal [] w p = refl
  gather-goal (none ∷ is) w p =
      let (f, w1) = preflight_node env w p p.target (role_of p none) in
      gather-goal is w1 (place none f p)
  gather-goal (some i ∷ is) w p = elim (Option-cases (get_elem? p.others i)) [
    | inl z ↦ rw (gather, z) (gather-goal is w p)
    | inr (n, e) ↦
        let (f, w1) = preflight_node env w p n (lit "other") in
        rw (gather, e) (gather-goal is w1 (place (some i) f p))
  ]

  -- A property of each result that lets the rescue start.
  unfoldable pub Starts : (Checked env → Type 0) → Checked env → Type 0
  Starts P c = c.verdict ≡ ready → P c

  pub either-Starts :
      (P : Checked env → Type 0) (b : Bool) (c d : Checked env)
      → (b ≡ true → Starts P c)
      → (b ≡ false → Starts P d)
      → Starts P (if b then c else d)
  either-Starts P true c d f g = f refl
  either-Starts P false c d f g = g refl

  -- The verdict decides by the gathered facts.
  pub preflight-Starts :
      (P : Checked env → Type 0) (order : List (Option ℕ)) (w : env.World) (p : Plan)
      → ((q : Plan) (v : env.World)
          → goal q ≡ goal p
          → q.rejoin ≡ true
          → Starts P (check_joiner env q v q.others))
      → ((q : Plan) (v : env.World)
          → goal q ≡ goal p
          → q ≡ (gather env order w p).0
          → q.rejoin ≡ false
          → Starts P (check_restore env q v))
      → Starts P (preflight env order w p)
  unfolding preflight check_rejoin Starts
  preflight-Starts P order w p join restore =
      let (p1, w1) = gather env order w p in
      let g = gather-goal order w p in
      either-Starts P (text_eq p.target.host []) _ _ (λ _ k. cc)
        (λ _.
          either-Starts P (text_eq p.target.ip []) _ _ (λ _ k. cc)
            (λ _.
              either-Starts P (not p1.target.facts.ok) _ _ (λ _ k. cc)
                (λ _.
                  either-Starts P p1.rejoin _ _ (λ r. join p1 w1 g r)
                    (λ r. restore p1 w1 g refl r))))

-- The anchor has answered the status script, with members of which some are healthy, and a leader.
pub Serves : Env → Plan → Type 0
Serves env p =
    (q : Plan) × (w : env.World) × ((anchor_status env w q).0.members ≢ 0)
    × ((anchor_status env w q).0.leader ≢ [])
    × ((anchor_status env w q).0.healthy ≢ 0)
    × (q.target.host ≡ p.target.host)

-- A rejoin may start only when the status script, run on the anchor, has shown members of which some
-- are healthy, and a leader.
pub preflight-Serves :
    (env : Env) (order : List (Option ℕ)) (w : env.World) (p : Plan)
    → p.rejoin ≡ true
    → (preflight env order w p).verdict ≡ ready
    → Serves env (preflight env order w p).plan
unfolding check_joiner serves Starts Serves
preflight-Serves env order w p r =
    preflight-Starts env (λ c. Serves env c.plan) order w p (λ q v g k. joined q v q.others)
      (λ q v g _ k h. absurd (ground (arith, g, k, r)))
  where
    joined :
        (q : Plan) (v : env.World) (ns : List Node)
        → (check_joiner env q v ns).verdict ≡ ready
        → Serves env (check_joiner env q v ns).plan
    joined q v [] = λ h. cc
    joined q v (o ∷ x ∷ os) = λ h. cc
    joined q v (o ∷ []) =
        let st = (anchor_status env v q).0 in
        let p1 = record q { member_count = st.members } in
        either-Starts env (λ c. Serves env c.plan) (not o.facts.ok) _ _ (λ _ h. cc)
          (λ _.
            either-Starts env (λ c. Serves env c.plan) (not (serves env st)) _ _ (λ _ h. cc)
              (λ b h. (
                q,
                v,
                (λ e. absurd (ground (arith, b, e))),
                (λ e. absurd (ground (arith, b, e, text_eq_iff st.leader []))),
                (λ e. absurd (ground (arith, b, e))),
                refl,
              )))
