-- ===== src/Rescue/Preflight/Measured.antt =====
-- internal/rescue/rescue.go, `Preflight`: the snapshot that must exist.
use khealth_tui.Base.{
  ℕ, ◌≡◌, ◌≢◌, refl, sym, ◌∙◌, ap, subst, ◌*◌, Any, In, Bool-cases, ◌∷◌, ◌&&◌, ◌==◌, Bool, false,
  not, List, [], Option, none, some, arith, Option-cases, inl, inr, get_elem?,
}
use khealth_tui.Text.{Text, lit, text_eq, split}
use khealth_tui.Text.Laws.{text_eq_iff}
use khealth_tui.Rescue.Types.{Plan, minute}
use khealth_tui.Rescue.Env.{Env, Request, Result}
use khealth_tui.Rescue.Output.{clean}
use khealth_tui.Rescue.Exec.{request}
use khealth_tui.Rescue.Facts.{parse_facts}
use khealth_tui.Rescue.Facts.Sized.{SaysSize, parse_facts-size}
use khealth_tui.Rescue.Preflight.{
  ready, Checked, preflight, gather, preflight_node, place, role_of, check_restore, keep_others,
  preflight_vars, facts_of,
}
use khealth_tui.Rescue.Preflight.Kept.{goal, Starts, either-Starts, preflight-Starts}

-- The runner has answered the preflight script on the host, asked about the snapshot, with a line that
-- says this size.
abbrev pub Found : Env → Text → Text → ℕ → Type 0
Found env host snapshot size =
    (w : env.World) × (r : Request) × (r.host ≡ host)
    × (r.script ≡ lit "preflight")
    × In (lit "SNAP", clean snapshot) r.vars
    × Any (SaysSize size) (split (env.run w r).0.stdout 10)

facts_of-size :
    (res : Result) → (facts_of res).snapshot_size ≡ (parse_facts res.stdout).snapshot_size
unfolding facts_of
facts_of-size res = ground arith

module _ (env : Env) where
  -- The size that the target's facts hold was found, on the way to `p`.
  abbrev Measured : Plan → Plan → Type 0
  Measured p q =
      (q.target.host ≡ p.target.host)
      × (q.target.facts.snapshot_size ≢ 0
          → Found env p.target.host p.snapshot q.target.facts.snapshot_size)

  node_measured :
      (w : env.World) (q : Plan)
      → q.s3 ≡ false
      → (preflight_node env w q q.target (lit "target")).0.snapshot_size ≢ 0
      → Found env q.target.host q.snapshot
          (preflight_node env w q q.target (lit "target")).0.snapshot_size
  unfolding preflight_node request preflight_vars khealth_tui.Rescue.Exec.render_vars lit
  node_measured w q s h = elim (Bool-cases (text_eq q.target.host [])) [
    | inl e ↦ absurd (h (rw e refl))
    | inr e ↦
        (let r =
            request q q.target (lit "preflight") (preflight_vars q (lit "target")) (2 * minute) in
          let res = (env.run w r).0 in
          let same : (preflight_node env w q q.target (lit "target")).0.snapshot_size
              ≡ (parse_facts res.stdout).snapshot_size =
            rw e (facts_of-size res) in
          (
            w,
            r,
            refl,
            refl,
            inr (inl refl),
            subst (λ n. Any (SaysSize n) (split res.stdout 10)) (sym same)
                (parse_facts-size res.stdout (λ z. h (same ∙ z))),
          ))
  ]

  gather-Measured :
      (order : List (Option ℕ)) (w : env.World) (p q : Plan)
      → p.rejoin ≡ false
      → p.s3 ≡ false
      → goal q ≡ goal p
      → Measured p q
      → Measured p (gather env order w q).0
  unfolding gather place
  gather-Measured [] w p q r s g m = m
  gather-Measured (none ∷ is) w p q r s g m =
      let (f, w1) = preflight_node env w q q.target (role_of q none) in
      gather-Measured is w1 p (place none f q) r s g (m.0, found)
    where
      found :
          (preflight_node env w q q.target (role_of q none)).0.snapshot_size ≢ 0
          → Found env p.target.host p.snapshot
              (preflight_node env w q q.target (role_of q none)).0.snapshot_size
      found h =
          let role : role_of q none ≡ lit "target" = ground (arith, g, r) in
          let snap : q.snapshot ≡ p.snapshot = ap (λ (x : Bool × Bool × Text). x.2) g in
          let s3 : q.s3 ≡ false = ap (λ (x : Bool × Bool × Text). x.1) g ∙ s in
          subst
            (λ k.
              Found env p.target.host p.snapshot
                (preflight_node env w q q.target k).0.snapshot_size)
            (sym role)
            (subst
              (λ k.
                Found env k p.snapshot
                  (preflight_node env w q q.target (lit "target")).0.snapshot_size)
              m.0
              (subst
                (λ k.
                  Found env q.target.host k
                    (preflight_node env w q q.target (lit "target")).0.snapshot_size)
                snap
                (node_measured w q s3
                  (subst (λ k. (preflight_node env w q q.target k).0.snapshot_size ≢ 0) role h))))
  gather-Measured (some i ∷ is) w p q r s g m = elim (Option-cases (get_elem? q.others i)) [
    | inl z ↦ rw (gather, z) (gather-Measured is w p q r s g m)
    | inr (n, e) ↦
        let (f, w1) = preflight_node env w q n (lit "other") in
        rw (gather, e) (gather-Measured is w1 p (place (some i) f q) r s g m)
  ]

-- A restore of a local snapshot, of a plan whose target has no size of it yet, may start only when the
-- target's host has answered the preflight script, asked about that snapshot, with a line that says the
-- size of the file, which is the size that the plan holds and is not 0.
pub preflight_snapshot :
    (env : Env) (order : List (Option ℕ)) (w : env.World) (p : Plan)
    → p.rejoin ≡ false
    → p.s3 ≡ false
    → p.snapshot ≢ []
    → p.target.facts.snapshot_size ≡ 0
    → (preflight env order w p).verdict ≡ ready
    → ((preflight env order w p).plan.target.facts.snapshot_size ≢ 0)
      × Found env p.target.host p.snapshot (preflight env order w p).plan.target.facts.snapshot_size
unfolding check_restore keep_others Starts
preflight_snapshot env order w p r s n z =
    preflight-Starts env Sized order w p (λ q v g k h. absurd (ground (arith, g, k, r)))
      (λ q v g at k.
        let t = keep_others q in
        either-Starts env Sized
          (not t.s3 && (not (text_eq t.snapshot []) && (t.target.facts.snapshot_size == 0))) _ _
          (λ c h. absurd (ground (arith, h)))
          (λ c h.
            let there : q.target.facts.snapshot_size ≢ 0 =
              λ e. absurd (ground (arith, c, e, g, s, n, text_eq_iff q.snapshot [])) in
            let m = gather-Measured env order w p p r s refl (refl, λ e. absurd (e z)) in
            (there, (subst (Measured env p) (sym at) m).1 there)))
  where
    Sized : Checked env → Type 0
    Sized c =
        (c.plan.target.facts.snapshot_size ≢ 0)
        × Found env p.target.host p.snapshot c.plan.target.facts.snapshot_size
