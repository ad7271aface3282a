-- ===== src/Rescue/Preflight/Passed.antt =====
-- internal/rescue/rescue.go, `Preflight`: what a rescue that may start rests on.
use khealth_tui.Base.{
  ℕ, zero, suc, ◌*◌, ◌≡◌, refl, sym, subst, ◌&&◌, ◌==◌, Bool, true, false, not, List, [], ◌∷◌,
  Option, none, some, arith, Bool-cases, Option-cases, inl, inr, All, Any, get_elem?, keep,
  if◌then◌else◌,
}
use khealth_tui.Text.{Text, lit, text_eq, split}
use khealth_tui.Rescue.Types.{Node, Facts, Plan, minute}
use khealth_tui.Rescue.Exec.{request}
use khealth_tui.Rescue.Env.{Env, Request, Result}
use khealth_tui.Rescue.Facts.{parse_facts}
use khealth_tui.Rescue.Facts.Told.{SaysOk, parse_facts-ok}
use khealth_tui.Rescue.Preflight.{
  ready, Checked, preflight, gather, preflight_node, preflight_vars, facts_of, place, place_at,
  with_facts, role_of, check_rejoin, check_joiner, check_restore, serves, anchor_status,
  keep_others, is_ok,
}

-- The runner has answered the preflight script on the node's host, and a line said `preflight=ok`.
abbrev pub Passed : Env → Node → Type 0
Passed env n =
    (w : env.World) × (r : Request) × (r.host ≡ n.host)
    × (r.script ≡ lit "preflight")
    × Any SaysOk (split (env.run w r).0.stdout 10)

facts_of-ok : (res : Result) → (facts_of res).ok ≡ true → (parse_facts res.stdout).ok ≡ true
unfolding facts_of
facts_of-ok res h = ground arith

module _ (env : Env) where
  abbrev IsSound : Node → Type 0
  IsSound n = n.facts.ok ≡ true → Passed env n

  node-IsSound :
      (w : env.World) (p : Plan) (n : Node) (role : Text)
      → IsSound (with_facts n (preflight_node env w p n role).0)
  unfolding preflight_node
  node-IsSound w p n role h = elim (Bool-cases (text_eq n.host [])) [
    | inl e ↦ absurd (ground (arith, h, e))
    | inr e ↦
        let r = request p n (lit "preflight") (preflight_vars p role) (2 * minute) in
        let res = (env.run w r).0 in
        (w, r, refl, refl, parse_facts-ok res.stdout (facts_of-ok res (ground (arith, h, e))))
  ]

  place_at-IsSound :
      (i : ℕ) (f : Facts) (ns : List Node) (n : Node)
      → get_elem? ns i ≡ some n
      → IsSound (with_facts n f)
      → All IsSound ns
      → All IsSound (place_at i f ns)
  unfolding place_at
  place_at-IsSound i f [] n e s h = tt
  place_at-IsSound zero f (m ∷ ns) n e s (h, hs) =
      let same : n ≡ m = ground (arith, e) in (subst (λ x. IsSound (with_facts x f)) same s, hs)
  place_at-IsSound (suc i) f (m ∷ ns) n e s (h, hs) = (h, place_at-IsSound i f ns n e s hs)

  abbrev Sound : Plan → Type 0
  Sound p = IsSound p.target × All IsSound p.others

  gather-Sound :
      (order : List (Option ℕ)) (w : env.World) (p : Plan)
      → Sound p
      → Sound (gather env order w p).0
  unfolding gather place
  gather-Sound [] w p s = s
  gather-Sound (none ∷ is) w p (s, ss) =
      let (f, w1) = preflight_node env w p p.target (role_of p none) in
      gather-Sound is w1 (place none f p) (node-IsSound w p p.target (role_of p none), ss)
  gather-Sound (some i ∷ is) w p (s, ss) = elim (Option-cases (get_elem? p.others i)) [
    | inl z ↦ rw (gather, z) (gather-Sound is w p (s, ss))
    | inr (n, e) ↦
        let (f, w1) = preflight_node env w p n (lit "other") in
        rw (gather, e)
          (gather-Sound is w1 (place (some i) f p)
            (s, place_at-IsSound i f p.others n e (node-IsSound w p n (lit "other")) ss))
  ]

  keep_sound : (ns : List Node) → All IsSound ns → All (Passed env) (keep is_ok ns)
  keep_sound [] h = tt
  keep_sound (n ∷ ns) (h, hs) = elim (Bool-cases n.facts.ok) [
    | inl e ↦ rw e (h e, keep_sound ns hs)
    | inr e ↦ rw e (keep_sound ns hs)
  ]

-- A plan before its preflight: no node counts as checked.
abbrev pub IsFresh : Plan → Type 0
IsFresh p = (p.target.facts.ok ≡ false) × All (λ n. n.facts.ok ≡ false) p.others

module _ (env : Env) where
  -- A result that lets the rescue start has only nodes that passed.
  abbrev StartsPassed : Checked env → Type 0
  StartsPassed c = c.verdict ≡ ready → All (Passed env) (c.plan.target ∷ c.plan.others)

  either-StartsPassed :
      (b : Bool) (c d : Checked env)
      → (b ≡ true → StartsPassed c)
      → (b ≡ false → StartsPassed d)
      → StartsPassed (if b then c else d)
  either-StartsPassed true c d f g = f refl
  either-StartsPassed false c d f g = g refl

  joiner-StartsPassed :
      (p : Plan) (w : env.World) (ns : List Node)
      → p.others ≡ ns
      → Sound env p
      → p.target.facts.ok ≡ true
      → StartsPassed (check_joiner env p w ns)
  unfolding check_joiner
  joiner-StartsPassed p w [] e s t = λ h. cc
  joiner-StartsPassed p w (o ∷ x ∷ os) e s t = λ h. cc
  joiner-StartsPassed p w (o ∷ []) e (st, so) t =
      let all : o.facts.ok ≡ true → All (Passed env) p.others =
        λ b. subst (All (Passed env)) (sym e) ((subst (All (IsSound env)) e so).0 b, tt) in
      either-StartsPassed (not o.facts.ok) _ _ (λ _ h. cc)
        (λ b.
          either-StartsPassed (not (serves env (anchor_status env w p).0)) _ _ (λ _ h. cc)
            (λ _ h. (st t, all (ground (arith, b)))))

  restore-StartsPassed :
      (p : Plan) (w : env.World)
      → Sound env p
      → p.target.facts.ok ≡ true
      → StartsPassed (check_restore env p w)
  unfolding check_restore keep_others
  restore-StartsPassed p w (st, so) t =
      let q = keep_others p in
      either-StartsPassed
        (not q.s3 && (not (text_eq q.snapshot []) && (q.target.facts.snapshot_size == 0))) _ _
        (λ _ h. (st t, keep_sound env p.others so)) (λ _ h. (st t, keep_sound env p.others so))

-- In whatever order the answers arrive: when the preflight of a fresh plan lets the rescue start, then
-- the target and every follower that takes part have answered the preflight script, and it said ok.
pub preflight-Passed :
    (env : Env) (order : List (Option ℕ)) (w : env.World) (p : Plan)
    → IsFresh p
    → (preflight env order w p).verdict ≡ ready
    → All
        (Passed env)
        ((preflight env order w p).plan.target ∷ (preflight env order w p).plan.others)
unfolding preflight check_rejoin
preflight-Passed env order w p (ft, fo) h =
    let start : Sound env p = ((λ e. absurd (ground (arith, e, ft))), fresh p.others fo) in
    let (p1, w1) = gather env order w p in
    let s = gather-Sound env order w p start in
    either-StartsPassed env (text_eq p.target.host []) _ _ (λ _ k. cc)
      (λ _.
        either-StartsPassed env (text_eq p.target.ip []) _ _ (λ _ k. cc)
          (λ _.
            either-StartsPassed env (not p1.target.facts.ok) _ _ (λ _ k. cc)
              (λ c.
                let ok : p1.target.facts.ok ≡ true = ground (arith, c) in
                either-StartsPassed env p1.rejoin _ _
                  (λ _. joiner-StartsPassed env p1 w1 p1.others refl s ok)
                  (λ _. restore-StartsPassed env p1 w1 s ok))))
      h
  where
    fresh : (ns : List Node) → All (λ n. n.facts.ok ≡ false) ns → All (IsSound env) ns
    fresh [] h = tt
    fresh (n ∷ ns) (e, h) = ((λ k. absurd (ground (arith, e, k))), fresh ns h)
