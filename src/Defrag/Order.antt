-- ===== src/Defrag/Order.antt =====
-- internal/etcd/defrag.go: the leader comes last, and every member has a step.
use khealth_tui.Base.{
  ◌≡◌, ◌≢◌, refl, sym, ap, ◌∙◌, ◌⊎◌, Bool, true, List, [], ◌∷◌, ◌++◌, Option, none, some, inl, inr,
  arith, Bool-cases, Any, In, subst, Any-map_pred, map, if◌then◌else◌, Any-append_left,
  Any-append_right,
}
use khealth_tui.Text.{Text, text_eq}
use khealth_tui.Text.Laws.{text_eq_iff}
use khealth_tui.Etcd.{Member}
use khealth_tui.Defrag.{
  Env, Step, members_loop, new_step, why_skipped, touch, defrag, ordered, followers, last_leader,
  opt_list,
}

-- No step follows one on the leader.
abbrev pub LeaderLast : List Step → Type 0
LeaderLast [] = Unit
LeaderLast (s ∷ ss) = (s.leader ≡ true → ss ≡ []) × LeaderLast ss

-- The name the report shows for a member.
unfoldable pub shown : Member → Text
shown m = if text_eq m.name [] then m.id else m.name

abbrev heads : Text → List Member → List (Text × Bool)
heads id ms = map (λ m. (shown m, text_eq m.id id)) ms

abbrev step_head : Step → Text × Bool
step_head s = (s.member, s.leader)

module _ (env : Env) (dist : Text) where
  touch-head :
      (w : env.World) (m : Member) (s : Step) → step_head (touch env dist w m s).0 ≡ step_head s
  unfolding touch
  touch-head w m s = ground arith

  loop_heads :
      (w : env.World) (id aborted : Text) (ms : List Member)
      → map step_head (members_loop env dist w id aborted ms).0 ≡ heads id ms
  unfolding members_loop new_step shown
  loop_heads w id aborted [] = refl
  loop_heads w id aborted (m ∷ ms) = elim (Bool-cases (text_eq (why_skipped aborted m) [])) [
    | inl e ↦
        let r = touch env dist w m (new_step id m) in
        rw e (cc (touch-head w m (new_step id m), loop_heads r.2 id r.1 ms))
    | inr e ↦ rw e (cc (loop_heads w id aborted ms))
  ]

-- The same of the heads of the steps.
abbrev HeadsLast : List (Text × Bool) → Type 0
HeadsLast [] = Unit
HeadsLast (h ∷ hs) = (h.1 ≡ true → hs ≡ []) × HeadsLast hs

heads_last : (ss : List Step) → HeadsLast (map step_head ss) → LeaderLast ss
heads_last [] h = tt
heads_last (s ∷ []) (h, hs) = ((λ _. refl), tt)
heads_last (s ∷ s2 ∷ ss) (h, hs) = ((λ l. absurd (ground (arith, h l))), heads_last (s2 ∷ ss) hs)

followers_last :
    (id : Text) (ms : List Member) (l : Option Member)
    → HeadsLast (heads id (followers id ms ++ opt_list l))
unfolding followers
followers_last id [] none = tt
followers_last id [] (some m) = ((λ _. refl), tt)
followers_last id (m ∷ ms) l = elim (Bool-cases (text_eq m.id id)) [
  | inl e ↦ rw e (followers_last id ms l)
  | inr e ↦ rw e ((λ h. absurd (ground (arith, h, e))), followers_last id ms l)
]

In-followers :
    (id : Text) (m : Member) (ms : List Member) → In m ms → m.id ≢ id → In m (followers id ms)
unfolding followers
In-followers id m [] h n = absurd h
In-followers id m (x ∷ ms) (inl e) n = ground (arith, text_eq_iff x.id id, ap (λ y. Member.id y) e)
In-followers id m (x ∷ ms) (inr h) n = ground (arith, In-followers id m ms h n)

leader_kept :
    (id : Text) (ms : List Member) (l : Member)
    → text_eq l.id id ≡ true
    → Any (λ x. text_eq x.id id ≡ true) (opt_list (last_leader id ms (some l)))
unfolding last_leader
leader_kept id [] l h = inl h
leader_kept id (m ∷ ms) l h = elim (Bool-cases (text_eq m.id id)) [
  | inl e ↦ rw e (leader_kept id ms m e)
  | inr e ↦ rw e (leader_kept id ms l h)
]

leader_found :
    (id : Text) (ms : List Member) (l : Option Member)
    → Any (λ x. x.id ≡ id) ms
    → Any (λ x. text_eq x.id id ≡ true) (opt_list (last_leader id ms l))
unfolding last_leader
leader_found id [] l h = absurd h
leader_found id (m ∷ ms) l (inl e) =
    let t = (text_eq_iff m.id id).1 e in rw t (leader_kept id ms m t)
leader_found id (m ∷ ms) l (inr h) = leader_found id ms (if text_eq m.id id then some m else l) h

heads-Any :
    (ss : List Step) (id : Text) (P : Text × Bool → Type 0) (ms : List Member)
    → map step_head ss ≡ heads id ms
    → Any (λ m. P (shown m, text_eq m.id id)) ms
    → Any (λ s. P (step_head s)) ss
heads-Any ss id P ms e h = any_step ss (subst (Any P) (sym e) (any_head ms h))
  where
    any_head : (xs : List Member) → Any (λ m. P (shown m, text_eq m.id id)) xs → Any P (heads id xs)
    any_head [] h = absurd h
    any_head (x ∷ xs) (inl p) = inl p
    any_head (x ∷ xs) (inr h) = inr (any_head xs h)

    any_step : (xs : List Step) → Any P (map step_head xs) → Any (λ s. P (step_head s)) xs
    any_step [] h = absurd h
    any_step (x ∷ xs) (inl p) = inl p
    any_step (x ∷ xs) (inr h) = inr (any_step xs h)

-- The step of a member: it shows the member, or it is the one on the leader.
abbrev pub IsStepOf : Text → Member → Step → Type 0
IsStepOf id m s = (s.member ≡ shown m) ⊎ ((s.leader ≡ true) × (m.id ≡ id))

-- Whatever the calls answer, the report of a defragmentation has a step for each member (for one with
-- the leader's id, a step on the leader), and no step follows one on the leader.
pub defrag_order :
    (env : Env) (dist : Text) (w : env.World) (members : List Member) (id : Text) (m : Member)
    → In m members
    → LeaderLast (defrag env dist w members id).0.steps
      × Any (IsStepOf id m) (defrag env dist w members id).0.steps
unfolding defrag ordered
defrag_order env dist w members id m h =
    let last = last_leader id members none in
    let ms = followers id members ++ opt_list last in
    let e = loop_heads env dist w id [] ms in
    let ss = (members_loop env dist w id [] ms).0 in
    (
      heads_last ss (subst HeadsLast (sym e) (followers_last id members last)),
      elim (Bool-cases (text_eq m.id id)) [
        | inl a ↦
            let q = (text_eq_iff m.id id).0 a in
            Any-map_pred ss (λ s l. inr (l, q))
              (heads-Any ss id (λ p. p.1 ≡ true) ms e
                (Any-append_right (λ x. text_eq x.id id ≡ true) (followers id members)
                  (opt_list last)
                  (leader_found id members none
                    (Any-map_pred members (λ x z. ap (λ y. Member.id y) z ∙ q) h))))
        | inr a ↦
            Any-map_pred ss (λ s l. inl l)
              (heads-Any ss id (λ p. p.0 ≡ shown m) ms e
                (Any-append_left (λ x. shown x ≡ shown m) (followers id members) (opt_list last)
                  (Any-map_pred (followers id members) (λ x z. ap shown z)
                    (In-followers id m members h
                      (λ q. absurd (ground (arith, a, text_eq_iff m.id id, q)))))))
      ],
    )
