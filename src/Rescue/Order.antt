-- ===== src/Rescue/Order.antt =====
-- internal/rescue/rescue.go: what a run has done before it touches the etcd data of a server.
use khealth_tui.Base.{
  sym, ◌∙◌, ap, ℕ, zero, suc, ◌<◌, ◌≡◌, refl, ◌⊎◌, inl, inr, Bool, true, false, ◌||◌, List, [], ◌∷◌,
  ◌++◌, some, map, append_assoc, arith, All, In, All-append, Any-append_left, Any-append_right,
  get_elem?, get_elem?-append_left, length-le_of_get_elem?, Any-index,
}
use khealth_tui.Text.{lit, text_eq}
use khealth_tui.Rescue.Types
use khealth_tui.Rescue.Types.{Node, Plan, Action, Step, State, done, failed, skipped}
use khealth_tui.Rescue.Env.{Env}
use khealth_tui.Rescue.Run.{Shared, run, touched, agent_nodes}
use khealth_tui.Rescue.Build.{build, stop_of, backup_of, agent_stop_of, after_backup}
use khealth_tui.Rescue.Outcome.{
  Ended, all_done, then_done, then_failed, then_stopped, states, run-Ended,
}

-- A skipped step has not run.
skipped_only :
    (l : List State) (k : ℕ) {x : State}
    → All (λ s. s ≡ skipped) l
    → get_elem? l k ≡ some x
    → (x ≡ done) ⊎ (x ≡ failed)
    → ⊥
skipped_only [] k d e r = ground arith
skipped_only (s ∷ l) zero (p, d) e r = ground arith
skipped_only (s ∷ l) (suc k) (p, d) e r = skipped_only l k d e r

-- In a finished run, every step before one that ran is done.
Ended-before :
    {a f : Bool} {l : List State} (k j : ℕ) {x : State}
    → Ended a f l
    → get_elem? l k ≡ some x
    → (x ≡ done) ⊎ (x ≡ failed)
    → j < k
    → get_elem? l j ≡ some done
Ended-before k j all_done e r h = absurd (ground arith)
Ended-before zero j (then_done d) e r h = absurd (omega arith)
Ended-before (suc k) zero (then_done d) e r h = refl
Ended-before (suc k) (suc j) (then_done d) e r h = Ended-before k j d e r (omega arith)
Ended-before zero j (then_failed d) e r h = absurd (omega arith)
Ended-before (suc k) j (then_failed d) e r h = absurd (skipped_only _ k d e r)
Ended-before k j (then_stopped _ d) e r h = absurd (skipped_only _ k d e r)

-- The closure moves or rewrites the etcd data of a server, or starts a server, whose etcd then writes it;
-- `target_up` may run a second cluster reset and start again.
abbrev pub touches_data : Action → Bool
touches_data (Types.run_script n script vars timeout marker) =
    text_eq script (lit "backup")
    || (text_eq script (lit "restore_kubeadm")
        || (text_eq script (lit "perms") || text_eq script (lit "start")))
touches_data (Types.run_noted n script vars timeout marker text) = text_eq script (lit "start")
touches_data (Types.restore_verified t) = true
touches_data (Types.target_up t) = true
touches_data _ = false

-- The closure restores data, or starts a server or its apiserver; `target_up` may do both again.
abbrev pub brings_back : Action → Bool
brings_back (Types.run_script n script vars timeout marker) =
    text_eq script (lit "restore_kubeadm") || text_eq script (lit "start")
brings_back (Types.run_noted n script vars timeout marker text) = text_eq script (lit "start")
brings_back (Types.restore_verified t) = true
brings_back (Types.target_up t) = true
brings_back (Types.unpark_api n want) = true
brings_back _ = false

module _ (f : Action → Bool) where
  abbrev Quiet : List Step → Type 0
  Quiet = All (λ s. f s.action ≡ false)

  map-Quiet :
      (g : Node → Step) (ns : List Node) → ((n : Node) → f (g n).action ≡ false) → Quiet (map g ns)
  map-Quiet g [] h = tt
  map-Quiet g (n ∷ ns) h = (h n, map-Quiet g ns h)

-- The step `g n` stands in the steps that `g` makes of the nodes.
Any-map_of : (g : Node → Step) (n : Node) (ns : List Node) → In n ns → In (g n) (map g ns)
Any-map_of g n [] h = absurd h
Any-map_of g n (m ∷ ns) (inl e) = inl (ap g e)
Any-map_of g n (m ∷ ns) (inr h) = inr (Any-map_of g n ns h)

abbrev stops_of : Plan → List Step
stops_of p = map (stop_of p) p.others ++ stop_of p p.target ∷ []

stop-In :
    (p : Plan) (n : Node) → p.rejoin ≡ false → In n (touched p) → In (stop_of p n) (stops_of p)
unfolding touched
stop-In p n h i = go (rw h at i)
  where
    go : In n (p.target ∷ p.others) → In (stop_of p n) (stops_of p)
    go (inl e) =
        Any-append_right (λ x. x ≡ stop_of p n) (map (stop_of p) p.others) (stop_of p p.target ∷ [])
          (inl (ap (stop_of p) e))
    go (inr m) =
        Any-append_left (λ x. x ≡ stop_of p n) (map (stop_of p) p.others) (stop_of p p.target ∷ [])
          (Any-map_of (stop_of p) n p.others m)

-- The steps of a restore up to the stop of the last server, and up to the last move of data.
abbrev stopping : Plan → List Step
stopping p = map (agent_stop_of p) (agent_nodes p) ++ stops_of p

abbrev moving : Plan → List Step
moving p = stopping p ++ map backup_of (p.target ∷ p.others)

build_parts :
    (env : Env) (p : Plan)
    → p.rejoin ≡ false
    → build env p ≡ stopping p ++ (map backup_of (p.target ∷ p.others) ++ after_backup env p)
unfolding build
build_parts env p h = rw h (simp append_assoc)

stopping-Quiet : (p : Plan) → Quiet touches_data (stopping p)
unfolding lit
stopping-Quiet p =
    All-append _ (map (agent_stop_of p) (agent_nodes p)) (stops_of p)
      (map-Quiet touches_data (agent_stop_of p) (agent_nodes p) (λ n. refl))
      (All-append _ (map (stop_of p) p.others) (stop_of p p.target ∷ [])
        (map-Quiet touches_data (stop_of p) p.others (λ n. refl)) (refl, tt))

moving-Quiet : (p : Plan) → Quiet brings_back (moving p)
unfolding lit
moving-Quiet p =
    All-append _ (stopping p) (map backup_of (p.target ∷ p.others))
      (All-append _ (map (agent_stop_of p) (agent_nodes p)) (stops_of p)
        (map-Quiet brings_back (agent_stop_of p) (agent_nodes p) (λ n. refl))
        (All-append _ (map (stop_of p) p.others) (stop_of p p.target ∷ [])
          (map-Quiet brings_back (stop_of p) p.others (λ n. refl)) (refl, tt)))
      (map-Quiet brings_back backup_of (p.target ∷ p.others) (λ n. refl))

module _ {env : Env} (p : Plan) (h : Shared env) where
  -- What stands before the first step of a class is done when a step of the class has run.
  earlier_done :
      (f : Action → Bool) (first rest : List Step) (k : ℕ) {s : Step} {x : State}
      → Quiet f first
      → get_elem? (first ++ rest) k ≡ some s
      → f s.action ≡ true
      → get_elem? (states (run p (first ++ rest) h).steps) k ≡ some x
      → (x ≡ done) ⊎ (x ≡ failed)
      → (g : Step) → In g first
      → (j : ℕ) × (j < k)
        × (get_elem? (first ++ rest) j ≡ some g)
        × (get_elem? (states (run p (first ++ rest) h).steps) j ≡ some done)
  earlier_done f first rest k q e t ex r g i =
      let (j, a, lt, ea, pa) = Any-index (λ y. y ≡ g) first i in
      let le = length-le_of_get_elem? (λ (y : Step). f y.action) first rest k q e t in
      let (b, d, _, _) = run-Ended p (first ++ rest) h in
      (
        j,
        omega arith,
        ground (arith, get_elem?-append_left first rest j lt),
        Ended-before k j d ex r (omega arith),
      )

-- The step `g` stands before position `k` in the plan, and is done when the run is over.
abbrev pub DoneBefore : {env : Env} → Plan → Shared env → ℕ → Step → Type 0
DoneBefore {env} p h k g =
    (j : ℕ) × (j < k)
    × (get_elem? (build env p) j ≡ some g)
    × (get_elem? (states (run p (build env p) h).steps) j ≡ some done)

-- The step at position `k` of the plan has run: it is done or it failed.
abbrev pub Ran : {env : Env} → Plan → Shared env → ℕ → Type 0
Ran {env} p h k =
    (x : State) × (get_elem? (states (run p (build env p) h).steps) k ≡ some x)
    × ((x ≡ done) ⊎ (x ≡ failed))

-- In a restore, when a step has run that moves or rewrites etcd data (a backup, the cluster reset, the
-- snapshot restore, the owner of the data directory) or starts a server, the wait for the target included,
-- which may reset and start once more: the service has been stopped on the target and on every follower,
-- and each of those steps stands before it and is done.
pub data_after_stops :
    {env : Env} (p : Plan) (h : Shared env) (k : ℕ) {s : Step} (n : Node)
    → p.rejoin ≡ false
    → get_elem? (build env p) k ≡ some s
    → touches_data s.action ≡ true
    → Ran p h k
    → In n (touched p)
    → DoneBefore p h k (stop_of p n)
data_after_stops {env} p h k n r e t (x, ex, dx) i =
    let q = build_parts env p r in
    let g =
      earlier_done p h touches_data (stopping p)
        (map backup_of (p.target ∷ p.others) ++ after_backup env p) k (stopping-Quiet p) (rw q at e)
        t (rw q at ex) dx (stop_of p n)
        (Any-append_right (λ x. x ≡ stop_of p n) (map (agent_stop_of p) (agent_nodes p))
          (stops_of p) (stop-In p n r i)) in
    rw q g

-- In a restore, when a step has run that restores data or starts a server or its apiserver (the wait for
-- the target, which may do so once more, included), the etcd data of the target and of every follower has
-- been moved aside: each of those steps stands before it and is done.
pub back_after_moves :
    {env : Env} (p : Plan) (h : Shared env) (k : ℕ) {s : Step} (n : Node)
    → p.rejoin ≡ false
    → get_elem? (build env p) k ≡ some s
    → brings_back s.action ≡ true
    → Ran p h k
    → In n (touched p)
    → DoneBefore p h k (backup_of n)
unfolding touched
back_after_moves {env} p h k n r e t (x, ex, dx) i =
    let m : In n (p.target ∷ p.others) = rw r at i in
    let q : build env p ≡ moving p ++ after_backup env p =
      build_parts env p r
      ∙ sym
          (append_assoc (stopping p) (map backup_of (p.target ∷ p.others)) (after_backup env p)) in
    let g =
      earlier_done p h brings_back (moving p) (after_backup env p) k (moving-Quiet p) (rw q at e) t
        (rw q at ex) dx (backup_of n)
        (Any-append_right (λ x. x ≡ backup_of n) (stopping p) (map backup_of (p.target ∷ p.others))
          (Any-map_of backup_of n (p.target ∷ p.others) m)) in
    rw q g
