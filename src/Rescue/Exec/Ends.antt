-- ===== src/Rescue/Exec/Ends.antt =====
-- internal/rescue/rescue.go, `poll`: the loop ends within the rounds of the model.
use khealth_tui.Base.{
  ℕ, zero, suc, ◌+◌, ◌*◌, ◌/◌, ◌≤◌, ◌<◌, ◌≡◌, ◌≢◌, Option, none, some, Bool-cases, inl, inr, arith,
  [],
}
use khealth_tui.Text.{Text, remove_byte}
use khealth_tui.Rescue.Types.{Node, Plan, second}
use khealth_tui.Rescue.Env.{Env, Request, Result}
use khealth_tui.Rescue.Output.{live_lines}
use khealth_tui.Rescue.Monad.{Res, ok, err, St, M, bind_res, set_live, out_of_rounds, ◌>>=◌}
use khealth_tui.Rescue.Exec.{
  after_round, silent_round, checked_round, round, why_silent, poll_loop, poll, silent, request,
  Vars, rounds, exec, exec_ok, verdict,
}

-- What the loop needs of the clock: it does not run backwards during a call, and a pause lasts.
pub record IsClock (env : Env) : Type 0 where
  pub call_forward : (w : env.World) (r : Request) → env.now w ≤ env.now (env.run w r).1
  pub pause_lasts : (w : env.World) (d : ℕ) → env.now w + d ≤ env.now (env.pause w d)

-- The computation ends, with a value or an error of the source.
abbrev pub Ends : {env : Env} {A : Type 0} → Res A × St env → Type 0
Ends r = r.0 ≢ err out_of_rounds

-- A check that ends and does not turn the clock back.
abbrev pub IsCheck : {env : Env} {C : Type 0} → (Text → M env (Option C)) → Type 0
IsCheck {env} check =
    (out : Text) (s : St env)
    → Ends (check out s) × (env.now s.world ≤ env.now (check out s).1.world)

-- A computation that ends from every state.
abbrev pub Total : {env : Env} {A : Type 0} → M env A → Type 0
Total {env} m = (s : St env) → Ends (m s)

pub Total-bind :
    {env : Env} {A B : Type 0} (m : M env A) (f : A → M env B)
    → Total m
    → ((a : A) → Total (f a))
    → Total (m >>= f)
Total-bind {env} {A} {B} m f hm hf s = go (m s) (hm s)
  where
    go : (r : Res A × St env) → Ends r → Ends (bind_res r.0 r.1 f)
    go (ok a, t) h = hf a t
    go (err e, t) h = λ q. ground arith

-- `exec` reports no error but those of the source.
pub verdict_ends :
    (n : Node) (marker out : Text) (res : Result) → verdict n marker out res ≢ some out_of_rounds
unfolding verdict
verdict_ends n marker out res = ground arith

module _ {env : Env} (p : Plan) where
  pub exec-Total :
      (n : Node) (script : Text) (vars : Vars) (timeout : ℕ) (marker : Text)
      → Total (exec {env = env} p n script vars timeout marker)
  unfolding exec
  exec-Total n script vars timeout marker s = λ q. cc

  pub exec_ok-Total :
      (n : Node) (script : Text) (vars : Vars) (timeout : ℕ) (marker : Text)
      → Total (exec_ok {env = env} p n script vars timeout marker)
  unfolding exec_ok
  exec_ok-Total n script vars timeout marker s = ground (
    arith,
    verdict_ends n marker
        (remove_byte 13 (env.run s.world (request p n script vars timeout)).0.stdout)
        (env.run s.world (request p n script vars timeout)).0,
  )

module _ {env : Env} (p : Plan) (clock : IsClock env) where
  after-Ends :
      {C : Type 0} (deadline timeout : ℕ) (last : Text) (next : M env C) (s : St env)
      → ((s1 : St env)
          → env.now s.world ≤ deadline
          → env.now s.world + p.poll_interval ≤ env.now s1.world
          → Ends (next s1))
      → Ends (after_round p deadline timeout last next s)
  unfolding after_round
  after-Ends deadline timeout last next s k = ground (
    arith,
    k (record s { world = env.pause s.world p.poll_interval }),
    clock.pause_lasts s.world p.poll_interval,
  )

  -- The rest of the loop ends from any state at least `PollInterval` later than `t`, if `t` has not
  -- passed the deadline.
  abbrev Continues : {C : Type 0} → ℕ → ℕ → (ℕ → Text → M env C) → Type 0
  Continues deadline t go =
      (k : ℕ) (l : Text) (s1 : St env)
      → t ≤ deadline
      → t + p.poll_interval ≤ env.now s1.world
      → Ends (go k l s1)

  later :
      {C : Type 0} (deadline t u : ℕ) (go : ℕ → Text → M env C)
      → t ≤ u
      → Continues deadline t go
      → Continues deadline u go
  later deadline t u go le k n l s1 a b = k n l s1 (omega arith) (omega arith)

  silent-Ends :
      {C : Type 0} (n : Node) (deadline timeout : ℕ) (go : ℕ → Text → M env C) (failures : ℕ)
      (last why : Text) (s : St env)
      → Continues deadline (env.now s.world) go
      → Ends (silent_round p n deadline timeout go failures last why s)
  unfolding silent_round
  silent-Ends n deadline timeout go failures last why s k =
      ground
        (arith, after-Ends deadline timeout last (go (failures + 1) last) s (k (failures + 1) last))

  judged-Ends :
      {C : Type 0} (deadline timeout : ℕ) (go : ℕ → Text → M env C) (out : Text)
      (r : Res (Option C) × St env)
      → Ends r
      → Continues deadline (env.now r.1.world) go
      → Ends (bind_res r.0 r.1 (checked_round p deadline timeout go out))
  unfolding checked_round
  judged-Ends deadline timeout go out (ok (some d), s) e k = λ q. cc
  judged-Ends deadline timeout go out (ok none, s) e k =
      after-Ends deadline timeout out (go 0 out) s (k 0 out)
  judged-Ends deadline timeout go out (err x, s) e k = ground arith

  round-Ends :
      {C : Type 0} (n : Node) (deadline timeout : ℕ) (check : Text → M env (Option C))
      (go : ℕ → Text → M env C) (failures : ℕ) (last : Text) (res : Result) (s : St env)
      → IsCheck check
      → Continues deadline (env.now s.world) go
      → Ends (round p n deadline timeout check go failures last res s)
  unfolding round
  round-Ends n deadline timeout check go failures last res s hc k = elim (Bool-cases (silent res)) [
    | inl e ↦ rw e (silent-Ends n deadline timeout go failures last (why_silent res) _ k)
    | inr e ↦
        (let out = remove_byte 13 res.stdout in
          let s0 = (set_live {env = env} (live_lines out) s).1 in
          let (he, hf) = hc out s0 in
          rw e (
            judged-Ends deadline timeout go out (check out s0) he
              (later deadline (env.now s.world) (env.now (check out s0).1.world) go hf k)))
  ]

  loop-Ends :
      {C : Type 0} (f : ℕ) (n : Node) (r : Request) (deadline timeout : ℕ)
      (check : Text → M env (Option C)) (failures : ℕ) (last : Text) (s : St env)
      → IsCheck check
      → deadline < env.now s.world + f * p.poll_interval
      → Ends (poll_loop p (suc f) n r deadline timeout check failures last s)
  unfolding poll_loop
  loop-Ends zero n r deadline timeout check failures last s hc h =
      round-Ends n deadline timeout check (poll_loop p zero n r deadline timeout check) failures
        last (env.run s.world r).0 (record s { world = (env.run s.world r).1 }) hc
        (λ k l s1 a b. absurd (omega (arith, clock.call_forward s.world r)))
  loop-Ends (suc f) n r deadline timeout check failures last s hc h =
      round-Ends n deadline timeout check (poll_loop p (suc f) n r deadline timeout check) failures
        last (env.run s.world r).0 (record s { world = (env.run s.world r).1 }) hc
        (λ k l s1 a b.
          loop-Ends f n r deadline timeout check k l s1 hc
            (omega (arith, clock.call_forward s.world r)))

  -- With a poll interval above 0, a clock that does not run backwards and a check that ends, `poll`
  -- ends: it returns a value or an error of the source, within the rounds of the model.
  pub poll-Ends :
      {C : Type 0} (n : Node) (script : Text) (vars : Vars) (timeout : ℕ)
      (check : Text → M env (Option C)) (s : St env)
      → 0 < p.poll_interval
      → IsCheck check
      → Ends (poll p n script vars timeout check s)
  unfolding poll rounds
  poll-Ends n script vars timeout check s pos hc =
      let e : timeout / p.poll_interval + 3 ≡ suc (timeout / p.poll_interval + 2) = omega arith in
      rw e (
        loop-Ends (timeout / p.poll_interval + 2) n (request p n script vars (90 * second))
          (env.now s.world + timeout) timeout check 0 [] s hc (grind arith))
