-- ===== src/Rescue/Exec/Keeps.antt =====
-- internal/rescue/rescue.go: `exec` and `poll` leave the record of the stopped agents alone.
use khealth_tui.Base.{
  ℕ, zero, suc, ◌≡◌, refl, ◌∙◌, Option, none, some, Bool-cases, Option-cases, inl, inr, arith, [],
  ◌+◌,
}
use khealth_tui.Text.{Text, remove_byte}
use khealth_tui.Rescue.Types.{Node, Plan}
use khealth_tui.Rescue.Env.{Env, Request, Result}
use khealth_tui.Rescue.Monad.{Res, ok, err, St, M, bind_res, ◌>>=◌}
use khealth_tui.Rescue.Exec.{
  after_round, silent_round, checked_round, round, poll_loop, poll, silent, why_silent, request,
  Vars, exec, exec_ok, verdict,
}

-- The computation does not change which agents count as stopped.
abbrev pub Keeps : {env : Env} {A : Type 0} → M env A → Type 0
Keeps {env} m = (s : St env) → (m s).1.agent_off ≡ s.agent_off

pub Keeps-bind :
    {env : Env} {A B : Type 0} (m : M env A) (f : A → M env B)
    → Keeps m
    → ((a : A) → Keeps (f a))
    → Keeps (m >>= f)
Keeps-bind {env} {A} {B} m f hm hf s = go (m s) (hm s)
  where
    go :
        (r : Res A × St env)
        → r.1.agent_off ≡ s.agent_off
        → (bind_res r.0 r.1 f).1.agent_off ≡ s.agent_off
    go (ok a, t) h = hf a t ∙ h
    go (err e, t) h = h

module _ {env : Env} (p : Plan) where
  pub exec-Keeps :
      (n : Node) (script : Text) (vars : Vars) (timeout : ℕ) (marker : Text)
      → Keeps (exec {env = env} p n script vars timeout marker)
  unfolding exec
  exec-Keeps n script vars timeout marker s = refl

  pub exec_ok-Keeps :
      (n : Node) (script : Text) (vars : Vars) (timeout : ℕ) (marker : Text)
      → Keeps (exec_ok {env = env} p n script vars timeout marker)
  unfolding exec_ok
  exec_ok-Keeps n script vars timeout marker s = ground (
    arith,
    Option-cases (
        verdict n marker
          (remove_byte 13 (env.run s.world (request p n script vars timeout)).0.stdout)
          (env.run s.world (request p n script vars timeout)).0),
  )

  after-Keeps :
      {C : Type 0} (deadline timeout : ℕ) (last : Text) (next : M env C)
      → Keeps next
      → Keeps (after_round p deadline timeout last next)
  unfolding after_round
  after-Keeps deadline timeout last next k s =
      ground (arith, k (record s { world = env.pause s.world p.poll_interval }))

  silent-Keeps :
      {C : Type 0} (n : Node) (deadline timeout : ℕ) (go : ℕ → Text → M env C) (failures : ℕ)
      (last why : Text)
      → ((k : ℕ) (l : Text) → Keeps (go k l))
      → Keeps (silent_round p n deadline timeout go failures last why)
  unfolding silent_round
  silent-Keeps n deadline timeout go failures last why k s =
      ground (
        arith,
        after-Keeps deadline timeout last (go (failures + 1) last) (k (failures + 1) last) s,
      )

  checked-Keeps :
      {C : Type 0} (deadline timeout : ℕ) (go : ℕ → Text → M env C) (out : Text) (found : Option C)
      → ((k : ℕ) (l : Text) → Keeps (go k l))
      → Keeps (checked_round p deadline timeout go out found)
  unfolding checked_round
  checked-Keeps deadline timeout go out (some c) k s = refl
  checked-Keeps deadline timeout go out none k s =
      after-Keeps deadline timeout out (go 0 out) (k 0 out) s

  round-Keeps :
      {C : Type 0} (n : Node) (deadline timeout : ℕ) (check : Text → M env (Option C))
      (go : ℕ → Text → M env C) (failures : ℕ) (last : Text) (res : Result)
      → ((out : Text) → Keeps (check out))
      → ((k : ℕ) (l : Text) → Keeps (go k l))
      → Keeps (round p n deadline timeout check go failures last res)
  unfolding round
  round-Keeps n deadline timeout check go failures last res hc k s =
      elim (Bool-cases (silent res)) [
        | inl e ↦ rw e (silent-Keeps n deadline timeout go failures last (why_silent res) k _)
        | inr e ↦ rw e (
            Keeps-bind (check (remove_byte 13 res.stdout))
              (checked_round p deadline timeout go (remove_byte 13 res.stdout))
              (hc (remove_byte 13 res.stdout))
              (λ found. checked-Keeps deadline timeout go (remove_byte 13 res.stdout) found k) _)
      ]

  loop-Keeps :
      {C : Type 0} (f : ℕ) (n : Node) (r : Request) (deadline timeout : ℕ)
      (check : Text → M env (Option C)) (failures : ℕ) (last : Text)
      → ((out : Text) → Keeps (check out))
      → Keeps (poll_loop p f n r deadline timeout check failures last)
  unfolding poll_loop
  loop-Keeps zero n r deadline timeout check failures last hc s = refl
  loop-Keeps (suc f) n r deadline timeout check failures last hc s =
      round-Keeps n deadline timeout check (poll_loop p f n r deadline timeout check) failures last
        (env.run s.world r).0 hc (λ k l. loop-Keeps f n r deadline timeout check k l hc)
        (record s { world = (env.run s.world r).1 })

  pub poll-Keeps :
      {C : Type 0} (n : Node) (script : Text) (vars : Vars) (timeout : ℕ)
      (check : Text → M env (Option C))
      → ((out : Text) → Keeps (check out))
      → Keeps (poll p n script vars timeout check)
  unfolding poll
  poll-Keeps n script vars timeout check hc s = loop-Keeps _ n _ _ timeout check 0 [] hc s
