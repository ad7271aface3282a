-- ===== src/Rescue/Exec/Poll.antt =====
-- internal/rescue/rescue.go, `poll`: what a result of the loop rests on, and that the loop ends.
use khealth_tui.Base.{
  leb, ℕ, zero, suc, ◌+◌, ◌*◌, ◌≡◌, refl, inl, inr, Option, none, some, Bool-cases, arith, [], ◌⊎◌,
}
use khealth_tui.Text.{Text, remove_byte}
use khealth_tui.Rescue.Types.{Node, Plan, second}
use khealth_tui.Rescue.Output.{live_lines}
use khealth_tui.Rescue.Env.{Env, Request, Result}
use khealth_tui.Rescue.Monad.{Res, ok, err, St, M, bind_res, set_live}
use khealth_tui.Rescue.Exec.{
  after_round, silent_round, checked_round, round, why_silent, poll_loop, poll, silent, request,
  Vars, rounds,
}

-- `out` is what a call of the runner printed, less the carriage returns.
abbrev pub Printed : Env → Request → Text → Type 0
Printed env r out = (w : env.World) × (remove_byte 13 (env.run w r).0.stdout ≡ out)

module _ {env : Env} (p : Plan) where
  after_found :
      {C : Type 0} (deadline timeout : ℕ) (last : Text) (next : M env C) (s t : St env) (c : C)
      → after_round p deadline timeout last next s ≡ (ok c, t)
      → (s1 : St env) × (next s1 ≡ (ok c, t))
  unfolding after_round
  after_found deadline timeout last next s t c h =
      (record s { world = env.pause s.world p.poll_interval }, ground arith)

  judged_found :
      {C : Type 0} (deadline timeout : ℕ) (go : ℕ → Text → M env C) (out : Text)
      (r : Res (Option C) × St env) (t : St env) (c : C)
      → bind_res r.0 r.1 (checked_round p deadline timeout go out) ≡ (ok c, t)
      → (r ≡ (ok (some c), t)) ⊎ ((k : ℕ) × (l : Text) × (s1 : St env) × (go k l s1 ≡ (ok c, t)))
  unfolding checked_round
  judged_found deadline timeout go out (ok (some d), s) t c h = inl (ground arith)
  judged_found deadline timeout go out (ok none, s) t c h =
      let (s1, e) = after_found deadline timeout out (go 0 out) s t c h in inr (0, out, s1, e)
  judged_found deadline timeout go out (err x, s) t c h = absurd (ground arith)

  silent_found :
      {C : Type 0} (n : Node) (deadline timeout : ℕ) (go : ℕ → Text → M env C) (failures : ℕ)
      (last why : Text) (s t : St env) (c : C)
      → silent_round p n deadline timeout go failures last why s ≡ (ok c, t)
      → (k : ℕ) × (l : Text) × (s1 : St env) × (go k l s1 ≡ (ok c, t))
  unfolding silent_round
  silent_found n deadline timeout go failures last why s t c h =
      elim (Bool-cases (leb 5 (failures + 1))) [
        | inl e ↦ absurd (ground arith)
        | inr e ↦
            (let (s1, q) =
                after_found deadline timeout last (go (failures + 1) last) s t c (rw e at h) in
              (failures + 1, last, s1, q))
      ]

  -- A round ends the loop because its check said done, or it goes on.
  round_found :
      {C : Type 0} (n : Node) (deadline timeout : ℕ) (check : Text → M env (Option C))
      (go : ℕ → Text → M env C) (failures : ℕ) (last : Text) (res : Result) (s t : St env) (c : C)
      → round p n deadline timeout check go failures last res s ≡ (ok c, t)
      → ((s0 : St env) × (check (remove_byte 13 res.stdout) s0 ≡ (ok (some c), t)))
        ⊎ ((k : ℕ) × (l : Text) × (s1 : St env) × (go k l s1 ≡ (ok c, t)))
  unfolding round
  round_found n deadline timeout check go failures last res s t c h =
      elim (Bool-cases (silent res)) [
        | inl e ↦
            inr
              (silent_found n deadline timeout go failures last (why_silent res) _ t c (rw e at h))
        | inr e ↦
            (let s0 = (set_live {env = env} (live_lines (remove_byte 13 res.stdout)) s).1 in
              elim (judged_found deadline timeout go (remove_byte 13 res.stdout)
                (check (remove_byte 13 res.stdout) s0) t c (rw e at h)) [
                  | inl q ↦ inl (s0, q)
                  | inr q ↦ inr q
                ])
      ]

  loop_found :
      {C : Type 0} (f : ℕ) (n : Node) (r : Request) (deadline timeout : ℕ)
      (check : Text → M env (Option C)) (failures : ℕ) (last : Text) (s t : St env) (c : C)
      → poll_loop p f n r deadline timeout check failures last s ≡ (ok c, t)
      → (out : Text) × Printed env r out × ((s0 : St env) × (check out s0 ≡ (ok (some c), t)))
  unfolding poll_loop
  loop_found zero n r deadline timeout check failures last s t c h = absurd (ground arith)
  loop_found (suc f) n r deadline timeout check failures last s t c h =
      elim (round_found n deadline timeout check (poll_loop p f n r deadline timeout check) failures
        last (env.run s.world r).0 _ t c h) [
          | inl (s0, q) ↦ (remove_byte 13 (env.run s.world r).0.stdout, (s.world, refl), (s0, q))
          | inr (k, l, s1, q) ↦ loop_found f n r deadline timeout check k l s1 t c q
        ]

  -- When `poll` returns a value, a call of the runner printed a text on which `check` said done with
  -- that value, in the state in which `poll` left.
  pub poll_found :
      {C : Type 0} (n : Node) (script : Text) (vars : Vars) (timeout : ℕ)
      (check : Text → M env (Option C)) (s t : St env) (c : C)
      → poll p n script vars timeout check s ≡ (ok c, t)
      → (out : Text) × Printed env (request p n script vars (90 * second)) out
        × ((s0 : St env) × (check out s0 ≡ (ok (some c), t)))
  unfolding poll
  poll_found n script vars timeout check s t c h =
      loop_found (rounds p timeout) n (request p n script vars (90 * second)) _ timeout check 0 [] s
        t c h
