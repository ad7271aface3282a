-- ===== src/Rescue/Outcome.antt =====
-- internal/rescue/rescue.go, `Run`: how the steps end.
use khealth_tui.Base.{
  length, length-map, ℕ, suc, ◌≡◌, ◌↔◌, refl, ◌⊎◌, inl, inr, Bool, true, false, List, [], ◌∷◌, ◌++◌,
  Option, none, some, arith, Bool-cases, append_assoc, append-nil, All, map, sym, ap, ◌∙◌,
}
use khealth_tui.Rescue.Types.{State, done, failed, skipped, Step, Plan}
use khealth_tui.Text.{Text}
use khealth_tui.Rescue.Env.{Env}
use khealth_tui.Rescue.Run.{
  Shared, run, run_loop, run_step, stops, failure, has_err, aborted_error, skip_step,
}

abbrev pub states : List Step → List State
states = map (λ s. s.state)

-- How the states of the steps stand when a run is over. `f` says whether a step failed, and `asked`
-- whether the operator or the context asks the run to stop. All steps before a point are done. At that
-- point the list ends, or a step failed, or the run was asked to stop; all behind are skipped.
pub data Ended (asked : Bool) : Bool → List State → Type 0 where
  all_done : Ended asked false []
  then_done : {f : Bool} {l : List State} → Ended asked f l → Ended asked f (done ∷ l)
  then_failed : {l : List State} → All (λ s. s ≡ skipped) l → Ended asked true (failed ∷ l)
  then_stopped : {l : List State} → asked ≡ true → All (λ s. s ≡ skipped) l → Ended asked false l

pub step_end :
    {env : Env} (p : Plan) (before after : List Step) (i : ℕ) (s : Step) (h : Shared env)
    → let r = run_step p before after i s h in
      ((r.0.state ≡ done) × (r.2 ≡ none)) ⊎ ((r.0.state ≡ failed) × (has_err r.2 ≡ true))
unfolding run_step failure
step_end p before after i s h = ground arith

pub skip_all :
    {env : Env} (p : Plan) (before : List Step) (i : ℕ) (e : Option Text) (steps : List Step)
    (h : Shared env)
    → stops e h ≡ true
    → run_loop p before i e steps h ≡ (before ++ map skip_step steps, h, e)
unfolding run_loop
skip_all p before i e [] h st = rw append-nil
skip_all p before i e (s ∷ after) h st =
    rw st (rw (skip_all p (before ++ skip_step s ∷ []) (suc i) e after h st) (rw append_assoc))

All-skip_step : (steps : List Step) → All (λ s. s ≡ skipped) (states (map skip_step steps))
All-skip_step [] = tt
All-skip_step (s ∷ steps) = (refl, All-skip_step steps)

-- What `loop_ended` proves of the result of the loop.
abbrev LoopEnded :
    {env : Env} → List Step → List Step → List Step × Shared env × Option Text → Type 0
LoopEnded before steps r =
    (outs : List Step) × (r.0 ≡ before ++ outs)
    × (length outs ≡ length steps)
    × Ended (stops none r.1) (has_err r.2) (states outs)

stopped :
    {env : Env} (p : Plan) (before : List Step) (i : ℕ) (steps : List Step) (h : Shared env)
    → stops none h ≡ true
    → LoopEnded before steps (run_loop p before i none steps h)
stopped p before i steps h st =
    rw (skip_all p before i none steps h st)
      (map skip_step steps, refl, length-map steps skip_step, then_stopped st (All-skip_step steps))

after_failure :
    {env : Env} (p : Plan) (before : List Step) (i : ℕ) (x : Step) (e : Option Text)
    (steps : List Step) (h : Shared env)
    → has_err e ≡ true
    → x.state ≡ failed
    → LoopEnded before (x ∷ steps) (run_loop p (before ++ x ∷ []) i e steps h)
after_failure p before i x e steps h he hx =
    rw (skip_all p (before ++ x ∷ []) i e steps h (ground arith)) (
      x ∷ map skip_step steps,
      append_assoc before (x ∷ []) (map skip_step steps),
      ap suc (length-map steps skip_step),
      rw (he, hx) (then_failed (All-skip_step steps)),
    )

prepend :
    {env : Env} (before steps : List Step) (x : Step) (r : List Step × Shared env × Option Text)
    → x.state ≡ done
    → LoopEnded (before ++ x ∷ []) steps r
    → LoopEnded before (x ∷ steps) r
prepend before steps x r hx (outs, e, l, d) =
    (x ∷ outs, e ∙ append_assoc before (x ∷ []) outs, ap suc l, rw hx (then_done d))

pub loop_go :
    {env : Env} (p : Plan) (before : List Step) (i : ℕ) (s : Step) (after : List Step)
    (h : Shared env)
    → stops none h ≡ false
    → run_loop p before i none (s ∷ after) h ≡ (
        let r = run_step p before after i s h in
        run_loop p (before ++ r.0 ∷ []) (suc i) r.2 after r.1)
unfolding run_loop
loop_go p before i s after h st = rw st

loop_ended :
    {env : Env} (p : Plan) (before : List Step) (i : ℕ) (steps : List Step) (h : Shared env)
    → LoopEnded before steps (run_loop p before i none steps h)
loop_ended p before i [] h =
    ([], unfold run_loop in sym (append-nil before), refl, unfold run_loop in all_done)
loop_ended {env} p before i (s ∷ after) h = elim (Bool-cases (stops none h)) [
  | inl st ↦ stopped p before i (s ∷ after) h st
  | inr st ↦
      (let r = run_step p before after i s h in
        rw (loop_go p before i s after h st) (elim (step_end p before after i s h) [
          | inl (hd, he) ↦ rw he (
              prepend {env = env} before after r.0
                (run_loop p (before ++ r.0 ∷ []) (suc i) none after r.1) hd
                (loop_ended p (before ++ r.0 ∷ []) (suc i) after r.1))
          | inr (hf, he) ↦ after_failure p before (suc i) r.0 r.2 after r.1 he hf
        ]))
]

-- `asked` at the end of a run.
abbrev pub asked_to_stop : {env : Env} → Plan → List Step → Shared env → Bool
asked_to_stop p steps h = stops none (run_loop p [] 0 none steps h).1

-- When `Run` is over, there are as many steps as before, and for some number the steps before it are
-- done and the one at it has failed, or the run was asked to stop there (by the operator or the
-- context), or it is the end; all steps behind are skipped. If a step failed, `Run` reports an error.
pub run-Ended :
    {env : Env} (p : Plan) (steps : List Step) (h : Shared env)
    → (f : Bool) × Ended (asked_to_stop p steps h) f (states (run p steps h).steps)
      × (f ≡ true → has_err (run p steps h).err ≡ true)
      × (length (run p steps h).steps ≡ length steps)
unfolding run aborted_error
run-Ended {env} p steps h =
    let (outs, e, l, d) = loop_ended p [] 0 steps h in
    (has_err (run_loop p [] 0 none steps h).2, rw e d, λ ft. ground arith, rw e l)

Ended-done :
    {a f : Bool} {l : List State} → a ≡ false → f ≡ false → Ended a f l → All (λ s. s ≡ done) l
Ended-done ha hf all_done = tt
Ended-done ha hf (then_done d) = (refl, Ended-done ha hf d)
Ended-done ha hf (then_failed _) = cc
Ended-done ha hf (then_stopped h _) = cc

done-Ended : {a f : Bool} {l : List State} → Ended a f l → All (λ s. s ≡ done) l → f ≡ false
done-Ended all_done h = refl
done-Ended (then_done d) (_, h) = done-Ended d h
done-Ended (then_failed _) (h, _) = cc
done-Ended (then_stopped _ _) h = refl

-- With a context that is never cancelled (the one that the UI passes), `Run` reports no error exactly
-- when every step is done and the operator has not asked to abort.
pub run_ok_iff :
    {env : Env} (p : Plan) (steps : List Step) (h : Shared env)
    → ((w : env.World) → env.ctx_err w ≡ none)
    → ((run p steps h).err ≡ none) ↔ (
        All (λ s. s ≡ done) (states (run p steps h).steps)
        × (env.aborted (run_loop p [] 0 none steps h).1.world ≡ false))
unfolding run aborted_error
run_ok_iff {env} p steps h bg =
    let (outs, e, l, d) = loop_ended p [] 0 steps h in
    let h1 = (run_loop p [] 0 none steps h).1 in
    let ctx : env.ctx_err h1.world ≡ none = bg h1.world in
    (
      λ no. (rw e (Ended-done (ground (arith, ctx)) (ground arith) d), ground arith),
      λ (yes_all, calm).
          (let all_outs : All (λ s. s ≡ done) (states outs) = rw e at yes_all in
            ground (arith, done-Ended d all_outs)),
    )

-- If the context is cancelled before the first step and nobody asked to abort, `Run` skips every step
-- and reports no error.
pub run_cancelled :
    {env : Env} (p : Plan) (steps : List Step) (h : Shared env) {e : Text}
    → env.ctx_err h.world ≡ some e
    → env.aborted h.world ≡ false
    → All (λ s. s ≡ skipped) (states (run p steps h).steps) × ((run p steps h).err ≡ none)
unfolding run aborted_error
run_cancelled p steps h hc ha =
    let q = skip_all p [] 0 none steps h (ground arith) in rw q (All-skip_step steps, ground arith)
