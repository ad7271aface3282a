-- ===== src/Rescue/Monad.antt =====
-- The state that a step of a rescue changes, and steps that may fail as a monad over it.
use khealth_tui.Base.{ℕ, List, ◌∷◌, [], ◌++◌}
use khealth_tui.Text.{Text}
use khealth_tui.Rescue.Types.{Step}
use khealth_tui.Rescue.Env.{Env}

-- `needs_reset` is the error type of that name; `out_of_rounds` belongs to the model only.
pub data Error : Type 0 where
  plain : Text → Error
  needs_reset : Text → Error
  out_of_rounds : Error

pub data Res {ℓ} (A : Type ℓ) : Type ℓ where
  ok : A → Res A
  err : Error → Res A

module _ (env : Env) where
  open env use {World}

  -- The step that runs, the fields of `Plan` that a run changes, the variables `initialCluster` of the
  -- closures by their numbers, and the world.
  pub record St : Type 0 where
    pub step : Step
    pub notes : List Text
    pub agent_off : List Text
    pub clusters : List (ℕ × Text)
    pub world : World

  abbrev pub M : Type 0 → Type 0
  M A = St → Res A × St

module _ {env : Env} where
  abbrev pub bind_res : {A B : Type 0} → Res A → St env → (A → M env B) → Res B × St env
  bind_res (ok a) s f = f a s
  bind_res (err e) s f = (err e, s)

  infixl 5 ◌>>=◌ ◌>>◌
  abbrev pub ◌>>=◌ : {A B : Type 0} → M env A → (A → M env B) → M env B
  ◌>>=◌ m f s = bind_res (m s).0 (m s).1 f

  abbrev pub ◌>>◌ : {A B : Type 0} → M env A → M env B → M env B
  ◌>>◌ m k = ◌>>=◌ m (λ _. k)

  abbrev pub return : {A : Type 0} → A → M env A
  return a s = (ok a, s)

  abbrev pub fail : {A : Type 0} → Error → M env A
  fail e s = (err e, s)

  -- `logLine`.
  abbrev pub log_lines : List Text → M env (Unit {0})
  log_lines ls s = let st = s.step in (ok tt, record s { step = record st { log = st.log ++ ls } })

  abbrev pub set_live : List Text → M env (Unit {0})
  set_live ls s = let st = s.step in (ok tt, record s { step = record st { live = ls } })

  -- s.Live = append([]string{l}, s.Live...)
  abbrev pub push_live : Text → M env (Unit {0})
  push_live l s = let st = s.step in (ok tt, record s { step = record st { live = l ∷ st.live } })

  abbrev pub note : Text → M env (Unit {0})
  note t s = (ok tt, record s { notes = s.notes ++ t ∷ [] })
