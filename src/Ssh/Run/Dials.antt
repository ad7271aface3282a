-- ===== src/Ssh/Run/Dials.antt =====
-- internal/sshrun/runner.go, `client`: when a TCP connection is opened.
use khealth_tui.Base.{◌+◌, ◌-◌, ◌≤◌, ◌≡◌, ◌↔◌, refl, none, some, arith, inl, inr, Option-cases}
use khealth_tui.Text.{Text}
use khealth_tui.Text.Assoc.{get}
use khealth_tui.Ssh.{Runner, DialFailure, look, start_dial, dialed, dial_failed, dial_fail_memo}
use khealth_tui.Ssh
use khealth_tui.Ssh.Env.{Env, Conf}
use khealth_tui.Ssh.Become.{Site}
use khealth_tui.Ssh.Run.{client}

module _ (env : Env) (cfg : Conf) where
  -- No connection is cached, and no dial has failed within the last five seconds.
  abbrev pub NeedsDial : Site env → Text → Type 0
  NeedsDial s addr =
      (get addr s.0.clients ≡ none)
      × ((f : DialFailure) → get addr s.0.dial_fail ≡ some f → dial_fail_memo ≤ env.now s.1 - f.at)

  look-NeedsDial :
      (s : Site env) (addr : Text) → look s.0 addr (env.now s.1) ≡ Ssh.absent → NeedsDial s addr
  unfolding look
  look-NeedsDial s addr h = elim (Option-cases (get addr s.0.clients)) [
    | inr (c, e) ↦ absurd (ground (arith, h, e))
    | inl e ↦ (e, λ f q. ground (arith, h, e, q))
  ]

  NeedsDial-look :
      (s : Site env) (addr : Text) → NeedsDial s addr → look s.0 addr (env.now s.1) ≡ Ssh.absent
  unfolding look
  NeedsDial-look s addr (e, old) = elim (Option-cases (get addr s.0.dial_fail)) [
    | inl q ↦ rw (look, e, q) refl
    | inr (f, q) ↦ (let late = old f q in ground (arith, e, q, late))
  ]

  absent-dials :
      (s : Site env) (addr : Text)
      → look s.0 addr (env.now s.1) ≡ Ssh.absent
      → (client env cfg s addr).2.0.dials ≡ s.0.dials + 1
  unfolding client start_dial dialed dial_failed
  absent-dials s addr h = elim (Option-cases (env.dial s.1 addr cfg.user).0) [
    | inl e ↦ rw (client, h, e) refl
    | inr (x, e) ↦ rw (client, h, e) refl
  ]

  dials-absent :
      (s : Site env) (addr : Text)
      → (client env cfg s addr).2.0.dials ≡ s.0.dials + 1
      → look s.0 addr (env.now s.1) ≡ Ssh.absent
  unfolding client
  dials-absent s addr = go (look s.0 addr (env.now s.1)) refl
    where
      go :
          (f : Ssh.Found)
          → look s.0 addr (env.now s.1) ≡ f
          → (client env cfg s addr).2.0.dials ≡ s.0.dials + 1
          → look s.0 addr (env.now s.1) ≡ Ssh.absent
      go (Ssh.cached c) e h = absurd (ground (arith, h, e))
      go (Ssh.refused x) e h = absurd (ground (arith, h, e))
      go Ssh.absent e h = e

-- `client` opens a connection exactly when none is cached for the address and no dial to it has failed
-- within the last five seconds.
pub client-NeedsDial :
    (env : Env) (cfg : Conf) (s : Site env) (addr : Text)
    → ((client env cfg s addr).2.0.dials ≡ s.0.dials + 1) ↔ NeedsDial env cfg s addr
client-NeedsDial env cfg s addr = (
  (λ h. look-NeedsDial env cfg s addr (dials-absent env cfg s addr h)),
  (λ h. absent-dials env cfg s addr (NeedsDial-look env cfg s addr h)),
)
