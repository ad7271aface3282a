-- ===== src/Ssh/Become/Root.antt =====
-- internal/sshrun/become.go, `detectBecome`: what a chosen method rests on.
use khealth_tui.Base.{
  ℕ, ◌≡◌, ◌≢◌, ◌⊎◌, refl, subst, Bool, true, false, not, ◌&&◌, List, [], ◌∷◌, ◌++◌, none, arith,
  if◌then◌else◌, inl, inr, Option-cases,
}
use khealth_tui.Text.{Text, lit, text_eq, trim_space}
use khealth_tui.Text.Laws.{text_eq→eq, text_eq_iff}
use khealth_tui.Ssh.{Method}
use khealth_tui.Ssh.Env.{Env, Conf}
use khealth_tui.Ssh.Become.{
  Detected, method, no_method, Site, Ran, exec, is_zero, ask, ask_pass, try_tools, direct,
  become_probe, detect_become, from_tools, is_nil, classify_become_failure, parse_become_probe,
  become_password_of, elem,
}

module _ (env : Env) where
  -- The command that a method was tried with.
  abbrev asked : Method → Text
  asked m = if m.with_pass then ask_pass env m.tool else ask env m.tool

  -- On this connection the method's tool has printed the uid 0 and not failed; a password was fed only
  -- where one is set, and never to doas.
  abbrev pub HasAnswered : Text → ℕ → Text → Method → Type 0
  HasAnswered addr c password m =
      (s : Site env) × (stdin : Text) × ((exec env s addr c (asked m) stdin).0.err ≡ none)
      × (trim_space (exec env s addr c (asked m) stdin).0.out ≡ lit "0")
      × (m.with_pass ≡ true → (m.tool ≢ lit "doas") × (password ≢ []))

  is_zero-err :
      (ran : Ran env) → is_zero env ran ≡ true → (ran.err ≡ none) × (trim_space ran.out ≡ lit "0")
  is_zero-err ran h = elim (Option-cases ran.err) [
    | inl e ↦ (e, text_eq→eq (trim_space ran.out) (lit "0") (ground (arith, h, e)))
    | inr (x, e) ↦ absurd (ground (arith, h, e))
  ]

  module _ (P : Method → Type 0) where
    -- Each method that the result may name has the property.
    Names : Detected × Site env → Type 0
    Names d = (m : Method) → d.0 ≡ method m → P m

    either-Names :
        (b : Bool) (c d : Detected × Site env)
        → (b ≡ true → Names c)
        → (b ≡ false → Names d)
        → Names (if b then c else d)
    unfolding Names
    either-Names true c d f g = f refl
    either-Names false c d f g = g refl

    Names-method : (m : Method) (s : Site env) → P m → Names (method m, s)
    unfolding Names
    Names-method m s h n e = subst P (ground (arith, e)) h

    Names-no_method : (why : Text) (s : Site env) → Names (no_method why, s)
    unfolding Names
    Names-no_method why s n e = absurd (ground (arith, e))

  Names-map :
      (P Q : Method → Type 0) (d : Detected × Site env)
      → ((m : Method) → P m → Q m)
      → Names P d
      → Names Q d
  unfolding Names
  Names-map P Q d f h m e = f m (h m e)

  try_tools-Names :
      (s : Site env) (addr : Text) (c : ℕ) (uid password : Text) (reasons tools : List Text)
      → Names (HasAnswered addr c password) (try_tools env s addr c uid password reasons tools)
  unfolding try_tools
  try_tools-Names s addr c uid password reasons [] =
      Names-no_method (HasAnswered addr c password) _ _
  try_tools-Names s addr c uid password reasons (tool ∷ tools) =
      let P = HasAnswered addr c password in
      let stdin = password ++ (10 ∷ []) in
      let (ran, s1) = exec env s addr c (ask env tool) [] in
      let (ran2, s2) = exec env s1 addr c (ask_pass env tool) stdin in
      let next =
        λ (t : Site env) (rs : List Text). try_tools-Names t addr c uid password rs tools in
      either-Names P (is_zero env ran) _ _
        (λ z.
          Names-method P (record { tool = tool; with_pass = false }) s1
            (s, [], (is_zero-err ran z).0, (is_zero-err ran z).1, λ e. absurd (ground (arith, e))))
        (λ _.
          either-Names P (not (classify_become_failure tool ran.err_out).0) _ _ (λ _. next s1 _)
            (λ _.
              either-Names P (text_eq tool (lit "doas")) _ _ (λ _. next s1 _)
                (λ d.
                  either-Names P (text_eq password []) _ _ (λ _. next s1 _)
                    (λ p.
                      either-Names P (is_zero env ran2) _ _
                        (λ z.
                          Names-method P (record { tool = tool; with_pass = true }) s2
                            (
                              s1,
                              stdin,
                              (is_zero-err ran2 z).0,
                              (is_zero-err ran2 z).1,
                              λ _. (
                                (λ e. absurd (ground (arith, e, d, text_eq_iff tool (lit "doas")))),
                                (λ e. absurd (ground (arith, e, p, text_eq_iff password []))),
                              ),
                            ))
                        (λ _. next s2 _)))))

  from_tools-Names :
      (cfg : Conf) (s : Site env) (addr : Text) (c : ℕ) (uid : Text) (available : List Text)
      → Names
          (HasAnswered addr c (become_password_of cfg))
          (from_tools env cfg s addr c uid available)
  unfolding from_tools
  from_tools-Names cfg s addr c uid available =
      let P = HasAnswered addr c (become_password_of cfg) in
      let auto = text_eq cfg.become (lit "auto") in
      let candidates = if auto then available else cfg.become ∷ [] in
      either-Names P (not auto && not (elem cfg.become available)) _ _ (λ _. Names-no_method P _ _)
        (λ _.
          either-Names P (is_nil candidates) _ _ (λ _. Names-no_method P _ _)
            (λ _. try_tools-Names s addr c uid (become_password_of cfg) [] candidates))

  -- Why the runner may use a method on a connection: it is told not to become root, the login has the
  -- uid 0, or the method has answered.
  abbrev pub Chosen : Conf → Site env → Text → ℕ → Method → Type 0
  Chosen cfg s addr c m =
      ((cfg.become ≡ lit "none") × (m ≡ direct env))
      ⊎ (((parse_become_probe (exec env s addr c (lit "/bin/sh -s") (become_probe env)).0.out).0
            ≡ lit "0")
          × (m ≡ direct env))
      ⊎ HasAnswered addr c (become_password_of cfg) m

detect_become-Names :
    (env : Env) (cfg : Conf) (s : Site env) (addr : Text) (c : ℕ)
    → Names env (Chosen env cfg s addr c) (detect_become env cfg s addr c)
unfolding detect_become
detect_become-Names env cfg s addr c =
    let P = Chosen env cfg s addr c in
    let (ran, s1) = exec env s addr c (lit "/bin/sh -s") (become_probe env) in
    either-Names env P (text_eq cfg.become (lit "none")) _ _
      (λ e. Names-method env P _ _ (inl (text_eq→eq cfg.become (lit "none") e, refl)))
      (λ _. elim (Option-cases ran.err) [
        | inr (x, e) ↦ rw e (Names-no_method env P _ _)
        | inl e ↦ rw e (
            either-Names env P (text_eq (parse_become_probe ran.out).0 (lit "0")) _ _
              (λ z. Names-method env P _ _ (inr (inl (text_eq→eq _ _ z, refl))))
              (λ _.
                Names-map env (HasAnswered env addr c (become_password_of cfg)) P _
                  (λ m h. inr (inr h))
                  (from_tools-Names env cfg s1 addr c (parse_become_probe ran.out).0
                    (parse_become_probe ran.out).1)))
      ])

-- The method that detectBecome returns is direct only where nothing is to be done or the login has the
-- uid 0; any other has just given a shell with the uid 0 on this connection, and feeds a password only
-- where one is set, never to doas.
pub detect_become-Chosen :
    (env : Env) (cfg : Conf) (s : Site env) (addr : Text) (c : ℕ) (m : Method)
    → (detect_become env cfg s addr c).0 ≡ method m
    → Chosen env cfg s addr c m
unfolding Names
detect_become-Chosen env cfg s addr c m h = detect_become-Names env cfg s addr c m h
