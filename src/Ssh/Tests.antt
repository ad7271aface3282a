-- ===== src/Ssh/Tests.antt =====
-- internal/sshrun: one host with sudo, and the theorems applied to it.
use khealth_tui.Base.{
  ℕ, ◌+◌, ◌≡◌, ◌↔◌, refl, false, ◌≢◌, inl, inr, Bool-cases, ◌==◌, [], ◌∷◌, ◌++◌, none, some, arith,
  if◌then◌else◌,
}
use khealth_tui.Text.{Text, lit, text_eq, codes, trim_space}
use khealth_tui.Ssh.{
  Method, new_runner, Caller, queued, idle, inside, dialing, opened, connected, start_dial, dialed,
  look,
}
use khealth_tui.Ssh.Env
use khealth_tui.Ssh.Env.{Env, Conf, Output}
use khealth_tui.Ssh.Moves.{
  System, Reach, call, lock, miss, answer, keep_conn, start, later, moved, holds,
}
use khealth_tui.Ssh.Single.{Single, AtMostOne, Reach-Single}
use khealth_tui.Ssh.Become.{detect_become, method, Site}
use khealth_tui.Ssh.Become.Root.{Chosen, detect_become-Chosen}
use khealth_tui.Ssh.Run.{run, client}
use khealth_tui.Ssh.Run.Dials.{NeedsDial, client-NeedsDial}

abbrev conf : Conf
conf = record {
  user = codes "op";
  password = [];
  become_password = [];
  become = codes "auto";
  bastion = [];
  port = codes "22";
  nice = false;
  notes = [];
}

-- The login is no root, and sudo needs no password.
abbrev printed : Text → Text
printed cmd =
    if text_eq cmd (codes "/bin/sh -s")
    then codes "1000\ntool=sudo\n"
    else if text_eq cmd (codes "sudo -n id -u")
    then codes "0\n"
    else codes "hello"

-- The world is the clock.
abbrev host : Env
host = record {
  World = ℕ;
  now = λ w. w;
  dial = λ w a u. (none, w + 1);
  open_session = λ w c. (Env.opened, w + 1);
  run_session =
      λ w c cmd stdin. (record { stdout = printed cmd; stderr = []; ended = Env.done none }, w + 1);
  slot = λ w. (none, w);
  has_port = λ t. false;
  join_host_port = λ h p. h ++ (58 ∷ p);
}

abbrev site : Site host
site = (new_runner, 0)

abbrev sudo : Method
sudo = record { tool = codes "sudo"; with_pass = false }

hello : (run host conf site (codes "n1") (codes "echo hello")).0.stdout ≡ codes "hello"
unfolding run look khealth_tui.Ssh.Become.new_session dialed start_dial detect_become lit
    khealth_tui.Ssh.Become.parse_become_probe khealth_tui.Text.split trim_space
    khealth_tui.Text.trim_prefix
hello = refl

one_dial : (run host conf site (codes "n1") (codes "echo hello")).1.0.dials ≡ 1
unfolding run look khealth_tui.Ssh.Become.new_session dialed start_dial detect_become lit
    khealth_tui.Ssh.Become.parse_become_probe khealth_tui.Text.split trim_space
    khealth_tui.Text.trim_prefix
one_dial = refl

detect_become-Chosen_example : Chosen host conf site (codes "n1:22") 1 sudo
unfolding detect_become lit khealth_tui.Ssh.Become.parse_become_probe khealth_tui.Text.split
    trim_space khealth_tui.Text.trim_prefix
detect_become-Chosen_example = detect_become-Chosen host conf site (codes "n1:22") 1 sudo refl

client-NeedsDial_example :
    ((client host conf site (codes "n1:22")).2.0.dials ≡ 0 + 1)
    ↔ NeedsDial host conf site (codes "n1:22")
client-NeedsDial_example = client-NeedsDial host conf site (codes "n1:22")

abbrev addr : Text
addr = codes "n1:22"

abbrev two : ℕ → Caller
two = moved (moved (λ i. idle) 0 (queued addr)) 1 (queued addr)

-- The first of two callers has dialed and has its connection; the second still waits.
abbrev served : System
served = record {
  runner = dialed (start_dial new_runner) addr 1;
  caller =
      moved (moved (moved (moved two 0 (inside addr)) 0 (dialing addr 1)) 0 (opened addr 1)) 0
        (connected addr 1);
}

nobody : (j : ℕ) → holds (two j) ≢ some addr
nobody j h = elim (Bool-cases (1 == j)) [
  | inl e ↦ absurd (ground (arith, h, e))
  | inr e ↦ (elim (Bool-cases (0 == j)) [
    | inl d ↦ absurd (ground (arith, h, e, d))
    | inr d ↦ absurd (ground (arith, h, e, d))
  ])
]

served-Reach : Reach served
unfolding look khealth_tui.Ssh.store dialed
served-Reach =
    later
      (later
        (later
          (later (later (later start (call 0 addr refl)) (call 1 addr refl))
            (lock 0 addr refl nobody))
          (miss 0 addr 7 refl refl))
        (answer 0 addr 1 refl))
      (keep_conn 0 addr 1 refl)

Reach-Single_example : Single served × AtMostOne served
Reach-Single_example = Reach-Single served-Reach
