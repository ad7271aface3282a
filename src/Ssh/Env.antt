-- ===== src/Ssh/Env.antt =====
-- internal/sshrun: the settings of `config.SSH` that are read, and what golang.org/x/crypto/ssh, the net
-- package and the clock do.
use khealth_tui.Base.{ℕ, Bool, List, Option}
use khealth_tui.Text.{Text}

pub record Conf : Type 0 where
  pub user : Text
  pub password : Text
  pub become_password : Text
  pub become : Text
  pub bastion : Text
  pub port : Text
  pub nice : Bool
  -- The field `notes` of the runner, which New fills.
  pub notes : List Text

-- How `c.NewSession()` ends within the context, or the context's error.
pub data Opened : Type 0 where
  opened : Opened
  refused : Text → Opened
  late : Text → Opened

-- How a started command ends: by itself, with its error; killed, or not even then, with the context's error.
pub data Ended : Type 0 where
  done : Option Text → Ended
  killed : Text → Ended
  dead : Text → Ended

pub record Output : Type 0 where
  pub stdout : Text
  pub stderr : Text
  pub ended : Ended

pub record Env : Type 1 where
  pub World : Type 0
  pub now : World → ℕ
  -- A connection to the address as the user, or the error.
  pub dial : World → Text → Text → Option Text × World
  pub open_session : World → ℕ → Opened × World
  -- A command with its standard input, on a session of the connection.
  pub run_session : World → ℕ → Text → Text → Output × World
  -- A slot of `sem`, or the context's error.
  pub slot : World → Option Text × World
  -- net.SplitHostPort(host) succeeds; net.JoinHostPort.
  pub has_port : Text → Bool
  pub join_host_port : Text → Text → Text
