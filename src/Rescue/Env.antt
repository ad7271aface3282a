-- ===== src/Rescue/Env.antt =====
-- What a rescue meets and does not implement: the SSH runner (internal/sshrun, over
-- golang.org/x/crypto/ssh), the clock, the context, the operator's Abort from another goroutine, the
-- receiver of the events, the JSON reader behind etcd.ParseCtl, and net/url with net.
use khealth_tui.Base.{ℕ, Bool, List, Option}
use khealth_tui.Text.{Text}
use khealth_tui.Etcd.{Probe}
use khealth_tui.Rescue.Types.{Step}

-- A script by its name and the variables that `render` puts into it, with the deadline of the call.
pub record Request : Type 0 where
  pub host : Text
  pub script : Text
  pub vars : List (Text × Text)
  pub timeout : ℕ

pub record Result : Type 0 where
  pub stdout : Text
  pub stderr : Text
  pub err : Option Text

pub record Event : Type 0 where
  pub steps : List Step
  -- `none` is -1: no step runs.
  pub current : Option ℕ
  pub is_done : Bool
  pub err : Option Text

pub record Env : Type 1 where
  pub World : Type 0
  pub run : World → Request → Result × World
  pub now : World → ℕ
  -- select on time.After and ctx.Done.
  pub pause : World → ℕ → World
  pub ctx_err : World → Option Text
  pub aborted : World → Bool
  -- Sends the event, or drops it when the context is done.
  pub emit : World → Event → World
  pub parse_ctl : Text → Text → Probe
  -- strutil.URLHost.
  pub url_host : Text → Text
  -- The host of net.SplitHostPort.
  pub split_host_port : Text → Option Text
  -- net.ParseIP(s) != nil.
  pub is_ip : Text → Bool
