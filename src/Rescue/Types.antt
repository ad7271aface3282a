-- ===== src/Rescue/Types.antt =====
-- internal/rescue/rescue.go: the data of a rescue. A value of the source's `Time` or `Duration` is a
-- number of nanoseconds; the sizes that the preflight script prints are not negative.
use khealth_tui.Base.{ℕ, ◌*◌, Bool, List, Option}
use khealth_tui.Text.{Text}

pub data Kind : Type 0 where
  rke2 k3s kubeadm : Kind

pub record Facts : Type 0 where
  pub ok : Bool
  pub err : Text
  pub hostname : Text
  pub bin : Text
  pub svc_state : Text
  pub owner : Text
  pub mode : Text
  pub member : Text
  pub size_kb : ℕ
  pub avail_kb : ℕ
  pub mount : Bool
  pub rescue : Text
  pub config : List Text
  pub has_server : Bool
  pub server_url : Text
  pub node_ip : Text
  pub cluster_init : Bool
  pub agent : Text
  pub rancher : Bool
  pub addrs : List Text
  pub profile : Text
  pub s3 : Bool
  pub s3_secret : Text
  pub etcd_user : Bool
  pub manifest : Text
  pub api_endpoint : Text
  pub member_name : Text
  pub peer_url : Text
  pub image : Text
  pub initial_cluster : Text
  pub tools : List Text
  pub snapshot : Text
  pub snapshot_size : ℕ
  pub snapshot_time : ℕ

pub record Node : Type 0 where
  pub name : Text
  pub host : Text
  pub ip : Text
  pub data_dir : Text
  pub facts : Facts

pub data State : Type 0 where
  pending running done failed skipped : State

-- The closures that `build` hands to `add`, one constructor for each shape of closure. `run_script`
-- holds what the closure passes to `exec`; `wants` what it passes to `waitStatus`.
pub data Action : Type 0 where
  agent_stop : Node → Action
  agent_start : Node → Action
  run_script : Node → Text → List (Text × Text) → ℕ → Text → Action
  -- The same, with a note when the script succeeded.
  run_noted : Node → Text → List (Text × Text) → ℕ → Text → Text → Action
  wait_status : Node → ℕ → Bool → Bool → Text → Action
  restore_verified : Node → Action
  target_up : Node → Action
  unpark_api : Node → ℕ → Action
  restart_cni : Node → Action
  -- The two closures that share the variable `initialCluster`; the number names the variable.
  register : Node → Node → ℕ → Action
  patch_manifest : Node → ℕ → Action

pub record Step : Type 0 where
  pub title : Text
  pub node : Text
  pub state : State
  pub log : List Text
  pub live : List Text
  pub error : Text
  pub started : Option ℕ
  pub finished : Option ℕ
  pub action : Action

-- The fields of `Plan` that a run does not change.
pub record Plan : Type 0 where
  pub kind : Kind
  pub dd : Text
  pub target : Node
  pub others : List Node
  pub snapshot : Text
  pub s3 : Bool
  pub take_snapshot : Bool
  pub stamp : Text
  pub poll_interval : ℕ
  pub wait_timeout : ℕ
  pub rejoin : Bool
  pub member_count : ℕ
  pub left_out : List Node

abbrev pub second : ℕ
second = 1000000000

abbrev pub minute : ℕ
minute = 60 * second
