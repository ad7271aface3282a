-- ===== src/Etcd.antt =====
-- internal/etcd/probe.go: the part of an etcd probe that the rescue and the defragmentation read.
pub mod Leader
pub mod Merge
use khealth_tui.Base.{ℕ, Bool, true, false, List, [], ◌∷◌, Option, none, some, if◌then◌else◌}
use khealth_tui.Text.{Text, text_eq}

pub record Member : Type 0 where
  pub id : Text
  pub name : Text
  pub peer_urls : List Text
  pub client_urls : List Text
  pub is_learner : Bool

pub record EndpointStatus : Type 0 where
  pub endpoint : Text
  pub version : Text
  pub db_size : ℕ
  pub leader_id : Text
  pub member_id : Text
  pub raft_term : ℕ
  pub raft_index : ℕ

pub record Alarm : Type 0 where
  pub alarm_member : Text
  pub alarm_type : Text

-- `endpoint_health` keeps the `Healthy` flag of each endpoint's health.
pub record Probe : Type 0 where
  pub members : List Member
  pub statuses : List EndpointStatus
  pub endpoint_health : List Bool
  pub alarms : List Alarm

-- The loop of `Probe.Leader`; the text is the variable `leader`.
unfoldable pub leader_loop : Text → List EndpointStatus → Text
leader_loop leader [] = leader
leader_loop leader (st ∷ rest) =
    let first = leader_loop st.leader_id rest in
    let same = leader_loop leader rest in
    if text_eq st.leader_id []
    then []
    else if text_eq leader []
    then first
    else if text_eq st.leader_id leader
    then same
    else []

unfoldable pub leader : Probe → Text
unfolding leader_loop
leader p = leader_loop [] p.statuses

-- The loop of `Probe.Status`.
unfoldable pub status : List EndpointStatus → Text → Option EndpointStatus
status [] id = none
status (st ∷ rest) id = if text_eq st.member_id id then some st else status rest id
