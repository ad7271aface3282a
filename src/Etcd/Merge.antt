-- ===== src/Etcd/Merge.antt =====
-- internal/etcd/probe.go: `Probe.Merge`, which carries over what a light cycle did not collect, and the
-- lookups of the last election and the latest snapshot.
pub mod Newest
pub mod Last
mod Tests
use khealth_tui.Base.{
  ℕ, ◌+◌, Bool, true, false, not, ◌&&◌, ◌||◌, List, [], ◌∷◌, Option, none, some, if◌then◌else◌, ltb,
  ◌==◌, length,
}
use khealth_tui.Text.{Text, text_eq}
use khealth_tui.Etcd.{Member, EndpointStatus, Alarm}

pub record Peer : Type 0 where
  pub host : Text
  pub peer_url : Text
  pub name : Text
  pub id : Text
  pub source : Text

pub record ConfigFile : Type 0 where
  pub path : Text
  pub content : Text

pub record EndpointHealth : Type 0 where
  pub endpoint : Text
  pub healthy : Bool
  pub took : Text
  pub error : Text

-- `LeaderEvent`, with its time as a number.
pub record LeaderEvent : Type 0 where
  pub time : ℕ
  pub term : ℕ
  pub leader : Text
  pub line : Text

pub record SnapshotFile : Type 0 where
  pub name : Text
  pub size : ℕ
  pub mod_time : ℕ

pub record SnapshotDir : Type 0 where
  pub path : Text
  pub files : List SnapshotFile

pub record Encryption : Type 0 where
  pub config_file : Text
  pub tokens : List Text
  pub sample_key : Text
  pub sample_prefix : Text

-- The fields of `Probe` that `Merge` reads and writes; those of a section that is collected together are
-- one record. A nil pointer is `none`.
pub record Peers : Type 0 where
  pub peers : List Peer
  pub self_name : Text

pub record Files : Type 0 where
  pub sources : List Text
  pub config_dump : List ConfigFile
  pub snapshot_dirs : List SnapshotDir
  pub backup_hints : List Text

pub record Ctl : Type 0 where
  pub via : Text
  pub diag : Text
  pub out : Text
  pub members : List Member
  pub statuses : List EndpointStatus
  pub alarms : List Alarm
  pub endpoint_health : List EndpointHealth

pub record Scan : Type 0 where
  pub local_member_id : Text
  pub leader_events : List LeaderEvent
  pub leader_log_skipped : Bool
  pub peers : Peers
  pub peers_skipped : Bool
  pub files : Files
  pub encryption : Option Encryption
  pub rke2_config : List (Text × Text)
  pub full_skipped : Bool
  pub ctl : Ctl
  pub etcdctl_skipped : Bool

abbrev pub no_encryption : Encryption
no_encryption = record { config_file = []; tokens = []; sample_key = []; sample_prefix = [] }

abbrev or_empty : Option Encryption → Encryption
or_empty none = no_encryption
or_empty (some e) = e

abbrev is_nil : {A : Type 0} → List A → Bool
is_nil [] = true
is_nil (x ∷ xs) = false

unfoldable pub merge_log : Scan → Scan → Scan
merge_log p prev =
    if p.leader_log_skipped
    then record p {
      local_member_id =
          if is_nil p.local_member_id then prev.local_member_id else p.local_member_id;
      leader_events = if is_nil p.leader_events then prev.leader_events else p.leader_events;
    }
    else p

unfoldable pub merge_peers : Scan → Scan → Scan
merge_peers p prev =
    if p.peers_skipped && not prev.peers_skipped
    then record p { peers = prev.peers; peers_skipped = false }
    else p

-- The providers of the encryption, when the previous probe has some.
unfoldable pub carry_config : Option Encryption → Option Encryption → Option Encryption
carry_config e none = e
carry_config e (some old) =
    let mine = or_empty e in
    some (
      if is_nil mine.config_file
      then record mine { config_file = old.config_file; tokens = old.tokens }
      else mine)

unfoldable pub merge_full : Scan → Scan → Scan
unfolding carry_config
merge_full p prev =
    if p.full_skipped && not prev.full_skipped
    then record p {
      files = prev.files;
      encryption = carry_config p.encryption prev.encryption;
      rke2_config = if is_nil p.rke2_config then prev.rke2_config else p.rke2_config;
      full_skipped = false;
    }
    else p

-- The sampled Secret, when this probe has none.
unfoldable pub carry_sample : Option Encryption → Option Encryption → Option Encryption
carry_sample e none = e
carry_sample e (some old) =
    let mine = or_empty e in
    if is_nil mine.sample_prefix
    then some (record mine { sample_key = old.sample_key; sample_prefix = old.sample_prefix })
    else e

unfoldable pub merge_ctl : Scan → Scan → Scan
unfolding carry_sample
merge_ctl p prev =
    if p.etcdctl_skipped && not prev.etcdctl_skipped
    then record p {
      ctl = prev.ctl;
      etcdctl_skipped = false;
      encryption = carry_sample p.encryption prev.encryption;
    }
    else p

unfoldable pub merge : Scan → Option Scan → Scan
unfolding merge_log merge_peers merge_full merge_ctl
merge p none = p
merge p (some prev) = merge_ctl (merge_full (merge_peers (merge_log p prev) prev) prev) prev

-- `LastLeader`; the option is `best` with `found`.
unfoldable pub last_loop : Option LeaderEvent → List LeaderEvent → Option LeaderEvent
last_loop best [] = best
last_loop none (ev ∷ evs) = last_loop (some ev) evs
last_loop (some best) (ev ∷ evs) =
    let later = ltb best.term ev.term || ((ev.term == best.term) && ltb best.time ev.time) in
    last_loop (some (if later then ev else best)) evs

unfoldable pub last_leader : Scan → Option LeaderEvent
unfolding last_loop
last_leader p = last_loop none p.leader_events

-- `LatestSnapshot`: the file with its directory.
unfoldable pub files_loop :
    Text → Option (SnapshotFile × Text) → List SnapshotFile → Option (SnapshotFile × Text)
files_loop dir best [] = best
files_loop dir none (f ∷ fs) = files_loop dir (some (f, dir)) fs
files_loop dir (some (b, d)) (f ∷ fs) =
    files_loop dir (some (if ltb b.mod_time f.mod_time then (f, dir) else (b, d))) fs

unfoldable pub dirs_loop :
    Option (SnapshotFile × Text) → List SnapshotDir → Option (SnapshotFile × Text)
unfolding files_loop
dirs_loop best [] = best
dirs_loop best (d ∷ ds) = dirs_loop (files_loop d.path best d.files) ds

unfoldable pub latest_snapshot : Scan → Option (SnapshotFile × Text)
unfolding dirs_loop
latest_snapshot p = dirs_loop none p.files.snapshot_dirs

unfoldable pub snapshot_count : List SnapshotDir → ℕ
snapshot_count [] = 0
snapshot_count (d ∷ ds) = length d.files + snapshot_count ds
