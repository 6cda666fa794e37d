-- ===== src/SourceHealth.antt =====
-- shared/sourcehealth/sourcehealth.go: whether a source root is available, apart from whether its
-- items exist. Times are numbers; the failure messages are left out.
pub mod Preflight
use wii_bridge.Common.{ℕ, ◌+◌, String, Option, none, some}

pub data State : Type 0 where
  available offline unreachable permission_denied authentication_failed mount_missing : State
  temporary_unavailable changed missing_confirmed invalid unknown : State

pub data Availability : Type 0 where
  playable source_offline source_changed validation_required item_missing_confirmed : Availability
  item_invalid : Availability

pub data Code : Type 0 where
  no_code offline_code unreachable_code permission_denied_code mount_missing_code : Code
  identity_changed partial_scan readonly_guarantee_failed read_failed other_code : Code

pub record Record : Type 0 where
  pub source_id : String
  pub root_path : String
  pub state : State
  pub last_successful_scan : ℕ
  pub last_attempted_scan : ℕ
  pub last_successful_item_count : ℕ
  pub failure_code : Code
  pub consecutive_failures : ℕ
  pub filesystem_id : String
  pub root_inode : ℕ
  pub last_known_device : ℕ
  pub last_known_filesystem : String
  pub last_known_mount_info : String

-- The errors of the operating system that the code tells apart.
pub data OsError : Type 0 where
  permission not_exist timed_out net_unreachable host_unreachable : OsError
  io_failure stale other : OsError

-- `sourceID`: a hash of the root, a number and a string.
abbrev pub SourceId : Type 0
SourceId = String → ℕ → String → String

pub base : SourceId → Option Record → String → ℕ → Record
base source_id (some previous) root now = record previous {
  root_path = root;
  last_attempted_scan = now;
}
base source_id none root now = record {
  source_id = source_id root 0 "";
  root_path = root;
  state = unknown;
  last_successful_scan = 0;
  last_attempted_scan = now;
  last_successful_item_count = 0;
  failure_code = no_code;
  consecutive_failures = 0;
  filesystem_id = "";
  root_inode = 0;
  last_known_device = 0;
  last_known_filesystem = "";
  last_known_mount_info = "";
}

-- The record of `failure`; its error is the cause.
pub failure : SourceId → Option Record → String → State → Code → ℕ → Record
failure source_id previous root state code now =
    let r = base source_id previous root now in
    record r {
      state = state;
      failure_code = code;
      consecutive_failures = r.consecutive_failures + 1;
    }

-- The `switch` of `classifyFailure`.
pub classify : OsError → State × Code
classify permission = (permission_denied, permission_denied_code)
classify not_exist = (mount_missing, mount_missing_code)
classify timed_out = (unreachable, unreachable_code)
classify net_unreachable = (unreachable, unreachable_code)
classify host_unreachable = (unreachable, unreachable_code)
classify io_failure = (temporary_unavailable, offline_code)
classify stale = (temporary_unavailable, offline_code)
classify other = (offline, offline_code)

pub successful : Record → ℕ → ℕ → Record
successful previous item_count now = record previous {
  state = available;
  last_successful_scan = now;
  last_attempted_scan = now;
  last_successful_item_count = item_count;
  failure_code = no_code;
  consecutive_failures = 0;
}

pub partial : SourceId → Record → ℕ → Record
partial source_id previous now =
    failure source_id (some previous) previous.root_path temporary_unavailable partial_scan now

-- The code that a failed read reports decides the state.
pub runtime_failure : SourceId → Record → Code → ℕ → Record
runtime_failure source_id previous identity_changed now =
    failure source_id (some previous) previous.root_path changed identity_changed now
runtime_failure source_id previous permission_denied_code now =
    failure source_id (some previous) previous.root_path permission_denied permission_denied_code
      now
runtime_failure source_id previous readonly_guarantee_failed now =
    failure source_id (some previous) previous.root_path invalid readonly_guarantee_failed now
runtime_failure source_id previous _ now =
    failure source_id (some previous) previous.root_path temporary_unavailable read_failed now

-- `item` is the item's own availability, if it has one.
pub derived_availability : State → Option Availability → Availability
derived_availability available none = playable
derived_availability available (some item) = item
derived_availability changed item = source_changed
derived_availability invalid item = item_invalid
derived_availability _ item = source_offline
