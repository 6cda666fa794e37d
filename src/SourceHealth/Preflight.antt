-- ===== src/SourceHealth/Preflight.antt =====
-- `Preflight` and `PreflightReplacement` of sourcehealth.go: the check of a source root before a
-- scan.
pub mod Identity
mod Examples
use text.Mathlib.Text.{◌==◌ as str_eq}
use wii_bridge.Common.{
  ℕ, ◌+◌, String, Bool, true, false, ◌&&◌, ◌||◌, not, Option, none, some, ltb, ◌==◌, if◌then◌else◌,
}
use wii_bridge.SourceHealth.{
  State, available, mount_missing, changed, invalid, Code, no_code, offline_code,
  mount_missing_code, identity_changed, Record, OsError, SourceId, base, failure, classify,
}

-- What os.Lstat says of the root; device and inode are 0 where the system gives none.
pub record Info : Type 0 where
  pub is_symlink : Bool
  pub is_directory : Bool
  pub device : ℕ
  pub inode : ℕ

pub data Answer (A : Type 0) : Type 0 where
  fine : A → Answer A
  refused : OsError → Answer A

-- What the operating system answers about a root, in the order of the questions: filepath.Abs,
-- os.Lstat, the file system's id, `mountIdentity`, os.Open, Readdirnames (1) and Close. A listing
-- that ends at once is `empty`.
pub record Probe : Type 0 where
  pub absolute : String
  pub is_absolute : Bool
  pub lstat : Answer Info
  pub stable_id : Answer String
  pub filesystem : String
  pub mount : String
  pub opening : Option OsError
  pub reading : Option OsError
  pub closing : Option OsError
  pub is_empty : Bool

-- The record, and whether there was an error.
pub record Checked : Type 0 where
  pub outcome : Record
  pub failed : Bool

abbrev pub is_baseline : Option Record → Bool
is_baseline none = false
is_baseline (some previous) = not (str_eq previous.filesystem_id "")

-- The three comparisons with the last trusted identity.
pub identity_problem : Option Record → String → ℕ → ℕ → String → String → Option (State × Code)
identity_problem none absolute device inode stable mount = none
identity_problem (some previous) absolute device inode stable mount =
    if not (str_eq previous.filesystem_id "")
    then if not (str_eq stable previous.filesystem_id)
        || (inode == 0)
        || not (inode == previous.root_inode)
        || not (str_eq absolute previous.root_path)
      then some (changed, identity_changed)
      else none
    else if not (str_eq previous.last_known_mount_info "")
        && not (str_eq mount previous.last_known_mount_info)
    then some (mount_missing, mount_missing_code)
    else if not (previous.last_known_device == 0)
        && not (device == 0)
        && not (previous.last_known_device == device)
    then some (changed, identity_changed)
    else none

abbrev pub had_items : Option Record → Bool
had_items none = false
had_items (some previous) = ltb 0 previous.last_successful_item_count

-- Opening, reading and closing the root, and the root that is unexpectedly empty.
pub listing_problem : Option Record → Probe → Option (State × Code)
listing_problem previous probe = elim probe.opening [
  | some e ↦ some (classify e)
  | none ↦ elim probe.reading [
    | some e ↦ some (classify e)
    | none ↦ elim probe.closing [
      | some e ↦ some (classify e)
      | none ↦
          if probe.is_empty && had_items previous
          then some (mount_missing, mount_missing_code)
          else none
    ]
  ]
]

-- The first problem of a root, if there is one.
pub problem : Option Record → Probe → Option (State × Code)
problem previous probe =
    if not probe.is_absolute then some (invalid, offline_code) else elim probe.lstat [
      | refused e ↦ some (classify e)
      | fine info ↦
          if info.is_symlink || not info.is_directory
          then some (invalid, offline_code)
          else elim probe.stable_id [
            | refused e ↦ some (classify e)
            | fine stable ↦
                elim (identity_problem previous probe.absolute info.device info.inode stable
                  probe.mount) [ some p ↦ some p | none ↦ listing_problem previous probe ]
          ]
    ]

abbrev pub info_of : Answer Info → Info
info_of (fine info) = info
info_of (refused e) = record { is_symlink = false; is_directory = false; device = 0; inode = 0 }

abbrev pub id_of : Answer String → String
id_of (fine stable) = stable
id_of (refused e) = ""

-- The record of a root without a problem.
pub trusted : SourceId → Option Record → Probe → ℕ → Record
trusted source_id previous probe now =
    let info = info_of probe.lstat in
    let stable = id_of probe.stable_id in
    let r = base source_id previous probe.absolute now in
    let stays = str_eq stable "" || (info.inode == 0) in
    record r {
      source_id =
          if stays
          then source_id probe.absolute info.device probe.mount
          else source_id probe.absolute info.inode stable;
      filesystem_id = if stays then r.filesystem_id else stable;
      root_inode = if stays then r.root_inode else info.inode;
      state = available;
      failure_code = no_code;
      consecutive_failures = 0;
      last_known_device = info.device;
      last_known_filesystem = probe.filesystem;
      last_known_mount_info = probe.mount;
    }

pub preflight : SourceId → Option Record → Probe → ℕ → Checked
preflight source_id previous probe now = elim (problem previous probe) [
  | none ↦ record { outcome = trusted source_id previous probe now; failed = false }
  | some p ↦ record {
    outcome = failure source_id previous probe.absolute p.0 p.1 now;
    failed = true;
  }
]

-- The record that a replacement is compared with: nothing of the old identity.
abbrev pub forget : Record → Record
forget previous = record previous {
  last_known_device = 0;
  last_known_mount_info = "";
  filesystem_id = "";
  root_inode = 0;
}

pub preflight_replacement : SourceId → Record → Probe → ℕ → Checked
preflight_replacement source_id previous probe now =
    let checked = preflight source_id (some (forget previous)) probe now in
    if checked.failed
    then record {
      outcome =
          failure source_id (some previous) checked.outcome.root_path checked.outcome.state
            checked.outcome.failure_code checked.outcome.last_attempted_scan;
      failed = true;
    }
    else checked
