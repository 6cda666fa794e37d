-- ===== src/SourceHealth/Preflight/Examples.antt =====
-- The theorems of the source checks at a concrete source.
use wii_bridge.Common.{◌≡◌, ◌≢◌, refl, true, false, none, some}
use wii_bridge.SourceHealth.{available, no_code, Record, OsError, SourceId}
use wii_bridge.SourceHealth.Preflight.{
  Probe, fine, refused, had_items, problem, identity_problem, listing_problem, info_of, id_of,
  preflight, preflight_replacement,
}
use wii_bridge.SourceHealth.Preflight.Identity.{Kept, failed_check_keeps, preflight_same_identity}

abbrev hash : SourceId
hash root n s = root

abbrev known : Record
known = record {
  source_id = "source-1";
  root_path = "/games";
  state = available;
  last_successful_scan = 5;
  last_attempted_scan = 5;
  last_successful_item_count = 3;
  failure_code = no_code;
  consecutive_failures = 0;
  filesystem_id = "zfs-1";
  root_inode = 34;
  last_known_device = 2;
  last_known_filesystem = "zfs";
  last_known_mount_info = "tank";
}

abbrev present : Probe
present = record {
  absolute = "/games";
  is_absolute = true;
  lstat = fine (record { is_symlink = false; is_directory = true; device = 7; inode = 34 });
  stable_id = fine "zfs-1";
  filesystem = "zfs";
  mount = "tank";
  opening = none;
  reading = none;
  closing = none;
  is_empty = false;
}

abbrev unmounted : Probe
unmounted = record present { lstat = refused OsError.not_exist }

failed_check_keeps_example :
    let first = preflight hash (some known) unmounted 9 in
    let second = preflight_replacement hash known unmounted 9 in
    (first.failed ≡ true → Kept known "/games" first.outcome × (first.outcome.state ≢ available))
    × (second.failed ≡ true
        → Kept known "/games" second.outcome × (second.outcome.state ≢ available))
failed_check_keeps_example = failed_check_keeps hash known unmounted 9

passes : (preflight hash (some known) present 9).failed ≡ false
unfolding preflight problem identity_problem listing_problem
passes = refl

known_id : known.filesystem_id ≢ ""
known_id e = absurd (cc e)

preflight_same_identity_example :
    let r = (preflight hash (some known) present 9).outcome in
    (r.state ≡ available)
    × (r.filesystem_id ≡ known.filesystem_id)
    × (r.root_inode ≡ known.root_inode)
    × (r.root_path ≡ known.root_path)
    × (r.root_inode ≢ 0)
    × (id_of present.stable_id ≡ known.filesystem_id)
    × ((info_of present.lstat).inode ≡ known.root_inode)
    × (present.absolute ≡ known.root_path)
    × (had_items (some known) ≡ true → present.is_empty ≡ false)
preflight_same_identity_example = preflight_same_identity hash known present 9 known_id passes
