-- ===== src/Fat32/Handles.antt =====
-- The cache of open image files of backend.go (`open` and `dropCached`) and `verifyIdentity`. What
-- the operating system answers is an argument.
pub mod Bounded
use text.Mathlib.Text.{◌==◌ as str_eq}
use wii_bridge.Common.{
  ℕ, ◌+◌, String, Bool, true, false, ◌||◌, ◌&&◌, not, Option, none, some, List, [], ◌∷◌, ltb, leb,
  ◌==◌, if◌then◌else◌, Bytes, length, max,
}
use wii_bridge.Fat32.{Identity, Extent}

-- What os.Lstat gives.
pub record Info : Type 0 where
  pub is_regular : Bool
  pub is_symlink : Bool
  pub size : ℕ
  pub mod_time : ℕ
  pub inode : ℕ
  pub device : ℕ

-- The operating system: os.Lstat, sourceidentity.FilesystemID, os.Open and File.Close by path, and
-- File.ReadAt, whose flag is an error.
pub record Os : Type 0 where
  pub lstat : String → Option Info
  pub filesystem_id : String → Option String
  pub opens : String → Bool
  pub closes : String → Bool
  pub file_read_at : String → ℕ → ℕ → Bytes × Bool

-- `SameFilesystem` of shared/sourceidentity/filesystem.go.
unfoldable pub same_filesystem : String → ℕ → String → ℕ → Bool
same_filesystem expected_id expected_device actual_id actual_device =
    if str_eq expected_id "" then expected_device == actual_device else str_eq actual_id expected_id

-- `verifyIdentity`: whether there was no error.
unfoldable pub verify_identity : Os → String → Identity → Bool
verify_identity os path expected = elim (os.lstat path) [
  | none ↦ false
  | some info ↦
      if not info.is_regular
        || info.is_symlink
        || not (info.size == expected.size)
        || not (info.mod_time == expected.mod_time)
      then false
      else elim (if str_eq expected.filesystem_id "" then some "" else os.filesystem_id path) [
        | none ↦ false
        | some id ↦
            same_filesystem expected.filesystem_id expected.device id info.device
            && (info.inode == expected.inode)
      ]
]

-- `Stats`.
pub record Stats : Type 0 where
  pub source_opens : ℕ
  pub source_reads : ℕ
  pub cache_hits : ℕ
  pub peak_open_files : ℕ
  pub cache_misses : ℕ
  pub evictions : ℕ

-- The cache: the paths of the open files, the most recently used in front.
pub record Handles : Type 0 where
  pub limit : ℕ
  pub lru : List String
  pub stats : Stats

abbrev pub has_path : String → List String → Bool
has_path path [] = false
has_path path (x ∷ xs) = str_eq x path || has_path path xs

abbrev pub without_path : String → List String → List String
without_path path [] = []
without_path path (x ∷ xs) = if str_eq x path then xs else x ∷ without_path path xs

-- The back of the list, and the rest.
abbrev pub split_back : String → List String → List String × String
split_back x [] = ([], x)
split_back x (y ∷ ys) = (x ∷ (split_back y ys).0, (split_back y ys).1)

-- The end of `open`: a file that was not in the cache.
pub open_new : Os → Handles → String → Handles × Bool
open_new os h path =
    let missed = record h.stats { cache_misses = h.stats.cache_misses + 1 } in
    let lru = path ∷ h.lru in
    if os.opens path
    then (
      record h {
        lru = lru;
        stats = record missed {
          source_opens = missed.source_opens + 1;
          peak_open_files = max (length lru) missed.peak_open_files;
        };
      },
      true,
    )
    else (record h { stats = missed }, false)

-- The eviction of `open` from the list of open files, when the cache is full. An empty cache is
-- not full.
pub evict_back : Os → Handles → List String → Handles × Bool
evict_back os h [] = (h, true)
evict_back os h (x ∷ xs) =
    let (rest, oldest) = split_back x xs in
    if os.closes oldest
    then (
      record h { lru = rest; stats = record h.stats { evictions = h.stats.evictions + 1 } },
      true,
    )
    else (record h { lru = rest }, false)

-- `open`: the cache, and whether there is an open file for the path.
pub open_path : Os → Handles → String → Handles × Bool
open_path os h path =
    let (h1, ok) = if leb h.limit (length h.lru) then evict_back os h h.lru else (h, true) in
    if has_path path h.lru
    then (
      record h {
        lru = path ∷ without_path path h.lru;
        stats = record h.stats { cache_hits = h.stats.cache_hits + 1 };
      },
      true,
    )
    else if ok
    then open_new os h1 path
    else (h1, false)

-- `dropCached`.
pub drop_cached : Handles → String → Handles
drop_cached h path =
    if has_path path h.lru
    then record h {
      lru = without_path path h.lru;
      stats = record h.stats { evictions = h.stats.evictions + 1 };
    }
    else h
