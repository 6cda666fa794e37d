-- ===== src/Vdisk.antt =====
-- server/host-daemon/vdisk/vdisk.go: the synthetic MBR/FAT32 disk of the Wii library. This file
-- has the constants and the data; the modules below have the operations. int64 values are natural
-- numbers where the code keeps them from being negative, and stand far below 2 ^ 63.
pub mod Geometry
pub mod Fat
pub mod Read
pub mod Build
pub mod Sectors
pub mod Examples
use wii_bridge.Common.{ℕ, ◌-◌, ◌%◌, Bool, Option, List, Bytes, String}

abbrev pub sector_size : ℕ
sector_size = 512

abbrev pub partition_start : ℕ
partition_start = 2048

abbrev pub reserved_sectors : ℕ
reserved_sectors = 32

abbrev pub num_fats : ℕ
num_fats = 2

-- 4 GiB less one 32 KiB cluster.
abbrev pub max_segment : ℕ
max_segment = 4294967296 - 32768

abbrev pub max_fat32_data_clusters : ℕ
max_fat32_data_clusters = 0x0fffffee

abbrev pub max_mbr_partition_sectors : ℕ
max_mbr_partition_sectors = 4294967295

abbrev pub max_lba32_disk_sectors : ℕ
max_lba32_disk_sectors = 4294967296

-- 32 GiB.
abbrev pub large_wii_volume_threshold : ℕ
large_wii_volume_threshold = 34359738368

abbrev pub min_free_clusters : ℕ
min_free_clusters = 1

-- uint32 arithmetic.
abbrev pub u32 : ℕ → ℕ
u32 n = n % 4294967296

-- model.Source (shared/model/model.go): a source file's range and identity.
pub record Source : Type 0 where
  pub path : String
  pub offset : ℕ
  pub len : ℕ
  pub size : ℕ
  pub mod_unix : ℕ
  pub filesystem_id : String
  pub device : ℕ
  pub inode : ℕ

pub record Extent : Type 0 where
  pub start : ℕ
  pub len : ℕ
  pub source : Source
  pub source_offset : ℕ
  pub zero : Bool

pub record ClusterChain : Type 0 where
  pub first : ℕ
  pub count : ℕ

-- The map from sectors to their metadata is a function; the observer's fields are left out.
pub record Disk : Type 0 where
  pub size : ℕ
  pub sectors_per_cluster : ℕ
  pub metadata : ℕ → Option Bytes
  pub fat_start : ℕ
  pub fat_sectors : ℕ
  pub fat_chains : List ClusterChain
  pub extents : List Extent
