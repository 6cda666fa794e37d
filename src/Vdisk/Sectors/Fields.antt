-- ===== src/Vdisk/Sectors/Fields.antt =====
-- The sectors that vdisk.go writes, read back by a FAT32 driver.
use wii_bridge.Common.{
  ℕ, ◌+◌, ◌*◌, ◌%◌, ◌<◌, ◌≡◌, refl, List, arith, Bytes, take, drop, le_bytes, le_value, ℤ, dec_lt,
}
use wii_bridge.Vdisk.{u32, partition_start, large_wii_volume_threshold}
use wii_bridge.Vdisk.Geometry.{DiskGeometry, ok, select_disk_geometry, wii_sectors_per_cluster}
use wii_bridge.Vdisk.Geometry.Bounds.{SkippedBefore, total_bytes, select_disk_geometry_lem}
use wii_bridge.Vdisk.Sectors.{mbr, boot_sector, fs_info}

-- A little-endian field.
abbrev pub field : ℕ → ℕ → Bytes → ℕ
field off width b = le_value (take width (drop off b))

-- The fields of a FAT32 boot sector that place its regions.
pub record BootFields : Type 0 where
  pub bytes_per_sector : ℕ
  pub cluster_sectors : ℕ
  pub reserved : ℕ
  pub fats : ℕ
  pub hidden : ℕ
  pub total_sectors : ℕ
  pub fat_size : ℕ
  pub root_cluster : ℕ
  pub info_sector : ℕ
  pub backup_sector : ℕ
  pub signature : ℕ

abbrev pub read_boot : Bytes → BootFields
read_boot b = record {
  bytes_per_sector = field 11 2 b;
  cluster_sectors = field 13 1 b;
  reserved = field 14 2 b;
  fats = field 16 1 b;
  hidden = field 28 4 b;
  total_sectors = field 32 4 b;
  fat_size = field 36 4 b;
  root_cluster = field 44 4 b;
  info_sector = field 48 2 b;
  backup_sector = field 50 2 b;
  signature = field 510 2 b;
}

candidate_byte :
    (c : ℕ) (lengths : List ℤ) (wbfs_entries : ℕ)
    → SkippedBefore c wii_sectors_per_cluster lengths wbfs_entries
    → c < 256
candidate_byte c lengths wbfs_entries h = ground arith

selected_byte :
    (lengths : List ℤ) (wbfs_entries : ℕ) (g : DiskGeometry)
    → select_disk_geometry lengths wbfs_entries ≡ ok g
    → g.sectors_per_cluster < 256
selected_byte lengths wbfs_entries g e =
    let (sound, small, large) = select_disk_geometry_lem lengths wbfs_entries g e in
    elim (dec_lt (total_bytes lengths) large_wii_volume_threshold) [
      | yes below ↦ candidate_byte g.sectors_per_cluster lengths wbfs_entries (small below)
      | no above ↦ omega (arith, large (omega arith))
    ]

-- For a geometry that was selected, a FAT32 driver reads back from the boot sector exactly that
-- geometry: its cluster size, both FATs of its size behind 32 reserved sectors, its length, the
-- partition's start, the root directory at cluster 2, and the boot sector's signature.
pub boot_sector_lem :
    (lengths : List ℤ) (wbfs_entries : ℕ) (g : DiskGeometry) (volume_id : ℕ)
    → select_disk_geometry lengths wbfs_entries ≡ ok g
    → read_boot (boot_sector g.part_sectors g.fat_sectors g.sectors_per_cluster 2 volume_id)
      ≡ record {
        bytes_per_sector = 512;
        cluster_sectors = g.sectors_per_cluster;
        reserved = 32;
        fats = 2;
        hidden = 2048;
        total_sectors = g.part_sectors;
        fat_size = g.fat_sectors;
        root_cluster = 2;
        info_sector = 1;
        backup_sector = 6;
        signature = 0xaa55;
      }
unfolding boot_sector
boot_sector_lem lengths wbfs_entries g volume_id e =
    let sound = (select_disk_geometry_lem lengths wbfs_entries g e).0 in
    let sectors : le_value (le_bytes 4 (u32 g.part_sectors)) ≡ g.part_sectors =
      omega (arith, sound.partition_fits) in
    let fat : le_value (le_bytes 4 (u32 g.fat_sectors)) ≡ g.fat_sectors =
      omega (arith, sound.partition_fits, sound.data_start, sound.data_end) in
    let cluster : g.sectors_per_cluster % 256 + 256 * 0 ≡ g.sectors_per_cluster =
      omega (arith, selected_byte lengths wbfs_entries g e) in
    rw (sectors, fat, cluster)

-- For a geometry that was selected, the partition table's entry is a FAT32 partition from sector
-- 2048 on, of the geometry's length.
pub mbr_lem :
    (lengths : List ℤ) (wbfs_entries : ℕ) (g : DiskGeometry) (signature : ℕ)
    → select_disk_geometry lengths wbfs_entries ≡ ok g
    → let b = mbr partition_start g.part_sectors signature in
      (field 450 1 b ≡ 0x0c)
      × (field 454 4 b ≡ 2048)
      × (field 458 4 b ≡ g.part_sectors)
      × (field 510 2 b ≡ 0xaa55)
unfolding mbr
mbr_lem lengths wbfs_entries g signature e =
    let sound = (select_disk_geometry_lem lengths wbfs_entries g e).0 in
    let sectors : le_value (le_bytes 4 (u32 g.part_sectors)) ≡ g.part_sectors =
      omega (arith, sound.partition_fits) in
    (refl, refl, sectors, refl)

-- For a geometry that was selected, the counts that a driver reads back from the FSInfo sector are
-- exact: the number of free clusters, which is not 0 and not the unknown value 0xffffffff, and the
-- first free cluster, which is a cluster of the volume.
pub fs_info_lem :
    (lengths : List ℤ) (wbfs_entries : ℕ) (g : DiskGeometry)
    → select_disk_geometry lengths wbfs_entries ≡ ok g
    → let b = fs_info (u32 g.free_clusters) (u32 (2 + g.allocated_clusters)) in
      (field 488 4 b + g.allocated_clusters ≡ g.total_clusters)
      × (0 < field 488 4 b)
      × (field 488 4 b < 0xffffffff)
      × (field 492 4 b ≡ 2 + g.allocated_clusters)
      × (field 492 4 b < 2 + g.total_clusters)
unfolding fs_info
fs_info_lem lengths wbfs_entries g e =
    let sound = (select_disk_geometry_lem lengths wbfs_entries g e).0 in
    let free : le_value (le_bytes 4 (u32 g.free_clusters)) ≡ g.free_clusters =
      omega (arith, sound.exact_free, sound.fat32_high) in
    let next : le_value (le_bytes 4 (u32 (2 + g.allocated_clusters))) ≡ 2 + g.allocated_clusters =
      omega (arith, sound.exact_free, sound.fat32_high) in
    (
      omega (arith, free, sound.exact_free),
      omega (arith, free, sound.some_free),
      omega (arith, free, sound.exact_free, sound.fat32_high),
      next,
      omega (arith, next, sound.exact_free, sound.some_free),
    )
