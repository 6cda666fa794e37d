-- ===== src/Vdisk/Examples.antt =====
-- The theorems of the Wii disk at concrete libraries.
use wii_bridge.Common.{
  ◌+◌, ◌*◌, ◌≤◌, ◌<◌, ◌≡◌, refl, true, false, none, some, [], ◌∷◌, inl, inr, replicate, ◌==◌, arith,
  get_or, tabulate, pos, min, if◌then◌else◌, length-tabulate,
}
use wii_bridge.Vdisk.Sectors.{mbr, boot_sector, fs_info}
use wii_bridge.Vdisk.Sectors.Fields.{field, read_boot, boot_sector_lem, mbr_lem, fs_info_lem}
use wii_bridge.Vdisk.{partition_start, u32, large_wii_volume_threshold, Source, Disk}
use wii_bridge.Vdisk.Geometry.{
  DiskGeometry, ok, clusters_for_bytes, select_disk_geometry, candidates, count_clusters,
  try_candidate, first_candidate, wii_sectors_per_cluster,
}
use wii_bridge.Vdisk.Geometry.Bounds.{
  clusters_for_bytes_lem, IsSound, total_bytes, SkippedBefore, select_disk_geometry_lem,
}
use wii_bridge.Vdisk.Fat.{fat_value, fill_fat_sector}
use wii_bridge.Vdisk.Fat.Equivalence.{fat_value_lem, fill_fat_sector_lem}
use wii_bridge.Vdisk.Read.{Files, read_source, read_at}
use wii_bridge.Vdisk.Read.Bytewise.{IsLaidOut, byte_at, read_at_lem}
use wii_bridge.Vdisk.Fat.{fat_sector_index}
use wii_bridge.Vdisk.Read.Payload.{IsReadable, complete, read_source_lem}

clusters_for_bytes_lem_example :
    (5000 ≤ clusters_for_bytes (pos 5000) 4096 * 4096)
    × (clusters_for_bytes (pos 5000) 4096 * 4096 < 5000 + 4096)
clusters_for_bytes_lem_example = clusters_for_bytes_lem 5000 4096 (omega arith)

-- A library of one file of 5000 bytes.
abbrev small : DiskGeometry
small = record {
  sectors_per_cluster = 8;
  cluster_size = 4096;
  wbfs_dir_clusters = 1;
  allocated_clusters = 4;
  free_clusters = 65521;
  total_clusters = 65525;
  fat_sectors = 512;
  first_data = 1056;
  part_sectors = 525256;
  disk_sectors = 527304;
}

small_accepted : select_disk_geometry (pos 5000 ∷ []) 3 ≡ ok small
unfolding select_disk_geometry candidates count_clusters try_candidate first_candidate
    clusters_for_bytes
small_accepted = refl

select_disk_geometry_lem_example :
    IsSound (pos 5000 ∷ []) 3 small
    × ((total_bytes (pos 5000 ∷ []) < large_wii_volume_threshold)
        → SkippedBefore small.sectors_per_cluster wii_sectors_per_cluster (pos 5000 ∷ []) 3)
    × ((large_wii_volume_threshold ≤ total_bytes (pos 5000 ∷ [])) → small.sectors_per_cluster ≡ 64)
select_disk_geometry_lem_example = select_disk_geometry_lem (pos 5000 ∷ []) 3 small small_accepted

-- Two chains with a free cluster between them.
abbrev disk : Disk
disk = record {
  size = 269979648;
  sectors_per_cluster = 8;
  metadata = λ sector. none;
  fat_start = 2080;
  fat_sectors = 512;
  fat_chains = record { first = 2; count = 3 } ∷ record { first = 6; count = 2 } ∷ [];
  extents = [];
}

fat_value_lem_example : fat_value disk 3 ≡ 4
fat_value_lem_example = fat_value_lem disk 3 (omega arith) (omega arith)

fill_fat_sector_lem_example : get_or (fill_fat_sector disk 0) 7 0 ≡ fat_value disk 7
fill_fat_sector_lem_example = fill_fat_sector_lem disk 0 7 (omega arith) (omega arith) (omega arith)

abbrev file : Source
file = record {
  path = "game.wbfs";
  offset = 0;
  len = 10;
  size = 10;
  mod_unix = 0;
  filesystem_id = "";
  device = 0;
  inode = 0;
}

-- Files whose reads give at most two bytes at a time.
abbrev slow : Files
slow = record {
  verify_source = λ s. none;
  open_file = λ s. none;
  file_read_at = λ s off n. (tabulate (λ i. i) off (min n 2), none);
  close_file = λ s. none;
}

slow-IsReadable : IsReadable slow (λ s i. i)
slow-IsReadable = record {
  unchanged = λ s. refl;
  opens = λ s. refl;
  closes = λ s. refl;
  reads = λ s off n h b. ground (arith, length-tabulate (λ i. i) off (min n 2));
}

read_source_lem_example : read_source slow file 3 5 ≡ complete (3 ∷ 4 ∷ 5 ∷ 6 ∷ 7 ∷ [])
read_source_lem_example = read_source_lem slow (λ s i. i) slow-IsReadable file 3 5 (omega arith)

-- A disk with a metadata sector, two copies of a FAT sector, and an extent of the file with its
-- padding.
abbrev library : Disk
library = record {
  size = 4096;
  sectors_per_cluster = 8;
  metadata = λ sector. if sector == 0 then some (replicate 512 1) else none;
  fat_start = 2;
  fat_sectors = 1;
  fat_chains = record { first = 2; count = 3 } ∷ [];
  extents =
      record { start = 2048; len = 10; source = file; source_offset = 0; zero = false }
      ∷ record { start = 2058; len = 100; source = file; source_offset = 0; zero = true }
      ∷ [];
}

library-IsLaidOut : IsLaidOut library
unfolding fat_sector_index
library-IsLaidOut = record {
  whole_sectors = λ sector bytes h. ground arith;
  laid = (omega arith, inl refl, inr (omega arith), (omega arith, inr refl, inl refl, tt));
  clear = λ position e h. ground arith;
}

read_at_lem_example :
    read_at slow library 40 (pos 2030) ≡ complete (tabulate (byte_at (λ s i. i) library) 2030 40)
read_at_lem_example =
    read_at_lem slow (λ s i. i) slow-IsReadable library library-IsLaidOut 2030 40 (omega arith)

boot_sector_lem_example : read_boot (boot_sector 525256 512 8 2 7) ≡ record {
  bytes_per_sector = 512;
  cluster_sectors = 8;
  reserved = 32;
  fats = 2;
  hidden = 2048;
  total_sectors = 525256;
  fat_size = 512;
  root_cluster = 2;
  info_sector = 1;
  backup_sector = 6;
  signature = 0xaa55;
}
boot_sector_lem_example = boot_sector_lem (pos 5000 ∷ []) 3 small 7 small_accepted

mbr_lem_example :
    let b = mbr partition_start 525256 7 in
    (field 450 1 b ≡ 0x0c)
    × (field 454 4 b ≡ 2048)
    × (field 458 4 b ≡ 525256)
    × (field 510 2 b ≡ 0xaa55)
mbr_lem_example = mbr_lem (pos 5000 ∷ []) 3 small 7 small_accepted

fs_info_lem_example :
    let b = fs_info (u32 65521) (u32 6) in
    (field 488 4 b + 4 ≡ 65525)
    × (0 < field 488 4 b)
    × (field 488 4 b < 0xffffffff)
    × (field 492 4 b ≡ 6)
    × (field 492 4 b < 65527)
fs_info_lem_example = fs_info_lem (pos 5000 ∷ []) 3 small small_accepted
