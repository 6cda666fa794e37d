-- ===== src/Vdisk/Geometry.antt =====
-- clustersForBytes and selectDiskGeometry of vdisk.go.
pub mod Bounds
use wii_bridge.Common.{
  ℕ, zero, suc, ◌+◌, ◌-◌, ◌*◌, ◌/◌, Bool, true, false, ◌||◌, Option, none, some, List, [], ◌∷◌, ltb,
  leb, if◌then◌else◌, ℤ, pos, negsuc,
}
use wii_bridge.Vdisk.{
  sector_size, partition_start, reserved_sectors, num_fats, max_fat32_data_clusters,
  max_mbr_partition_sectors, max_lba32_disk_sectors, large_wii_volume_threshold, min_free_clusters,
}

pub record DiskGeometry : Type 0 where
  pub sectors_per_cluster : ℕ
  pub cluster_size : ℕ
  pub wbfs_dir_clusters : ℕ
  pub allocated_clusters : ℕ
  pub free_clusters : ℕ
  pub total_clusters : ℕ
  pub fat_sectors : ℕ
  pub first_data : ℕ
  pub part_sectors : ℕ
  pub disk_sectors : ℕ

pub data Error : Type 0 where
  negative_file_size exceeds_capacity : Error

pub data Result (A : Type 0) : Type 0 where
  ok : A → Result A
  err : Error → Result A

unfoldable pub clusters_for_bytes : ℤ → ℕ → ℕ
clusters_for_bytes (negsuc n) cluster_size = 0
clusters_for_bytes (pos zero) cluster_size = 0
clusters_for_bytes (pos (suc n)) cluster_size = 1 + n / cluster_size

abbrev pub wii_sectors_per_cluster : List ℕ
wii_sectors_per_cluster = 8 ∷ 16 ∷ 32 ∷ 64 ∷ []

-- The first loop. It ends at the length that reaches the threshold, and `logical_bytes` stays
-- below the threshold up to there.
unfoldable pub candidates : List ℤ → ℕ → Result (List ℕ)
candidates [] logical_bytes = ok wii_sectors_per_cluster
candidates (negsuc n ∷ lengths) logical_bytes = err negative_file_size
candidates (pos n ∷ lengths) logical_bytes =
    if leb (large_wii_volume_threshold - logical_bytes) n
    then ok (64 ∷ [])
    else candidates lengths (logical_bytes + n)

-- The loop over the lengths. `dataClusters > max - clusters` on int64 is `max < dataClusters + clusters`.
unfoldable pub count_clusters : ℕ → List ℤ → ℕ → ℕ
count_clusters cluster_size [] data_clusters = data_clusters
count_clusters cluster_size (n ∷ lengths) data_clusters =
    if ltb max_fat32_data_clusters (data_clusters + clusters_for_bytes n cluster_size)
    then max_fat32_data_clusters + 1
    else count_clusters cluster_size lengths (data_clusters + clusters_for_bytes n cluster_size)

-- The body of the loop over the candidates; `none` is its `continue`.
unfoldable pub try_candidate : ℕ → List ℤ → ℕ → Option DiskGeometry
try_candidate sectors_per_cluster lengths wbfs_entries =
    let cluster_size = sector_size * sectors_per_cluster in
    let data_clusters = count_clusters cluster_size lengths 0 in
    let dir = clusters_for_bytes (pos (wbfs_entries * 32)) cluster_size in
    let wbfs_dir_clusters = if ltb dir 1 then 1 else dir in
    let allocated_clusters = 1 + wbfs_dir_clusters + data_clusters in
    let needed = allocated_clusters + min_free_clusters in
    let total_clusters = if ltb needed 65525 then 65525 else needed in
    let fat_sectors = ((total_clusters + 2) * 4 + sector_size - 1) / sector_size in
    let first_data = reserved_sectors + num_fats * fat_sectors in
    let part_sectors = first_data + total_clusters * sectors_per_cluster in
    let disk_sectors = partition_start + part_sectors in
    if ltb max_fat32_data_clusters total_clusters
    then none
    else if ltb max_mbr_partition_sectors part_sectors || ltb max_lba32_disk_sectors disk_sectors
    then none
    else some (record {
      sectors_per_cluster = sectors_per_cluster;
      cluster_size = cluster_size;
      wbfs_dir_clusters = wbfs_dir_clusters;
      allocated_clusters = allocated_clusters;
      free_clusters = total_clusters - allocated_clusters;
      total_clusters = total_clusters;
      fat_sectors = fat_sectors;
      first_data = first_data;
      part_sectors = part_sectors;
      disk_sectors = disk_sectors;
    })

unfoldable pub first_candidate : List ℕ → List ℤ → ℕ → Result DiskGeometry
first_candidate [] lengths wbfs_entries = err exceeds_capacity
first_candidate (c ∷ cs) lengths wbfs_entries =
    let rest = first_candidate cs lengths wbfs_entries in
    elim (try_candidate c lengths wbfs_entries) [ none ↦ rest | some g ↦ ok g ]

unfoldable pub select_disk_geometry : List ℤ → ℕ → Result DiskGeometry
select_disk_geometry lengths wbfs_entries = elim (candidates lengths 0) [
  | err e ↦ err e
  | ok cs ↦ first_candidate cs lengths wbfs_entries
]
