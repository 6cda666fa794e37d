-- ===== src/Vdisk/Geometry/Bounds.antt =====
-- Every geometry that selectDiskGeometry of vdisk.go accepts is a valid FAT32 volume on an MBR
-- disk with room for the library.
use wii_bridge.Common.{
  ℕ, zero, suc, ◌+◌, ◌-◌, ◌*◌, ◌≤◌, ◌<◌, ◌≡◌, ◌⊎◌, inl, inr, refl, sym, ap, ◌∙◌, none, some, List,
  [], ◌∷◌, arith, leb, ℤ, pos, negsuc, Bool-cases, Option-cases,
}
use native.Mathlib.Nat.{div-add-mod, mod-lt}
use wii_bridge.Vdisk.{sector_size, max_fat32_data_clusters, large_wii_volume_threshold}
use wii_bridge.Vdisk.Geometry.{
  DiskGeometry, Result, ok, err, clusters_for_bytes, wii_sectors_per_cluster, candidates,
  count_clusters, try_candidate, first_candidate, select_disk_geometry,
}

-- The clusters that the files need, without any bound.
abbrev pub sum_clusters : ℕ → List ℤ → ℕ
sum_clusters cluster_size [] = 0
sum_clusters cluster_size (n ∷ lengths) =
    clusters_for_bytes n cluster_size + sum_clusters cluster_size lengths

-- For clusters of at least a byte, a file's clusters hold its bytes, and with one cluster fewer
-- they would not.
pub clusters_for_bytes_lem :
    (n cluster_size : ℕ)
    → 0 < cluster_size
    → (n ≤ clusters_for_bytes (pos n) cluster_size * cluster_size)
      × (clusters_for_bytes (pos n) cluster_size * cluster_size < n + cluster_size)
unfolding clusters_for_bytes
clusters_for_bytes_lem zero cluster_size h = omega arith
clusters_for_bytes_lem (suc n) cluster_size h =
    omega (arith, div-add-mod n cluster_size, mod-lt n h)

count_clusters_lem :
    (cluster_size : ℕ) (lengths : List ℤ) (acc : ℕ)
    → count_clusters cluster_size lengths acc ≤ max_fat32_data_clusters
    → count_clusters cluster_size lengths acc ≡ acc + sum_clusters cluster_size lengths
unfolding count_clusters
count_clusters_lem cluster_size [] acc h = omega arith
count_clusters_lem cluster_size (n ∷ lengths) acc h =
    ground
      (arith, count_clusters_lem cluster_size lengths (acc + clusters_for_bytes n cluster_size))

-- A geometry that fits the library: the files, the directory of the games and the FAT itself have
-- room, the counts are those of a FAT32 volume, and every sector number fits an MBR disk.
pub record IsSound (lengths : List ℤ) (wbfs_entries : ℕ) (g : DiskGeometry) : Type 0 where
  pub cluster_bytes : g.cluster_size ≡ 512 * g.sectors_per_cluster
  pub files : g.allocated_clusters ≡ 1 + g.wbfs_dir_clusters + sum_clusters g.cluster_size lengths
  pub directory : wbfs_entries * 32 ≤ g.wbfs_dir_clusters * g.cluster_size
  pub directory_some : 1 ≤ g.wbfs_dir_clusters
  pub exact_free : g.allocated_clusters + g.free_clusters ≡ g.total_clusters
  pub some_free : 1 ≤ g.free_clusters
  pub fat32_low : 65525 ≤ g.total_clusters
  pub fat32_high : g.total_clusters ≤ 0x0fffffee
  pub fat_room : (g.total_clusters + 2) * 4 ≤ g.fat_sectors * 512
  pub fat_tight : g.fat_sectors * 512 < (g.total_clusters + 2) * 4 + 512
  pub data_start : g.first_data ≡ 32 + 2 * g.fat_sectors
  pub data_end : g.part_sectors ≡ g.first_data + g.total_clusters * g.sectors_per_cluster
  pub partition_fits : g.part_sectors < 4294967296
  pub disk_fits : g.disk_sectors ≤ 4294967296
  pub disk_end : g.disk_sectors ≡ 2048 + g.part_sectors

try_candidate-IsSound :
    (c : ℕ) (lengths : List ℤ) (wbfs_entries : ℕ) (g : DiskGeometry)
    → 0 < c
    → try_candidate c lengths wbfs_entries ≡ some g
    → IsSound lengths wbfs_entries g × (g.sectors_per_cluster ≡ c)
unfolding try_candidate
try_candidate-IsSound c lengths wbfs_entries g h e = ground (
  arith,
  clusters_for_bytes_lem (wbfs_entries * 32) (sector_size * c),
  count_clusters_lem (sector_size * c) lengths 0,
)

abbrev pub total_bytes : List ℤ → ℕ
total_bytes [] = 0
total_bytes (pos n ∷ lengths) = n + total_bytes lengths
total_bytes (negsuc n ∷ lengths) = total_bytes lengths

candidates_lem :
    (lengths : List ℤ) (acc : ℕ) (cs : List ℕ)
    → acc < large_wii_volume_threshold
    → candidates lengths acc ≡ ok cs
    → ((cs ≡ 64 ∷ []) × (large_wii_volume_threshold ≤ acc + total_bytes lengths))
      ⊎ ((cs ≡ wii_sectors_per_cluster) × (acc + total_bytes lengths < large_wii_volume_threshold))
unfolding candidates
candidates_lem [] acc cs h e = ground arith
candidates_lem (negsuc n ∷ lengths) acc cs h e = cc
candidates_lem (pos n ∷ lengths) acc cs h e =
    elim (Bool-cases (leb (large_wii_volume_threshold - acc) n)) [
      | inl large ↦ inl (ground arith, ground arith)
      | inr small ↦ ground (arith, candidates_lem lengths (acc + n) cs (ground arith))
    ]

-- The candidates that the loop tried and left.
abbrev pub SkippedBefore : ℕ → List ℕ → List ℤ → ℕ → Type 0
SkippedBefore c [] lengths wbfs_entries = ⊥
SkippedBefore c (d ∷ ds) lengths wbfs_entries =
    (c ≡ d)
    ⊎ ((try_candidate d lengths wbfs_entries ≡ none) × SkippedBefore c ds lengths wbfs_entries)

abbrev AllPositive : List ℕ → Type 0
AllPositive [] = Unit
AllPositive (c ∷ cs) = (0 < c) × AllPositive cs

first_candidate_lem :
    (cs : List ℕ) (lengths : List ℤ) (wbfs_entries : ℕ) (g : DiskGeometry)
    → AllPositive cs
    → first_candidate cs lengths wbfs_entries ≡ ok g
    → IsSound lengths wbfs_entries g × SkippedBefore g.sectors_per_cluster cs lengths wbfs_entries
unfolding first_candidate
first_candidate_lem [] lengths wbfs_entries g p e = cc
first_candidate_lem (c ∷ cs) lengths wbfs_entries g p e =
    elim (Option-cases (try_candidate c lengths wbfs_entries)) [
      | inl skip ↦
          let rest = first_candidate_lem cs lengths wbfs_entries g p.1 (ground arith) in
          (rest.0, inr (skip, rest.1))
      | inr (g', found) ↦
          let same : g' ≡ g = ground arith in
          let sound = try_candidate-IsSound c lengths wbfs_entries g p.0 (found ∙ ap some same) in
          (sound.0, inl sound.1)
    ]

-- An accepted geometry is sound: the files, the directory and the FAT have room, at least one
-- cluster is free, the cluster count is that of a FAT32 volume and every sector number fits an MBR
-- disk. For a library below 32 GiB it is the first of the four cluster sizes that is accepted; a
-- library of 32 GiB or more has 64 sectors (32 KiB) to the cluster.
pub select_disk_geometry_lem :
    (lengths : List ℤ) (wbfs_entries : ℕ) (g : DiskGeometry)
    → select_disk_geometry lengths wbfs_entries ≡ ok g
    → IsSound lengths wbfs_entries g
      × ((total_bytes lengths < large_wii_volume_threshold)
          → SkippedBefore g.sectors_per_cluster wii_sectors_per_cluster lengths wbfs_entries)
      × ((large_wii_volume_threshold ≤ total_bytes lengths) → g.sectors_per_cluster ≡ 64)
unfolding select_disk_geometry
select_disk_geometry_lem lengths wbfs_entries g e = chosen (candidates lengths 0) refl
  where
    chosen :
        (c : Result (List ℕ))
        → candidates lengths 0 ≡ c
        → IsSound lengths wbfs_entries g
          × ((total_bytes lengths < large_wii_volume_threshold)
              → SkippedBefore g.sectors_per_cluster wii_sectors_per_cluster lengths wbfs_entries)
          × ((large_wii_volume_threshold ≤ total_bytes lengths) → g.sectors_per_cluster ≡ 64)
    chosen (err x) eq = let impossible : ⊥ = ground arith in absurd impossible
    chosen (ok cs) eq =
        let found : first_candidate cs lengths wbfs_entries ≡ ok g = ground arith in
        elim (candidates_lem lengths 0 cs (omega arith) eq) [
          | inl (large, big) ↦
              let lem =
                first_candidate_lem (64 ∷ []) lengths wbfs_entries g (omega arith)
                  (ap (λ l. first_candidate l lengths wbfs_entries) (sym large) ∙ found) in
              (
                lem.0,
                λ small. absurd (omega arith),
                λ h. elim lem.1 [ inl p ↦ p | inr (q, impossible) ↦ absurd impossible ],
              )
          | inr (all, small) ↦
              let lem =
                first_candidate_lem wii_sectors_per_cluster lengths wbfs_entries g (omega arith)
                  (ap (λ l. first_candidate l lengths wbfs_entries) (sym all) ∙ found) in
              (lem.0, λ h. lem.1, λ h. absurd (omega arith))
        ]
