-- ===== src/Vdisk/Build/Examples.antt =====
-- The theorems of the disk's build at a concrete game.
use wii_bridge.Common.{ℕ, ◌-◌, ◌≡◌, refl, List, [], ◌∷◌, arith, Bool-cases, inl, inr, ltb}
use wii_bridge.Vdisk.{Source, Extent, ClusterChain}
use wii_bridge.Vdisk.Geometry.{
  DiskGeometry, ok, clusters_for_bytes, select_disk_geometry, candidates, count_clusters,
  try_candidate, first_candidate,
}
use wii_bridge.Vdisk.Fat.Equivalence.{Ordered}
use wii_bridge.Vdisk.Read.Layout.{Laid}
use wii_bridge.Vdisk.Build.{done, VirtualFile, locate, split_game, build_chains, build_extents}
use wii_bridge.Vdisk.Build.Chains.{lengths_of, build_chains_lem}
use wii_bridge.Vdisk.Build.Extents.{Covered, build_extents_lem}
use wii_bridge.Vdisk.Build.Segments.{Segments, split_game_lem}

-- Two files of 6000 and 4000 bytes that together are a game.
abbrev part : ℕ → ℕ → Source
part off len = record {
  path = "game.wbfs";
  offset = off;
  len = len;
  size = len;
  mod_unix = 0;
  filesystem_id = "";
  device = 0;
  inode = 0;
}

abbrev game : VirtualFile
game = record { sources = part 0 6000 ∷ part 6000 4000 ∷ []; off = 0; len = 10000 }

split_game_lem_example :
    (files : List VirtualFile) × (split_game game.sources 10000 ≡ done files)
    × Segments game.sources 0 10000 files
split_game_lem_example = split_game_lem game.sources 10000

abbrev geometry : DiskGeometry
geometry = record {
  sectors_per_cluster = 8;
  cluster_size = 4096;
  wbfs_dir_clusters = 1;
  allocated_clusters = 5;
  free_clusters = 65520;
  total_clusters = 65525;
  fat_sectors = 512;
  first_data = 1056;
  part_sectors = 525256;
  disk_sectors = 527304;
}

selected : select_disk_geometry (lengths_of (game ∷ [])) 4 ≡ ok geometry
unfolding select_disk_geometry candidates count_clusters try_candidate first_candidate
    clusters_for_bytes
selected = refl

build_chains_lem_example :
    (chains : List ClusterChain) × (build_chains geometry (game ∷ []) ≡ done chains)
    × Ordered 2 chains
build_chains_lem_example = build_chains_lem (game ∷ []) 4 geometry selected

game-Covered : Covered game
unfolding locate
game-Covered logical lo hi = elim (Bool-cases (ltb logical 6000)) [
  | inl first ↦ ((part 0 6000, logical), ground arith)
  | inr second ↦ ((part 6000 4000, logical - 6000), ground arith)
]

build_extents_lem_example :
    (es : List Extent) × (build_extents (part 0 0) geometry (game ∷ []) ≡ done es) × Laid 0 es
build_extents_lem_example =
    build_extents_lem (part 0 0) geometry (game ∷ []) (omega arith)
      (((omega arith, (omega arith, tt)), game-Covered), tt)
