-- ===== src/Vdisk/Build.antt =====
-- Build of vdisk.go: the segments of a game, the allocation of the chains and the extents. The
-- names, hashes and directory sectors are left out.
pub mod Chains
pub mod Extents
pub mod Segments
pub mod Examples
use wii_bridge.Common.{
  ℕ, zero, suc, ◌+◌, ◌-◌, ◌*◌, ◌/◌, ◌==◌, Bool, true, false, ◌&&◌, Option, none, some, List, [],
  ◌∷◌, ◌++◌, min, ltb, leb, if◌then◌else◌,
}
use wii_bridge.Vdisk.{sector_size, partition_start, u32, max_segment, Source, Extent, ClusterChain}
use wii_bridge.Vdisk.Geometry.{DiskGeometry}

-- A loop that is still running when its fuel ends, an error, or a value.
pub data Outcome {ℓ} (A : Type ℓ) : Type ℓ where
  running source_gap allocation_mismatch : Outcome A
  done : A → Outcome A

-- A segment of a game: a `virtualFile` without its names.
pub record VirtualFile : Type 0 where
  pub sources : List Source
  pub off : ℕ
  pub len : ℕ

-- A segment in front of the later ones.
abbrev pub cons_done : {A : Type 0} → A → Outcome (List A) → Outcome (List A)
cons_done x (done xs) = done (x ∷ xs)
cons_done x running = running
cons_done x source_gap = source_gap
cons_done x allocation_mismatch = allocation_mismatch

-- The loop over the segments of a game of `size` bytes, with the rounds that are left.
pub split_rounds : ℕ → List Source → ℕ → ℕ → Outcome (List VirtualFile)
split_rounds zero sources size off = running
split_rounds (suc rounds) sources size off =
    let n = if ltb max_segment (size - off) then max_segment else size - off in
    let rest = split_rounds rounds sources size (off + n) in
    if ltb off size
    then cons_done (record { sources = sources; off = off; len = n }) rest
    else done []

-- Each round takes a byte, so as many rounds as there are bytes, and one more, are enough.
pub split_game : List Source → ℕ → Outcome (List VirtualFile)
split_game sources size = split_rounds (size + 1) sources size 0

-- `nextCluster` and `d.fatChains`.
pub record Allocation : Type 0 where
  pub next_cluster : ℕ
  pub chains : List ClusterChain

-- The closure `chain`, without the first cluster that it returns.
pub chain : ℕ → Allocation → Allocation
chain count a = record {
  next_cluster = u32 (a.next_cluster + u32 count);
  chains =
      if ltb 0 count
      then a.chains ++ (record { first = a.next_cluster; count = u32 count } ∷ [])
      else a.chains;
}

pub chain_all : List ℕ → Allocation → Allocation
chain_all [] a = a
chain_all (count ∷ counts) a = chain_all counts (chain count a)

abbrev pub file_clusters : ℕ → List VirtualFile → List ℕ
file_clusters cluster_size [] = []
file_clusters cluster_size (f ∷ files) =
    (f.len + cluster_size - 1) / cluster_size ∷ file_clusters cluster_size files

-- The chains of the root, of the directory and of the files, and the check behind them.
pub build_chains : DiskGeometry → List VirtualFile → Outcome (List ClusterChain)
build_chains g files =
    let a =
      chain_all (1 ∷ g.wbfs_dir_clusters ∷ file_clusters g.cluster_size files)
        (record { next_cluster = 2; chains = [] }) in
    if a.next_cluster == u32 (2 + g.allocated_clusters) then done a.chains else allocation_mismatch

pub locate : List Source → ℕ → Option (Source × ℕ)
locate [] logical = none
locate (s ∷ sources) logical =
    if leb s.offset logical && ltb logical (s.offset + s.len)
    then some (s, logical - s.offset)
    else locate sources logical

-- The loop over the extents of a file, with the rounds that are left.
pub place_rounds : ℕ → VirtualFile → ℕ → ℕ → ℕ → Outcome (List Extent)
place_rounds zero f file_start remaining game_offset = running
place_rounds (suc rounds) f file_start remaining game_offset =
    if remaining == 0 then done [] else elim (locate f.sources game_offset) [
      | none ↦ source_gap
      | some (source, source_off) ↦
          let available = source.len - source_off in
          let n = if ltb available remaining then available else remaining in
          cons_done
            (record {
              start = file_start + game_offset - f.off;
              len = n;
              source = source;
              source_offset = source_off;
              zero = false;
            })
            (place_rounds rounds f file_start (remaining - n) (game_offset + n))
    ]

-- The padding of a file up to the end of its last cluster. It has no source.
pub padding_extent : Source → ℕ → ℕ → ℕ → List Extent
padding_extent no_source cluster_size file_start len =
    let padding = (len + cluster_size - 1) / cluster_size * cluster_size - len in
    if ltb 0 padding
    then record {
      start = file_start + len;
      len = padding;
      source = no_source;
      source_offset = 0;
      zero = true;
    }
      ∷ []
    else []

abbrev pub append_done : {A : Type 0} → List A → Outcome (List A) → Outcome (List A)
append_done xs (done ys) = done (xs ++ ys)
append_done xs running = running
append_done xs source_gap = source_gap
append_done xs allocation_mismatch = allocation_mismatch

-- The loop over the files, from the sector `cursor` on.
pub place_files : Source → ℕ → List VirtualFile → ℕ → Outcome (List Extent)
place_files no_source sectors_per_cluster [] cursor = done []
place_files no_source sectors_per_cluster (f ∷ files) cursor =
    let cluster_size = sector_size * sectors_per_cluster in
    let file_start = cursor * sector_size in
    let rest =
      place_files no_source sectors_per_cluster files
        (cursor + (f.len + cluster_size - 1) / cluster_size * sectors_per_cluster) in
    elim (place_rounds (f.len + 1) f file_start f.len f.off) [
      | running ↦ running
      | source_gap ↦ source_gap
      | allocation_mismatch ↦ allocation_mismatch
      | done extents ↦
          append_done (extents ++ padding_extent no_source cluster_size file_start f.len) rest
    ]

-- The extents of the disk: the files stand behind the root directory and the WBFS directory.
pub build_extents : Source → DiskGeometry → List VirtualFile → Outcome (List Extent)
build_extents no_source g files = place_files no_source g.sectors_per_cluster files (
    partition_start
    + g.first_data
    + g.sectors_per_cluster
    + g.wbfs_dir_clusters * g.sectors_per_cluster)
