-- ===== src/Vdisk/Fat.antt =====
-- The FAT of the Wii disk: fatSectorIndex, fatValue and fillFATSector of vdisk.go. A FAT sector is
-- held here as its 128 little-endian words; the source writes each at 4 times its index.
pub mod Equivalence
use wii_bridge.Common.{
  ℕ, zero, suc, ◌+◌, ◌-◌, ◌*◌, ◌/◌, Bool, true, false, Option, none, some, List, [], ◌∷◌, ◌++◌, max,
  min, ltb, leb, ◌==◌, not, if◌then◌else◌, Bytes, le_bytes, set, replicate,
}
use wii_bridge.Common.Search.{search_table, search_rest}
use wii_bridge.Vdisk.{u32, ClusterChain, Disk}

-- The copy of the FAT does not matter: the sector's index in it, if it is a FAT sector. Signed
-- subtraction is written as a test.
unfoldable pub fat_sector_index : Disk → ℕ → Option ℕ
fat_sector_index d sector =
    if ltb sector d.fat_start
    then none
    else if ltb (sector - d.fat_start) d.fat_sectors
    then some (sector - d.fat_start)
    else if ltb (sector - d.fat_start - d.fat_sectors) d.fat_sectors
    then some (sector - d.fat_start - d.fat_sectors)
    else none

-- The test of both searches: the chain ends behind the cluster.
abbrev pub ends_after : ℕ → ClusterChain → Bool
ends_after cluster chain = ltb cluster (u32 (chain.first + chain.count))

found_value : ℕ → Option ClusterChain → ℕ
found_value cluster none = 0
found_value cluster (some chain) =
    if ltb cluster chain.first
    then 0
    else if u32 (cluster + 1) == u32 (chain.first + chain.count)
    then 0x0fffffff
    else u32 (cluster + 1)

pub fat_value : Disk → ℕ → ℕ
fat_value d cluster =
    if cluster == 0
    then 0x0ffffff8
    else if cluster == 1
    then 0xffffffff
    else found_value cluster (search_table (ends_after cluster) d.fat_chains)

-- for cluster := …; cluster < bound; cluster++, with the rounds that are left.
fill_chain : ℕ → ℕ → ℕ → ℕ → List ℕ → List ℕ
fill_chain zero first_cluster end cluster target = target
fill_chain (suc rounds) first_cluster end cluster target =
    let value = if u32 (cluster + 1) == end then 0x0fffffff else u32 (cluster + 1) in
    fill_chain rounds first_cluster end (u32 (cluster + 1))
      (set target (cluster - first_cluster) value)

-- The loop over the chains from the first that reaches the sector.
fill_chains : ℕ → ℕ → List ClusterChain → List ℕ → List ℕ
fill_chains first_cluster last_cluster [] target = target
fill_chains first_cluster last_cluster (chain ∷ chains) target =
    let end = u32 (chain.first + chain.count) in
    let start = max (max first_cluster chain.first) 2 in
    let filled = fill_chain (min last_cluster end - start) first_cluster end start target in
    let rest = fill_chains first_cluster last_cluster chains filled in
    if leb last_cluster chain.first then target else rest

-- `fillFATSector` on a target of 128 words.
pub fill_fat_sector : Disk → ℕ → List ℕ
fill_fat_sector d fat_sector =
    let first_cluster = u32 (fat_sector * 128) in
    let last_cluster = u32 (first_cluster + 128) in
    let blank = replicate 128 0 in
    let target = if first_cluster == 0 then set (set blank 0 0x0ffffff8) 1 0xffffffff else blank in
    fill_chains first_cluster last_cluster (search_rest (ends_after first_cluster) d.fat_chains)
      target

-- The bytes of the words.
abbrev pub word_bytes : List ℕ → Bytes
word_bytes [] = []
word_bytes (x ∷ xs) = le_bytes 4 x ++ word_bytes xs

unfoldable pub fat_sector_bytes : Disk → ℕ → Bytes
fat_sector_bytes d fat_sector = word_bytes (fill_fat_sector d fat_sector)
