-- ===== src/Vdisk/Fat/Equivalence.antt =====
-- fillFATSector of vdisk.go, which walks the chains of a sector, against fatValue, which searches
-- for each entry, and both against the chains themselves.
use wii_bridge.Common.{
  ℕ, zero, suc, ◌+◌, ◌-◌, ◌*◌, ◌≤◌, ◌<◌, ◌≡◌, refl, ◌∙◌, Bool, ◌&&◌, Option, none, some, List, [],
  ◌∷◌, max, min, arith, ltb, leb, ◌==◌, if◌then◌else◌, Bool-cases, inl, inr, length, get_or, set,
  replicate, ltb→lt, ltb-false, le→leb, lt→leb_false, ℕ_discrete, length-set, get_or-set_self,
  get_or-set_ne,
}
use wii_bridge.Common.Search.{search_table_lem, first_where, drop_until, AllTrue, Upward}
use wii_bridge.Vdisk.{u32, ClusterChain, Disk}
use wii_bridge.Vdisk.Fat.{
  ends_after, found_value, fat_value, fill_chain, fill_chains, fill_fat_sector,
}

-- Chains in ascending order, none empty, from `lo` on, with their ends below 2 ^ 32.
abbrev pub Ordered : ℕ → List ClusterChain → Type 0
Ordered lo [] = Unit
Ordered lo (chain ∷ chains) =
    (lo ≤ chain.first)
    × (0 < chain.count)
    × (chain.first + chain.count < 4294967296)
    × Ordered (chain.first + chain.count) chains

-- The entry of a cluster that a chain covers: its successor, or the end-of-chain mark.
abbrev pub chain_entry : List ClusterChain → ℕ → Option ℕ
chain_entry [] cluster = none
chain_entry (chain ∷ chains) cluster =
    if ltb cluster (chain.first + chain.count) && leb chain.first cluster
    then some (if cluster + 1 == chain.first + chain.count then 0x0fffffff else cluster + 1)
    else chain_entry chains cluster

abbrev pub or_else : Option ℕ → ℕ → ℕ
or_else none v = v
or_else (some x) v = x

all_after :
    (lo cluster : ℕ) (chains : List ClusterChain)
    → Ordered lo chains
    → cluster < lo
    → AllTrue (ends_after cluster) chains
all_after lo cluster [] o h = tt
all_after lo cluster (chain ∷ chains) o h =
    (ground arith, all_after (chain.first + chain.count) cluster chains o.3 (omega arith))

Ordered-Upward :
    (lo cluster : ℕ) (chains : List ClusterChain)
    → Ordered lo chains
    → Upward (ends_after cluster) chains
Ordered-Upward lo cluster [] o = tt
Ordered-Upward lo cluster (chain ∷ chains) o = (
  λ h. all_after (chain.first + chain.count) cluster chains o.3 (ground arith),
  Ordered-Upward (chain.first + chain.count) cluster chains o.3,
)

none_below :
    (lo cluster : ℕ) (chains : List ClusterChain)
    → Ordered lo chains
    → cluster < lo
    → chain_entry chains cluster ≡ none
none_below lo cluster [] o h = refl
none_below lo cluster (chain ∷ chains) o h =
    ground (arith, none_below (chain.first + chain.count) cluster chains o.3)

found_value_lem :
    (lo cluster : ℕ) (chains : List ClusterChain)
    → Ordered lo chains
    → cluster + 1 < 4294967296
    → found_value cluster (first_where (ends_after cluster) chains)
      ≡ or_else (chain_entry chains cluster) 0
unfolding found_value
found_value_lem lo cluster [] o h = refl
found_value_lem lo cluster (chain ∷ chains) o h =
    let end_fits : u32 (chain.first + chain.count) ≡ chain.first + chain.count = omega arith in
    let next_fits : u32 (cluster + 1) ≡ cluster + 1 = omega arith in
    elim (Bool-cases (ltb cluster (chain.first + chain.count))) [
      | inr past ↦
          rw (end_fits, past) (found_value_lem (chain.first + chain.count) cluster chains o.3 h)
      | inl before ↦ elim (Bool-cases (ltb cluster chain.first)) [
        | inl gap ↦ rw (
          end_fits,
          before,
          gap,
          lt→leb_false chain.first cluster (ltb→lt cluster chain.first gap),
          none_below (chain.first + chain.count) cluster chains o.3 (ltb→lt _ _ before),
        )
        | inr covered ↦ rw (
          end_fits,
          before,
          covered,
          le→leb chain.first cluster (ltb-false cluster chain.first covered),
          next_fits,
          end_fits,
        )
      ]
    ]

entry_drop_until :
    (lo first cluster : ℕ) (chains : List ClusterChain)
    → Ordered lo chains
    → first ≤ cluster
    → chain_entry (drop_until (ends_after first) chains) cluster ≡ chain_entry chains cluster
entry_drop_until lo first cluster [] o h = refl
entry_drop_until lo first cluster (chain ∷ chains) o h =
    ground (arith, entry_drop_until (chain.first + chain.count) first cluster chains o.3 h)

Ordered-weaken :
    (lo lo' : ℕ) (chains : List ClusterChain) → lo' ≤ lo → Ordered lo chains → Ordered lo' chains
Ordered-weaken lo lo' [] h o = tt
Ordered-weaken lo lo' (chain ∷ chains) h o = (omega arith, o.1, o.2, o.3)

Ordered-drop_until :
    (lo : ℕ) (p : ClusterChain → Bool) (chains : List ClusterChain)
    → Ordered lo chains
    → Ordered lo (drop_until p chains)
Ordered-drop_until lo p [] o = tt
Ordered-drop_until lo p (chain ∷ chains) o = elim (Bool-cases (p chain)) [
  | inl keep ↦ rw keep o
  | inr skip ↦ rw skip (
      Ordered-weaken (chain.first + chain.count) lo (drop_until p chains) (omega arith)
        (Ordered-drop_until (chain.first + chain.count) p chains o.3))
]

length-fill_chain :
    (n f end cluster : ℕ) (target : List ℕ)
    → length (fill_chain n f end cluster target) ≡ length target
unfolding fill_chain
length-fill_chain zero f end cluster target = refl
length-fill_chain (suc n) f end cluster target =
    length-fill_chain n f end _ _ ∙ length-set target _ _

length-fill_chains :
    (f l : ℕ) (chains : List ClusterChain) (target : List ℕ)
    → length (fill_chains f l chains target) ≡ length target
unfolding fill_chains
length-fill_chains f l [] target = refl
length-fill_chains f l (chain ∷ chains) target = elim (Bool-cases (leb l chain.first)) [
  | inl beyond ↦ rw beyond
  | inr within ↦ rw within (length-fill_chains f l chains _ ∙ length-fill_chain _ f _ _ target)
]

-- What `n` rounds write: the entries of the clusters from `cluster` on.
fill_chain_lem :
    (n f end cluster k : ℕ) (target : List ℕ)
    → f ≤ cluster
    → cluster + n < 4294967296
    → k < length target
    → get_or (fill_chain n f end cluster target) k 0 ≡ (
        if leb cluster (f + k) && ltb (f + k) (cluster + n)
        then (if f + k + 1 == end then 0x0fffffff else f + k + 1)
        else get_or target k 0)
unfolding fill_chain
fill_chain_lem zero f end cluster k target h b t = ground arith
fill_chain_lem (suc n) f end cluster k target h b t =
    let next_fits : u32 (cluster + 1) ≡ cluster + 1 = omega arith in
    let value = if cluster + 1 == end then 0x0fffffff else cluster + 1 in
    let target' = set target (cluster - f) value in
    let rest =
      fill_chain_lem n f end (cluster + 1) k target' (omega arith) (omega arith)
        (omega (arith, length-set target (cluster - f) value)) in
    rw next_fits (elim (ℕ_discrete k (cluster - f)) [
      | yes here ↦ ground (arith, rest, get_or-set_self target (cluster - f) value 0)
      | no other ↦ ground (arith, rest, get_or-set_ne target {i = cluster - f} {j = k} value 0)
    ])

fill_chains_lem :
    (lo f k : ℕ) (chains : List ClusterChain) (target : List ℕ)
    → Ordered lo chains
    → 2 ≤ lo
    → f + 128 < 4294967296
    → k < 128
    → length target ≡ 128
    → get_or (fill_chains f (f + 128) chains target) k 0
      ≡ or_else (chain_entry chains (f + k)) (get_or target k 0)
unfolding fill_chains
fill_chains_lem lo f k [] target o l b kb t = refl
fill_chains_lem lo f k (chain ∷ chains) target o l b kb t =
    let end_fits : u32 (chain.first + chain.count) ≡ chain.first + chain.count = omega arith in
    let end = chain.first + chain.count in
    let start = max (max f chain.first) 2 in
    let n = min (f + 128) end - start in
    let filled = fill_chain n f end start target in
    rw end_fits (elim (Bool-cases (leb (f + 128) chain.first)) [
      | inl beyond ↦ ground (arith, none_below end (f + k) chains o.3)
      | inr within ↦ ground (
        arith,
        fill_chains_lem end f k chains filled o.3 (omega arith) b kb
            (length-fill_chain n f end start target ∙ t),
        fill_chain_lem n f end start k target (omega arith) (ground arith) (omega arith),
        none_below end (f + k) chains o.3,
      )
    ])

-- For ordered, disjoint and non-empty chains from cluster 2 on and a cluster below 2 ^ 32 - 1,
-- fatValue is the entry of the chain that covers the cluster (its successor, or the end-of-chain
-- mark on the chain's last cluster), 0 for a free cluster, and the two reserved entries for
-- clusters 0 and 1.
pub fat_value_lem :
    (d : Disk) (cluster : ℕ)
    → Ordered 2 d.fat_chains
    → cluster + 1 < 4294967296
    → fat_value d cluster ≡ (
        if cluster == 0
        then 0x0ffffff8
        else if cluster == 1
        then 0xffffffff
        else or_else (chain_entry d.fat_chains cluster) 0)
unfolding fat_value
fat_value_lem d cluster o h =
    let searched =
      search_table_lem (ends_after cluster) d.fat_chains
        (Ordered-Upward 2 cluster d.fat_chains o) in
    rw (searched.0, found_value_lem 2 cluster d.fat_chains o h)

blank_lem : (n k : ℕ) → get_or {A = ℕ} (replicate n 0) k 0 ≡ 0
blank_lem zero k = refl
blank_lem (suc n) zero = refl
blank_lem (suc n) (suc k) = blank_lem n k

abbrev first_words : ℕ → List ℕ
first_words f =
    if f == 0 then set (set (replicate 128 0) 0 0x0ffffff8) 1 0xffffffff else replicate 128 0

first_words_lem :
    (f k : ℕ)
    → get_or (first_words f) k 0
      ≡ (if f == 0 then (if k == 0 then 0x0ffffff8 else if k == 1 then 0xffffffff else 0) else 0)
first_words_lem f zero = ground (arith, blank_lem 128 0)
first_words_lem f (suc zero) = ground (arith, blank_lem 128 1)
first_words_lem f (suc (suc k)) = ground (arith, blank_lem 126 k, blank_lem 128 (suc (suc k)))

length-first_words : (f : ℕ) → length (first_words f) ≡ 128
length-first_words f = elim (Bool-cases (f == 0)) [ inl e ↦ rw e | inr e ↦ rw e ]

-- Every entry of a FAT sector that fillFATSector builds is the one that fatValue gives, for ordered,
-- disjoint and non-empty chains from cluster 2 on and sectors whose clusters are below 2 ^ 32 - 1.
pub fill_fat_sector_lem :
    (d : Disk) (fat_sector k : ℕ)
    → Ordered 2 d.fat_chains
    → k < 128
    → fat_sector * 128 + 128 < 4294967296
    → get_or (fill_fat_sector d fat_sector) k 0 ≡ fat_value d (fat_sector * 128 + k)
fill_fat_sector_lem d fat_sector k o kb b =
    let f = fat_sector * 128 in
    let f_fits : u32 (fat_sector * 128) ≡ fat_sector * 128 = omega arith in
    let last_fits : u32 (fat_sector * 128 + 128) ≡ fat_sector * 128 + 128 = omega arith in
    let searched =
      search_table_lem (ends_after f) d.fat_chains (Ordered-Upward 2 f d.fat_chains o) in
    let rest = drop_until (ends_after f) d.fat_chains in
    let filled =
      fill_chains_lem 2 f k rest (first_words f)
        (Ordered-drop_until 2 (ends_after f) d.fat_chains o) (omega arith) b kb
        (length-first_words f) in
    let words : get_or (fill_fat_sector d fat_sector) k 0
        ≡ or_else (chain_entry rest (f + k)) (get_or (first_words f) k 0) =
      unfold fill_fat_sector in rw (f_fits, last_fits, searched.1) filled in
    let same = entry_drop_until 2 f (f + k) d.fat_chains o (omega arith) in
    ground (
      arith,
      words,
      same,
      first_words_lem f k,
      fat_value_lem d (f + k) o (omega arith),
      none_below 2 (f + k) d.fat_chains o,
    )

pub length-fill_fat_sector :
    (d : Disk) (fat_sector : ℕ) → length (fill_fat_sector d fat_sector) ≡ 128
unfolding fill_fat_sector
length-fill_fat_sector d fat_sector =
    length-fill_chains _ _ _ (first_words (u32 (fat_sector * 128)))
    ∙ length-first_words (u32 (fat_sector * 128))
