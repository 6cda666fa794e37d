-- ===== src/Vdisk/Build/Chains.antt =====
-- The chains that Build of vdisk.go allocates are those that the FAT's searches rely on.
use wii_bridge.Common.{
  ℕ, ◌+◌, ◌-◌, ◌*◌, ◌/◌, ◌≤◌, ◌<◌, ◌≡◌, refl, ap, ◌∙◌, true, List, [], ◌∷◌, ◌++◌, arith, ltb, ◌==◌,
  ℤ, pos, dec_lt, Bool-cases, inl, inr,
}
use native.Mathlib.Nat.{div-add-mod, mod-lt}
use wii_bridge.Vdisk.{u32, large_wii_volume_threshold, ClusterChain}
use wii_bridge.Vdisk.Geometry.{
  DiskGeometry, ok, clusters_for_bytes, wii_sectors_per_cluster, select_disk_geometry,
}
use wii_bridge.Vdisk.Geometry.Bounds.{
  sum_clusters, clusters_for_bytes_lem, select_disk_geometry_lem, SkippedBefore, total_bytes,
}
use wii_bridge.Vdisk.Fat.Equivalence.{Ordered}
use wii_bridge.Vdisk.Build.{
  done, VirtualFile, Allocation, chain, chain_all, file_clusters, build_chains,
}

abbrev pub lengths_of : List VirtualFile → List ℤ
lengths_of [] = []
lengths_of (f ∷ files) = pos f.len ∷ lengths_of files

abbrev sum : List ℕ → ℕ
sum [] = 0
sum (n ∷ ns) = n + sum ns

-- The end of the last chain.
abbrev end_of : ℕ → List ClusterChain → ℕ
end_of lo [] = lo
end_of lo (c ∷ cs) = end_of (c.first + c.count) cs

Ordered-append :
    (lo : ℕ) (cs : List ClusterChain) (c : ClusterChain)
    → Ordered lo cs
    → end_of lo cs ≤ c.first
    → 0 < c.count
    → c.first + c.count < 4294967296
    → Ordered lo (cs ++ (c ∷ [])) × (end_of lo (cs ++ (c ∷ [])) ≡ c.first + c.count)
Ordered-append lo [] c o h p b = ((h, p, b, tt), refl)
Ordered-append lo (x ∷ cs) c o h p b =
    let rest = Ordered-append (x.first + x.count) cs c o.3 h p b in
    ((o.0, o.1, o.2, rest.0), rest.1)

record Allocated (a : Allocation) : Type 0 where
  ordered : Ordered 2 a.chains
  at_end : end_of 2 a.chains ≡ a.next_cluster

chain-Allocated :
    (count : ℕ) (a : Allocation)
    → Allocated a
    → a.next_cluster + count < 4294967296
    → Allocated (chain count a) × ((chain count a).next_cluster ≡ a.next_cluster + count)
unfolding chain
chain-Allocated count a v b =
    let count_fits : u32 count ≡ count = omega arith in
    let next_fits : u32 (a.next_cluster + count) ≡ a.next_cluster + count = omega arith in
    elim (Bool-cases (ltb 0 count)) [
      | inr empty ↦
          let none_added : count ≡ 0 = ground arith in
          rw (count_fits, next_fits, empty)
            (record { ordered = v.ordered; at_end = omega (arith, v.at_end, none_added) }, refl)
      | inl some_added ↦
          let added : ClusterChain = record { first = a.next_cluster; count = count } in
          let next =
            Ordered-append 2 a.chains added v.ordered (omega (arith, v.at_end)) (ground arith)
              (omega arith) in
          rw (count_fits, next_fits, some_added)
            (record { ordered = next.0; at_end = next.1 }, refl)
    ]

chain_all-Allocated :
    (counts : List ℕ) (a : Allocation)
    → Allocated a
    → a.next_cluster + sum counts < 4294967296
    → Allocated (chain_all counts a)
      × ((chain_all counts a).next_cluster ≡ a.next_cluster + sum counts)
unfolding chain_all
chain_all-Allocated [] a v b = (v, omega arith)
chain_all-Allocated (count ∷ counts) a v b =
    let (first, size) = chain-Allocated count a v (omega arith) in
    let (all, total) = chain_all-Allocated counts (chain count a) first (omega (arith, size)) in
    (all, omega (arith, size, total))

too_few : (a b c n : ℕ) → a < b → n ≤ a * c → b * c < n + c → ⊥
too_few a b c n lt h h' =
    let k = b - (a + 1) in
    let e : b ≡ a + 1 + k = omega arith in
    let product : b * c ≡ a * c + c + k * c = ap (λ t. t * c) e ∙ omega arith in
    omega (arith, product)

same_count : (a b c n : ℕ) → n ≤ a * c → a * c < n + c → n ≤ b * c → b * c < n + c → a ≡ b
same_count a b c n h1 h2 h3 h4 = elim (dec_lt a b) [
  | yes lt ↦ absurd (too_few a b c n lt h1 h4)
  | no ge ↦ elim (dec_lt b a) [ yes gt ↦ absurd (too_few b a c n gt h3 h2) | no le ↦ omega arith ]
]

-- The two ways to count the clusters of a file agree.
clusters_agree :
    (cluster_size : ℕ) (files : List VirtualFile)
    → 0 < cluster_size
    → sum (file_clusters cluster_size files) ≡ sum_clusters cluster_size (lengths_of files)
clusters_agree cluster_size [] h = refl
clusters_agree cluster_size (f ∷ files) h =
    let rest = clusters_agree cluster_size files h in
    let bounds = clusters_for_bytes_lem f.len cluster_size h in
    let a = (f.len + cluster_size - 1) / cluster_size in
    let b = clusters_for_bytes (pos f.len) cluster_size in
    let whole = div-add-mod (f.len + cluster_size - 1) cluster_size in
    let part = mod-lt (f.len + cluster_size - 1) h in
    let same : a ≡ b =
      same_count a b cluster_size f.len (omega (arith, whole, part)) (omega (arith, whole, part))
        bounds.0 bounds.1 in
    omega (arith, same, rest)

candidate_positive :
    (c : ℕ) (lengths : List ℤ) (wbfs_entries : ℕ)
    → SkippedBefore c wii_sectors_per_cluster lengths wbfs_entries
    → 0 < c
candidate_positive c lengths wbfs_entries h = ground arith

pub selected_positive :
    (lengths : List ℤ) (wbfs_entries : ℕ) (g : DiskGeometry)
    → select_disk_geometry lengths wbfs_entries ≡ ok g
    → 0 < g.sectors_per_cluster
selected_positive lengths wbfs_entries g e =
    let (sound, small, large) = select_disk_geometry_lem lengths wbfs_entries g e in
    elim (dec_lt (total_bytes lengths) large_wii_volume_threshold) [
      | yes below ↦ candidate_positive g.sectors_per_cluster lengths wbfs_entries (small below)
      | no above ↦ omega (arith, large (omega arith))
    ]

-- For the geometry that was selected for the files, Build's check of the allocation succeeds, and
-- the chains are ordered, disjoint and non-empty, from cluster 2 on and with ends below 2 ^ 32.
pub build_chains_lem :
    (files : List VirtualFile) (wbfs_entries : ℕ) (g : DiskGeometry)
    → select_disk_geometry (lengths_of files) wbfs_entries ≡ ok g
    → (chains : List ClusterChain) × (build_chains g files ≡ done chains) × Ordered 2 chains
unfolding build_chains
build_chains_lem files wbfs_entries g e =
    let sound = (select_disk_geometry_lem (lengths_of files) wbfs_entries g e).0 in
    let counts = 1 ∷ g.wbfs_dir_clusters ∷ file_clusters g.cluster_size files in
    let some_bytes : 0 < g.cluster_size =
      omega (arith, sound.cluster_bytes, selected_positive (lengths_of files) wbfs_entries g e) in
    let agree = clusters_agree g.cluster_size files some_bytes in
    let start : Allocation = record { next_cluster = 2; chains = [] } in
    let (all, total) =
      chain_all-Allocated counts start (record { ordered = tt; at_end = refl })
        (omega (arith, sound.files, sound.exact_free, sound.fat32_high, agree)) in
    let fits : u32 (2 + g.allocated_clusters) ≡ 2 + g.allocated_clusters =
      omega (arith, sound.exact_free, sound.fat32_high) in
    let check : ((chain_all counts start).next_cluster == u32 (2 + g.allocated_clusters)) ≡ true =
      ground (arith, total, fits, sound.files, agree) in
    ((chain_all counts start).chains, rw check, all.ordered)
