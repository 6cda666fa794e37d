-- ===== src/Vdisk/Build/Extents.antt =====
-- The extents that Build of vdisk.go lays out are those that its reads rely on.
use wii_bridge.Common.{
  ℕ, zero, suc, ◌+◌, ◌-◌, ◌*◌, ◌/◌, ◌%◌, ◌≤◌, ◌<◌, ◌≡◌, refl, sym, ap, ◌∙◌, subst, false, ◌&&◌,
  some, List, [], ◌∷◌, ◌++◌, arith, ltb, leb, ◌==◌, if◌then◌else◌, Bool-cases, inl, inr,
}
use native.Mathlib.Nat.{div-add-mod, mod-lt}
use wii_bridge.Vdisk.{sector_size, partition_start, Source, Extent}
use wii_bridge.Vdisk.Geometry.{DiskGeometry}
use wii_bridge.Vdisk.Read.Layout.{Laid}
use wii_bridge.Vdisk.Build.{
  done, VirtualFile, locate, place_rounds, padding_extent, place_files, build_extents,
}

-- The end of the last extent.
abbrev end_of : ℕ → List Extent → ℕ
end_of lo [] = lo
end_of lo (e ∷ es) = end_of (e.start + e.len) es

-- Extents without gaps from `lo` to `hi`.
record Fills (lo hi : ℕ) (es : List Extent) : Type 0 where
  laid : Laid lo es
  at_end : end_of lo es ≡ hi

Laid-append :
    (lo : ℕ) (es fs : List Extent) → Laid lo es → Laid (end_of lo es) fs → Laid lo (es ++ fs)
Laid-append lo [] fs h h' = h'
Laid-append lo (e ∷ es) fs h h' = (h.0, h.1, h.2, Laid-append (e.start + e.len) es fs h.3 h')

end_of-append : (lo : ℕ) (es fs : List Extent) → end_of lo (es ++ fs) ≡ end_of (end_of lo es) fs
end_of-append lo [] fs = refl
end_of-append lo (e ∷ es) fs = end_of-append (e.start + e.len) es fs

Fills-append :
    (lo mid hi : ℕ) (es fs : List Extent)
    → Fills lo mid es
    → Fills mid hi fs
    → Fills lo hi (es ++ fs)
Fills-append lo mid hi es fs p q =
    let e = p.at_end in
    record {
      laid = Laid-append lo es fs p.laid (rw e q.laid);
      at_end = end_of-append lo es fs ∙ ap (λ m. end_of m fs) e ∙ q.at_end;
    }

-- Every part of the game is inside its file.
abbrev pub Backed : List Source → Type 0
Backed [] = Unit
Backed (s ∷ sources) = (s.len ≤ s.size) × Backed sources

locate-Backed :
    (sources : List Source) (logical : ℕ) (s : Source) (off : ℕ)
    → Backed sources
    → locate sources logical ≡ some (s, off)
    → (off < s.len) × (s.len ≤ s.size)
unfolding locate
locate-Backed [] logical s off b h = absurd (cc h)
locate-Backed (x ∷ sources) logical s off b h =
    elim (Bool-cases (leb x.offset logical && ltb logical (x.offset + x.len))) [
      | inl here ↦ let same : x ≡ s = ground arith in ground arith
      | inr there ↦ locate-Backed sources logical s off b.1 (ground arith)
    ]

-- The parts of the game leave no gap in the file.
abbrev pub Covered : VirtualFile → Type 0
Covered f =
    (logical : ℕ)
    → f.off ≤ logical
    → logical < f.off + f.len
    → (r : Source × ℕ) × (locate f.sources logical ≡ some r)

place_rounds_lem :
    (f : VirtualFile) (file_start rounds remaining game_offset : ℕ)
    → Backed f.sources
    → Covered f
    → remaining < rounds
    → f.off ≤ game_offset
    → game_offset + remaining ≡ f.off + f.len
    → (es : List Extent) × (place_rounds rounds f file_start remaining game_offset ≡ done es)
      × Fills (file_start + game_offset - f.off) (file_start + f.len) es
unfolding place_rounds
place_rounds_lem f file_start zero remaining game_offset b c h lo e = elim h [ ]
place_rounds_lem f file_start (suc rounds) zero game_offset b c h lo e =
    ([], refl, record { laid = tt; at_end = omega arith })
place_rounds_lem f file_start (suc rounds) (suc k) game_offset b c h lo e =
    let (r, found) = c game_offset lo (omega arith) in
    let (inside, fits) = locate-Backed f.sources game_offset r.0 r.1 b found in
    let available = r.0.len - r.1 in
    let n = if ltb available (suc k) then available else suc k in
    let some_left : (suc k == 0) ≡ false = ground arith in
    let some_bytes : 0 < n = ground arith in
    let at_most : n ≤ suc k = ground arith in
    let within : r.1 + n ≤ r.0.len = ground arith in
    let (es, placed, fills) =
      place_rounds_lem f file_start rounds (suc k - n) (game_offset + n) b c (omega arith)
        (omega arith) (omega arith) in
    let here : file_start + (game_offset + n) - f.off ≡ file_start + game_offset - f.off + n =
      omega arith in
    let e0 : Extent = record {
      start = file_start + game_offset - f.off;
      len = n;
      source = r.0;
      source_offset = r.1;
      zero = false;
    } in
    let laid : Laid (file_start + game_offset - f.off + n) es = rw (sym here) fills.laid in
    (
      e0 ∷ es,
      rw (some_left, found, placed),
      record {
        laid = (omega arith, inr refl, inr (omega arith), laid);
        at_end = subst (λ m. end_of m es ≡ file_start + f.len) here fills.at_end;
      },
    )

padding_extent_lem :
    (no_source : Source) (cluster_size file_start len : ℕ)
    → 0 < cluster_size
    → Fills
        (file_start + len)
        (file_start + (len + cluster_size - 1) / cluster_size * cluster_size)
        (padding_extent no_source cluster_size file_start len)
unfolding padding_extent
padding_extent_lem no_source cluster_size file_start len h =
    let whole = div-add-mod (len + cluster_size - 1) cluster_size in
    let part = mod-lt (len + cluster_size - 1) h in
    let size = (len + cluster_size - 1) / cluster_size * cluster_size in
    let enough : len ≤ size = omega (arith, whole, part) in
    elim (Bool-cases (ltb 0 (size - len))) [
      | inr none_left ↦ rw none_left (record { laid = tt; at_end = ground arith })
      | inl some_left ↦
          rw some_left
            (record { laid = (omega arith, inr refl, inl refl, tt); at_end = omega arith })
    ]

abbrev pub AllPlaceable : List VirtualFile → Type 0
AllPlaceable [] = Unit
AllPlaceable (f ∷ files) = (Backed f.sources × Covered f) × AllPlaceable files

abbrev end_sector : ℕ → ℕ → List VirtualFile → ℕ
end_sector sectors_per_cluster cursor [] = cursor
end_sector sectors_per_cluster cursor (f ∷ files) =
    let cluster_size = sector_size * sectors_per_cluster in
    end_sector sectors_per_cluster
      (cursor + (f.len + cluster_size - 1) / cluster_size * sectors_per_cluster) files

sectors_lem : (a b spc : ℕ) → a * 512 + b * (512 * spc) ≡ (a + b * spc) * 512
sectors_lem a b spc = omega arith

place_files_lem :
    (no_source : Source) (spc cursor : ℕ) (files : List VirtualFile)
    → 0 < spc
    → AllPlaceable files
    → (es : List Extent) × (place_files no_source spc files cursor ≡ done es)
      × Fills (cursor * 512) (end_sector spc cursor files * 512) es
unfolding place_files
place_files_lem no_source spc cursor [] h v = ([], refl, record { laid = tt; at_end = refl })
place_files_lem no_source spc cursor (f ∷ files) h ((b, c), v) =
    let cluster_size = 512 * spc in
    let count = (f.len + cluster_size - 1) / cluster_size in
    let (es, placed, fills) =
      place_rounds_lem f (cursor * 512) (f.len + 1) f.len f.off b c (omega arith) (omega arith)
        refl in
    let (rest, placed', fills') = place_files_lem no_source spc (cursor + count * spc) files h v in
    let from_start : cursor * 512 + f.off - f.off ≡ cursor * 512 = omega arith in
    let pad = padding_extent no_source cluster_size (cursor * 512) f.len in
    let padded = padding_extent_lem no_source cluster_size (cursor * 512) f.len (omega arith) in
    let file_fills : Fills (cursor * 512) (cursor * 512 + count * cluster_size) (es ++ pad) =
      Fills-append (cursor * 512) (cursor * 512 + f.len) _ es pad
        (subst (λ m. Fills m (cursor * 512 + f.len) es) from_start fills) padded in
    let file_fills' : Fills (cursor * 512) ((cursor + count * spc) * 512) (es ++ pad) =
      subst (λ m. Fills (cursor * 512) m (es ++ pad)) (sectors_lem cursor count spc) file_fills in
    (
      (es ++ pad) ++ rest,
      rw (placed, placed', place_files),
      Fills-append (cursor * 512) _ _ (es ++ pad) rest file_fills' fills',
    )

Laid-lower : (hi : ℕ) (es : List Extent) → hi % 512 ≡ 0 → Laid hi es → Laid 0 es
Laid-lower hi [] a h = tt
Laid-lower hi (e ∷ es) a (lo, start, backed, rest) = (
  omega arith,
  elim start [ inl aligned ↦ inl aligned | inr joined ↦ inl (ap (λ m. m % 512) joined ∙ a) ],
  backed,
  rest,
)

-- For clusters of at least a sector, and files whose parts are inside the source files and leave
-- no gap, Build lays the extents out without an error, in ascending order, each from a sector's
-- start or from the end of the one before it, and each inside its source file unless it is padding.
pub build_extents_lem :
    (no_source : Source) (g : DiskGeometry) (files : List VirtualFile)
    → 0 < g.sectors_per_cluster
    → AllPlaceable files
    → (es : List Extent) × (build_extents no_source g files ≡ done es) × Laid 0 es
unfolding build_extents
build_extents_lem no_source g files h v =
    let cursor =
      partition_start
      + g.first_data
      + g.sectors_per_cluster
      + g.wbfs_dir_clusters * g.sectors_per_cluster in
    let (es, placed, fills) = place_files_lem no_source g.sectors_per_cluster cursor files h v in
    (es, placed, Laid-lower (cursor * 512) es (omega arith) fills.laid)
