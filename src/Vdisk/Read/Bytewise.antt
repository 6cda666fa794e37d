-- ===== src/Vdisk/Read/Bytewise.antt =====
-- What a read of the Wii disk returns, byte by byte: ReadAt of vdisk.go.
use wii_bridge.Common.{
  ℕ, zero, suc, ◌+◌, ◌-◌, ◌*◌, ◌/◌, ◌%◌, ◌≤◌, ◌<◌, ◌≡◌, refl, sym, ap, ◌∙◌, false, ◌&&◌, Option,
  none, some, List, [], ◌∷◌, ◌++◌, min, arith, ltb, ◌==◌, if◌then◌else◌, Bytes, length, take, drop,
  get_or, replicate, pos, tabulate, length-tabulate, tabulate-append, tabulate_shift, take_all,
  replicate-eq-tabulate, cut-eq-tabulate, append-nil, append_assoc, length-append, length-le_bytes,
  le_bytes, Bool-cases, Option-cases, inl, inr,
}
use wii_bridge.Vdisk.{Source, Extent, Disk}
use wii_bridge.Vdisk.Fat.{fat_sector_index, word_bytes, fill_fat_sector, fat_sector_bytes}
use wii_bridge.Vdisk.Fat.Equivalence.{length-fill_fat_sector}
use wii_bridge.Vdisk.Read.{Files, Filled, mapped_extent, read_piece, read_rounds, read_at}
use wii_bridge.Vdisk.Read.Payload.{IsReadable, complete, read_source_lem}
use wii_bridge.Vdisk.Read.Layout.{
  holding, Laid, mapped_extent_lem, holding-Holds, holding_on, holding_gap,
}

-- The byte that an extent has at a position.
abbrev pub extent_byte : (Source → ℕ → ℕ) → ℕ → Option Extent → ℕ
extent_byte contents position none = 0
extent_byte contents position (some e) =
    if e.zero then 0 else contents e.source (e.source_offset + position - e.start)

abbrev pub sector_byte : Option Bytes → ℕ → ℕ → ℕ
sector_byte none k otherwise = otherwise
sector_byte (some bytes) k otherwise = get_or bytes k 0

abbrev fat_bytes : Disk → Option ℕ → Option Bytes
fat_bytes d none = none
fat_bytes d (some fat_sector) = some (fat_sector_bytes d fat_sector)

-- The byte at a position, given the bytes of the source files: no search and no pieces.
abbrev pub byte_at : (Source → ℕ → ℕ) → Disk → ℕ → ℕ
byte_at contents d position = sector_byte (d.metadata (position / 512)) (position % 512) (
    sector_byte (fat_bytes d (fat_sector_index d (position / 512))) (position % 512)
      (extent_byte contents position (holding d.extents position)))

-- Whole sectors of metadata, extents in order, and no metadata or FAT sector inside an extent.
pub record IsLaidOut (d : Disk) : Type 0 where
  pub whole_sectors :
      (sector : ℕ) (bytes : Bytes) → d.metadata sector ≡ some bytes → length bytes ≡ 512
  pub laid : Laid 0 d.extents
  pub clear :
      (position : ℕ) (e : Extent)
      → holding d.extents position ≡ some e
      → (d.metadata (position / 512) ≡ none) × (fat_sector_index d (position / 512) ≡ none)

length-word_bytes : (xs : List ℕ) → length (word_bytes xs) ≡ length xs * 4
length-word_bytes [] = refl
length-word_bytes (x ∷ xs) =
    omega (
      arith,
      length-append (le_bytes 4 x) (word_bytes xs),
      length-le_bytes 4 x,
      length-word_bytes xs,
    )

length-fat_sector_bytes : (d : Disk) (fat_sector : ℕ) → length (fat_sector_bytes d fat_sector) ≡ 512
unfolding fat_sector_bytes
length-fat_sector_bytes d fat_sector =
    omega
      (arith, length-word_bytes (fill_fat_sector d fat_sector), length-fill_fat_sector d fat_sector)

same_sector : (position i : ℕ) → position % 512 + i < 512 → (position + i) / 512 ≡ position / 512
same_sector position i h = omega arith

in_sector : (position i : ℕ) → position % 512 + i < 512 → (position + i) % 512 ≡ position % 512 + i
in_sector position i h = omega arith

-- A piece of a read: at least a byte, and the right ones.
abbrev Piece : (ℕ → ℕ) → ℕ → ℕ → Option Filled → Type 0
Piece f position wanted r =
    (m : ℕ) × (0 < m) × (m ≤ wanted) × (r ≡ complete (tabulate f position m))

module _ (files : Files) (contents : Source → ℕ → ℕ) (ok : IsReadable files contents) (d : Disk)
    (laid_out : IsLaidOut d) where
  metadata-Piece :
      (position wanted : ℕ) (bytes : Bytes)
      → 0 < wanted
      → d.metadata (position / 512) ≡ some bytes
      → Piece (byte_at contents d) position wanted (read_piece files d position wanted)
  metadata-Piece position wanted bytes h found =
      let n = min wanted (512 - position % 512) in
      let size = laid_out.whole_sectors (position / 512) bytes found in
      let cut : take n (drop (position % 512) bytes) ≡ tabulate (byte_at contents d) position n =
        cut-eq-tabulate bytes (position % 512) n (byte_at contents d) position (omega (arith, size))
          λ i lt.
            rw (same_sector position i (omega arith), in_sector position i (omega arith), found) in
      (n, omega arith, omega arith, unfold read_piece in rw (found, read_piece) (ap complete cut))

  fat-Piece :
      (position wanted fat_sector : ℕ)
      → 0 < wanted
      → d.metadata (position / 512) ≡ none
      → fat_sector_index d (position / 512) ≡ some fat_sector
      → Piece (byte_at contents d) position wanted (read_piece files d position wanted)
  fat-Piece position wanted fat_sector h clear found =
      let n = min wanted (512 - position % 512) in
      let bytes = fat_sector_bytes d fat_sector in
      let size : length bytes ≡ 512 = length-fat_sector_bytes d fat_sector in
      let cut : take n (drop (position % 512) bytes) ≡ tabulate (byte_at contents d) position n =
        cut-eq-tabulate bytes (position % 512) n (byte_at contents d) position (omega (arith, size))
          λ i lt. rw (
            same_sector position i (omega arith),
            in_sector position i (omega arith),
            clear,
            found,
          ) in
      (
        n,
        omega arith,
        omega arith,
        elim (Bool-cases ((position % 512 == 0) && (n == 512))) [
          | inr part ↦ unfold read_piece in rw (clear, found, part, read_piece) (ap complete cut)
          | inl whole ↦
              let from_start : position % 512 ≡ 0 = ground arith in
              let all : n ≡ length bytes = ground arith in
              let same : bytes ≡ take n (drop (position % 512) bytes) =
                sym (take_all bytes)
                ∙ ap (λ k. take k bytes) (sym all)
                ∙ ap (λ k. take n (drop k bytes)) (sym from_start) in
              unfold read_piece in rw (clear, found, whole, read_piece) (ap complete (same ∙ cut))
        ],
      )

  gap-Piece :
      (position wanted : ℕ)
      → 0 < wanted
      → d.metadata (position / 512) ≡ none
      → fat_sector_index d (position / 512) ≡ none
      → holding d.extents position ≡ none
      → Piece (byte_at contents d) position wanted (read_piece files d position wanted)
  gap-Piece position wanted h clear no_fat gap =
      let n = min wanted (512 - position % 512) in
      let mapped : mapped_extent d position ≡ none =
        mapped_extent_lem d position laid_out.laid ∙ gap in
      let zeros : replicate n 0 ≡ tabulate (byte_at contents d) position n =
        replicate-eq-tabulate (byte_at contents d) position n λ q lo hi.
          let place : position + (q - position) ≡ q = omega arith in
          let sector : q / 512 ≡ position / 512 = omega arith in
          let still : holding d.extents q ≡ none =
            ap (holding d.extents) (sym place)
            ∙ holding_gap 0 position (q - position) d.extents laid_out.laid (omega arith) gap
                (omega arith) in
          rw (sector, clear, no_fat, still) in
      (
        n,
        omega arith,
        omega arith,
        unfold read_piece in rw (clear, no_fat, mapped, read_piece) (ap complete zeros),
      )

  extent-Piece :
      (position wanted : ℕ) (e : Extent)
      → 0 < wanted
      → holding d.extents position ≡ some e
      → Piece (byte_at contents d) position wanted (read_piece files d position wanted)
  extent-Piece position wanted e h found =
      let m = min wanted (e.start + e.len - position) in
      let held = holding-Holds 0 position d.extents e laid_out.laid found in
      let (clear, no_fat) = laid_out.clear position e found in
      let mapped : mapped_extent d position ≡ some e =
        mapped_extent_lem d position laid_out.laid ∙ found in
      let inside : (q : ℕ)
          → position ≤ q
          → q < position + m
          → byte_at contents d q ≡ extent_byte contents q (some e) =
        λ q lo hi.
          let still : holding d.extents q ≡ some e =
            holding_on 0 position q d.extents e laid_out.laid found lo (omega arith) in
          let (clear', no_fat') = laid_out.clear q e still in rw (clear', no_fat', still) in
      (
        m,
        omega (arith, held.before_end),
        omega arith,
        elim (Bool-cases e.zero) [
          | inl padding ↦
              let zeros : replicate m 0 ≡ tabulate (byte_at contents d) position m =
                replicate-eq-tabulate (byte_at contents d) position m
                  λ q lo hi. inside q lo hi ∙ rw padding in
              unfold read_piece in
              rw (clear, no_fat, mapped, padding, read_piece) (ap complete zeros)
          | inr payload ↦
              let off = e.source_offset + position - e.start in
              let fits : off + m ≤ e.source.size = elim held.backed [
                | inl padding ↦ absurd (cc (payload, padding))
                | inr b ↦ omega (arith, held.from_start, held.before_end)
              ] in
              let bytes : tabulate (contents e.source) off m
                  ≡ tabulate (byte_at contents d) position m =
                tabulate_shift (contents e.source) (byte_at contents d) off position m λ i lt.
                  let place : off + i ≡ e.source_offset + (position + i) - e.start =
                    omega (arith, held.from_start) in
                  ap (contents e.source) place
                  ∙ sym (inside (position + i) (omega arith) (omega arith) ∙ rw payload) in
              unfold read_piece in
              rw (clear, no_fat, mapped, payload, read_piece)
                (read_source_lem files contents ok e.source off m fits ∙ ap complete bytes)
        ],
      )

  read_piece_lem :
      (position wanted : ℕ)
      → 0 < wanted
      → Piece (byte_at contents d) position wanted (read_piece files d position wanted)
  read_piece_lem position wanted h = elim (Option-cases (holding d.extents position)) [
    | inr (e, found) ↦ extent-Piece position wanted e h found
    | inl gap ↦ elim (Option-cases (d.metadata (position / 512))) [
      | inr (bytes, found) ↦ metadata-Piece position wanted bytes h found
      | inl clear ↦ elim (Option-cases (fat_sector_index d (position / 512))) [
        | inr (fat_sector, found) ↦ fat-Piece position wanted fat_sector h clear found
        | inl no_fat ↦ gap-Piece position wanted h clear no_fat gap
      ]
    ]
  ]

  read_rounds_lem :
      (rounds position wanted : ℕ) (done : Bytes)
      → wanted < rounds
      → read_rounds files d rounds position wanted done
        ≡ complete (done ++ tabulate (byte_at contents d) position wanted)
  unfolding read_rounds
  read_rounds_lem zero position wanted done h = elim h [ ]
  read_rounds_lem (suc rounds) position zero done h = rw append-nil
  read_rounds_lem (suc rounds) position (suc n) done h =
      let some_left : (suc n == 0) ≡ false = ground arith in
      let (m, some_bytes, at_most, piece) = read_piece_lem position (suc n) (omega arith) in
      let f = byte_at contents d in
      let size = length-tabulate f position m in
      let rest =
        read_rounds_lem rounds (position + m) (suc n - m) (done ++ tabulate f position m)
          (omega arith) in
      let sum : m + (suc n - m) ≡ suc n = omega arith in
      let joined : (done ++ tabulate f position m) ++ tabulate f (position + m) (suc n - m)
          ≡ done ++ tabulate f position (suc n) =
        append_assoc done (tabulate f position m) (tabulate f (position + m) (suc n - m))
        ∙ ap (λ t. done ++ t)
            (tabulate-append f position m (suc n - m) ∙ ap (tabulate f position) sum) in
      rw (some_left, piece, size) (rest ∙ ap complete joined)

  -- A read inside the disk fills the whole buffer, without an error, with the byte of each position
  -- (that of the metadata or FAT sector, or else of the extent that holds it, or else 0), whatever
  -- pieces the read is cut into and wherever it begins and ends: for a laid out disk and source
  -- files that are unchanged and readable.
  pub read_at_lem :
      (off wanted : ℕ)
      → off + wanted ≤ d.size
      → read_at files d wanted (pos off) ≡ complete (tabulate (byte_at contents d) off wanted)
  unfolding read_at
  read_at_lem off wanted h =
      let inside : ltb d.size (off + wanted) ≡ false = ground arith in
      rw inside (read_rounds_lem (wanted + 1) off wanted [] (omega arith))
