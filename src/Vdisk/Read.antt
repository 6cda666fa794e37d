-- ===== src/Vdisk/Read.antt =====
-- ReadAt of vdisk.go: a read walks the disk in pieces, each from a metadata sector, a FAT sector,
-- an extent or a gap.
pub mod Payload
pub mod Layout
pub mod Bytewise
use wii_bridge.Common.{
  ℕ, zero, suc, ◌+◌, ◌-◌, ◌*◌, ◌/◌, ◌%◌, Bool, true, false, ◌&&◌, Option, none, some, List, [], ◌∷◌,
  ◌++◌, min, ltb, leb, ◌==◌, not, if◌then◌else◌, Bytes, length, take, drop, replicate, ℤ, pos,
  negsuc,
}
use wii_bridge.Common.Search.{search_table}
use wii_bridge.Vdisk.{sector_size, Source, Extent, Disk}
use wii_bridge.Vdisk.Fat.{fat_sector_index, fat_sector_bytes}

pub data ReadError : Type 0 where
  eof no_progress : ReadError
  source_error : ℕ → ReadError

-- The files behind the disk: scanner.VerifySource, os.Open, File.ReadAt and File.Close. The errors
-- are numbers. `ReadAt` answers at most as many bytes as it is asked for.
pub record Files : Type 0 where
  pub verify_source : Source → Option ℕ
  pub open_file : Source → Option ℕ
  pub file_read_at : Source → ℕ → ℕ → Bytes × Option ReadError
  pub close_file : Source → Option ℕ

-- What a call has filled, and its error.
pub record Filled : Type 0 where
  pub bytes : Bytes
  pub failure : Option ReadError

-- `readAtFull`: the rounds left, the offset and the bytes still wanted. Each round that goes on
-- has read a byte, so as many rounds as there are bytes, and one more, are enough; `none` is a
-- loop that is still running.
read_at_rounds : Files → Source → ℕ → ℕ → ℕ → Bytes → Option Filled
read_at_rounds files source zero off wanted done = none
read_at_rounds files source (suc rounds) off wanted done =
    if wanted == 0
    then some (record { bytes = done; failure = none })
    else let (got, failure) = files.file_read_at source off wanted in
      let all = done ++ got in
      let rest = read_at_rounds files source rounds (off + length got) (wanted - length got) all in
      if length got == wanted then some (record { bytes = all; failure = none }) else elim failure [
        | some e ↦ some (record { bytes = all; failure = some e })
        | none ↦
            if length got == 0
            then some (record { bytes = all; failure = some no_progress })
            else rest
      ]

pub read_at_full : Files → Source → ℕ → ℕ → Option Filled
read_at_full files source off wanted = read_at_rounds files source (wanted + 1) off wanted []

-- The bytes of an extent that holds payload. An error of Close is reported after the bytes.
pub read_source : Files → Source → ℕ → ℕ → Option Filled
read_source files source off n = elim (files.verify_source source) [
  | some e ↦ some (record { bytes = []; failure = some (source_error e) })
  | none ↦ elim (files.open_file source) [
    | some e ↦ some (record { bytes = []; failure = some (source_error e) })
    | none ↦ elim (read_at_full files source off n) [
      | none ↦ none
      | some filled ↦ elim filled.failure [
        | some e ↦ some filled
        | none ↦ elim (files.close_file source) [
          | some e ↦ some (record { bytes = filled.bytes; failure = some (source_error e) })
          | none ↦ some filled
        ]
      ]
    ]
  ]
]

abbrev pub extent_after : ℕ → Extent → Bool
extent_after position e = ltb position (e.start + e.len)

-- The extent that holds the position.
pub mapped_extent : Disk → ℕ → Option Extent
mapped_extent d position = elim (search_table (extent_after position) d.extents) [
  | none ↦ none
  | some e ↦ if leb e.start position then some e else none
]

-- One round of the loop: up to `wanted` bytes from `position` on.
pub read_piece : Files → Disk → ℕ → ℕ → Option Filled
read_piece files d position wanted =
    let sector = position / sector_size in
    let in_sector = position % sector_size in
    let n = min wanted (sector_size - in_sector) in
    elim (d.metadata sector) [
      | some bytes ↦ some (record { bytes = take n (drop in_sector bytes); failure = none })
      | none ↦ elim (fat_sector_index d sector) [
        | some fat_sector ↦ some (record {
          bytes =
              if (in_sector == 0) && (n == sector_size)
              then fat_sector_bytes d fat_sector
              else take n (drop in_sector (fat_sector_bytes d fat_sector));
          failure = none;
        })
        | none ↦ elim (mapped_extent d position) [
          | none ↦ some (record { bytes = replicate n 0; failure = none })
          | some e ↦
              let m = min wanted (e.start + e.len - position) in
              if e.zero
              then some (record { bytes = replicate m 0; failure = none })
              else read_source files e.source (e.source_offset + position - e.start) m
        ]
      ]
    ]

-- The loop of `ReadAt`, with the rounds that are left. A piece that came without an error is as
-- long as it was to be.
read_rounds : Files → Disk → ℕ → ℕ → ℕ → Bytes → Option Filled
read_rounds files d zero position wanted done = none
read_rounds files d (suc rounds) position wanted done =
    if wanted == 0
    then some (record { bytes = done; failure = none })
    else elim (read_piece files d position wanted) [
      | none ↦ none
      | some piece ↦ elim piece.failure [
        | some e ↦ some (record { bytes = done ++ piece.bytes; failure = some e })
        | none ↦
            read_rounds files d rounds (position + length piece.bytes) (wanted - length piece.bytes)
              (done ++ piece.bytes)
      ]
    ]

-- `ReadAt` of a buffer of `wanted` bytes at a signed offset.
pub read_at : Files → Disk → ℕ → ℤ → Option Filled
read_at files d wanted (negsuc n) = some (record { bytes = []; failure = some eof })
read_at files d wanted (pos off) =
    if ltb d.size (off + wanted)
    then some (record { bytes = []; failure = some eof })
    else read_rounds files d (wanted + 1) off wanted []
