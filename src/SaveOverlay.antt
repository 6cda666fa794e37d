-- ===== src/SaveOverlay.antt =====
-- server/host-daemon/gamecube/saveoverlay.go: the memory cards that an emulated console writes. A
-- card is a file, a journal of the writes since the last checkpoint, and the blocks that these
-- writes have changed. This file has the data; a regular file is its bytes, and what the operating
-- system may refuse is an argument of each operation.
pub mod Blocks
pub mod Journal
pub mod Store
pub mod Cards
pub mod Fixtures
mod Examples
use wii_bridge.Common.{
  ℕ, ◌+◌, ◌*◌, ◌%◌, ◌≤◌, ◌≡◌, Bool, true, false, Option, none, some, List, [], ◌∷◌, ltb, ◌==◌, min,
  if◌then◌else◌, Bytes, length, take, drop,
}

abbrev pub save_block_size : ℕ
save_block_size = 512

-- 16 MiB.
abbrev pub maximum_save_upload_size : ℕ
maximum_save_upload_size = 16777216

-- The map from block indices to changed blocks.
abbrev pub Dirty : Type 0
Dirty = List (ℕ × Bytes)

abbrev pub block_of : Dirty → ℕ → Option Bytes
block_of [] i = none
block_of ((j, b) ∷ d) i = if j == i then some b else block_of d i

abbrev pub set_block : Dirty → ℕ → Bytes → Dirty
set_block [] i b = (i, b) ∷ []
set_block ((j, c) ∷ d) i b = if j == i then (i, b) ∷ d else (j, c) ∷ set_block d i b

-- Which reads of the card's file fail, and after how many bytes.
pub record Io : Type 0 where
  pub read_fails : ℕ → ℕ → Option ℕ

-- File.ReadAt: a read past the end gives what is there, and an error.
pub file_read_at : Io → Bytes → ℕ → ℕ → Bytes × Bool
file_read_at io file off n = elim (io.read_fails off n) [
  | some k ↦ (take (min k n) (drop off file), true)
  | none ↦ (take n (drop off file), ltb (length file) (off + n))
]
