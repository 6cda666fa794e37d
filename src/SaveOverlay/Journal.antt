-- ===== src/SaveOverlay/Journal.antt =====
-- The journal of saveoverlay.go: appendJournal and loadJournal. SHA-256 is a function that the
-- operations take.
pub mod Replay
use wii_bridge.Common.{
  ℕ, zero, suc, ◌+◌, Bool, true, false, ◌||◌, not, Option, none, some, List, [], ◌∷◌, ◌++◌, ltb,
  leb, ◌==◌, if◌then◌else◌, Bytes, bytes_eq, length, take, drop, le_bytes, le_value,
}
use wii_bridge.SaveOverlay.{maximum_save_upload_size, Dirty, Io}
use wii_bridge.SaveOverlay.Blocks.{Applied, apply_write}

-- "WBSAVE1\n"
abbrev pub journal_magic : Bytes
journal_magic = 87 ∷ 66 ∷ 83 ∷ 65 ∷ 86 ∷ 69 ∷ 49 ∷ 10 ∷ []

-- The limits of `SaveStoreConfig`.
pub record Limits : Type 0 where
  pub max_dirty_blocks : ℕ
  pub max_journal_bytes : ℕ
  pub max_pending_bytes : ℕ

-- The header and the data that `appendJournal` writes.
abbrev pub journal_record : (Bytes → Bytes) → ℕ → Bytes → Bytes
journal_record sha256 off buffer =
    journal_magic ++ (le_bytes 8 off ++ (le_bytes 4 (length buffer) ++ (sha256 buffer ++ buffer)))

pub data LoadError : Type 0 where
  over_limit malformed out_of_bounds incomplete checksum_mismatch read_failed : LoadError

pub data Loaded : Type 0 where
  loaded : Dirty → ℕ → Loaded
  refused : LoadError → Loaded

module _ (sha256 : Bytes → Bytes) (io : Io) (limits : Limits) (card_size : ℕ) (file : Bytes) where
  -- The bounds of a record; an offset from 2 ^ 63 on is negative as an int64.
  pub is_out_of_bounds : ℕ → ℕ → ℕ → Bool
  is_out_of_bounds off len total =
      len == 0
      || ltb maximum_save_upload_size len
      || leb 9223372036854775808 off
      || ltb card_size (off + len)
      || ltb limits.max_pending_bytes (total + len)

  -- The loop of `loadJournal`, with the rounds that are left; a record has at least 52 bytes.
  pub load_rounds : ℕ → Bytes → ℕ → Dirty → Option Loaded
  load_rounds zero journal total dirty = none
  load_rounds (suc rounds) journal total dirty =
      let off = le_value (take 8 (drop 8 journal)) in
      let len = le_value (take 4 (drop 16 journal)) in
      let rest = drop 52 journal in
      let data_bytes = take len rest in
      if length journal == 0
      then some (loaded dirty total)
      else if ltb (length journal) 52 || not (bytes_eq (take 8 journal) journal_magic)
      then some (refused malformed)
      else if is_out_of_bounds off len total
      then some (refused out_of_bounds)
      else if ltb (length rest) len
      then some (refused incomplete)
      else if not (bytes_eq (sha256 data_bytes) (take 32 (drop 20 journal)))
      then some (refused checksum_mismatch)
      else elim (apply_write io file off data_bytes dirty) [
        | none ↦ none
        | some a ↦ elim a.failed [
          | true ↦ some (refused read_failed)
          | false ↦ load_rounds rounds (drop len rest) (total + len) a.dirty
        ]
      ]

  -- `loadJournal` of a card that was just opened.
  pub load_journal : Bytes → Option Loaded
  load_journal journal =
      if ltb limits.max_journal_bytes (length journal)
      then some (refused over_limit)
      else load_rounds (length journal + 1) (take (limits.max_journal_bytes + 1) journal) 0 []
