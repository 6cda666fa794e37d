-- ===== src/Fat32/Backend/Contract.antt =====
-- What backend.go relies on in a save store, and the bytes of the volume.
use text.Mathlib.Text.{◌==◌ as str_eq}
use wii_bridge.Common.{
  ℕ, ◌+◌, ◌-◌, ◌≡◌, ◌≤◌, ◌<◌, tabulate, String, Bool, true, false, Option, none, some,
  if◌then◌else◌, Bytes, length, get_or,
}
use wii_bridge.SaveOverlay.Blocks.View.{written}
use wii_bridge.Fat32.Backend.{SaveStoreOps, Backend}
use wii_bridge.Fat32.Backend.Tables.{save_at, metadata_at, source_at}

-- What a write to a store did: its bytes are on the card and no other byte of any card changed, or
-- there was an error and nothing changed.
abbrev pub IsEffect :
    {S : Type 0} → (S → String → ℕ → ℕ) → S → String → ℕ → Bytes → S → ℕ → Bool → Type 0
IsEffect content s id off buffer s' n true =
    (n ≡ length buffer)
    × ((other : String) (p : ℕ)
        → content s' other p
          ≡ (if str_eq id other then written (content s id) off buffer p else content s other p))
IsEffect content s id off buffer s' n false =
    (n ≡ 0) × ((other : String) (p : ℕ) → content s' other p ≡ content s other p)

-- The laws of a save store, on its good states.
pub record SaveStoreLaws {S : Type 0} (ops : SaveStoreOps S) : Type 1 where
  pub IsGood : S → Type 0
  pub content : S → String → ℕ → ℕ
  pub card_size : S → String → ℕ
  pub read_law :
      (s : S) (id : String) (off n : ℕ)
      → IsGood s
      → 0 < n
      → off + n ≤ card_size s id
      → ops.read_save_at s id off n ≡ some (tabulate (content s id) off n, true)
  pub write_law :
      (s : S) (id : String) (off : ℕ) (buffer : Bytes)
      → IsGood s
      → (s' : S) × (n : ℕ) × (ok : Bool) × (ops.write_save_at s id off buffer ≡ some (s', (n, ok)))
        × IsGood s'
        × ((other : String) → card_size s' other ≡ card_size s other)
        × IsEffect content s id off buffer s' n ok

module _ {S : Type 0} (content : S → String → ℕ → ℕ) (source_byte : String → ℕ → ℕ) where
  -- The byte outside the cards: of the metadata, of an image file, or zero.
  abbrev pub fixed_byte : Backend S → ℕ → ℕ
  fixed_byte b p = elim (metadata_at b.meta p) [
    | some e ↦ get_or b.metadata (e.storage_offset + p - e.virtual_offset) 0
    | none ↦ elim (source_at b.extents p) [
      | some e ↦ source_byte e.source_path (e.source_offset + p - e.virtual_offset)
      | none ↦ 0
    ]
  ]

  abbrev pub card_byte : Option S → String → ℕ → ℕ
  card_byte none id p = 0
  card_byte (some s) id p = content s id p

  -- The byte of the volume at a position.
  abbrev pub volume_byte : Backend S → ℕ → ℕ
  volume_byte b p = elim (save_at b.saves p) [
    | some e ↦ card_byte b.save_store e.save_object_id (e.card_offset + p - e.virtual_offset)
    | none ↦ fixed_byte b p
  ]
