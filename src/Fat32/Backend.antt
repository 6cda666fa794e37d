-- ===== src/Fat32/Backend.antt =====
-- The backend of backend.go: the lookup of extents and `WriteAt`. The save store is any
-- implementation of its interface.
pub mod Lookup
pub mod Tables
pub mod Contract
pub mod Writing
use wii_bridge.Common.{
  ℕ, ◌+◌, ◌-◌, String, Bool, true, false, Option, none, some, List, [], ◌∷◌, leb, ltb, ◌==◌, ◌||◌,
  if◌then◌else◌, Bytes, length,
}
use wii_bridge.Common.Search.{search_table}
use wii_bridge.Fat32.{Extent, MetadataExtent, SaveExtent}

-- The methods of the interface `SaveStore` on its state. A write gives the count of bytes, and
-- whether there was no error; `none` is a call that does not return.
pub record SaveStoreOps (S : Type 0) : Type 0 where
  pub read_save_at : S → String → ℕ → ℕ → Option (Bytes × Bool)
  pub write_save_at : S → String → ℕ → Bytes → Option (S × (ℕ × Bool))

-- `Backend`, without its metrics and its cache of open files.
pub record Backend (S : Type 0) : Type 0 where
  pub size : ℕ
  pub metadata : Bytes
  pub meta : List MetadataExtent
  pub extents : List Extent
  pub saves : List SaveExtent
  pub save_store : Option S
  pub is_closed : Bool
  pub source_filesystems : String → String

pub find_save : List SaveExtent → ℕ → Option SaveExtent
find_save items position =
    elim (search_table (λ e. ltb position (e.virtual_offset + e.length)) items) [
      | none ↦ none
      | some e ↦ if leb e.virtual_offset position then some e else none
    ]

pub find_metadata : List MetadataExtent → ℕ → Option MetadataExtent
find_metadata items position =
    elim (search_table (λ e. ltb position (e.virtual_offset + e.length)) items) [
      | none ↦ none
      | some e ↦ if leb e.virtual_offset position then some e else none
    ]

pub find_source : List Extent → ℕ → Option Extent
find_source items position =
    elim (search_table (λ e. ltb position (e.virtual_offset + e.length)) items) [
      | none ↦ none
      | some e ↦ if leb e.virtual_offset position then some e else none
    ]

-- The errors of `WriteAt`: os.ErrClosed, os.ErrPermission, the two codes, and the store's.
pub data WriteFault : Type 0 where
  backend_closed permission outside_extent crosses_boundary store_failed : WriteFault

pub data WriteDone : Type 0 where
  stored : ℕ → WriteDone
  not_stored : ℕ → WriteFault → WriteDone

-- `ReadOnly`.
pub is_read_only : {S : Type 0} → Backend S → Bool
is_read_only b = length b.saves == 0 || elim b.save_store [ none ↦ true | some s ↦ false ]

-- The end of `WriteAt`, with the extent that was found.
pub write_extent :
    {S : Type 0}
    → SaveStoreOps S
    → Backend S
    → S
    → SaveExtent
    → ℕ
    → Bytes
    → Option (Backend S × WriteDone)
write_extent ops b s e off buffer =
    if ltb (e.virtual_offset + e.length) (off + length buffer)
    then some (b, not_stored 0 crosses_boundary)
    else elim (ops.write_save_at s e.save_object_id (e.card_offset + off - e.virtual_offset)
        buffer) [
          | none ↦ none
          | some (s', (n, ok)) ↦ some (
            record b { save_store = some s' },
            if ok then stored n else not_stored n store_failed,
          )
        ]

-- `WriteAt`. Behind the test of `ReadOnly` there is a save store.
pub write_at :
    {S : Type 0} → SaveStoreOps S → Backend S → ℕ → Bytes → Option (Backend S × WriteDone)
write_at ops b off buffer =
    if b.is_closed
    then some (b, not_stored 0 backend_closed)
    else if is_read_only b
    then some (b, not_stored 0 permission)
    else if length buffer == 0 || ltb b.size (off + length buffer)
    then some (b, not_stored 0 outside_extent)
    else elim (find_save b.saves off) [
      | none ↦ some (b, not_stored 0 outside_extent)
      | some e ↦ elim b.save_store [
        | none ↦ some (b, not_stored 0 permission)
        | some s ↦ write_extent ops b s e off buffer
      ]
    ]
