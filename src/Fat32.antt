-- ===== src/Fat32.antt =====
-- server/host-daemon/fat32virtual: the GameCube volume as tables of extents. A position of the
-- volume is in a save extent, in a metadata extent, in a source extent or in none of them.
pub mod Backend
pub mod Handles
pub mod Reader
pub mod CardStore
pub mod Validate
mod Examples
use wii_bridge.Common.{ℕ, String, List}

-- `Identity`: what an image file looked like when the volume was built.
pub record Identity : Type 0 where
  pub device : ℕ
  pub inode : ℕ
  pub size : ℕ
  pub mod_time : ℕ
  pub filesystem_id : String

-- `Extent`: bytes of an image file.
pub record Extent : Type 0 where
  pub virtual_offset : ℕ
  pub length : ℕ
  pub source_path : String
  pub source_offset : ℕ
  pub source_size : ℕ
  pub identity : Identity

pub record MetadataExtent : Type 0 where
  pub virtual_offset : ℕ
  pub length : ℕ
  pub storage_offset : ℕ

-- `SaveExtent`: bytes of a memory card.
pub record SaveExtent : Type 0 where
  pub virtual_offset : ℕ
  pub length : ℕ
  pub save_object_id : String
  pub card_offset : ℕ
  pub card_size : ℕ
