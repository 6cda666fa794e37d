-- ===== src/Vdisk/Sectors.antt =====
-- The sectors that Build of vdisk.go writes: mbr, bootSector and fsInfo.
pub mod Fields
use wii_bridge.Common.{
  ℕ, zero, suc, ◌+◌, ◌*◌, ◌/◌, ◌%◌, List, [], ◌∷◌, ◌++◌, Bytes, length, take, drop, replicate,
  le_bytes, if◌then◌else◌, Bool,
}
use wii_bridge.Vdisk.{sector_size, partition_start, reserved_sectors, num_fats, u32}

-- copy(b[off:], bytes), for bytes that end inside `b`.
abbrev pub put : ℕ → Bytes → Bytes → Bytes
put off bytes b = take off b ++ (bytes ++ drop (off + length bytes) b)

-- Writes, one after another.
abbrev pub put_all : List (ℕ × Bytes) → Bytes → Bytes
put_all [] b = b
put_all ((off, bytes) ∷ writes) b = put_all writes (put off bytes b)

pub mbr : ℕ → ℕ → ℕ → Bytes
mbr start sectors signature =
    put_all
      ((440, le_bytes 4 signature)
        ∷ (446, 0x00 ∷ [])
        ∷ (450, 0x0c ∷ [])
        ∷ (447, 0x20 ∷ 0x21 ∷ 0x00 ∷ [])
        ∷ (451, 0xfe ∷ 0xff ∷ 0xff ∷ [])
        ∷ (454, le_bytes 4 (u32 start))
        ∷ (458, le_bytes 4 (u32 sectors))
        ∷ (510, 0x55 ∷ 0xaa ∷ [])
        ∷ [])
      (replicate 512 0)

-- "WIIBRDG ", "WIIBRIDGE  " and "FAT32   ".
abbrev oem_name : Bytes
oem_name = 87 ∷ 73 ∷ 73 ∷ 66 ∷ 82 ∷ 68 ∷ 71 ∷ 32 ∷ []

abbrev volume_label : Bytes
volume_label = 87 ∷ 73 ∷ 73 ∷ 66 ∷ 82 ∷ 73 ∷ 68 ∷ 71 ∷ 69 ∷ 32 ∷ 32 ∷ []

abbrev system_name : Bytes
system_name = 70 ∷ 65 ∷ 84 ∷ 51 ∷ 50 ∷ 32 ∷ 32 ∷ 32 ∷ []

pub boot_sector : ℕ → ℕ → ℕ → ℕ → ℕ → Bytes
boot_sector sectors fat_sectors sectors_per_cluster root volume_id =
    put_all
      ((0, 0xeb ∷ 0x58 ∷ 0x90 ∷ [])
        ∷ (3, oem_name)
        ∷ (11, le_bytes 2 512)
        ∷ (13, sectors_per_cluster % 256 ∷ [])
        ∷ (14, le_bytes 2 (reserved_sectors % 65536))
        ∷ (16, num_fats % 256 ∷ [])
        ∷ (21, 0xf8 ∷ [])
        ∷ (24, le_bytes 2 63)
        ∷ (26, le_bytes 2 255)
        ∷ (28, le_bytes 4 (u32 partition_start))
        ∷ (32, le_bytes 4 (u32 sectors))
        ∷ (36, le_bytes 4 (u32 fat_sectors))
        ∷ (44, le_bytes 4 root)
        ∷ (48, le_bytes 2 1)
        ∷ (50, le_bytes 2 6)
        ∷ (64, 0x80 ∷ [])
        ∷ (66, 0x29 ∷ [])
        ∷ (67, le_bytes 4 volume_id)
        ∷ (71, volume_label)
        ∷ (82, system_name)
        ∷ (510, 0x55 ∷ 0xaa ∷ [])
        ∷ [])
      (replicate 512 0)

-- "RRaA" and "rrAa" are its signatures.
pub fs_info : ℕ → ℕ → Bytes
fs_info free_clusters next_free_cluster =
    put_all
      ((0, 82 ∷ 82 ∷ 97 ∷ 65 ∷ [])
        ∷ (484, 114 ∷ 114 ∷ 65 ∷ 97 ∷ [])
        ∷ (488, le_bytes 4 free_clusters)
        ∷ (492, le_bytes 4 next_free_cluster)
        ∷ (510, 0x55 ∷ 0xaa ∷ [])
        ∷ [])
      (replicate 512 0)
