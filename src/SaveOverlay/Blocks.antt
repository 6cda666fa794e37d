-- ===== src/SaveOverlay/Blocks.antt =====
-- The loops of saveoverlay.go over the 512-byte blocks of a card: the one that copies a write into
-- the changed blocks (WriteSaveAt, and loadJournal again), and the one that reads (ReadSaveAt).
pub mod View
pub mod Reading
use wii_bridge.Common.{
  ℕ, zero, suc, ◌+◌, ◌-◌, ◌*◌, ◌/◌, ◌%◌, Bool, true, false, ◌&&◌, Option, none, some, List, [], ◌∷◌,
  ◌++◌, ltb, ◌==◌, min, if◌then◌else◌, Bytes, length, take, drop, splice,
}
use wii_bridge.SaveOverlay.{save_block_size, Dirty, block_of, set_block, Io, file_read_at}

-- Where the copy ended: the blocks, the bytes that are left, and whether a read failed.
pub record Applied : Type 0 where
  pub dirty : Dirty
  pub left : ℕ
  pub failed : Bool

-- The block to change, from the changed blocks or from the file, and whether the read failed.
pub base_block : Io → Bytes → Dirty → ℕ → Bytes × Bool
base_block io file dirty index = elim (block_of dirty index) [
  | some b ↦ (b, false)
  | none ↦ file_read_at io file (index * save_block_size) save_block_size
]

-- The copying loop, with the rounds that are left. Each round copies a byte, so one round more
-- than there are bytes is enough; `none` is a loop that is still running.
pub apply_rounds : Io → Bytes → ℕ → ℕ → Bytes → Dirty → Option Applied
apply_rounds io file zero position buffer dirty = none
apply_rounds io file (suc rounds) position buffer dirty =
    let index = position / save_block_size in
    let in_block = position % save_block_size in
    let n = min (length buffer) (save_block_size - in_block) in
    let (base, bad) = base_block io file dirty index in
    let rest =
      apply_rounds io file rounds (position + n) (drop n buffer)
        (set_block dirty index (splice base in_block (take n buffer))) in
    if length buffer == 0
    then some (record { dirty = dirty; left = 0; failed = false })
    else if bad
    then some (record { dirty = dirty; left = length buffer; failed = true })
    else rest

pub apply_write : Io → Bytes → ℕ → Bytes → Dirty → Option Applied
apply_write io file off buffer dirty = apply_rounds io file (length buffer + 1) off buffer dirty

abbrev pub is_clean : Dirty → ℕ → Bool
is_clean dirty index = elim (block_of dirty index) [ none ↦ true | some b ↦ false ]

-- The inner loop of a read: the length of the clean span, with the rounds that are left.
pub span_rounds : Dirty → ℕ → ℕ → ℕ → ℕ → Option ℕ
span_rounds dirty position remaining zero len = none
span_rounds dirty position remaining (suc rounds) len =
    let rest =
      span_rounds dirty position remaining rounds (len + min (remaining - len) save_block_size) in
    if ltb len remaining && is_clean dirty ((position + len) / save_block_size)
    then rest
    else some len

-- The reading loop: the rounds that are left, the position, the bytes still wanted, and those read.
pub read_rounds : Io → Bytes → Dirty → ℕ → ℕ → ℕ → Bytes → Option (Bytes × Bool)
read_rounds io file dirty zero position wanted done = none
read_rounds io file dirty (suc rounds) position wanted done =
    let in_block = position % save_block_size in
    let n = min wanted (save_block_size - in_block) in
    if wanted == 0 then some (done, false) else elim (block_of dirty (position / save_block_size)) [
      | some b ↦
          read_rounds io file dirty rounds (position + n) (wanted - n)
            (done ++ take n (drop in_block b))
      | none ↦ elim (span_rounds dirty position wanted (wanted + 1) n) [
        | none ↦ none
        | some m ↦
            let (got, bad) = file_read_at io file position m in
            let rest = read_rounds io file dirty rounds (position + m) (wanted - m) (done ++ got) in
            if bad then some (done ++ got, true) else rest
      ]
    ]

-- A read of a card: straight from the file where no block has changed.
pub read_card : Io → Bytes → Dirty → ℕ → ℕ → Option (Bytes × Bool)
read_card io file [] off n = some (file_read_at io file off n)
read_card io file (b ∷ dirty) off n = read_rounds io file (b ∷ dirty) (n + 1) off n []
