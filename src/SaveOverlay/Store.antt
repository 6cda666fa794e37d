-- ===== src/SaveOverlay/Store.antt =====
-- `SaveStore` of saveoverlay.go: reads, writes, checkpoints and the synchronisation of cards. A
-- method runs under the store's mutex. The metadata file and the status fields are left out.
pub mod Checkpoint
pub mod Readable
pub mod Durable
pub mod Room
pub mod Commit
pub mod Writing
pub mod Recovery
pub mod Accepted
pub mod History
use text.Mathlib.Text.{◌==◌ as str_eq}
use wii_bridge.Common.{
  ℕ, zero, suc, ◌+◌, ◌-◌, ◌*◌, ◌/◌, String, Bool, true, false, ◌||◌, Option, none, some, List, [],
  ◌∷◌, ◌++◌, ltb, ◌==◌, if◌then◌else◌, Bytes, length, take, splice,
}
use wii_bridge.SaveOverlay.{save_block_size, Dirty, block_of, Io}
use wii_bridge.SaveOverlay.Blocks.{Applied, apply_write, read_card, is_clean}
use wii_bridge.SaveOverlay.Journal.{
  Limits, LoadError, loaded, refused, journal_record, load_journal,
}

-- `cardObject`: the size of its specification, its file, its journal's file and the rest.
pub record Card : Type 0 where
  pub card_size : ℕ
  pub file : Bytes
  pub journal : Bytes
  pub dirty : Dirty
  pub pending_bytes : ℕ
  pub journal_bytes : ℕ
  pub is_blocked : Bool

-- How the file system lets a checkpoint end: committed with the journal emptied; not committed,
-- with the previous file in place; or with the checkpoint in place but an error behind it, and
-- then the journal is still there, or is empty and could not be synchronised.
pub data Ending : Type 0 where
  committed uncommitted journal_kept journal_unsynced : Ending

-- The copy of the file with the changed blocks written over it. No index stands twice, so the
-- order of the blocks does not matter.
pub checkpoint : Dirty → Bytes → Bytes
checkpoint [] temp = temp
checkpoint ((index, b) ∷ dirty) temp = splice (checkpoint dirty temp) (index * save_block_size) b

-- `flushCard` of a card with changed blocks: the card, and whether it succeeded.
pub flush_dirty : Ending → Card → Card × Bool
flush_dirty uncommitted c = (c, false)
flush_dirty journal_kept c =
    (record c { file = checkpoint c.dirty (take c.card_size c.file) }, false)
flush_dirty journal_unsynced c =
    (record c { file = checkpoint c.dirty (take c.card_size c.file); journal = [] }, false)
flush_dirty committed c = (
  record c {
    file = checkpoint c.dirty (take c.card_size c.file);
    journal = [];
    dirty = [];
    pending_bytes = 0;
    journal_bytes = 0;
  },
  true,
)

-- `flushCard`. A file that is shorter than the card cannot be copied.
pub flush_card : Ending → Card → Card × Bool
flush_card ending c =
    if length c.dirty == 0
    then (c, true)
    else if ltb (length c.file) c.card_size
    then (c, false)
    else flush_dirty ending c

pub data SaveError : Type 0 where
  outside_extent blocked_journal journal_limit journal_failed file_read_failed closed : SaveError

-- The count of bytes, and the error.
pub data WriteResult : Type 0 where
  wrote : ℕ → WriteResult
  rejected : ℕ → SaveError → WriteResult

-- What the file system does during a write: the endings of the two checkpoints that a write may
-- ask for, and how many bytes of the record reach the journal if appending it fails.
pub record Faults : Type 0 where
  pub first_ending : Ending
  pub second_ending : Ending
  pub append_fails : Option ℕ

-- The blocks from `block` on that have not changed yet.
abbrev pub count_new : Dirty → ℕ → ℕ → ℕ
count_new dirty block zero = 0
count_new dirty block (suc n) =
    (if is_clean dirty block then 1 else 0) + count_new dirty (block + 1) n

-- A checkpoint if there is need.
pub flush_if : Bool → Ending → Card → Card × Bool
flush_if needed ending c = if needed then flush_card ending c else (c, true)

-- What opening a card gives. A card that could not be checkpointed is closed again, and is here
-- what is left on disk.
pub data Opened : Type 0 where
  opened : Card → Opened
  load_failed : LoadError → Opened
  flush_failed : Card → Opened

-- The card of `openObject`, of a file and a journal on disk, before its journal is loaded.
pub fresh_card : ℕ → Bytes → Bytes → Card
fresh_card size file journal = record {
  card_size = size;
  file = file;
  journal = journal;
  dirty = [];
  pending_bytes = 0;
  journal_bytes = length journal;
  is_blocked = false;
}

module _ (sha256 : Bytes → Bytes) (limits : Limits) (io : Io) (faults : Faults) where
  -- The end of a write: the journal first, and then the blocks.
  pub commit_write : Card → ℕ → Bytes → Option (Card × WriteResult)
  commit_write c off buffer =
      let line = journal_record sha256 off buffer in
      elim faults.append_fails [
        | some k ↦ some (
          record c { journal = c.journal ++ take k line; is_blocked = true },
          rejected 0 journal_failed,
        )
        | none ↦
            let c1 = record c { journal = c.journal ++ line } in
            elim (apply_write io c.file off buffer c.dirty) [
              | none ↦ none
              | some a ↦
                  if a.failed
                  then some (
                    record c1 { dirty = a.dirty },
                    rejected (length buffer - a.left) file_read_failed,
                  )
                  else some (
                    record c1 {
                      dirty = a.dirty;
                      pending_bytes = c.pending_bytes + length buffer;
                      journal_bytes = c.journal_bytes + (length buffer + 52);
                    },
                    wrote (length buffer),
                  )
            ]
      ]

  -- The checkpoints before a write.
  pub make_room : Card → ℕ → ℕ → ℕ → Card × Bool
  make_room c len first_block blocks =
      let (c1, ok1) =
        flush_if
          (ltb limits.max_pending_bytes (c.pending_bytes + len)
            || ltb limits.max_journal_bytes (c.journal_bytes + (len + 52)))
          faults.first_ending c in
      let (c2, ok2) =
        flush_if
          (ltb limits.max_dirty_blocks (length c1.dirty + count_new c1.dirty first_block blocks))
          faults.second_ending c1 in
      if ok1 then (c2, ok2) else (c1, false)

  -- `WriteSaveAt` behind the lookup of the card; an offset is not negative.
  pub write_card : Card → ℕ → Bytes → Option (Card × WriteResult)
  write_card c off buffer =
      let first_block = off / save_block_size in
      let last_block = (off + length buffer - 1) / save_block_size in
      let blocks = last_block - first_block + 1 in
      let (c1, ok) = make_room c (length buffer) first_block blocks in
      if length buffer == 0 || ltb c.card_size (off + length buffer)
      then some (c, rejected 0 outside_extent)
      else if c.is_blocked
      then some (c, rejected 0 blocked_journal)
      else if ltb limits.max_pending_bytes (length buffer)
          || ltb limits.max_journal_bytes (length buffer + 52)
          || ltb limits.max_dirty_blocks blocks
      then some (c, rejected 0 journal_limit)
      else if ok
      then commit_write c1 off buffer
      else some (c1, rejected 0 journal_limit)

  -- The end of `openObject`: the journal is loaded, and a checkpoint is made.
  pub open_card : ℕ → Bytes → Bytes → Option Opened
  open_card size file journal =
      let c = fresh_card size file journal in
      if length journal == 0
      then some (opened c)
      else elim (load_journal sha256 io limits size file journal) [
        | none ↦ none
        | some (refused e) ↦ some (load_failed e)
        | some (loaded dirty total) ↦
            let (c1, ok) =
              flush_card faults.first_ending (record c { dirty = dirty; pending_bytes = total }) in
            if ok then some (opened c1) else some (flush_failed c1)
      ]
