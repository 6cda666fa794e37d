-- ===== src/Fat32/Reader.antt =====
-- `ReadAt` of backend.go: a read walks the volume in pieces, each from a save extent, a metadata
-- extent, a source extent or a gap.
pub mod Gaps
pub mod Servable
pub mod Pieces
pub mod Bytewise
use text.Mathlib.Text.{◌==◌ as str_eq}
use wii_bridge.Common.{
  ℕ, zero, suc, ◌+◌, ◌-◌, String, Bool, true, false, Option, none, some, List, [], ◌∷◌, ◌++◌, ltb,
  ◌==◌, not, if◌then◌else◌, Bytes, length, take, drop, replicate, min, max,
}
use wii_bridge.Common.Search.{search_table}
use wii_bridge.Fat32.{Identity, Extent, MetadataExtent, SaveExtent}
use wii_bridge.Fat32.Backend.{SaveStoreOps, Backend, find_save, find_metadata, find_source}
use wii_bridge.Fat32.Handles.{Os, Handles, verify_identity, open_path, drop_cached}

pub data ReadFault : Type 0 where
  out_of_range closed_backend save_failed identity_failed open_failed source_failed : ReadFault

-- The cache of open files, the bytes that were read, and the error.
pub record Read : Type 0 where
  pub handles : Handles
  pub bytes : Bytes
  pub fault : Option ReadFault

-- `readFullAt`, with the rounds that are left: a round that goes on has read a byte, so one round
-- more than there are bytes wanted is enough. `none` is a loop that is still running.
pub read_full_rounds : Os → String → ℕ → ℕ → ℕ → Bytes → Option (Bytes × Bool)
read_full_rounds os path zero off wanted done = none
read_full_rounds os path (suc rounds) off wanted done =
    let (got, bad) = os.file_read_at path off wanted in
    let rest =
      read_full_rounds os path rounds (off + length got) (wanted - length got) (done ++ got) in
    if wanted == 0
    then some (done, false)
    else if length got == wanted
    then some (done ++ got, false)
    else if bad
    then some (done ++ got, true)
    else if length got == 0
    then some (done ++ got, true)
    else rest

pub read_full_at : Os → String → ℕ → ℕ → Option (Bytes × Bool)
read_full_at os path off n = read_full_rounds os path (n + 1) off n []

-- The identity that a file must have; an old layout may lack its file system.
unfoldable pub expected_identity : {S : Type 0} → Backend S → Extent → Identity
expected_identity b e =
    if str_eq e.identity.filesystem_id ""
    then record e.identity { filesystem_id = b.source_filesystems e.source_path }
    else e.identity

pub read_opened : Os → Handles → String → ℕ → ℕ → Option Read
read_opened os h path off n =
    let h1 = record h { stats = record h.stats { source_reads = h.stats.source_reads + 1 } } in
    elim (read_full_at os path off n) [
      | none ↦ none
      | some (got, bad) ↦
          if bad
          then some
              (record { handles = drop_cached h1 path; bytes = got; fault = some source_failed })
          else some (record { handles = h1; bytes = got; fault = none })
    ]

-- A piece of an image file.
pub read_source : Os → Handles → Identity → String → ℕ → ℕ → Option Read
read_source os h expected path off n =
    let (h1, ok) = open_path os h path in
    if not (verify_identity os path expected)
    then some (record { handles = drop_cached h path; bytes = []; fault = some identity_failed })
    else if not ok
    then some (record { handles = h1; bytes = []; fault = some open_failed })
    else read_opened os h1 path off n

-- Where the next item of a table starts, if that is before a limit.
pub next_start : {A : Type 0} → (A → ℕ) → List A → ℕ → ℕ → ℕ
next_start start items position limit = elim (search_table (λ e. ltb position (start e)) items) [
  | none ↦ limit
  | some e ↦ if ltb (start e) limit then start e else limit
]

-- The zeros of a gap, up to the next extent of any table.
pub gap_length : {S : Type 0} → Backend S → ℕ → ℕ → ℕ
gap_length b position wanted =
    let next =
      next_start (λ e. e.virtual_offset) b.saves position
        (next_start (λ e. e.virtual_offset) b.extents position
          (next_start (λ e. e.virtual_offset) b.meta position (position + wanted))) in
    max 1 (next - position)

pub read_card_piece :
    {S : Type 0} → SaveStoreOps S → Backend S → Handles → SaveExtent → ℕ → ℕ → Option Read
read_card_piece ops b h e position n = elim b.save_store [
  | none ↦ none
  | some s ↦
      elim (ops.read_save_at s e.save_object_id (e.card_offset + position - e.virtual_offset) n) [
        | none ↦ none
        | some (got, ok) ↦
            some
              (record { handles = h; bytes = got; fault = if ok then none else some save_failed })
      ]
]

-- The body of the loop of `ReadAt`. Save extents without a store, which `OpenWithOptions` refuses,
-- give `none`.
pub read_piece : {S : Type 0} → SaveStoreOps S → Os → Backend S → Handles → ℕ → ℕ → Option Read
read_piece ops os b h position wanted = elim (find_save b.saves position) [
  | some e ↦
      read_card_piece ops b h e position (min wanted (e.virtual_offset + e.length - position))
  | none ↦ elim (find_metadata b.meta position) [
    | some e ↦ some (record {
      handles = h;
      bytes =
          take (min wanted (e.virtual_offset + e.length - position))
            (drop (e.storage_offset + position - e.virtual_offset) b.metadata);
      fault = none;
    })
    | none ↦ elim (find_source b.extents position) [
      | some e ↦
          read_source os h (expected_identity b e) e.source_path
            (e.source_offset + position - e.virtual_offset)
            (min wanted (e.virtual_offset + e.length - position))
      | none ↦
          some (record {
            handles = h;
            bytes = replicate (gap_length b position wanted) 0;
            fault = none;
          })
    ]
  ]
]

-- The loop of `ReadAt`, with the rounds that are left. A round without an error gives a byte, so one
-- round more than there are bytes wanted is enough.
pub read_rounds :
    {S : Type 0} → SaveStoreOps S → Os → Backend S → ℕ → Handles → ℕ → ℕ → Bytes → Option Read
read_rounds ops os b zero h position wanted done = none
read_rounds ops os b (suc rounds) h position wanted done =
    if wanted == 0
    then some (record { handles = h; bytes = done; fault = none })
    else elim (read_piece ops os b h position wanted) [
      | none ↦ none
      | some r ↦ elim r.fault [
        | some f ↦ some (record { handles = r.handles; bytes = done ++ r.bytes; fault = some f })
        | none ↦
            read_rounds ops os b rounds r.handles (position + length r.bytes)
              (wanted - length r.bytes) (done ++ r.bytes)
      ]
    ]

pub read_at : {S : Type 0} → SaveStoreOps S → Os → Backend S → Handles → ℕ → ℕ → Option Read
read_at ops os b h off n =
    if ltb b.size (off + n)
    then some (record { handles = h; bytes = []; fault = some out_of_range })
    else if b.is_closed
    then some (record { handles = h; bytes = []; fault = some closed_backend })
    else read_rounds ops os b (n + 1) h off n []
