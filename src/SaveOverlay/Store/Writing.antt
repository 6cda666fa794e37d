-- ===== src/SaveOverlay/Store/Writing.antt =====
-- What a write to a card does (WriteSaveAt of saveoverlay.go).
use wii_bridge.Common.{
  ℕ, ◌+◌, ◌-◌, ◌/◌, ◌≤◌, ◌<◌, ◌≡◌, refl, ◌∙◌, true, false, ◌||◌, Option, none, some, [], ◌∷◌, ◌++◌,
  ltb, ◌==◌, arith, Bytes, length, take, Bool-cases, Option-cases, ◌⊎◌, inl, inr,
}
use wii_bridge.SaveOverlay.{Io}
use wii_bridge.SaveOverlay.Blocks.View.{written}
use wii_bridge.SaveOverlay.Journal.{Limits, journal_record}
use wii_bridge.SaveOverlay.Journal.Replay.{Writes, replay_ext}
use wii_bridge.SaveOverlay.Store.{
  Card, Faults, WriteResult, wrote, rejected, SaveError, outside_extent, blocked_journal,
  journal_limit, journal_failed, commit_write, make_room, write_card,
}
use wii_bridge.SaveOverlay.Store.Readable.{sees, IsReadable}
use wii_bridge.SaveOverlay.Store.Durable.{IsDurable}
use wii_bridge.SaveOverlay.Store.Room.{make_room_lem, make_room-fits}
use wii_bridge.SaveOverlay.Store.Commit.{commit_write_lem}

-- A card whose journal may be torn takes no write.
pub write_card-blocked :
    (sha256 : Bytes → Bytes) (limits : Limits) (io : Io) (faults : Faults) (c : Card) (off : ℕ)
    (buffer : Bytes)
    → c.is_blocked ≡ true
    → (e : SaveError) × (write_card sha256 limits io faults c off buffer ≡ some (c, rejected 0 e))
unfolding write_card
write_card-blocked sha256 limits io faults c off buffer blocked =
    elim (Bool-cases (length buffer == 0 || ltb c.card_size (off + length buffer))) [
      | inl outside ↦ (outside_extent, simp outside refl)
      | inr inside ↦ (blocked_journal, simp (inside, blocked) refl)
    ]

module _ (sha256 : Bytes → Bytes) (sha_size : (b : Bytes) → length (sha256 b) ≡ 32)
    (limits : Limits) (io : Io) (faults : Faults) where
  -- What a refused write leaves: the card keeps its invariant and is not blocked, or the append to
  -- the journal failed, this is the error, and the card is blocked and can be read.
  abbrev pub IsLeft : Card → SaveError → Type 0
  IsLeft c' e =
      ((c'.is_blocked ≡ false) × ((ws : Writes) × IsDurable sha256 limits c' ws))
      ⊎ ((e ≡ journal_failed)
          × ((k : ℕ) × (faults.append_fails ≡ some k))
          × (c'.is_blocked ≡ true)
          × IsReadable c')

  -- What a write may do to a card: all of it is written, or the bytes stay as they are.
  abbrev pub IsWriteOutcome : Card → ℕ → Bytes → Card → WriteResult → Type 0
  IsWriteOutcome c off buffer c' (wrote n) =
      (n ≡ length buffer)
      × (c'.card_size ≡ c.card_size)
      × (c'.is_blocked ≡ false)
      × ((ws : Writes) × IsDurable sha256 limits c' ws)
      × ((p : ℕ) → sees c' p ≡ written (sees c) off buffer p)
  IsWriteOutcome c off buffer c' (rejected n e) =
      (n ≡ 0) × (c'.card_size ≡ c.card_size) × IsLeft c' e × ((p : ℕ) → sees c' p ≡ sees c p)

  abbrev WriteRuns : Card → ℕ → Bytes → Option (Card × WriteResult) → Type 0
  WriteRuns c off buffer run =
      (c' : Card) × (r : WriteResult) × (run ≡ some (c', r)) × IsWriteOutcome c off buffer c' r

  -- A write that is refused before the journal.
  refused :
      (c c' : Card) (ws : Writes) (off : ℕ) (buffer : Bytes) (e : SaveError)
      → IsDurable sha256 limits c' ws
      → c'.is_blocked ≡ false
      → c'.card_size ≡ c.card_size
      → ((p : ℕ) → sees c' p ≡ sees c p)
      → WriteRuns c off buffer (some (c', rejected 0 e))
  refused c c' ws off buffer e d free size same =
      (c', rejected 0 e, refl, (refl, size, inl (free, (ws, d)), same))

  -- The end of a write for which there is room.
  commit_write-WriteRuns :
      (c c' : Card) (ws : Writes) (off : ℕ) (buffer : Bytes)
      → IsDurable sha256 limits c' ws
      → c'.is_blocked ≡ false
      → c'.card_size ≡ c.card_size
      → ((p : ℕ) → sees c' p ≡ sees c p)
      → ((at n : ℕ) → io.read_fails at n ≡ none)
      → 0 < length buffer
      → off + length buffer ≤ c'.card_size
      → c'.pending_bytes + length buffer ≤ limits.max_pending_bytes
      → c'.journal_bytes + (length buffer + 52) ≤ limits.max_journal_bytes
      → WriteRuns c off buffer (commit_write sha256 limits io faults c' off buffer)
  unfolding commit_write
  commit_write-WriteRuns c c' ws off buffer d free size same reads some_bytes fits room room' =
      elim (Option-cases faults.append_fails) [
        | inl fine ↦
            let (c'', run, d', bytes, free', size') =
              commit_write_lem sha256 sha_size limits io faults c' ws off buffer d reads fine
                some_bytes fits room room' in
            (
              c'',
              wrote (length buffer),
              run,
              (
                refl,
                size' ∙ size,
                free' ∙ free,
                (ws ++ (off, buffer) ∷ [], d'),
                λ p. bytes p ∙ replay_ext ((off, buffer) ∷ []) (sees c') (sees c) p (same p),
              ),
            )
        | inr (k, torn) ↦
            let line = journal_record sha256 off buffer in
            let torn_card : Card = record c' {
              journal = c'.journal ++ take k line;
              is_blocked = true;
            } in
            let readable : IsReadable torn_card = record {
              size_is = d.size_is;
              is_aligned = d.is_aligned;
              whole_blocks = d.whole_blocks;
            } in
            (
              torn_card,
              rejected 0 journal_failed,
              rw (torn, commit_write),
              (refl, size, inr (refl, (k, torn), refl, readable), same),
            )
      ]

  -- Any write to a card that keeps its invariant, on a file that can be read, ends: it puts its
  -- bytes on the card and touches no other, or it is refused and touches none. The card keeps its
  -- invariant and is not blocked, unless the append to the journal failed and the write is refused
  -- for that; then the card is blocked and can still be read.
  pub write_card_lem :
      (c : Card) (ws : Writes) (off : ℕ) (buffer : Bytes)
      → IsDurable sha256 limits c ws
      → c.is_blocked ≡ false
      → ((at n : ℕ) → io.read_fails at n ≡ none)
      → (c' : Card) × (r : WriteResult) × (write_card sha256 limits io faults c off buffer
          ≡ some (c', r))
        × IsWriteOutcome c off buffer c' r
  unfolding write_card
  write_card_lem c ws off buffer d free reads =
      let first_block = off / 512 in
      let blocks = (off + length buffer - 1) / 512 - first_block + 1 in
      let same : (p : ℕ) → sees c p ≡ sees c p = λ p. refl in
      elim (Bool-cases (length buffer == 0 || ltb c.card_size (off + length buffer))) [
        | inl outside ↦ rw outside (refused c c ws off buffer outside_extent d free refl same)
        | inr inside ↦
            elim (Bool-cases (
              ltb limits.max_pending_bytes (length buffer)
              || ltb limits.max_journal_bytes (length buffer + 52)
              || ltb limits.max_dirty_blocks blocks)) [
                | inl large ↦
                    simp (inside, free, large)
                      (refused c c ws off buffer journal_limit d free refl same)
                | inr small ↦
                    let (ws1, d1, same1, size1, free1) =
                      make_room_lem sha256 limits io faults c ws (length buffer) first_block blocks
                        d in
                    let c1 =
                      (make_room sha256 limits io faults c (length buffer) first_block blocks).0 in
                    elim (Bool-cases
                      (make_room sha256 limits io faults c (length buffer) first_block blocks).1) [
                        | inr bad ↦
                            simp (inside, free, small, bad)
                              (refused c c1 ws1 off buffer journal_limit d1 (free1 ∙ free) size1
                                same1)
                        | inl ok ↦
                            let (room, room') =
                              make_room-fits sha256 limits io faults c ws (length buffer)
                                first_block blocks d (ground arith) (ground arith) ok in
                            simp (inside, free, small, ok)
                              (commit_write-WriteRuns c c1 ws1 off buffer d1 (free1 ∙ free) size1
                                same1 reads (ground arith) (ground (arith, size1)) room room')
                      ]
              ]
      ]
