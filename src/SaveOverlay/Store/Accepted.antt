-- ===== src/SaveOverlay/Store/Accepted.antt =====
-- The writes that a card takes (WriteSaveAt of saveoverlay.go).
use wii_bridge.Common.{
  ℕ, ◌+◌, ◌-◌, ◌/◌, ◌≤◌, ◌<◌, ◌≡◌, refl, sym, ap, subst, Bool, true, false, ◌||◌, none, some, ltb,
  ◌==◌, arith, Bytes, length, inl, inr,
}
use wii_bridge.SaveOverlay.{Io}
use wii_bridge.SaveOverlay.Journal.{Limits}
use wii_bridge.SaveOverlay.Journal.Replay.{Writes}
use wii_bridge.SaveOverlay.Store.{
  Card, Faults, committed, flush_dirty, flush_if, count_new, make_room, wrote, write_card,
}
use wii_bridge.SaveOverlay.Store.Readable.{flush_cases}
use wii_bridge.SaveOverlay.Store.Durable.{IsDurable, flush_if_lem}
use wii_bridge.SaveOverlay.Store.Room.{make_room_lem, make_room-fits}
use wii_bridge.SaveOverlay.Store.Commit.{commit_write_lem}

flush_if-committed :
    (needed : Bool) (c : Card)
    → c.card_size ≤ length c.file
    → (flush_if needed committed c).1 ≡ true
unfolding flush_if flush_dirty
flush_if-committed false c h = refl
flush_if-committed true c h = elim (flush_cases committed c h) [
  | inl clean ↦ ap (λ t. t.1) clean
  | inr changed ↦ ap (λ t. t.1) changed
]

module _ (sha256 : Bytes → Bytes) (sha_size : (b : Bytes) → length (sha256 b) ≡ 32)
    (limits : Limits) (io : Io) (faults : Faults) where
  make_room-committed :
      (c : Card) (ws : Writes) (len first_block blocks : ℕ)
      → IsDurable sha256 limits c ws
      → faults.first_ending ≡ committed
      → faults.second_ending ≡ committed
      → (make_room sha256 limits io faults c len first_block blocks).1 ≡ true
  unfolding make_room
  make_room-committed c ws len first_block blocks d first second =
      let full =
        ltb limits.max_pending_bytes (c.pending_bytes + len)
        || ltb limits.max_journal_bytes (c.journal_bytes + (len + 52)) in
      let c1 = (flush_if full faults.first_ending c).0 in
      let (ws1, d1, same1, size1, blocked1) =
        flush_if_lem sha256 limits full faults.first_ending c ws d in
      let crowded =
        ltb limits.max_dirty_blocks (length c1.dirty + count_new c1.dirty first_block blocks) in
      let ok1 : (flush_if full faults.first_ending c).1 ≡ true =
        subst (λ t. (flush_if full t c).1 ≡ true) (sym first)
          (flush_if-committed full c (omega (arith, d.size_is))) in
      let ok2 : (flush_if crowded faults.second_ending c1).1 ≡ true =
        subst (λ t. (flush_if crowded t c1).1 ≡ true) (sym second)
          (flush_if-committed crowded c1 (omega (arith, d1.size_is))) in
      simp ok1 ok2

  -- When the file system refuses nothing, a card that keeps its invariant and is not blocked takes
  -- every write of some bytes that is inside it and within the three limits by itself, however
  -- much is pending.
  pub write_card-wrote :
      (c : Card) (ws : Writes) (off : ℕ) (buffer : Bytes)
      → IsDurable sha256 limits c ws
      → c.is_blocked ≡ false
      → ((at n : ℕ) → io.read_fails at n ≡ none)
      → faults.first_ending ≡ committed
      → faults.second_ending ≡ committed
      → faults.append_fails ≡ none
      → 0 < length buffer
      → off + length buffer ≤ c.card_size
      → length buffer ≤ limits.max_pending_bytes
      → length buffer + 52 ≤ limits.max_journal_bytes
      → (off + length buffer - 1) / 512 - off / 512 + 1 ≤ limits.max_dirty_blocks
      → (c' : Card) × (write_card sha256 limits io faults c off buffer
          ≡ some (c', wrote (length buffer)))
  unfolding write_card
  write_card-wrote c ws off buffer d free reads first second appends some_bytes fits a b e =
      let first_block = off / 512 in
      let blocks = (off + length buffer - 1) / 512 - off / 512 + 1 in
      let room = make_room sha256 limits io faults c (length buffer) first_block blocks in
      let (ws1, d1, same1, size1, free1) =
        make_room_lem sha256 limits io faults c ws (length buffer) first_block blocks d in
      let ok = make_room-committed c ws (length buffer) first_block blocks d first second in
      let (fits1, fits2) =
        make_room-fits sha256 limits io faults c ws (length buffer) first_block blocks d a b ok in
      let (c', run, d', bytes, free', size') =
        commit_write_lem sha256 sha_size limits io faults room.0 ws1 off buffer d1 reads appends
          some_bytes (omega (arith, size1)) fits1 fits2 in
      let inside : (length buffer == 0 || ltb c.card_size (off + length buffer)) ≡ false =
        ground arith in
      let small : (ltb limits.max_pending_bytes (length buffer)
            || ltb limits.max_journal_bytes (length buffer + 52)
            || ltb limits.max_dirty_blocks blocks)
          ≡ false =
        ground arith in
      (c', simp (inside, free, small, ok) run)
