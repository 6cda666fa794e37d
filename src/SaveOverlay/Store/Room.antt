-- ===== src/SaveOverlay/Store/Room.antt =====
-- The checkpoints before a write make room for it (WriteSaveAt of saveoverlay.go).
use wii_bridge.Common.{
  ℕ, ◌+◌, ◌≤◌, ◌≡◌, refl, ◌∙◌, Bool, true, false, ◌||◌, ltb, ◌==◌, if◌then◌else◌, arith, Bytes,
  length, Bool-cases, inl, inr,
}
use wii_bridge.SaveOverlay.{Io}
use wii_bridge.SaveOverlay.Journal.{Limits}
use wii_bridge.SaveOverlay.Journal.Replay.{Writes}
use wii_bridge.SaveOverlay.Store.{
  Card, Ending, committed, uncommitted, journal_kept, journal_unsynced, Faults, flush_dirty,
  flush_card, flush_if, count_new, make_room,
}
use wii_bridge.SaveOverlay.Store.Durable.{IsDurable, FlushKeeps, flush_if_lem}

flush_dirty_room :
    (ending : Ending) (c : Card)
    → (flush_dirty ending c).1 ≡ true
    → ((flush_dirty ending c).0.pending_bytes ≡ 0) × ((flush_dirty ending c).0.journal_bytes ≡ 0)
unfolding flush_dirty
flush_dirty_room committed c h = (refl, refl)
flush_dirty_room uncommitted c h = absurd (cc h)
flush_dirty_room journal_kept c h = absurd (cc h)
flush_dirty_room journal_unsynced c h = absurd (cc h)

-- The counts after the first checkpoint, when there was one if they were too large.
counts_fit :
    (pending journal pending1 journal1 len most most' : ℕ)
    → pending1
      ≤ (if ltb most (pending + len) || ltb most' (journal + (len + 52)) then 0 else pending)
    → journal1
      ≤ (if ltb most (pending + len) || ltb most' (journal + (len + 52)) then 0 else journal)
    → len ≤ most
    → len + 52 ≤ most'
    → (pending1 + len ≤ most) × (journal1 + (len + 52) ≤ most')
counts_fit pending journal pending1 journal1 len most most' p j a b =
    elim (Bool-cases (ltb most (pending + len) || ltb most' (journal + (len + 52)))) [
      | inl full ↦ (ground arith, ground arith)
      | inr not_full ↦ (ground arith, ground arith)
    ]

module _ (sha256 : Bytes → Bytes) (limits : Limits) (io : Io) (faults : Faults) where
  -- A checkpoint that succeeds leaves nothing pending.
  pub flush_card_room :
      (ending : Ending) (c : Card) (ws : Writes)
      → IsDurable sha256 limits c ws
      → (flush_card ending c).1 ≡ true
      → ((flush_card ending c).0.pending_bytes ≡ 0) × ((flush_card ending c).0.journal_bytes ≡ 0)
  unfolding flush_card
  flush_card_room ending c ws d h = elim (Bool-cases (length c.dirty == 0)) [
    | inl clean ↦
        rw clean (elim d.has_blocks [ inl some_blocks ↦ absurd (ground arith) | inr zeros ↦ zeros ])
    | inr changed ↦
        let long : ltb (length c.file) c.card_size ≡ false = ground (arith, d.size_is) in
        let dirty_ok : (flush_dirty ending c).1 ≡ true = ground arith in
        rw (changed, long) (flush_dirty_room ending c dirty_ok)
  ]

  pub flush_if_room :
      (needed : Bool) (ending : Ending) (c : Card) (ws : Writes)
      → IsDurable sha256 limits c ws
      → (flush_if needed ending c).1 ≡ true
      → ((flush_if needed ending c).0.pending_bytes ≤ (if needed then 0 else c.pending_bytes))
        × ((flush_if needed ending c).0.journal_bytes ≤ (if needed then 0 else c.journal_bytes))
  unfolding flush_if
  flush_if_room true ending c ws d h =
      let (pending, journal) = flush_card_room ending c ws d h in
      (omega (arith, pending), omega (arith, journal))
  flush_if_room false ending c ws d h = (omega arith, omega arith)

  pub make_room_lem :
      (c : Card) (ws : Writes) (len first_block blocks : ℕ)
      → IsDurable sha256 limits c ws
      → FlushKeeps sha256 limits c (make_room sha256 limits io faults c len first_block blocks).0
  unfolding make_room
  make_room_lem c ws len first_block blocks d =
      let full =
        ltb limits.max_pending_bytes (c.pending_bytes + len)
        || ltb limits.max_journal_bytes (c.journal_bytes + (len + 52)) in
      let (ws1, d1, same1, size1, blocked1) =
        flush_if_lem sha256 limits full faults.first_ending c ws d in
      let c1 = (flush_if full faults.first_ending c).0 in
      let crowded =
        ltb limits.max_dirty_blocks (length c1.dirty + count_new c1.dirty first_block blocks) in
      let (ws2, d2, same2, size2, blocked2) =
        flush_if_lem sha256 limits crowded faults.second_ending c1 ws1 d1 in
      elim (Bool-cases (flush_if full faults.first_ending c).1) [
        | inl ok ↦ rw ok (ws2, d2, λ p. same2 p ∙ same1 p, size2 ∙ size1, blocked2 ∙ blocked1)
        | inr bad ↦ rw bad (ws1, d1, same1, size1, blocked1)
      ]

  pub make_room-fits :
      (c : Card) (ws : Writes) (len first_block blocks : ℕ)
      → IsDurable sha256 limits c ws
      → len ≤ limits.max_pending_bytes
      → len + 52 ≤ limits.max_journal_bytes
      → (make_room sha256 limits io faults c len first_block blocks).1 ≡ true
      → ((make_room sha256 limits io faults c len first_block blocks).0.pending_bytes + len
          ≤ limits.max_pending_bytes)
        × ((make_room sha256 limits io faults c len first_block blocks).0.journal_bytes + (len + 52)
            ≤ limits.max_journal_bytes)
  unfolding make_room
  make_room-fits c ws len first_block blocks d a b h =
      let full =
        ltb limits.max_pending_bytes (c.pending_bytes + len)
        || ltb limits.max_journal_bytes (c.journal_bytes + (len + 52)) in
      let (ws1, d1, same1, size1, blocked1) =
        flush_if_lem sha256 limits full faults.first_ending c ws d in
      let c1 = (flush_if full faults.first_ending c).0 in
      let crowded =
        ltb limits.max_dirty_blocks (length c1.dirty + count_new c1.dirty first_block blocks) in
      elim (Bool-cases (flush_if full faults.first_ending c).1) [
        | inr bad ↦ absurd (ground arith)
        | inl ok ↦
            let ok2 : (flush_if crowded faults.second_ending c1).1 ≡ true = ground arith in
            let (p1, j1) = flush_if_room full faults.first_ending c ws d ok in
            let (p2, j2) = flush_if_room crowded faults.second_ending c1 ws1 d1 ok2 in
            let (room1, room1') =
              counts_fit c.pending_bytes c.journal_bytes c1.pending_bytes c1.journal_bytes len
                limits.max_pending_bytes limits.max_journal_bytes p1 j1 a b in
            let shrinks : (x : ℕ) → (if crowded then 0 else x) ≤ x = λ x. ground arith in
            rw ok (
              omega (arith, room1, p2, shrinks c1.pending_bytes),
              omega (arith, room1', j2, shrinks c1.journal_bytes),
            )
      ]
