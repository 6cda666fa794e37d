-- ===== src/SaveOverlay/Store/History.antt =====
-- What a card has after any sequence of writes, checkpoints and crashes (saveoverlay.go).
use wii_bridge.Common.{
  along_some, ℕ, ◌+◌, ◌≤◌, ◌≡◌, refl, sym, ap, ◌∙◌, false, none, some, [], ◌∷◌, Bytes, length,
  tabulate, tabulate_ext, arith, inl, inr,
}
use wii_bridge.SaveOverlay.{Io}
use wii_bridge.SaveOverlay.Blocks.{read_card}
use wii_bridge.SaveOverlay.Blocks.View.{IsSound, written}
use wii_bridge.SaveOverlay.Blocks.Reading.{read_card_lem}
use wii_bridge.SaveOverlay.Journal.{Limits}
use wii_bridge.SaveOverlay.Journal.Replay.{Writes, replay_ext}
use wii_bridge.SaveOverlay.Store.{
  Card, Ending, Faults, opened, open_card, flush_card, SaveError, WriteResult, wrote, rejected,
  write_card,
}
use wii_bridge.SaveOverlay.Store.Readable.{sees}
use wii_bridge.SaveOverlay.Store.Durable.{IsDurable, flush_card_lem}
use wii_bridge.SaveOverlay.Store.Writing.{write_card_lem, IsWriteOutcome}
use wii_bridge.SaveOverlay.Store.Recovery.{open_card-IsRecovered, IsRecovered}

module _ (sha256 : Bytes → Bytes) (limits : Limits) (io : Io) where
  -- The cards that come from a card by writes, checkpoints and crashes with a restart, with any
  -- faults on the way, each with the bytes that the console expects: those of the writes that were
  -- acknowledged. A card whose journal may be torn is left out.
  pub data Reached (start : Card) : Card → (ℕ → ℕ) → Type 0 where
    at_start : Reached start start (sees start)
    after_write :
        (c c' : Card) (f : ℕ → ℕ) (faults : Faults) (off : ℕ) (buffer : Bytes) (n : ℕ)
        → Reached start c f
        → write_card sha256 limits io faults c off buffer ≡ some (c', wrote n)
        → Reached start c' (written f off buffer)
    after_refusal :
        (c c' : Card) (f : ℕ → ℕ) (faults : Faults) (off : ℕ) (buffer : Bytes) (n : ℕ)
        (e : SaveError)
        → Reached start c f
        → write_card sha256 limits io faults c off buffer ≡ some (c', rejected n e)
        → c'.is_blocked ≡ false
        → Reached start c' f
    after_flush :
        (c : Card) (f : ℕ → ℕ) (ending : Ending)
        → Reached start c f
        → Reached start (flush_card ending c).0 f
    after_crash :
        (c c' : Card) (f : ℕ → ℕ) (faults : Faults)
        → Reached start c f
        → open_card sha256 limits io faults c.card_size c.file c.journal ≡ some (opened c')
        → Reached start c' f

  abbrev pub Agrees : Card → (ℕ → ℕ) → Type 0
  Agrees c f =
      ((ws : Writes) × IsDurable sha256 limits c ws)
      × (c.is_blocked ≡ false)
      × ((p : ℕ) → sees c p ≡ f p)

  module _ (sha_size : (b : Bytes) → length (sha256 b) ≡ 32)
      (reads : (at n : ℕ) → io.read_fails at n ≡ none) where
    pub write-Agrees :
        (c c' : Card) (f : ℕ → ℕ) (faults : Faults) (off : ℕ) (buffer : Bytes) (r : WriteResult)
        → Agrees c f
        → write_card sha256 limits io faults c off buffer ≡ some (c', r)
        → IsWriteOutcome sha256 sha_size limits io faults c off buffer c' r
    write-Agrees c c' f faults off buffer r ((ws, d), free, same) run =
        let (c1, r1, run1, outcome) =
          write_card_lem sha256 sha_size limits io faults c ws off buffer d free reads in
        let both : some (c1, r1) ≡ some (c', r) = sym run1 ∙ run in
        along_some (λ p. IsWriteOutcome sha256 sha_size limits io faults c off buffer p.0 p.1)
          (c1, r1) (c', r) both outcome

    -- Whatever the file system refused on the way, a card that was reached has exactly the bytes
    -- that the acknowledged writes put there, and keeps its invariant.
    pub Reached-Agrees :
        (start : Card) (ws : Writes)
        → IsDurable sha256 limits start ws
        → start.is_blocked ≡ false
        → (c : Card) (f : ℕ → ℕ) → Reached start c f
        → Agrees c f
    Reached-Agrees start ws d free c f at_start = ((ws, d), free, λ p. refl)
    Reached-Agrees start ws d free _ _ (after_write c c' f faults off buffer n h run) =
        let (durable, free1, same1) = Reached-Agrees start ws d free c f h in
        let (count, size, free2, durable2, bytes) =
          write-Agrees c c' f faults off buffer (wrote n) (durable, free1, same1) run in
        (durable2, free2, λ p. bytes p ∙ replay_ext ((off, buffer) ∷ []) (sees c) f p (same1 p))
    Reached-Agrees start ws d free _ _ (after_refusal c c' f faults off buffer n e h run free') =
        let (durable, free1, same1) = Reached-Agrees start ws d free c f h in
        let (count, size, kept, bytes) =
          write-Agrees c c' f faults off buffer (rejected n e) (durable, free1, same1) run in
        elim kept [
          | inl (free2, durable2) ↦ (durable2, free2, λ p. bytes p ∙ same1 p)
          | inr (failed, torn, blocked, readable) ↦ absurd (cc (blocked, free'))
        ]
    Reached-Agrees start ws d free _ _ (after_flush c f ending h) =
        let ((ws1, d1), free1, same1) = Reached-Agrees start ws d free c f h in
        let (ws2, d2, same2, size2, free2) = flush_card_lem sha256 limits ending c ws1 d1 in
        ((ws2, d2), free2 ∙ free1, λ p. same2 p ∙ same1 p)
    Reached-Agrees start ws d free _ _ (after_crash c c' f faults h run) =
        let ((ws1, d1), free1, same1) = Reached-Agrees start ws d free c f h in
        let (o, run1, ok) = open_card-IsRecovered sha256 sha_size limits io faults c ws1 d1 reads in
        let (free2, durable2, bytes) =
          along_some (IsRecovered sha256 sha_size limits io (sees c)) o (opened c') (sym run1 ∙ run)
            ok in
        (durable2, free2, λ p. bytes p ∙ same1 p)

    -- From a card that keeps its invariant and is not blocked, after any sequence of writes,
    -- checkpoints and crashes with a restart, with any faults short of a torn journal: a read
    -- inside the card gives, without an error, the bytes as the acknowledged writes left them. The
    -- reads of the card's file do not fail, and a checksum has 32 bytes.
    pub Reached-read_card :
        (start : Card) (ws : Writes)
        → IsDurable sha256 limits start ws
        → start.is_blocked ≡ false
        → (c : Card) (f : ℕ → ℕ) → Reached start c f
        → (off n : ℕ) → off + n ≤ c.card_size
        → read_card io c.file c.dirty off n ≡ some (tabulate f off n, false)
    Reached-read_card start ws d free c f h off n inside =
        let ((ws1, d1), free1, same1) = Reached-Agrees start ws d free c f h in
        let sound : IsSound io c.file c.dirty = record {
          reads = reads;
          whole_file = d1.is_aligned;
          whole_blocks = d1.whole_blocks;
        } in
        read_card_lem io c.file c.dirty off n sound (omega (arith, d1.size_is))
        ∙ ap (λ t. some (t, false)) (tabulate_ext (sees c) f off n (λ i lo hi. same1 i))
