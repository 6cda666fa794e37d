-- ===== src/SaveOverlay/Store/Commit.antt =====
-- The end of a write for which there is room (WriteSaveAt of saveoverlay.go): the journal, then the
-- blocks.
use wii_bridge.Common.{
  ℕ, ◌+◌, ◌≤◌, ◌<◌, ◌≡◌, refl, sym, ap, ◌∙◌, none, some, [], ◌∷◌, ◌++◌, arith, Bytes, length,
  length-append, get_or, append-nil, append_assoc, inl,
}
use wii_bridge.SaveOverlay.{Io}
use wii_bridge.SaveOverlay.Blocks.View.{IsSound, written, apply_write_lem}
use wii_bridge.SaveOverlay.Journal.{Limits, journal_record}
use wii_bridge.SaveOverlay.Journal.Replay.{
  Writes, encode_all, replay, replay_ext, total, AllInside, length-journal_record,
}
use wii_bridge.SaveOverlay.Store.{Card, Faults, wrote, commit_write}
use wii_bridge.SaveOverlay.Store.Readable.{sees}
use wii_bridge.SaveOverlay.Store.Durable.{IsDurable}

total-append : (ws vs : Writes) → total (ws ++ vs) ≡ total ws + total vs
total-append [] vs = omega arith
total-append ((off, buffer) ∷ ws) vs = omega (arith, total-append ws vs)

replay-append : (ws vs : Writes) (f : ℕ → ℕ) → replay (ws ++ vs) f ≡ replay vs (replay ws f)
replay-append [] vs f = refl
replay-append ((off, buffer) ∷ ws) vs f = replay-append ws vs (written f off buffer)

AllInside-append :
    (size : ℕ) (ws vs : Writes) → AllInside size ws → AllInside size vs → AllInside size (ws ++ vs)
AllInside-append size [] vs h k = k
AllInside-append size ((off, buffer) ∷ ws) vs (h, hs) k = (h, AllInside-append size ws vs hs k)

module _ (sha256 : Bytes → Bytes) where
  encode_all-append :
      (ws vs : Writes) → encode_all sha256 (ws ++ vs) ≡ encode_all sha256 ws ++ encode_all sha256 vs
  encode_all-append [] vs = refl
  encode_all-append ((off, buffer) ∷ ws) vs =
      ap (λ t. journal_record sha256 off buffer ++ t) (encode_all-append ws vs)
      ∙ sym (
          append_assoc (journal_record sha256 off buffer) (encode_all sha256 ws)
            (encode_all sha256 vs))

  module _ (sha_size : (b : Bytes) → length (sha256 b) ≡ 32) (limits : Limits) (io : Io)
      (faults : Faults) where
    -- A write for which there is room, when the journal takes its record.
    pub commit_write_lem :
        (c : Card) (ws : Writes) (off : ℕ) (buffer : Bytes)
        → IsDurable sha256 limits c ws
        → ((at n : ℕ) → io.read_fails at n ≡ none)
        → faults.append_fails ≡ none
        → 0 < length buffer
        → off + length buffer ≤ c.card_size
        → c.pending_bytes + length buffer ≤ limits.max_pending_bytes
        → c.journal_bytes + (length buffer + 52) ≤ limits.max_journal_bytes
        → (c' : Card) × (commit_write sha256 limits io faults c off buffer
            ≡ some (c', wrote (length buffer)))
          × IsDurable sha256 limits c' (ws ++ (off, buffer) ∷ [])
          × ((p : ℕ) → sees c' p ≡ written (sees c) off buffer p)
          × (c'.is_blocked ≡ c.is_blocked)
          × (c'.card_size ≡ c.card_size)
    unfolding commit_write
    commit_write_lem c ws off buffer d reads appends some_bytes fits room room' =
        let sound : IsSound io c.file c.dirty = record {
          reads = reads;
          whole_file = d.is_aligned;
          whole_blocks = d.whole_blocks;
        } in
        let (dirty, applied, whole, bytes, more) =
          apply_write_lem io c.file off buffer c.dirty sound (omega (arith, d.size_is)) in
        let line = journal_record sha256 off buffer in
        let c' : Card = record c {
          journal = c.journal ++ line;
          dirty = dirty;
          pending_bytes = c.pending_bytes + length buffer;
          journal_bytes = c.journal_bytes + (length buffer + 52);
        } in
        let durable : IsDurable sha256 limits c' (ws ++ (off, buffer) ∷ []) = record {
          journal_is =
              ap (λ t. t ++ line) d.journal_is
              ∙ (ap (λ t. encode_all sha256 ws ++ t) (sym (append-nil line))
                  ∙ sym (encode_all-append ws ((off, buffer) ∷ [])));
          inside =
              AllInside-append (length c.file) ws ((off, buffer) ∷ []) d.inside
                ((some_bytes, omega (arith, d.size_is)), tt);
          size_is = d.size_is;
          is_small = d.is_small;
          is_aligned = d.is_aligned;
          whole_blocks = whole;
          pending = omega (arith, total-append ws ((off, buffer) ∷ []), d.pending);
          pending_fits = room;
          recorded = omega (
            arith,
            length-append c.journal line,
            length-journal_record sha256 sha_size io limits off buffer,
            d.recorded,
          );
          journal_fits = room';
          has_blocks = inl (omega (arith, more));
          is_replay = λ p.
              bytes p
              ∙ (replay_ext ((off, buffer) ∷ []) (sees c) (replay ws (λ q. get_or c.file q 0)) p
                    (d.is_replay p)
                  ∙ sym (
                      ap (λ f. f p)
                        (replay-append ws ((off, buffer) ∷ []) (λ q. get_or c.file q 0))));
        } in
        (c', rw (appends, applied, commit_write), durable, bytes, refl, refl)
