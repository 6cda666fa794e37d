-- ===== src/SaveOverlay/Journal/Replay.antt =====
-- Loading a journal replays its writes.
use wii_bridge.Common.{
  ℕ, zero, suc, ◌+◌, ◌≤◌, min, ◌<◌, ◌≡◌, refl, sym, ap, ◌∙◌, true, false, ◌||◌, not, some, List, [],
  ◌∷◌, ◌++◌, arith, ltb, ◌==◌, Bytes, bytes_eq_refl, length, take, drop, le_bytes, le_value,
  length-append, take-append_length, drop-append_length, append_assoc, get_or, take_more,
}
use wii_bridge.SaveOverlay.{Dirty, Io}
use wii_bridge.SaveOverlay.Blocks.View.{view, AllWhole, IsSound, written, apply_write_lem}
use wii_bridge.SaveOverlay.Journal.{
  Limits, journal_record, loaded, is_out_of_bounds, load_rounds, load_journal,
}

-- Writes, the oldest first.
abbrev pub Writes : Type 0
Writes = List (ℕ × Bytes)

abbrev pub encode_all : (Bytes → Bytes) → Writes → Bytes
encode_all sha256 [] = []
encode_all sha256 ((off, buffer) ∷ ws) = journal_record sha256 off buffer ++ encode_all sha256 ws

-- What the writes do to the bytes of a card.
abbrev pub replay : Writes → (ℕ → ℕ) → ℕ → ℕ
replay [] f = f
replay ((off, buffer) ∷ ws) f = replay ws (written f off buffer)

abbrev pub total : Writes → ℕ
total [] = 0
total ((off, buffer) ∷ ws) = length buffer + total ws

abbrev pub AllInside : ℕ → Writes → Type 0
AllInside size [] = Unit
AllInside size ((off, buffer) ∷ ws) =
    ((0 < length buffer) × (off + length buffer ≤ size)) × AllInside size ws

-- A write overwrites.
pub replay_ext : (ws : Writes) (f g : ℕ → ℕ) (p : ℕ) → f p ≡ g p → replay ws f p ≡ replay ws g p
replay_ext [] f g p h = h
replay_ext ((off, buffer) ∷ ws) f g p h =
    replay_ext ws (written f off buffer) (written g off buffer) p (rw h)

module _ (sha256 : Bytes → Bytes) (sha_size : (b : Bytes) → length (sha256 b) ≡ 32) (io : Io)
    (limits : Limits) where
  pub length-journal_record :
      (off : ℕ) (buffer : Bytes) → length (journal_record sha256 off buffer) ≡ 52 + length buffer
  length-journal_record off buffer =
      omega (arith, length-append (sha256 buffer) buffer, sha_size buffer)

  pub length-encode_all : (ws : Writes) → length ws ≤ length (encode_all sha256 ws)
  length-encode_all [] = omega arith
  length-encode_all ((off, buffer) ∷ ws) = omega (
    arith,
    length-append (journal_record sha256 off buffer) (encode_all sha256 ws),
    length-journal_record off buffer,
    length-encode_all ws,
  )

  -- A record in front of the rest.
  record_front :
      (off : ℕ) (buffer rest : Bytes)
      → (drop 52 (journal_record sha256 off buffer ++ rest) ≡ buffer ++ rest)
        × (take 32 (drop 20 (journal_record sha256 off buffer ++ rest)) ≡ sha256 buffer)
  record_front off buffer rest =
      let whole : (sha256 buffer ++ buffer) ++ rest ≡ sha256 buffer ++ (buffer ++ rest) =
        append_assoc (sha256 buffer) buffer rest in
      (
        ap (drop 32) whole
            ∙ drop-append_length (sha256 buffer) (buffer ++ rest) 32 (sym (sha_size buffer)),
        ap (take 32) whole
            ∙ take-append_length (sha256 buffer) (buffer ++ rest) 32 (sym (sha_size buffer)),
      )

  load_rounds_lem :
      (file : Bytes) (ws : Writes) (rounds done : ℕ) (dirty : Dirty)
      → IsSound io file dirty
      → length file ≤ 16777216
      → AllInside (length file) ws
      → done + total ws ≤ limits.max_pending_bytes
      → length ws < rounds
      → (dirty' : Dirty) × (load_rounds sha256 io limits
            (length file)
            file
            rounds
            (encode_all sha256 ws)
            done
            dirty
          ≡ some (loaded dirty' (done + total ws)))
        × AllWhole (length file) dirty'
        × ((p : ℕ) → view file dirty' p ≡ replay ws (view file dirty) p)
        × (min 1 (length ws + length dirty) ≤ length dirty')
  unfolding load_rounds
  load_rounds_lem file [] (suc rounds) done dirty ok small inside pending h = (
    dirty,
    ap (λ t. some (loaded dirty t)) (omega arith),
    ok.whole_blocks,
    λ p. refl,
    omega arith,
  )
  load_rounds_lem file [] zero done dirty ok small inside pending h = absurd (omega arith)
  load_rounds_lem file ((off, buffer) ∷ ws) zero done dirty ok small inside pending h =
      absurd (omega arith)
  load_rounds_lem file ((off, buffer) ∷ ws) (suc rounds) done dirty ok small
        ((some_bytes, fits), inside) pending h =
      let rest = encode_all sha256 ws in
      let journal = journal_record sha256 off buffer ++ rest in
      let (dirty1, applied, whole1, sees1, more1) =
        apply_write_lem io file off buffer dirty ok fits in
      let sound1 : IsSound io file dirty1 = record {
        reads = ok.reads;
        whole_file = ok.whole_file;
        whole_blocks = whole1;
      } in
      let (dirty2, run, whole2, sees2, more2) =
        load_rounds_lem file ws rounds (done + length buffer) dirty1 sound1 small inside
          (omega arith) (omega arith) in
      let size = length-append (journal_record sha256 off buffer) rest in
      let long : (ltb (length journal) 52 || not true) ≡ false =
        ground (arith, size, length-journal_record off buffer) in
      let not_empty : (length journal == 0) ≡ false =
        ground (arith, size, length-journal_record off buffer) in
      let place : le_value (le_bytes 8 off) ≡ off = omega arith in
      let len : le_value (le_bytes 4 (length buffer)) ≡ length buffer = omega arith in
      let bounded : is_out_of_bounds sha256 io limits (length file) file off (length buffer) done
          ≡ false =
        unfold is_out_of_bounds in ground arith in
      let (behind, sum) = record_front off buffer rest in
      let payload : take (length buffer) (buffer ++ rest) ≡ buffer =
        take-append_length buffer rest (length buffer) refl in
      let later : drop (length buffer) (buffer ++ rest) ≡ rest =
        drop-append_length buffer rest (length buffer) refl in
      let complete : ltb (length (buffer ++ rest)) (length buffer) ≡ false =
        ground (arith, length-append buffer rest) in
      let same_sum = bytes_eq_refl (sha256 buffer) in
      let amount : done + length buffer + total ws ≡ done + (length buffer + total ws) =
        omega arith in
      (
        dirty2,
        rw
            (
              not_empty, long, place, len, bounded, behind, complete, payload, sum, same_sum,
              applied, len, behind, later, load_rounds,
            )
            (run ∙ ap (λ t. some (loaded dirty2 t)) amount),
        whole2,
        λ p.
            sees2 p
            ∙ replay_ext ws (view file dirty1) (written (view file dirty) off buffer) p (sees1 p),
        omega (arith, more1, more2),
      )

  -- The journal of writes inside the card, within the limits, loads: the blocks that it gives show
  -- the writes one after another on the card's file, their lengths are what is pending, and there is
  -- a changed block if there was a write.
  pub load_journal_lem :
      (file : Bytes) (ws : Writes)
      → IsSound io file []
      → length file ≤ 16777216
      → AllInside (length file) ws
      → total ws ≤ limits.max_pending_bytes
      → length (encode_all sha256 ws) ≤ limits.max_journal_bytes
      → (dirty : Dirty) × (load_journal sha256 io limits (length file) file (encode_all sha256 ws)
          ≡ some (loaded dirty (total ws)))
        × AllWhole (length file) dirty
        × ((p : ℕ) → view file dirty p ≡ replay ws (λ q. get_or file q 0) p)
        × (min 1 (length ws) ≤ length dirty)
  unfolding load_journal
  load_journal_lem file ws ok small inside pending size =
      let journal = encode_all sha256 ws in
      let allowed : ltb limits.max_journal_bytes (length journal) ≡ false = ground arith in
      let all : take (limits.max_journal_bytes + 1) journal ≡ journal =
        take_more (limits.max_journal_bytes + 1) journal (omega arith) in
      let (dirty, run, whole, sees, more) =
        load_rounds_lem file ws (length journal + 1) 0 [] ok small inside (omega arith)
          (omega (arith, length-encode_all ws)) in
      let amount : 0 + total ws ≡ total ws = omega arith in
      (
        dirty,
        rw (allowed, all) (run ∙ ap (λ t. some (loaded dirty t)) amount),
        whole,
        λ p. sees p ∙ replay_ext ws (view file []) (λ q. get_or file q 0) p refl,
        omega (arith, more),
      )
