-- ===== src/SaveOverlay/Store/Durable.antt =====
-- The invariant of a card (saveoverlay.go): its file and its journal on disk are enough to get back
-- every byte that the console sees.
use wii_bridge.Common.{
  ℕ, ◌+◌, ◌%◌, ◌≤◌, ◌<◌, ◌≡◌, refl, sym, ◌∙◌, Bool, true, false, ◌&&◌, [], ◌∷◌, ltb, leb, arith,
  Bytes, length, take, get_or, Bool-cases, ◌⊎◌, inl, inr,
}
use wii_bridge.SaveOverlay.Blocks.View.{AllWhole, written}
use wii_bridge.SaveOverlay.Journal.{Limits}
use wii_bridge.SaveOverlay.Journal.Replay.{Writes, encode_all, replay, total, AllInside}
use wii_bridge.SaveOverlay.Store.{
  Card, Ending, committed, uncommitted, journal_kept, journal_unsynced, checkpoint, flush_dirty,
  flush_card, flush_if,
}
use wii_bridge.SaveOverlay.Store.Readable.{sees, IsReadable, checkpointed, flush_cases}

-- A card whose journal holds the writes since the last checkpoint, within the limits.
pub record IsDurable (sha256 : Bytes → Bytes) (limits : Limits) (c : Card) (ws : Writes)
    : Type 0 where
  pub journal_is : c.journal ≡ encode_all sha256 ws
  pub inside : AllInside (length c.file) ws
  pub size_is : length c.file ≡ c.card_size
  pub is_small : c.card_size ≤ 16777216
  pub is_aligned : length c.file % 512 ≡ 0
  pub whole_blocks : AllWhole (length c.file) c.dirty
  pub pending : total ws ≤ c.pending_bytes
  pub pending_fits : c.pending_bytes ≤ limits.max_pending_bytes
  pub recorded : length c.journal ≤ c.journal_bytes
  pub journal_fits : c.journal_bytes ≤ limits.max_journal_bytes
  pub has_blocks : (0 < length c.dirty) ⊎ ((c.pending_bytes ≡ 0) × (c.journal_bytes ≡ 0))
  pub is_replay : (p : ℕ) → sees c p ≡ replay ws (λ q. get_or c.file q 0) p

write_decides :
    (f g : ℕ → ℕ) (off : ℕ) (buffer : Bytes) (p : ℕ)
    → (leb off p && ltb p (off + length buffer)) ≡ true
    → written f off buffer p ≡ written g off buffer p
write_decides f g off buffer p here = rw here

-- A card keeps its invariant, or it is blocked and can be read.
abbrev pub IsServed : (Bytes → Bytes) → Limits → Card → Type 0
IsServed sha256 limits c =
    ((c.is_blocked ≡ false) × ((ws : Writes) × IsDurable sha256 limits c ws))
    ⊎ ((c.is_blocked ≡ true) × IsReadable c)

-- At each position some write decides, or none does.
replay_cases :
    (ws : Writes) (p : ℕ)
    → ((f g : ℕ → ℕ) → replay ws f p ≡ replay ws g p) ⊎ ((f : ℕ → ℕ) → replay ws f p ≡ f p)
replay_cases [] p = inr (λ f. refl)
replay_cases ((off, buffer) ∷ ws) p = elim (replay_cases ws p) [
  | inl fixed ↦ inl (λ f g. fixed (written f off buffer) (written g off buffer))
  | inr kept ↦ elim (Bool-cases (leb off p && ltb p (off + length buffer))) [
    | inl here ↦ inl (λ f g.
        kept (written f off buffer)
        ∙ (write_decides f g off buffer p here ∙ sym (kept (written g off buffer))))
    | inr other ↦ inr (λ f. kept (written f off buffer) ∙ rw other)
  ]
]

-- Writes that are replayed on their own result change nothing.
replay_again :
    (ws : Writes) (f g : ℕ → ℕ) (p : ℕ) → g p ≡ replay ws f p → replay ws g p ≡ replay ws f p
replay_again ws f g p h = elim (replay_cases ws p) [ inl fixed ↦ fixed g f | inr kept ↦ kept g ∙ h ]

module _ (sha256 : Bytes → Bytes) (limits : Limits) where
  -- A checkpoint keeps the bytes and the invariant, whichever way it ends.
  abbrev pub FlushKeeps : Card → Card → Type 0
  FlushKeeps c c' =
      (ws' : Writes) × IsDurable sha256 limits c' ws'
      × ((p : ℕ) → sees c' p ≡ sees c p)
      × (c'.card_size ≡ c.card_size)
      × (c'.is_blocked ≡ c.is_blocked)

  pub durable-IsReadable : (c : Card) (ws : Writes) → IsDurable sha256 limits c ws → IsReadable c
  durable-IsReadable c ws d = record {
    size_is = d.size_is;
    is_aligned = d.is_aligned;
    whole_blocks = d.whole_blocks;
  }

  flush_dirty_lem :
      (ending : Ending) (c : Card) (ws : Writes)
      → IsDurable sha256 limits c ws
      → FlushKeeps c (flush_dirty ending c).0
  unfolding flush_dirty
  flush_dirty_lem uncommitted c ws d = (ws, d, λ p. refl, refl, refl)
  flush_dirty_lem journal_kept c ws d =
      let (size, byte, same) = checkpointed c (durable-IsReadable c ws d) in
      let kept : IsDurable sha256 limits (flush_dirty journal_kept c).0 ws = record {
        journal_is = d.journal_is;
        inside = rw size d.inside;
        size_is = size ∙ d.size_is;
        is_small = d.is_small;
        is_aligned = rw size d.is_aligned;
        whole_blocks = rw size d.whole_blocks;
        pending = d.pending;
        pending_fits = d.pending_fits;
        recorded = d.recorded;
        journal_fits = d.journal_fits;
        has_blocks = d.has_blocks;
        is_replay = λ p.
            same p
            ∙ (d.is_replay p
                ∙ sym (
                    replay_again ws (λ q. get_or c.file q 0)
                      (λ q. get_or (checkpoint c.dirty (take c.card_size c.file)) q 0) p
                      (byte p ∙ d.is_replay p)));
      } in
      (ws, kept, same, refl, refl)
  flush_dirty_lem journal_unsynced c ws d =
      let (size, byte, same) = checkpointed c (durable-IsReadable c ws d) in
      let kept : IsDurable sha256 limits (flush_dirty journal_unsynced c).0 [] = record {
        journal_is = refl;
        inside = tt;
        size_is = size ∙ d.size_is;
        is_small = d.is_small;
        is_aligned = rw size d.is_aligned;
        whole_blocks = rw size d.whole_blocks;
        pending = omega arith;
        pending_fits = d.pending_fits;
        recorded = omega arith;
        journal_fits = d.journal_fits;
        has_blocks = d.has_blocks;
        is_replay = λ p. same p ∙ sym (byte p);
      } in
      ([], kept, same, refl, refl)
  flush_dirty_lem committed c ws d =
      let (size, byte, same) = checkpointed c (durable-IsReadable c ws d) in
      let kept : IsDurable sha256 limits (flush_dirty committed c).0 [] = record {
        journal_is = refl;
        inside = tt;
        size_is = size ∙ d.size_is;
        is_small = d.is_small;
        is_aligned = rw size d.is_aligned;
        whole_blocks = tt;
        pending = omega arith;
        pending_fits = omega arith;
        recorded = omega arith;
        journal_fits = omega arith;
        has_blocks = inr (refl, refl);
        is_replay = λ p. refl;
      } in
      ([], kept, byte, refl, refl)

  pub flush_card_lem :
      (ending : Ending) (c : Card) (ws : Writes)
      → IsDurable sha256 limits c ws
      → FlushKeeps c (flush_card ending c).0
  flush_card_lem ending c ws d = elim (flush_cases ending c (omega (arith, d.size_is))) [
    | inl clean ↦ rw clean (ws, d, λ p. refl, refl, refl)
    | inr changed ↦ rw changed (flush_dirty_lem ending c ws d)
  ]

  pub flush_if_lem :
      (needed : Bool) (ending : Ending) (c : Card) (ws : Writes)
      → IsDurable sha256 limits c ws
      → FlushKeeps c (flush_if needed ending c).0
  unfolding flush_if
  flush_if_lem true ending c ws d = flush_card_lem ending c ws d
  flush_if_lem false ending c ws d = (ws, d, λ p. refl, refl, refl)
