-- ===== src/SaveOverlay/Store/Readable.antt =====
-- A checkpoint of a card (flushCard of saveoverlay.go) keeps the bytes that the console sees.
use wii_bridge.Common.{
  ℕ, ◌%◌, ◌≤◌, ◌≡◌, refl, ◌∙◌, true, false, ltb, ◌==◌, arith, Bytes, length, take, take_more,
  get_or, Bool-cases, ◌⊎◌, inl, inr,
}
use wii_bridge.SaveOverlay.{Dirty}
use wii_bridge.SaveOverlay.Blocks.View.{view, AllWhole}
use wii_bridge.SaveOverlay.Store.{
  Card, Ending, committed, uncommitted, journal_kept, journal_unsynced, checkpoint, flush_dirty,
  flush_card,
}
use wii_bridge.SaveOverlay.Store.Checkpoint.{checkpoint_lem, length-checkpoint}

-- The bytes of a card.
abbrev pub sees : Card → ℕ → ℕ
sees c = view c.file c.dirty

-- What is left of the invariant when the journal may be torn: the card can still be read.
pub record IsReadable (c : Card) : Type 0 where
  pub size_is : length c.file ≡ c.card_size
  pub is_aligned : length c.file % 512 ≡ 0
  pub whole_blocks : AllWhole (length c.file) c.dirty

pub view-checkpoint :
    (dirty : Dirty) (file : Bytes) (p : ℕ)
    → length file % 512 ≡ 0
    → AllWhole (length file) dirty
    → view (checkpoint dirty file) dirty p ≡ view file dirty p
view-checkpoint dirty file p a w = ground (arith, checkpoint_lem dirty file p a w)

pub flush_cases :
    (ending : Ending) (c : Card)
    → c.card_size ≤ length c.file
    → (flush_card ending c ≡ (c, true)) ⊎ (flush_card ending c ≡ flush_dirty ending c)
unfolding flush_card
flush_cases ending c h = elim (Bool-cases (length c.dirty == 0)) [
  | inl clean ↦ inl (rw clean)
  | inr changed ↦
      let long : ltb (length c.file) c.card_size ≡ false = ground arith in inr (rw (changed, long))
]

-- The file that a checkpoint puts in place.
pub checkpointed :
    (c : Card)
    → IsReadable c
    → (length (checkpoint c.dirty (take c.card_size c.file)) ≡ length c.file)
      × ((p : ℕ) → get_or (checkpoint c.dirty (take c.card_size c.file)) p 0 ≡ sees c p)
      × ((p : ℕ) → view (checkpoint c.dirty (take c.card_size c.file)) c.dirty p ≡ sees c p)
checkpointed c d =
    let all : take c.card_size c.file ≡ c.file =
      take_more c.card_size c.file (omega (arith, d.size_is)) in
    rw all (
      length-checkpoint c.dirty c.file d.is_aligned d.whole_blocks,
      λ p. checkpoint_lem c.dirty c.file p d.is_aligned d.whole_blocks,
      λ p. view-checkpoint c.dirty c.file p d.is_aligned d.whole_blocks,
    )

-- A checkpoint keeps the bytes of a card that can be read, whichever way it ends.
abbrev pub ReadableKeeps : Card → Card → Type 0
ReadableKeeps c c' =
    IsReadable c'
    × ((p : ℕ) → sees c' p ≡ sees c p)
    × (c'.card_size ≡ c.card_size)
    × (c'.is_blocked ≡ c.is_blocked)

flush_dirty-IsReadable :
    (ending : Ending) (c : Card) → IsReadable c → ReadableKeeps c (flush_dirty ending c).0
unfolding flush_dirty
flush_dirty-IsReadable uncommitted c d = (d, λ p. refl, refl, refl)
flush_dirty-IsReadable journal_kept c d =
    let (size, byte, same) = checkpointed c d in
    (
      record {
        size_is = size ∙ d.size_is;
        is_aligned = rw size d.is_aligned;
        whole_blocks = rw size d.whole_blocks;
      },
      same,
      refl,
      refl,
    )
flush_dirty-IsReadable journal_unsynced c d =
    let (size, byte, same) = checkpointed c d in
    (
      record {
        size_is = size ∙ d.size_is;
        is_aligned = rw size d.is_aligned;
        whole_blocks = rw size d.whole_blocks;
      },
      same,
      refl,
      refl,
    )
flush_dirty-IsReadable committed c d =
    let (size, byte, same) = checkpointed c d in
    (
      record { size_is = size ∙ d.size_is; is_aligned = rw size d.is_aligned; whole_blocks = tt },
      byte,
      refl,
      refl,
    )

pub flush_card-IsReadable :
    (ending : Ending) (c : Card) → IsReadable c → ReadableKeeps c (flush_card ending c).0
flush_card-IsReadable ending c d = elim (flush_cases ending c (omega (arith, d.size_is))) [
  | inl clean ↦ rw clean (d, λ p. refl, refl, refl)
  | inr changed ↦ rw changed (flush_dirty-IsReadable ending c d)
]
