-- ===== src/SaveOverlay/Cards/Operations.antt =====
-- What ReadSaveAt, WriteSaveAt and Sync of saveoverlay.go do to the bytes of all the cards.
use text.Mathlib.Text.{◌==◌ as str_eq}
use text.Mathlib.TextEquality.{eq_iff}
use wii_bridge.Common.{
  ℕ, ◌+◌, ◌≤◌, ◌≡◌, refl, sym, ap, ◌∙◌, String, false, none, some, List, [], ◌∷◌, ltb,
  if◌then◌else◌, arith, Bytes, length, tabulate, tabulate_ext, Bool-cases, Option-cases, inl, inr,
}
use wii_bridge.SaveOverlay.{Io}
use wii_bridge.SaveOverlay.Blocks.View.{written}
use wii_bridge.SaveOverlay.Blocks.Reading.{read_card_lem}
use wii_bridge.SaveOverlay.Journal.{Limits}
use wii_bridge.SaveOverlay.Journal.Replay.{replay_ext}
use wii_bridge.SaveOverlay.Store.{
  Card, Ending, Faults, outside_extent, WriteResult, wrote, rejected, flush_card, write_card,
}
use wii_bridge.SaveOverlay.Store.Readable.{sees, flush_card-IsReadable}
use wii_bridge.SaveOverlay.Store.Durable.{IsServed, flush_card_lem}
use wii_bridge.SaveOverlay.Store.Writing.{write_card_lem, write_card-blocked, IsWriteOutcome}
use wii_bridge.SaveOverlay.Cards.{
  SaveStore, find_card, update_card, read_save_at, write_save_at, sync_cards, sync,
}
use wii_bridge.SaveOverlay.Cards.Contents.{
  contents, size_of, contents-update_card, size-update_card, AllServed, find_card-IsServed,
  update_card-AllServed, IsServed-IsSound, contents-find_card,
}

contents_cons :
    (key : String) (c c' : Card) (rest rest' : List (String × Card)) (id : String) (p : ℕ)
    → sees c' p ≡ sees c p
    → contents (record { is_closed = false; objects = rest' }) id p
      ≡ contents (record { is_closed = false; objects = rest }) id p
    → contents (record { is_closed = false; objects = (key, c') ∷ rest' }) id p
      ≡ contents (record { is_closed = false; objects = (key, c) ∷ rest }) id p
contents_cons key c c' rest rest' id p h same = elim (Bool-cases (str_eq key id)) [
  | inl here ↦ rw (here, contents) h
  | inr there ↦ rw (there, contents) same
]

module _ (sha256 : Bytes → Bytes) (limits : Limits) where
  -- A read inside a card of an open store gives the card's bytes.
  pub read_save_at_lem :
      (io : String → Io) (s : SaveStore) (id : String) (off n : ℕ) (c : Card)
      → AllServed sha256 limits s.objects
      → ((key : String) (at m : ℕ) → (io key).read_fails at m ≡ none)
      → s.is_closed ≡ false
      → find_card id s.objects ≡ some c
      → off + n ≤ c.card_size
      → read_save_at io s id off n ≡ some (tabulate (contents s id) off n, none)
  unfolding read_save_at
  read_save_at_lem io s id off n c ok reads opened found inside =
      let served = find_card-IsServed sha256 limits id s.objects c ok found in
      let (sound, size) = IsServed-IsSound sha256 limits (io id) c served (reads id) in
      let run = read_card_lem (io id) c.file c.dirty off n sound (omega (arith, size)) in
      let fits : ltb c.card_size (off + n) ≡ false = ground arith in
      let bytes : (p : ℕ) → sees c p ≡ contents s id p = λ p. rw (found, contents) in
      rw (opened, found, fits, run, read_save_at)
        (ap (λ t. some (t, none))
          (tabulate_ext (sees c) (contents s id) off n (λ i lo hi. bytes i)))

  -- What a write to one card does to the store: its bytes on that card and no other byte of any
  -- card, or nothing.
  abbrev pub IsStoreOutcome : SaveStore → String → ℕ → Bytes → SaveStore → WriteResult → Type 0
  IsStoreOutcome s id off buffer s' (wrote n) =
      (n ≡ length buffer)
      × ((other : String) (p : ℕ)
          → contents s' other p ≡ (
              if str_eq id other then written (contents s id) off buffer p else contents s other p))
  IsStoreOutcome s id off buffer s' (rejected n e) =
      (n ≡ 0) × ((other : String) (p : ℕ) → contents s' other p ≡ contents s other p)

  -- What a write may do to a card, which may be blocked already.
  abbrev IsCardOutcome : Card → ℕ → Bytes → Card → WriteResult → Type 0
  IsCardOutcome c off buffer c' (wrote n) =
      (n ≡ length buffer)
      × (c'.card_size ≡ c.card_size)
      × IsServed sha256 limits c'
      × ((p : ℕ) → sees c' p ≡ written (sees c) off buffer p)
  IsCardOutcome c off buffer c' (rejected n e) =
      (n ≡ 0)
      × (c'.card_size ≡ c.card_size)
      × IsServed sha256 limits c'
      × ((p : ℕ) → sees c' p ≡ sees c p)

  IsWriteOutcome-IsCardOutcome :
      (sha_size : (b : Bytes) → length (sha256 b) ≡ 32) (io : Io) (faults : Faults) (c c' : Card)
      (off : ℕ)
      → (buffer : Bytes) (r : WriteResult)
      → IsWriteOutcome sha256 sha_size limits io faults c off buffer c' r
      → IsCardOutcome c off buffer c' r
  IsWriteOutcome-IsCardOutcome sha_size io faults c c' off buffer (wrote n)
        (count, size, free, durable, bytes) =
      (count, size, inl (free, durable), bytes)
  IsWriteOutcome-IsCardOutcome sha_size io faults c c' off buffer (rejected n e)
        (count, size, inl served, bytes) =
      (count, size, inl served, bytes)
  IsWriteOutcome-IsCardOutcome sha_size io faults c c' off buffer (rejected n e)
        (count, size, inr (failed, torn, blocked, readable), bytes) =
      (count, size, inr (blocked, readable), bytes)

  outcome_contents :
      (s : SaveStore) (id : String)
      → (off : ℕ) (buffer : Bytes) (c c' : Card) (r : WriteResult) → find_card id s.objects ≡ some c
      → IsCardOutcome c off buffer c' r
      → IsStoreOutcome s id off buffer (record s { objects = update_card id c' s.objects }) r
  outcome_contents s id off buffer c c' (wrote n) found (count, size, served, bytes) = (
    count,
    λ other p.
        contents-update_card s id c c' other p found
        ∙ ap (λ t. if str_eq id other then t else contents s other p)
            (bytes p
              ∙ replay_ext ((off, buffer) ∷ []) (sees c) (contents s id) p
                  (sym (contents-find_card s id c p found))),
  )
  outcome_contents s id off buffer c c' (rejected n e) found (count, size, served, bytes) = (
    count,
    λ other p. contents-update_card s id c c' other p found ∙ elim (Bool-cases (str_eq id other)) [
      | inr apart ↦ rw apart
      | inl same ↦
          let one : id ≡ other = (eq_iff id other).0 same in
          rw same
            (bytes p ∙ (sym (contents-find_card s id c p found) ∙ ap (λ t. contents s t p) one))
    ],
  )

  outcome-IsServed :
      (off : ℕ) (buffer : Bytes) (c c' : Card) (r : WriteResult)
      → IsCardOutcome c off buffer c' r
      → IsServed sha256 limits c' × (c'.card_size ≡ c.card_size)
  outcome-IsServed off buffer c c' (wrote n) (count, size, served, bytes) = (served, size)
  outcome-IsServed off buffer c c' (rejected n e) (count, size, served, bytes) = (served, size)

  write_served :
      (sha_size : (b : Bytes) → length (sha256 b) ≡ 32) (io : Io) (faults : Faults) (c : Card)
      (off : ℕ) (buffer : Bytes)
      → IsServed sha256 limits c
      → ((at n : ℕ) → io.read_fails at n ≡ none)
      → (c' : Card) × (r : WriteResult) × (write_card sha256 limits io faults c off buffer
          ≡ some (c', r))
        × IsCardOutcome c off buffer c' r
  write_served sha_size io faults c off buffer (inl (free, (ws, d))) reads =
      let (c', r, run, outcome) =
        write_card_lem sha256 sha_size limits io faults c ws off buffer d free reads in
      (c', r, run, IsWriteOutcome-IsCardOutcome sha_size io faults c c' off buffer r outcome)
  write_served sha_size io faults c off buffer (inr (blocked, d)) reads =
      let (e, run) = write_card-blocked sha256 limits io faults c off buffer blocked in
      (c, rejected 0 e, run, (refl, refl, inr (blocked, d), λ p. refl))

  -- A write to an open store whose cards keep their invariants or are blocked and readable, when no
  -- read of a card's file fails and a checksum has 32 bytes, ends, however its checkpoints end and
  -- whether or not the append to the journal fails: the bytes go to the addressed card and to no
  -- other place, or no byte of any card changes. Every card keeps its invariant, or is blocked and
  -- can still be read.
  pub write_save_at_lem :
      (sha_size : (b : Bytes) → length (sha256 b) ≡ 32) (io : String → Io) (faults : Faults)
      → (s : SaveStore) (id : String) (off : ℕ) (buffer : Bytes) → AllServed sha256 limits s.objects
      → ((key : String) (at m : ℕ) → (io key).read_fails at m ≡ none)
      → s.is_closed ≡ false
      → (s' : SaveStore) × (r : WriteResult) × (write_save_at sha256 limits io faults s id off
            buffer
          ≡ some (s', r))
        × AllServed sha256 limits s'.objects
        × (s'.is_closed ≡ false)
        × ((other : String) → size_of s' other ≡ size_of s other)
        × IsStoreOutcome s id off buffer s' r
  unfolding write_save_at
  write_save_at_lem sha_size io faults s id off buffer ok reads opened =
      elim (Option-cases (find_card id s.objects)) [
        | inl missing ↦ (
          s,
          rejected 0 outside_extent,
          simp (opened, missing) refl,
          ok,
          opened,
          λ other. refl,
          (refl, λ other p. refl),
        )
        | inr (c, found) ↦
            let served = find_card-IsServed sha256 limits id s.objects c ok found in
            let (c', r, run, outcome) =
              write_served sha_size (io id) faults c off buffer served (reads id) in
            let (served', size) = outcome-IsServed off buffer c c' r outcome in
            (
              record s { objects = update_card id c' s.objects },
              r,
              simp (opened, found, run, write_save_at) refl,
              update_card-AllServed sha256 limits id c' s.objects ok served',
              opened,
              λ other. size-update_card s id c c' other found size,
              outcome_contents s id off buffer c c' r found outcome,
            )
      ]

  flush_card-IsServed :
      (ending : Ending) (c : Card)
      → IsServed sha256 limits c
      → IsServed sha256 limits (flush_card ending c).0
        × ((p : ℕ) → sees (flush_card ending c).0 p ≡ sees c p)
        × ((flush_card ending c).0.card_size ≡ c.card_size)
  flush_card-IsServed ending c (inl (free, (ws, d))) =
      let (ws', d', same, size, free') = flush_card_lem sha256 limits ending c ws d in
      (inl (free' ∙ free, (ws', d')), same, size)
  flush_card-IsServed ending c (inr (blocked, d)) =
      let (d', same, size, blocked') = flush_card-IsReadable ending c d in
      (inr (blocked' ∙ blocked, d'), same, size)

  sync_cards_lem :
      (endings : String → Ending) (objects : List (String × Card))
      → AllServed sha256 limits objects
      → AllServed sha256 limits (sync_cards endings objects).0
        × ((id : String) (p : ℕ)
            → contents (record { is_closed = false; objects = (sync_cards endings objects).0 }) id p
              ≡ contents (record { is_closed = false; objects = objects }) id p)
  unfolding sync_cards
  sync_cards_lem endings [] ok = (tt, λ id p. refl)
  sync_cards_lem endings ((key, c) ∷ rest) (ok, oks) =
      let (oks', same) = sync_cards_lem endings rest oks in
      let (ok', bytes, size) = flush_card-IsServed (endings key) c ok in
      elim (Bool-cases (flush_card (endings key) c).1) [
        | inl fine ↦ rw fine (
          (ok', oks'),
          λ id p.
              contents_cons key c (flush_card (endings key) c).0 rest (sync_cards endings rest).0 id
                p (bytes p) (same id p),
        )
        | inr bad ↦ rw bad (
          (ok', oks),
          λ id p. contents_cons key c (flush_card (endings key) c).0 rest rest id p (bytes p) refl,
        )
      ]

  -- A synchronisation of an open store changes no byte of any card, whichever checkpoints fail, and
  -- every card keeps its invariant or stays readable.
  pub sync_lem :
      (endings : String → Ending) (s : SaveStore)
      → AllServed sha256 limits s.objects
      → AllServed sha256 limits (sync endings s).0.objects
        × ((id : String) (p : ℕ) → contents (sync endings s).0 id p ≡ contents s id p)
        × ((sync endings s).0.is_closed ≡ s.is_closed)
  unfolding sync
  sync_lem endings s ok = elim (Bool-cases s.is_closed) [
    | inl closes ↦ simp closes (ok, λ id p. refl, refl)
    | inr opened ↦
        let (oks, same) = sync_cards_lem endings s.objects ok in simp opened (oks, same, refl)
  ]
