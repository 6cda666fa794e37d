-- ===== src/SaveOverlay/Cards.antt =====
-- `SaveStore` of saveoverlay.go: the cards by their identifiers. A method runs under the store's
-- mutex. What a card's file and journal allow is an argument for each card.
pub mod Contents
pub mod Operations
use text.Mathlib.Text.{◌==◌ as str_eq}
use wii_bridge.Common.{
  ℕ, ◌+◌, String, Bool, true, false, ◌&&◌, Option, none, some, List, [], ◌∷◌, ltb, if◌then◌else◌,
  Bytes,
}
use wii_bridge.SaveOverlay.{Io}
use wii_bridge.SaveOverlay.Blocks.{read_card}
use wii_bridge.SaveOverlay.Journal.{Limits}
use wii_bridge.SaveOverlay.Store.{
  Card, Ending, Faults, SaveError, outside_extent, file_read_failed, closed, WriteResult, wrote,
  rejected, flush_card, write_card,
}

-- The cards stand in the order of their identifiers, in which `Sync` visits them.
pub record SaveStore : Type 0 where
  pub is_closed : Bool
  pub objects : List (String × Card)

abbrev pub find_card : String → List (String × Card) → Option Card
find_card id [] = none
find_card id ((key, c) ∷ rest) = if str_eq key id then some c else find_card id rest

-- The pointer of the map keeps its key: the card is changed in place.
abbrev pub update_card : String → Card → List (String × Card) → List (String × Card)
update_card id c' [] = []
update_card id c' ((key, c) ∷ rest) =
    if str_eq key id then (key, c') ∷ rest else (key, c) ∷ update_card id c' rest

-- `ReadSaveAt`: the bytes, and the error.
pub read_save_at : (String → Io) → SaveStore → String → ℕ → ℕ → Option (Bytes × Option SaveError)
read_save_at io s id off n =
    if s.is_closed then some ([], some closed) else elim (find_card id s.objects) [
      | none ↦ some ([], some outside_extent)
      | some c ↦
          if ltb c.card_size (off + n)
          then some ([], some outside_extent)
          else elim (read_card (io id) c.file c.dirty off n) [
            | none ↦ none
            | some (got, bad) ↦ some (got, if bad then some file_read_failed else none)
          ]
    ]

-- `WriteSaveAt`.
pub write_save_at :
    (Bytes → Bytes)
    → Limits
    → (String → Io)
    → Faults
    → SaveStore
    → String
    → ℕ
    → Bytes
    → Option (SaveStore × WriteResult)
write_save_at sha256 limits io faults s id off buffer =
    if s.is_closed then some (s, rejected 0 closed) else elim (find_card id s.objects) [
      | none ↦ some (s, rejected 0 outside_extent)
      | some c ↦ elim (write_card sha256 limits (io id) faults c off buffer) [
        | none ↦ none
        | some (c', r) ↦ some (record s { objects = update_card id c' s.objects }, r)
      ]
    ]

-- The loop of `Sync`, up to the first card that fails.
pub sync_cards : (String → Ending) → List (String × Card) → List (String × Card) × Bool
sync_cards endings [] = ([], true)
sync_cards endings ((id, c) ∷ rest) =
    let (c', ok) = flush_card (endings id) c in
    let (rest', ok') = sync_cards endings rest in
    if ok then ((id, c') ∷ rest', ok') else ((id, c') ∷ rest, false)

-- `Sync`: false is an error.
pub sync : (String → Ending) → SaveStore → SaveStore × Bool
sync endings s =
    let (objects, ok) = sync_cards endings s.objects in
    if s.is_closed then (s, false) else (record s { objects = objects }, ok)

-- The loop of `Close`, which goes on after a card that fails. That the descriptors can be closed
-- is an argument.
pub close_cards :
    (String → Ending) → (String → Bool) → List (String × Card) → List (String × Card) × Bool
close_cards endings closes [] = ([], true)
close_cards endings closes ((id, c) ∷ rest) =
    let (c', ok) = flush_card (endings id) c in
    let (rest', ok') = close_cards endings closes rest in ((id, c') ∷ rest', ok && closes id && ok')

-- `Close`.
pub close_store : (String → Ending) → (String → Bool) → SaveStore → SaveStore × Bool
close_store endings closes s =
    let (objects, ok) = close_cards endings closes s.objects in
    if s.is_closed then (s, true) else (record { is_closed = true; objects = objects }, ok)
