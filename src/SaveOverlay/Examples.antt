-- ===== src/SaveOverlay/Examples.antt =====
-- The theorems on memory cards at a concrete card.
use wii_bridge.Common.{
  ℕ, ◌≡◌, refl, String, false, some, [], ◌∷◌, arith, Bytes, length, tabulate, inl, ◌≤◌, replicate,
  get_or, ◌∙◌,
}
use wii_bridge.SaveOverlay.{Dirty}
use wii_bridge.SaveOverlay.Blocks.{read_card}
use wii_bridge.SaveOverlay.Blocks.View.{view, AllWhole, written}
use wii_bridge.SaveOverlay.Blocks.Reading.{read_card_lem}
use wii_bridge.SaveOverlay.Journal.{loaded, load_journal}
use wii_bridge.SaveOverlay.Journal.Replay.{Writes, encode_all, replay, load_journal_lem}
use wii_bridge.SaveOverlay.Store.{
  Card, journal_kept, Opened, open_card, flush_card, wrote, write_card, WriteResult,
}
use wii_bridge.SaveOverlay.Store.Readable.{sees}
use wii_bridge.SaveOverlay.Store.Durable.{IsDurable, flush_card_lem}
use wii_bridge.SaveOverlay.Store.Writing.{write_card_lem, IsWriteOutcome}
use wii_bridge.SaveOverlay.Store.Recovery.{open_card-IsRecovered, IsRecovered}
use wii_bridge.SaveOverlay.Store.Accepted.{write_card-wrote}
use wii_bridge.SaveOverlay.Store.History.{
  Reached, Reached-Agrees, write-Agrees, after_write, after_flush, at_start, Reached-read_card,
}
use wii_bridge.SaveOverlay.Cards.{SaveStore, write_save_at, sync}
use wii_bridge.SaveOverlay.Cards.Contents.{contents, size_of, AllServed}
use wii_bridge.SaveOverlay.Cards.Operations.{write_save_at_lem, sync_lem, IsStoreOutcome}
use wii_bridge.SaveOverlay.Fixtures.{
  sum_of, sum_of_size, limits, io, io_reads, fine, card, card-IsDurable,
}

-- A write across the border of the two blocks.
abbrev bytes : Bytes
bytes = 1 ∷ 2 ∷ 3 ∷ 4 ∷ []

first_write : (c : Card) × (write_card sum_of limits io fine card 510 bytes ≡ some (c, wrote 4))
first_write =
    write_card-wrote sum_of sum_of_size limits io fine card [] 510 bytes card-IsDurable refl
      io_reads refl refl refl (omega arith) (omega arith) (omega arith) (omega arith) (omega arith)

write_card-wrote_example :
    (c : Card) × (write_card sum_of limits io fine card 0 bytes ≡ some (c, wrote 4))
write_card-wrote_example =
    write_card-wrote sum_of sum_of_size limits io fine card [] 0 bytes card-IsDurable refl io_reads
      refl refl refl (omega arith) (omega arith) (omega arith) (omega arith) (omega arith)

write_card_lem_example :
    (c : Card) × (r : WriteResult) × (write_card sum_of limits io fine card 510 bytes ≡ some (c, r))
    × IsWriteOutcome sum_of sum_of_size limits io fine card 510 bytes c r
write_card_lem_example =
    write_card_lem sum_of sum_of_size limits io fine card [] 510 bytes card-IsDurable refl io_reads

first_outcome :
    IsWriteOutcome sum_of sum_of_size limits io fine card 510 bytes first_write.0 (wrote 4)
first_outcome =
    write-Agrees sum_of limits io sum_of_size io_reads card first_write.0 (sees card) fine 510 bytes
      (wrote 4) (([], card-IsDurable), refl, λ p. refl) first_write.1

-- The card after that write and a checkpoint whose journal stayed.
abbrev kept : Card
kept = (flush_card journal_kept first_write.0).0

kept-Reached : Reached sum_of limits io card kept (written (sees card) 510 bytes)
kept-Reached =
    after_flush first_write.0 (written (sees card) 510 bytes) journal_kept
      (after_write card first_write.0 (sees card) fine 510 bytes 4 at_start first_write.1)

kept-IsDurable : (ws : Writes) × IsDurable sum_of limits kept ws
kept-IsDurable =
    (Reached-Agrees sum_of limits io sum_of_size io_reads card [] card-IsDurable refl kept
      (written (sees card) 510 bytes) kept-Reached).0

kept_size : kept.card_size ≡ 1024
kept_size =
    let (count, size, free, (ws, durable), same) = first_outcome in
    (flush_card_lem sum_of limits journal_kept first_write.0 ws durable).3 ∙ size

Reached-read_card_example :
    read_card io kept.file kept.dirty 509 6
    ≡ some (tabulate (written (sees card) 510 bytes) 509 6, false)
Reached-read_card_example =
    Reached-read_card sum_of limits io sum_of_size io_reads card [] card-IsDurable refl kept
      (written (sees card) 510 bytes) kept-Reached 509 6 (omega (arith, kept_size))

open_card-IsRecovered_example :
    (o : Opened) × (open_card sum_of limits io fine kept.card_size kept.file kept.journal ≡ some o)
    × IsRecovered sum_of sum_of_size limits io (sees kept) o
open_card-IsRecovered_example =
    open_card-IsRecovered sum_of sum_of_size limits io fine kept kept-IsDurable.0 kept-IsDurable.1
      io_reads

read_card_lem_example :
    read_card io card.file ((1, replicate 512 9) ∷ []) 510 4
    ≡ some (tabulate (view card.file ((1, replicate 512 9) ∷ [])) 510 4, false)
read_card_lem_example =
    read_card_lem io card.file ((1, replicate 512 9) ∷ []) 510 4
      (record { reads = io_reads; whole_file = refl; whole_blocks = ((refl, omega arith), tt) })
      (omega arith)

load_journal_lem_example :
    (dirty : Dirty) × (load_journal sum_of io limits 1024 card.file
        (encode_all sum_of ((510, bytes) ∷ []))
      ≡ some (loaded dirty 4))
    × AllWhole 1024 dirty
    × ((p : ℕ) → view card.file dirty p ≡ replay ((510, bytes) ∷ []) (λ q. get_or card.file q 0) p)
    × (1 ≤ length dirty)
load_journal_lem_example =
    load_journal_lem sum_of sum_of_size io limits card.file ((510, bytes) ∷ [])
      (record { reads = io_reads; whole_file = refl; whole_blocks = tt }) (omega arith)
      ((omega arith, omega arith), tt) (omega arith) (omega arith)

abbrev two_cards : SaveStore
two_cards = record { is_closed = false; objects = ("a", card) ∷ ("b", kept) ∷ [] }

kept_free : kept.is_blocked ≡ false
kept_free =
    (Reached-Agrees sum_of limits io sum_of_size io_reads card [] card-IsDurable refl kept
      (written (sees card) 510 bytes) kept-Reached).1

two_cards-AllServed : AllServed sum_of limits two_cards.objects
two_cards-AllServed = (inl (refl, ([], card-IsDurable)), (inl (kept_free, kept-IsDurable), tt))

write_save_at_lem_example :
    (s' : SaveStore) × (r : WriteResult) × (write_save_at sum_of limits
        (λ id. io)
        fine
        two_cards
        "a"
        7
        bytes
      ≡ some (s', r))
    × AllServed sum_of limits s'.objects
    × (s'.is_closed ≡ false)
    × ((other : String) → size_of s' other ≡ size_of two_cards other)
    × IsStoreOutcome sum_of limits two_cards "a" 7 bytes s' r
write_save_at_lem_example =
    write_save_at_lem sum_of limits sum_of_size (λ id. io) fine two_cards "a" 7 bytes
      two_cards-AllServed (λ key. io_reads) refl

sync_lem_example :
    AllServed sum_of limits (sync (λ id. journal_kept) two_cards).0.objects
    × ((id : String) (p : ℕ)
        → contents (sync (λ id'. journal_kept) two_cards).0 id p ≡ contents two_cards id p)
    × ((sync (λ id. journal_kept) two_cards).0.is_closed ≡ false)
sync_lem_example = sync_lem sum_of limits (λ id. journal_kept) two_cards two_cards-AllServed
