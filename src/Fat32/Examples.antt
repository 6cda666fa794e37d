-- ===== src/Fat32/Examples.antt =====
-- The theorems on the GameCube volume at a volume of one card, one image file and some metadata.
use text.Mathlib.Text.{◌==◌ as str_eq}
use wii_bridge.Common.{
  ℕ, if◌then◌else◌, ◌+◌, ◌-◌, ◌<◌, ◌≤◌, sym, ap, min, length-tabulate, ◌≡◌, refl, String, true,
  false, none, some, [], ◌∷◌, arith, tabulate, ltb, leb, Bool-cases, inl, inr,
}
use wii_bridge.SaveOverlay.Fixtures.{
  sum_of, sum_of_size, limits, io, io_reads, fine, card, card-IsDurable,
}
use wii_bridge.SaveOverlay.Cards.{SaveStore}
use wii_bridge.Fat32.{Identity}
use wii_bridge.Fat32.Backend.{Backend, WriteDone, write_at}
use wii_bridge.Fat32.Backend.Contract.{volume_byte}
use wii_bridge.Fat32.Backend.Writing.{IsLaidOut, IsVolumeOutcome, IsGoodStore, write_at_lem}
use wii_bridge.Fat32.Handles.{Os, Handles, open_path, verify_identity, same_filesystem}
use wii_bridge.Fat32.Handles.Bounded.{IsBounded, open_path-IsBounded}
use wii_bridge.Fat32.Reader.{read_at, expected_identity}
use wii_bridge.Fat32.Reader.Servable.{IsReadPart, IsServable}
use wii_bridge.Fat32.Reader.Bytewise.{read_at-tabulate}
use wii_bridge.Fat32.CardStore.{card_ops, card_laws}

abbrev cards : SaveStore
cards = record { is_closed = false; objects = ("a", card) ∷ [] }

abbrev identity : Identity
identity = record { device = 5; inode = 6; size = 8; mod_time = 7; filesystem_id = "" }

abbrev volume : Backend SaveStore
volume = record {
  size = 4096;
  metadata = 9 ∷ 8 ∷ 7 ∷ [];
  meta = record { virtual_offset = 0; length = 3; storage_offset = 0 } ∷ [];
  extents =
      record {
        virtual_offset = 2048;
        length = 8;
        source_path = "/g";
        source_offset = 0;
        source_size = 8;
        identity = identity;
      }
      ∷ [];
  saves =
      record {
        virtual_offset = 512;
        length = 1024;
        save_object_id = "a";
        card_offset = 0;
        card_size = 1024;
      }
      ∷ [];
  save_store = some cards;
  is_closed = false;
  source_filesystems = λ path. "";
}

abbrev image_byte : String → ℕ → ℕ
image_byte path q = q

-- One file of 8 bytes, of which a read gives at most 3; it fails when it reaches behind the end.
abbrev os : Os
os = record {
  lstat = λ path.
      if str_eq path "/g"
      then some (record {
        is_regular = true;
        is_symlink = false;
        size = 8;
        mod_time = 7;
        inode = 6;
        device = 5;
      })
      else none;
  filesystem_id = λ path. none;
  opens = λ path. str_eq path "/g";
  closes = λ path. true;
  file_read_at =
      λ path off n. (tabulate (image_byte path) off (min (min n 3) (8 - off)), ltb 8 (off + n));
}

abbrev handles : Handles
handles = record {
  limit = 1;
  lru = "/other" ∷ [];
  stats = record {
    source_opens = 1;
    source_reads = 0;
    cache_hits = 0;
    peak_open_files = 1;
    cache_misses = 1;
    evictions = 0;
  };
}

handles-IsBounded : IsBounded handles
handles-IsBounded = record { limited = omega arith; within = omega arith; peaked = omega arith }

open_path-IsBounded_example : IsBounded (open_path os handles "/g").0
open_path-IsBounded_example = open_path-IsBounded os handles "/g" handles-IsBounded

volume-IsLaidOut : IsLaidOut volume
volume-IsLaidOut = record { in_order = (tt, tt); unique = (tt, tt) }

write_at_lem_example :
    (b' : Backend SaveStore) × (r : WriteDone) × (write_at
        (card_ops sum_of sum_of_size limits (λ id. io) (λ key. io_reads) fine)
        volume
        600
        (1 ∷ 2 ∷ 3 ∷ [])
      ≡ some (b', r))
    × IsLaidOut b'
    × IsGoodStore
        (card_ops sum_of sum_of_size limits (λ id. io) (λ key. io_reads) fine)
        (card_laws sum_of sum_of_size limits (λ id. io) (λ key. io_reads) fine)
        image_byte
        b'.save_store
    × IsVolumeOutcome
        (card_ops sum_of sum_of_size limits (λ id. io) (λ key. io_reads) fine)
        (card_laws sum_of sum_of_size limits (λ id. io) (λ key. io_reads) fine)
        image_byte
        volume
        600
        (1 ∷ 2 ∷ 3 ∷ [])
        b'
        r
write_at_lem_example =
    write_at_lem (card_ops sum_of sum_of_size limits (λ id. io) (λ key. io_reads) fine)
      (card_laws sum_of sum_of_size limits (λ id. io) (λ key. io_reads) fine) image_byte volume 600
      (1 ∷ 2 ∷ 3 ∷ []) volume-IsLaidOut ((inl (refl, ([], card-IsDurable)), tt), refl)

volume_trusted :
    verify_identity os "/g" (
      expected_identity volume (record {
        virtual_offset = 2048;
        length = 8;
        source_path = "/g";
        source_offset = 0;
        source_size = 8;
        identity = identity;
      }))
    ≡ true
unfolding verify_identity expected_identity same_filesystem
volume_trusted = refl

read_part :
    (path : String) (off n : ℕ)
    → 0 < n
    → off + n ≤ 8
    → IsReadPart (image_byte path) off n (os.file_read_at path off n)
read_part path off n some_bytes inside =
    let size = length-tabulate (image_byte path) off (min (min n 3) (8 - off)) in
    (
      ap (tabulate (image_byte path) off) (sym size),
      omega (arith, size),
      omega (arith, size),
      λ short. ground arith,
    )

volume-IsServable :
    IsServable
      (card_ops sum_of sum_of_size limits (λ id. io) (λ key. io_reads) fine)
      (card_laws sum_of sum_of_size limits (λ id. io) (λ key. io_reads) fine)
      image_byte
      os
      volume
      cards
volume-IsServable = record {
  store_is = refl;
  good = ((inl (refl, ([], card-IsDurable)), tt), refl);
  saves_ordered = (tt, tt);
  meta_ordered = (tt, tt);
  sources_ordered = (tt, tt);
  cards_fit = (omega arith, tt);
  stored = (omega arith, tt);
  verified = (volume_trusted, tt);
  meta_apart =
      λ q e h. elim (Bool-cases (ltb q 3)) [ inl low ↦ ground arith | inr high ↦ ground arith ];
  source_apart = λ q e h. elim (Bool-cases (leb 2048 q)) [
    | inl high ↦ (ground arith, ground arith)
    | inr low ↦ (ground arith, ground arith)
  ];
  opens = (refl, tt);
  closes = λ path. refl;
  sources_inside = (omega arith, tt);
  reads = λ path off n some_bytes inside. elim (Bool-cases (str_eq path "/g")) [
    | inl here ↦ read_part path off n some_bytes (ground arith)
    | inr missing ↦ absurd (ground arith)
  ];
}

read_at-tabulate_example :
    (h : Handles) × (read_at
        (card_ops sum_of sum_of_size limits (λ id. io) (λ key. io_reads) fine)
        os
        volume
        handles
        1
        3000
      ≡ some (record {
        handles = h;
        bytes =
            tabulate
              (volume_byte
                (card_laws sum_of sum_of_size limits (λ id. io) (λ key. io_reads) fine).content
                image_byte
                volume)
              1
              3000;
        fault = none;
      }))
read_at-tabulate_example =
    read_at-tabulate (card_ops sum_of sum_of_size limits (λ id. io) (λ key. io_reads) fine)
      (card_laws sum_of sum_of_size limits (λ id. io) (λ key. io_reads) fine) image_byte os volume
      cards handles 1 3000 volume-IsServable refl (omega arith)
