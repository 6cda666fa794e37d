-- ===== src/SaveOverlay/Fixtures.antt =====
-- A card of two blocks of zeros, and what its file system allows, for the tests.
use wii_bridge.Common.{ℕ, ◌≡◌, refl, false, none, [], ◌∷◌, arith, Bytes, length, inr, replicate}
use wii_bridge.SaveOverlay.{Io}
use wii_bridge.SaveOverlay.Journal.{Limits}
use wii_bridge.SaveOverlay.Store.{Card, Faults, committed}
use wii_bridge.SaveOverlay.Store.Durable.{IsDurable}

-- A checksum of 32 bytes.
abbrev pub sum_of : Bytes → Bytes
sum_of b = length b ∷ replicate 31 7

pub sum_of_size : (b : Bytes) → length (sum_of b) ≡ 32
sum_of_size b = refl

abbrev pub limits : Limits
limits = record { max_dirty_blocks = 2; max_journal_bytes = 100; max_pending_bytes = 16 }

abbrev pub io : Io
io = record { read_fails = λ off n. none }

pub io_reads : (at n : ℕ) → io.read_fails at n ≡ none
io_reads at n = refl

abbrev pub fine : Faults
fine = record { first_ending = committed; second_ending = committed; append_fails = none }

-- Two blocks of zeros.
abbrev pub card : Card
card = record {
  card_size = 1024;
  file = replicate 1024 0;
  journal = [];
  dirty = [];
  pending_bytes = 0;
  journal_bytes = 0;
  is_blocked = false;
}

pub card-IsDurable : IsDurable sum_of limits card []
card-IsDurable = record {
  journal_is = refl;
  inside = tt;
  size_is = refl;
  is_small = omega arith;
  is_aligned = refl;
  whole_blocks = tt;
  pending = omega arith;
  pending_fits = omega arith;
  recorded = omega arith;
  journal_fits = omega arith;
  has_blocks = inr (refl, refl);
  is_replay = λ p. refl;
}
