-- ===== src/Fat32/Reader/Servable.antt =====
-- The volumes that can be read, and the reads of image files (readFullAt of backend.go).
use wii_bridge.Common.{
  Each, ℕ, zero, suc, ◌+◌, ◌-◌, ◌≤◌, ◌<◌, ◌≡◌, ◌≢◌, Bool, false, ◌++◌, Bytes, append-nil,
  Bool-cases, ==_iff, inl, inr, ap, ◌∙◌, String, true, false, Option, none, some, [], ◌==◌, arith,
  length, tabulate,
}
use wii_bridge.SaveOverlay.Blocks.Reading.{join_pieces}
use wii_bridge.Fat32.{Extent, MetadataExtent}
use wii_bridge.Fat32.Backend.{SaveStoreOps, Backend}
use wii_bridge.Fat32.Backend.Lookup.{Ordered}
use wii_bridge.Fat32.Backend.Tables.{save_at, metadata_at, source_at}
use wii_bridge.Fat32.Backend.Contract.{SaveStoreLaws, volume_byte}
use wii_bridge.Fat32.Handles.{Os, Handles, verify_identity}
use wii_bridge.Fat32.Reader.{Read, read_full_rounds, read_full_at, expected_identity}

-- The size of a file, which os.Lstat says.
abbrev pub file_size : Os → String → ℕ
file_size os path = elim (os.lstat path) [ none ↦ 0 | some info ↦ info.size ]

-- What File.ReadAt gives of a part of a file: at least one of its bytes, and an error only where
-- it gives them all.
abbrev pub IsReadPart : (ℕ → ℕ) → ℕ → ℕ → Bytes × Bool → Type 0
IsReadPart f off n (got, bad) =
    (got ≡ tabulate f off (length got))
    × (0 < length got)
    × (length got ≤ n)
    × (length got ≢ n → bad ≡ false)

module _ {S : Type 0} (ops : SaveStoreOps S) (laws : SaveStoreLaws ops)
    (source_byte : String → ℕ → ℕ) (os : Os) where
  -- A volume whose tables are in order and apart from each other, whose cards, metadata and image
  -- files are as long as its extents say, and whose image files are as they were and can be read.
  pub record IsServable (b : Backend S) (s : S) : Type 0 where
    pub store_is : b.save_store ≡ some s
    pub good : laws.IsGood s
    pub saves_ordered : Ordered (λ e. e.virtual_offset) (λ e. e.length) b.saves
    pub meta_ordered : Ordered (λ e. e.virtual_offset) (λ e. e.length) b.meta
    pub sources_ordered : Ordered (λ e. e.virtual_offset) (λ e. e.length) b.extents
    pub cards_fit : Each (λ e. e.card_offset + e.length ≤ laws.card_size s e.save_object_id) b.saves
    pub stored : Each (λ e. e.storage_offset + e.length ≤ length b.metadata) b.meta
    pub verified :
        Each (λ e. verify_identity os e.source_path (expected_identity b e) ≡ true) b.extents
    pub meta_apart :
        (q : ℕ) (e : MetadataExtent) → metadata_at b.meta q ≡ some e → save_at b.saves q ≡ none
    pub source_apart :
        (q : ℕ) (e : Extent)
        → source_at b.extents q ≡ some e
        → (save_at b.saves q ≡ none) × (metadata_at b.meta q ≡ none)
    pub opens : Each (λ e. os.opens e.source_path ≡ true) b.extents
    pub closes : (path : String) → os.closes path ≡ true
    pub sources_inside :
        Each (λ e. e.source_offset + e.length ≤ file_size os e.source_path) b.extents
    pub reads :
        (path : String) (off n : ℕ)
        → 0 < n
        → off + n ≤ file_size os path
        → IsReadPart (source_byte path) off n (os.file_read_at path off n)

  -- A piece of a read that worked.
  abbrev pub IsPiece : Backend S → ℕ → ℕ → Option Read → Type 0
  IsPiece b position wanted run =
      (h : Handles) × (n : ℕ) × (0 < n)
      × (n ≤ wanted)
      × (run
          ≡ some (record {
            handles = h;
            bytes = tabulate (volume_byte laws.content source_byte b) position n;
            fault = none;
          }))

  -- `readFullAt` gives all the bytes, whatever sizes the single reads have.
  read_full_rounds_lem :
      (b : Backend S) (s : S) (path : String) (rounds off wanted : ℕ) (done : Bytes)
      → IsServable b s
      → wanted < rounds
      → off + wanted ≤ file_size os path
      → read_full_rounds os path rounds off wanted done
        ≡ some (done ++ tabulate (source_byte path) off wanted, false)
  unfolding read_full_rounds
  read_full_rounds_lem b s path zero off wanted done ok h inside = elim h [ ]
  read_full_rounds_lem b s path (suc rounds) off zero done ok h inside = rw append-nil
  read_full_rounds_lem b s path (suc rounds) off (suc n) done ok h inside =
      let f = source_byte path in
      let some_left : (suc n == 0) ≡ false = ground arith in
      let got = (os.file_read_at path off (suc n)).0 in
      let (exact, some_byte, at_most, no_failure) =
        ok.reads path off (suc n) (omega arith) inside in
      elim (Bool-cases (length got == suc n)) [
        | inl whole ↦
            let size : length got ≡ suc n = (==_iff (length got) (suc n)).0 whole in
            let bytes : got ≡ tabulate f off (suc n) = exact ∙ ap (tabulate f off) size in
            rw (some_left, whole) (ap (λ t. some (done ++ t, false)) bytes)
        | inr short ↦
            let fails : (os.file_read_at path off (suc n)).1 ≡ false = no_failure (ground arith) in
            let progress : (length got == 0) ≡ false = ground arith in
            let rest =
              read_full_rounds_lem b s path rounds (off + length got) (suc n - length got)
                (done ++ got) ok (omega arith) (omega arith) in
            let joined : (done ++ got) ++ tabulate f (off + length got) (suc n - length got)
                ≡ done ++ tabulate f off (suc n) =
              ap (λ g. (done ++ g) ++ tabulate f (off + length got) (suc n - length got)) exact
              ∙ join_pieces f off (length got) (suc n) done at_most in
            rw (some_left, short, fails, progress) (rest ∙ ap (λ t. some (t, false)) joined)
      ]

  pub read_full_at_lem :
      (b : Backend S) (s : S) (path : String) (off n : ℕ)
      → IsServable b s
      → off + n ≤ file_size os path
      → read_full_at os path off n ≡ some (tabulate (source_byte path) off n, false)
  unfolding read_full_at
  read_full_at_lem b s path off n ok inside =
      read_full_rounds_lem b s path (n + 1) off n [] ok (omega arith) inside
