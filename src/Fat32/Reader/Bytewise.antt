-- ===== src/Fat32/Reader/Bytewise.antt =====
-- A read of the volume (ReadAt of backend.go) gives the bytes of the volume, one by one.
use wii_bridge.Common.{
  ℕ, zero, suc, ◌+◌, ◌-◌, ◌≤◌, ◌<◌, ◌≡◌, refl, ap, ◌∙◌, String, false, none, some, [], ◌++◌, ltb,
  ◌==◌, arith, min, Bytes, tabulate, length-tabulate, append-nil, Option-cases, inl, inr,
}
use wii_bridge.SaveOverlay.Blocks.Reading.{join_pieces}
use wii_bridge.Fat32.Backend.{SaveStoreOps, Backend}
use wii_bridge.Fat32.Backend.Lookup.{covering-covers}
use wii_bridge.Fat32.Backend.Tables.{
  save_at, metadata_at, source_at, find_save_lem, find_metadata_lem, find_source_lem,
}
use wii_bridge.Fat32.Backend.Contract.{SaveStoreLaws, volume_byte}
use wii_bridge.Fat32.Handles.{Os, Handles}
use wii_bridge.Fat32.Reader.{gap_length, read_piece, read_rounds, read_at}
use wii_bridge.Fat32.Reader.Servable.{IsServable, IsPiece}
use wii_bridge.Fat32.Reader.Pieces.{card-IsPiece, source-IsPiece, metadata_bytes, gap_bytes}

module _ {S : Type 0} (ops : SaveStoreOps S) (laws : SaveStoreLaws ops)
    (source_byte : String → ℕ → ℕ) (os : Os) where
  piece_lem :
      (b : Backend S) (s : S) (h : Handles) (position wanted : ℕ)
      → IsServable ops laws source_byte os b s
      → 0 < wanted
      → IsPiece ops laws source_byte os b position wanted (read_piece ops os b h position wanted)
  unfolding read_piece
  piece_lem b s h position wanted ok some_bytes =
      let saves = find_save_lem b.saves position ok.saves_ordered in
      let meta = find_metadata_lem b.meta position ok.meta_ordered in
      let sources = find_source_lem b.extents position ok.sources_ordered in
      elim (Option-cases (save_at b.saves position)) [
        | inr (e, found) ↦
            simp (saves, found, read_piece)
              (card-IsPiece ops laws source_byte os b s h position wanted e ok some_bytes found)
        | inl apart ↦ elim (Option-cases (metadata_at b.meta position)) [
          | inr (e, found) ↦
              let here =
                covering-covers (λ t. t.virtual_offset) (λ t. t.length) b.meta position e found in
              let bytes = metadata_bytes ops laws source_byte os b s position wanted e ok found in
              (
                h,
                min wanted (e.virtual_offset + e.length - position),
                ground arith,
                omega arith,
                simp (saves, apart, meta, found, bytes, read_piece) refl,
              )
          | inl apart' ↦ elim (Option-cases (source_at b.extents position)) [
            | inr (e, found) ↦
                simp (saves, apart, meta, apart', sources, found, read_piece)
                  (source-IsPiece ops laws source_byte os b s h position wanted e ok some_bytes
                    found)
            | inl apart'' ↦
                let (lo, hi, zeros) =
                  gap_bytes ops laws source_byte os b s position wanted ok some_bytes apart apart'
                    apart'' in
                (
                  h,
                  gap_length b position wanted,
                  lo,
                  hi,
                  simp (saves, apart, meta, apart', sources, apart'', zeros, read_piece) refl,
                )
          ]
        ]
      ]

  round_step :
      (b : Backend S) (rounds : ℕ) (h h1 : Handles) (position k n : ℕ) (f : ℕ → ℕ) (done : Bytes)
      → read_piece ops os b h position (suc k)
        ≡ some (record { handles = h1; bytes = tabulate f position n; fault = none })
      → read_rounds ops os b (suc rounds) h position (suc k) done
        ≡ read_rounds ops os b rounds h1 (position + n) (suc k - n) (done ++ tabulate f position n)
  unfolding read_rounds
  round_step b rounds h h1 position k n f done piece =
      let some_left : (suc k == 0) ≡ false = ground arith in
      rw (some_left, piece, length-tabulate f position n, read_rounds)

  rounds_lem :
      (b : Backend S) (s : S) (rounds : ℕ) (h : Handles) (position wanted : ℕ) (done : Bytes)
      → IsServable ops laws source_byte os b s
      → wanted < rounds
      → (h' : Handles) × (read_rounds ops os b rounds h position wanted done
          ≡ some (record {
            handles = h';
            bytes = done ++ tabulate (volume_byte laws.content source_byte b) position wanted;
            fault = none;
          }))
  rounds_lem b s zero h position wanted done ok lt = absurd (omega arith)
  rounds_lem b s (suc rounds) h position zero done ok lt = (h, unfold read_rounds in rw append-nil)
  rounds_lem b s (suc rounds) h position (suc k) done ok lt =
      let f = volume_byte laws.content source_byte b in
      let (h1, n, lo, hi, piece) = piece_lem b s h position (suc k) ok (omega arith) in
      let (h2, rest) =
        rounds_lem b s rounds h1 (position + n) (suc k - n) (done ++ tabulate f position n) ok
          (omega arith) in
      (
        h2,
        round_step b rounds h h1 position k n f done piece
            ∙ (rest
                ∙ ap (λ t. some (record { handles = h2; bytes = t; fault = none }))
                    (join_pieces f position n (suc k) done hi)),
      )

  -- A read inside an open volume that can be served ends without an error and gives exactly the
  -- bytes of the volume: of the cards, the metadata, the image files, and zeros in the gaps. The
  -- tables are in order and apart; the extents are inside their cards, the stored metadata and
  -- their files; the files are the ones recorded and can be opened and closed; and a read inside a
  -- file, of any size, gives at least one of its bytes, and fails only where it gives them all.
  pub read_at-tabulate :
      (b : Backend S) (s : S) (h : Handles) (off n : ℕ)
      → IsServable ops laws source_byte os b s
      → b.is_closed ≡ false
      → off + n ≤ b.size
      → (h' : Handles) × (read_at ops os b h off n
          ≡ some (record {
            handles = h';
            bytes = tabulate (volume_byte laws.content source_byte b) off n;
            fault = none;
          }))
  unfolding read_at
  read_at-tabulate b s h off n ok opened inside =
      let fits : ltb b.size (off + n) ≡ false = ground arith in
      let (h', run) = rounds_lem b s (n + 1) h off n [] ok (omega arith) in
      (h', simp (fits, opened) run)
