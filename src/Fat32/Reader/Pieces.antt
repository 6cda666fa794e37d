-- ===== src/Fat32/Reader/Pieces.antt =====
-- The pieces of a read (ReadAt of backend.go), each from one place, have the bytes of the volume.
use wii_bridge.Common.{
  ℕ, ◌+◌, ◌-◌, ◌≤◌, ◌<◌, ◌≡◌, refl, sym, ap, ◌∙◌, String, true, none, some, arith, min, length,
  take, drop, replicate, get_or, tabulate, tabulate_shift, cut-eq-tabulate, replicate-eq-tabulate,
}
use wii_bridge.Fat32.{Extent, MetadataExtent, SaveExtent}
use wii_bridge.Fat32.Backend.{SaveStoreOps, Backend}
use wii_bridge.Fat32.Backend.Lookup.{covering-covers, covering_same}
use wii_bridge.Fat32.Backend.Tables.{save_at, metadata_at, source_at}
use wii_bridge.Fat32.Backend.Contract.{SaveStoreLaws, volume_byte, fixed_byte, card_byte}
use wii_bridge.Fat32.Handles.{Os, Handles, verify_identity, open_path}
use wii_bridge.Fat32.Handles.Bounded.{open_path-opens}
use wii_bridge.Fat32.Reader.{
  expected_identity, read_opened, read_source, next_start, gap_length, read_card_piece,
}
use wii_bridge.Fat32.Reader.Gaps.{covering-Each, next_start-gap}
use wii_bridge.Fat32.Reader.Servable.{file_size, IsServable, IsPiece, read_full_at_lem}

module _ {S : Type 0} (ops : SaveStoreOps S) (laws : SaveStoreLaws ops)
    (source_byte : String → ℕ → ℕ) (os : Os) where
  volume-save :
      (b : Backend S) (s : S) (q : ℕ) (e : SaveExtent)
      → b.save_store ≡ some s
      → save_at b.saves q ≡ some e
      → volume_byte laws.content source_byte b q
        ≡ laws.content s e.save_object_id (e.card_offset + q - e.virtual_offset)
  volume-save b s q e store found =
      rw (found, volume_byte)
        (ap
          (λ t.
            card_byte laws.content source_byte t e.save_object_id
              (e.card_offset + q - e.virtual_offset))
          store)

  pub card-IsPiece :
      (b : Backend S) (s : S) (h : Handles) (position wanted : ℕ) (e : SaveExtent)
      → IsServable ops laws source_byte os b s
      → 0 < wanted
      → save_at b.saves position ≡ some e
      → IsPiece ops laws source_byte os b position wanted
          (read_card_piece ops b h e position (min wanted (e.virtual_offset + e.length - position)))
  unfolding read_card_piece
  card-IsPiece b s h position wanted e ok some_bytes found =
      let n = min wanted (e.virtual_offset + e.length - position) in
      let at = e.card_offset + position - e.virtual_offset in
      let here = covering-covers (λ t. t.virtual_offset) (λ t. t.length) b.saves position e found in
      let fits =
        covering-Each (λ t. t.virtual_offset) (λ t. t.length)
          (λ t. t.card_offset + t.length ≤ laws.card_size s t.save_object_id) b.saves position e
          ok.cards_fit found in
      let read = laws.read_law s e.save_object_id at n ok.good (ground arith) (ground arith) in
      let same =
        tabulate_shift (laws.content s e.save_object_id) (volume_byte laws.content source_byte b) at
          position n
          λ i lt.
            let there =
              covering_same (λ t. t.virtual_offset) (λ t. t.length) b.saves position (position + i)
                e ok.saves_ordered found (ground arith) in
            let place : at + i ≡ e.card_offset + (position + i) - e.virtual_offset = ground arith in
            ap (laws.content s e.save_object_id) place
            ∙ sym (volume-save b s (position + i) e ok.store_is there) in
      (h, n, ground arith, omega arith, simp (ok.store_is, read, same, read_card_piece) refl)

  volume-metadata :
      (b : Backend S) (q : ℕ) (e : MetadataExtent)
      → save_at b.saves q ≡ none
      → metadata_at b.meta q ≡ some e
      → volume_byte laws.content source_byte b q
        ≡ get_or b.metadata (e.storage_offset + q - e.virtual_offset) 0
  volume-metadata b q e apart found = rw (apart, found, volume_byte, fixed_byte)

  volume-source :
      (b : Backend S) (q : ℕ) (e : Extent)
      → save_at b.saves q ≡ none
      → metadata_at b.meta q ≡ none
      → source_at b.extents q ≡ some e
      → volume_byte laws.content source_byte b q
        ≡ source_byte e.source_path (e.source_offset + q - e.virtual_offset)
  volume-source b q e apart apart' found = rw (apart, apart', found, volume_byte, fixed_byte)

  volume_gap :
      (b : Backend S) (q : ℕ)
      → save_at b.saves q ≡ none
      → metadata_at b.meta q ≡ none
      → source_at b.extents q ≡ none
      → volume_byte laws.content source_byte b q ≡ 0
  volume_gap b q apart apart' apart'' = rw (apart, apart', apart'', volume_byte, fixed_byte)

  pub metadata_bytes :
      (b : Backend S) (s : S) (position wanted : ℕ) (e : MetadataExtent)
      → IsServable ops laws source_byte os b s
      → metadata_at b.meta position ≡ some e
      → take
          (min wanted (e.virtual_offset + e.length - position))
          (drop (e.storage_offset + position - e.virtual_offset) b.metadata)
        ≡ tabulate
            (volume_byte laws.content source_byte b)
            position
            (min wanted (e.virtual_offset + e.length - position))
  metadata_bytes b s position wanted e ok found =
      let n = min wanted (e.virtual_offset + e.length - position) in
      let at = e.storage_offset + position - e.virtual_offset in
      let here = covering-covers (λ t. t.virtual_offset) (λ t. t.length) b.meta position e found in
      let fits =
        covering-Each (λ t. t.virtual_offset) (λ t. t.length)
          (λ t. t.storage_offset + t.length ≤ length b.metadata) b.meta position e ok.stored
          found in
      cut-eq-tabulate b.metadata at n (volume_byte laws.content source_byte b) position
        (ground arith)
        λ i lt.
          let there =
            covering_same (λ t. t.virtual_offset) (λ t. t.length) b.meta position (position + i) e
              ok.meta_ordered found (ground arith) in
          let place : e.storage_offset + (position + i) - e.virtual_offset ≡ at + i =
            ground arith in
          volume-metadata b (position + i) e (ok.meta_apart (position + i) e there) there
          ∙ ap (λ k. get_or b.metadata k 0) place

  pub source-IsPiece :
      (b : Backend S) (s : S) (h : Handles) (position wanted : ℕ) (e : Extent)
      → IsServable ops laws source_byte os b s
      → 0 < wanted
      → source_at b.extents position ≡ some e
      → IsPiece ops laws source_byte os b position wanted (
          read_source os h
            (expected_identity b e)
            e.source_path
            (e.source_offset + position - e.virtual_offset)
            (min wanted (e.virtual_offset + e.length - position)))
  unfolding read_source read_opened
  source-IsPiece b s h position wanted e ok some_bytes found =
      let n = min wanted (e.virtual_offset + e.length - position) in
      let at = e.source_offset + position - e.virtual_offset in
      let here =
        covering-covers (λ t. t.virtual_offset) (λ t. t.length) b.extents position e found in
      let verified =
        covering-Each (λ t. t.virtual_offset) (λ t. t.length)
          (λ t. verify_identity os t.source_path (expected_identity b t) ≡ true) b.extents position
          e ok.verified found in
      let can_open =
        covering-Each (λ t. t.virtual_offset) (λ t. t.length) (λ t. os.opens t.source_path ≡ true)
          b.extents position e ok.opens found in
      let opened = open_path-opens os h e.source_path can_open ok.closes in
      let inside =
        covering-Each (λ t. t.virtual_offset) (λ t. t.length)
          (λ t. t.source_offset + t.length ≤ file_size os t.source_path) b.extents position e
          ok.sources_inside found in
      let read =
        read_full_at_lem ops laws source_byte os b s e.source_path at n ok (ground arith) in
      let same =
        tabulate_shift (source_byte e.source_path) (volume_byte laws.content source_byte b) at
          position n
          λ i lt.
            let there =
              covering_same (λ t. t.virtual_offset) (λ t. t.length) b.extents position
                (position + i) e ok.sources_ordered found (ground arith) in
            let (apart, apart') = ok.source_apart (position + i) e there in
            let place : at + i ≡ e.source_offset + (position + i) - e.virtual_offset =
              ground arith in
            ap (source_byte e.source_path) place
            ∙ sym (volume-source b (position + i) e apart apart' there) in
      let h1 = (open_path os h e.source_path).0 in
      (
        record h1 { stats = record h1.stats { source_reads = h1.stats.source_reads + 1 } },
        n,
        ground arith,
        omega arith,
        simp (verified, opened, read, same, read_source, read_opened) refl,
      )

  pub gap_bytes :
      (b : Backend S) (s : S) (position wanted : ℕ)
      → IsServable ops laws source_byte os b s
      → 0 < wanted
      → save_at b.saves position ≡ none
      → metadata_at b.meta position ≡ none
      → source_at b.extents position ≡ none
      → (0 < gap_length b position wanted)
        × (gap_length b position wanted ≤ wanted)
        × (replicate (gap_length b position wanted) 0
            ≡ tabulate
                (volume_byte laws.content source_byte b)
                position
                (gap_length b position wanted))
  gap_bytes b s position wanted ok some_bytes apart apart' apart'' =
      let (lo1, hi1, free1) =
        next_start-gap (λ e. e.virtual_offset) (λ e. e.length) b.meta position (position + wanted)
          ok.meta_ordered apart' (omega arith) in
      let limit1 = next_start (λ e. e.virtual_offset) b.meta position (position + wanted) in
      let (lo2, hi2, free2) =
        next_start-gap (λ e. e.virtual_offset) (λ e. e.length) b.extents position limit1
          ok.sources_ordered apart'' lo1 in
      let limit2 = next_start (λ e. e.virtual_offset) b.extents position limit1 in
      let (lo3, hi3, free3) =
        next_start-gap (λ e. e.virtual_offset) (λ e. e.length) b.saves position limit2
          ok.saves_ordered apart lo2 in
      let next = next_start (λ e. e.virtual_offset) b.saves position limit2 in
      let count : gap_length b position wanted ≡ next - position =
        unfold gap_length in omega (arith, lo3) in
      (
        omega (arith, count, lo3),
        omega (arith, count, hi3, hi2, hi1),
        replicate-eq-tabulate (volume_byte laws.content source_byte b) position
            (gap_length b position wanted)
            λ q lo below.
              volume_gap b q (free3 q lo (omega (arith, count))) (free1 q lo (omega (arith, count)))
                (free2 q lo (omega (arith, count))),
      )
