-- ===== src/Fat32/Backend/Writing.antt =====
-- WriteAt of backend.go changes the bytes of the volume that it is asked to change, or none.
use text.Mathlib.Text.{◌==◌ as str_eq}
use text.Mathlib.TextEquality.{eq_iff}
use text.Mathlib.TextPositions.{eq_refl}
use wii_bridge.Common.{
  along_some, ℕ, ◌+◌, ◌-◌, ◌≤◌, ◌≡◌, refl, sym, ap, ◌∙◌, subst, String, Bool, true, false, Option,
  none, some, leb, ltb, ◌==◌, ◌&&◌, ◌||◌, if◌then◌else◌, arith, Bytes, length, get_or, Bool-cases,
  Option-cases, inl, inr,
}
use wii_bridge.SaveOverlay.Blocks.View.{written}
use wii_bridge.Fat32.{SaveExtent}
use wii_bridge.Fat32.Backend.{
  SaveStoreOps, Backend, WriteDone, WriteFault, stored, not_stored, backend_closed, permission,
  outside_extent, crosses_boundary, store_failed, is_read_only, write_extent, write_at,
}
use wii_bridge.Fat32.Backend.Lookup.{covers, Ordered, covering-covers, covering_same}
use wii_bridge.Fat32.Backend.Tables.{save_at, UniqueCards, find_save_lem, UniqueCards-save_at}
use wii_bridge.Fat32.Backend.Contract.{IsEffect, SaveStoreLaws, volume_byte}

abbrev start_of : SaveExtent → ℕ
start_of e = e.virtual_offset

abbrev length_of : SaveExtent → ℕ
length_of e = e.length

-- The save extents are in order, and no card stands in two of them.
pub record IsLaidOut {S : Type 0} (b : Backend S) : Type 0 where
  pub in_order : Ordered start_of length_of b.saves
  pub unique : UniqueCards b.saves

-- A position of the extent as a position of its card.
written_inside :
    (f : ℕ → ℕ) (e : SaveExtent) (off : ℕ) (buffer : Bytes) (p : ℕ)
    → covers start_of length_of e off ≡ true
    → covers start_of length_of e p ≡ true
    → (leb off p && ltb p (off + length buffer)) ≡ true
    → written f
        (e.card_offset + off - e.virtual_offset)
        buffer
        (e.card_offset + p - e.virtual_offset)
      ≡ get_or buffer (p - off) 0
written_inside f e off buffer p here there inside =
    let shift : e.card_offset + p - e.virtual_offset - (e.card_offset + off - e.virtual_offset)
        ≡ p - off =
      ground arith in
    let test : (leb (e.card_offset + off - e.virtual_offset) (e.card_offset + p - e.virtual_offset)
          && ltb (e.card_offset + p - e.virtual_offset)
              (e.card_offset + off - e.virtual_offset + length buffer))
        ≡ true =
      ground arith in
    rw (test, shift)

written_outside :
    (f : ℕ → ℕ) (e : SaveExtent) (off : ℕ) (buffer : Bytes) (p : ℕ)
    → covers start_of length_of e off ≡ true
    → covers start_of length_of e p ≡ true
    → (leb off p && ltb p (off + length buffer)) ≡ false
    → written f
        (e.card_offset + off - e.virtual_offset)
        buffer
        (e.card_offset + p - e.virtual_offset)
      ≡ f (e.card_offset + p - e.virtual_offset)
written_outside f e off buffer p here there outside =
    let test : (leb (e.card_offset + off - e.virtual_offset) (e.card_offset + p - e.virtual_offset)
          && ltb (e.card_offset + p - e.virtual_offset)
              (e.card_offset + off - e.virtual_offset + length buffer))
        ≡ false =
      ground arith in
    rw test

module _ {S : Type 0} (ops : SaveStoreOps S) (laws : SaveStoreLaws ops)
    (source_byte : String → ℕ → ℕ) where
  -- What `WriteAt` did to the volume.
  abbrev pub IsVolumeOutcome : Backend S → ℕ → Bytes → Backend S → WriteDone → Type 0
  IsVolumeOutcome b off buffer b' (stored n) =
      (n ≡ length buffer)
      × ((p : ℕ)
          → volume_byte laws.content source_byte b' p
            ≡ written (volume_byte laws.content source_byte b) off buffer p)
  IsVolumeOutcome b off buffer b' (not_stored n fault) =
      (n ≡ 0)
      × ((p : ℕ)
          → volume_byte laws.content source_byte b' p ≡ volume_byte laws.content source_byte b p)

  abbrev with_store : Backend S → S → Backend S
  with_store b s = record b { save_store = some s }

  stored_bytes :
      (b : Backend S) (s s' : S) (e : SaveExtent) (off : ℕ) (buffer : Bytes) (p : ℕ)
      → IsLaidOut b
      → save_at b.saves off ≡ some e
      → off + length buffer ≤ e.virtual_offset + e.length
      → ((other : String) (q : ℕ)
          → laws.content s' other q ≡ (
              if str_eq e.save_object_id other
              then written
                  (laws.content s e.save_object_id)
                  (e.card_offset + off - e.virtual_offset)
                  buffer
                  q
              else laws.content s other q))
      → volume_byte laws.content source_byte (with_store b s') p
        ≡ written (volume_byte laws.content source_byte (with_store b s)) off buffer p
  stored_bytes b s s' e off buffer p laid found fits effect =
      let here = covering-covers start_of length_of b.saves off e found in
      elim (Bool-cases (leb off p && ltb p (off + length buffer))) [
        | inl inside ↦
            let covered : covers start_of length_of e p ≡ true = ground arith in
            let found' =
              covering_same start_of length_of b.saves off p e laid.in_order found covered in
            rw (found', inside, volume_byte)
              (effect e.save_object_id (e.card_offset + p - e.virtual_offset)
                ∙ rw (eq_refl e.save_object_id) (
                    written_inside (laws.content s e.save_object_id) e off buffer p here covered
                      inside))
        | inr outside ↦ elim (Option-cases (save_at b.saves p)) [
          | inl gap ↦ rw (gap, outside, volume_byte)
          | inr (d, found') ↦
              let there = covering-covers start_of length_of b.saves p d found' in
              rw (found', outside, volume_byte)
                (effect d.save_object_id (d.card_offset + p - d.virtual_offset)
                  ∙ elim (Bool-cases (str_eq e.save_object_id d.save_object_id)) [
                    | inr differs ↦ rw differs
                    | inl same ↦
                        let one =
                          UniqueCards-save_at b.saves off p e d laid.unique found found'
                            ((eq_iff e.save_object_id d.save_object_id).0 same) in
                        let covered =
                          along_some (λ t. covers start_of length_of t p ≡ true) d e (sym one)
                            there in
                        rw same (
                          along_some
                            (λ t.
                              written (laws.content s e.save_object_id)
                                (e.card_offset + off - e.virtual_offset) buffer
                                (t.card_offset + p - t.virtual_offset)
                              ≡ laws.content s t.save_object_id
                                  (t.card_offset + p - t.virtual_offset))
                            e d one
                            (written_outside (laws.content s e.save_object_id) e off buffer p here
                              covered outside))
                  ])
        ]
      ]

  abbrev pub IsGoodStore : Option S → Type 0
  IsGoodStore none = Unit
  IsGoodStore (some s) = laws.IsGood s

  abbrev WriteEnds : Backend S → ℕ → Bytes → Option (Backend S × WriteDone) → Type 0
  WriteEnds b off buffer run =
      (b' : Backend S) × (r : WriteDone) × (run ≡ some (b', r))
      × IsLaidOut b'
      × IsGoodStore b'.save_store
      × IsVolumeOutcome b off buffer b' r

  refuse :
      (b : Backend S) (off : ℕ) (buffer : Bytes) (fault : WriteFault)
      → IsLaidOut b
      → IsGoodStore b.save_store
      → WriteEnds b off buffer (some (b, not_stored 0 fault))
  refuse b off buffer fault laid good = (b, not_stored 0 fault, refl, laid, good, (refl, λ p. refl))

  laid_with : (b : Backend S) (s : S) → IsLaidOut b → IsLaidOut (with_store b s)
  laid_with b s laid = record { in_order = laid.in_order; unique = laid.unique }

  same_bytes :
      (b : Backend S) (s s' : S) (p : ℕ)
      → ((id : String) (q : ℕ) → laws.content s' id q ≡ laws.content s id q)
      → volume_byte laws.content source_byte (with_store b s') p
        ≡ volume_byte laws.content source_byte (with_store b s) p
  same_bytes b s s' p same = elim (Option-cases (save_at b.saves p)) [
    | inl gap ↦ rw (gap, volume_byte)
    | inr (d, found) ↦
        rw (found, volume_byte) (same d.save_object_id (d.card_offset + p - d.virtual_offset))
  ]

  after_store :
      (b : Backend S) (s s' : S) (e : SaveExtent) (off : ℕ) (buffer : Bytes) (n : ℕ) (ok : Bool)
      → IsLaidOut b
      → save_at b.saves off ≡ some e
      → off + length buffer ≤ e.virtual_offset + e.length
      → laws.IsGood s'
      → IsEffect laws.content s e.save_object_id
          (e.card_offset + off - e.virtual_offset)
          buffer
          s'
          n
          ok
      → WriteEnds
          (with_store b s)
          off
          buffer
          (some (with_store b s', if ok then stored n else not_stored n store_failed))
  after_store b s s' e off buffer n true laid found fits good (count, effect) = (
    with_store b s',
    stored n,
    refl,
    laid_with b s' laid,
    good,
    (count, λ p. stored_bytes b s s' e off buffer p laid found fits effect),
  )
  after_store b s s' e off buffer n false laid found fits good (count, effect) = (
    with_store b s',
    not_stored n store_failed,
    refl,
    laid_with b s' laid,
    good,
    (count, λ p. same_bytes b s s' p effect),
  )

  write_extent-WriteEnds :
      (b : Backend S) (s : S) (e : SaveExtent) (off : ℕ) (buffer : Bytes)
      → IsLaidOut b
      → laws.IsGood s
      → save_at b.saves off ≡ some e
      → WriteEnds (with_store b s) off buffer (write_extent ops (with_store b s) s e off buffer)
  unfolding write_extent
  write_extent-WriteEnds b s e off buffer laid good found =
      elim (Bool-cases (ltb (e.virtual_offset + e.length) (off + length buffer))) [
        | inl crosses ↦
            rw crosses
              (refuse (with_store b s) off buffer crosses_boundary (laid_with b s laid) good)
        | inr fits ↦
            let (s', n, ok, run, good', sizes, effect) =
              laws.write_law s e.save_object_id (e.card_offset + off - e.virtual_offset) buffer
                good in
            simp (fits, run)
              (after_store b s s' e off buffer n ok laid found (ground arith) good' effect)
      ]

  -- A write to a volume whose save extents are in order and on different cards ends, over any save
  -- store that keeps its laws: it puts its bytes at its position and changes no other byte of the
  -- volume, or it gives an error and changes none.
  pub write_at_lem :
      (b : Backend S) (off : ℕ) (buffer : Bytes)
      → IsLaidOut b
      → IsGoodStore b.save_store
      → (b' : Backend S) × (r : WriteDone) × (write_at ops b off buffer ≡ some (b', r))
        × IsLaidOut b'
        × IsGoodStore b'.save_store
        × IsVolumeOutcome b off buffer b' r
  unfolding write_at
  write_at_lem b off buffer laid good =
      let found_save = find_save_lem b.saves off laid.in_order in
      elim (Bool-cases b.is_closed) [
        | inl closed ↦ simp closed (refuse b off buffer backend_closed laid good)
        | inr opened ↦ elim (Bool-cases (is_read_only b)) [
          | inl fixed ↦ simp (opened, fixed) (refuse b off buffer permission laid good)
          | inr writable ↦
              elim (Bool-cases (length buffer == 0 || ltb b.size (off + length buffer))) [
                | inl outside ↦
                    simp (opened, writable, outside) (refuse b off buffer outside_extent laid good)
                | inr inside ↦ elim (Option-cases (save_at b.saves off)) [
                  | inl gap ↦
                      simp (opened, writable, inside, found_save, gap, write_at)
                        (refuse b off buffer outside_extent laid good)
                  | inr (e, found) ↦ elim (Option-cases b.save_store) [
                    | inl missing ↦
                        simp (opened, writable, inside, found_save, found, missing, write_at)
                          (refuse b off buffer permission laid good)
                    | inr (s, store) ↦
                        let one : with_store b s ≡ b =
                          ap (λ t. record b { save_store = t }) (sym store) in
                        let ends =
                          subst (λ t. WriteEnds t off buffer (write_extent ops t s e off buffer))
                            one
                            (write_extent-WriteEnds b s e off buffer laid
                              (subst IsGoodStore store good) found) in
                        simp (opened, writable, inside, found_save, found, store, write_at) ends
                  ]
                ]
              ]
        ]
      ]
