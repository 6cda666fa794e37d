-- ===== src/SaveOverlay/Blocks/View.antt =====
-- The bytes of a card as the console sees them, and what the block loops do to them.
use wii_bridge.Common.{
  ℕ, zero, suc, ◌+◌, ◌-◌, ◌*◌, ◌/◌, ◌%◌, ◌≤◌, ◌<◌, ◌≡◌, refl, sym, ap, ◌∙◌, false, ◌&&◌, none, some,
  [], ◌∷◌, ltb, leb, ◌==◌, min, if◌then◌else◌, arith, Bytes, length, take, drop, get_or, splice,
  length-splice, get_or-splice, get_or-take, get_or-drop, length-take, length-drop, Bool-cases,
  Option-cases, ==_iff, inl, inr,
}
use wii_bridge.SaveOverlay.{Dirty, block_of, set_block, Io, file_read_at}
use wii_bridge.SaveOverlay.Blocks.{base_block, apply_rounds, apply_write}

-- The byte at a position: of the changed block that holds it, or of the file.
abbrev pub view : Bytes → Dirty → ℕ → ℕ
view file dirty p = elim (block_of dirty (p / 512)) [
  | some b ↦ get_or b (p % 512) 0
  | none ↦ get_or file p 0
]

-- Every changed block is a whole block of a card of that size.
abbrev pub AllWhole : ℕ → Dirty → Type 0
AllWhole size [] = Unit
AllWhole size ((j, b) ∷ d) = ((length b ≡ 512) × (j * 512 < size)) × AllWhole size d

-- A file of whole blocks, and no failing reads.
pub record IsSound (io : Io) (file : Bytes) (dirty : Dirty) : Type 0 where
  pub reads : (off n : ℕ) → io.read_fails off n ≡ none
  pub whole_file : length file % 512 ≡ 0
  pub whole_blocks : AllWhole (length file) dirty

block_of-set_block :
    (d : Dirty) (i : ℕ) (b : Bytes) (j : ℕ)
    → block_of (set_block d i b) j ≡ (if i == j then some b else block_of d j)
block_of-set_block [] i b j = refl
block_of-set_block ((k, c) ∷ d) i b j = ground (arith, block_of-set_block d i b j)

set_block-AllWhole :
    (size : ℕ) (d : Dirty) (i : ℕ) (b : Bytes)
    → AllWhole size d
    → length b ≡ 512
    → i * 512 < size
    → AllWhole size (set_block d i b)
set_block-AllWhole size [] i b w h lt = ((h, lt), tt)
set_block-AllWhole size ((k, c) ∷ d) i b (w, ws) h lt = elim (Bool-cases (k == i)) [
  | inl here ↦ rw here ((h, lt), ws)
  | inr there ↦ rw there (w, set_block-AllWhole size d i b ws h lt)
]

pub length-block_of :
    (size : ℕ) (d : Dirty) (i : ℕ) (b : Bytes)
    → AllWhole size d
    → block_of d i ≡ some b
    → length b ≡ 512
length-block_of size [] i b w h = absurd (cc h)
length-block_of size ((k, c) ∷ d) i b (w, ws) h = elim (Bool-cases (k == i)) [
  | inl here ↦ ground arith
  | inr there ↦ length-block_of size d i b ws (ground arith)
]

-- A read that does not fail.
pub file_read_at_lem :
    (io : Io) (file : Bytes) (off n : ℕ)
    → io.read_fails off n ≡ none
    → off + n ≤ length file
    → file_read_at io file off n ≡ (take n (drop off file), false)
unfolding file_read_at
file_read_at_lem io file off n ok h = rw (ok, file_read_at) (ground arith)

-- The block to change has the bytes of the view.
base_block_lem :
    (io : Io) (file : Bytes) (dirty : Dirty) (i : ℕ)
    → IsSound io file dirty
    → i * 512 < length file
    → (b : Bytes) × (base_block io file dirty i ≡ (b, false))
      × (length b ≡ 512)
      × ((k : ℕ) → k < 512 → get_or b k 0 ≡ view file dirty (i * 512 + k))
unfolding base_block
base_block_lem io file dirty i ok h = elim (Option-cases (block_of dirty i)) [
  | inr (b, found) ↦ (
    b,
    rw (found, base_block),
    length-block_of (length file) dirty i b ok.whole_blocks found,
    λ k lt.
        let index : (i * 512 + k) / 512 ≡ i = omega arith in
        let place : (i * 512 + k) % 512 ≡ k = omega arith in
        rw (index, found, view) (ap (λ t. get_or b t 0) (sym place)),
  )
  | inl clean ↦
      let inside : i * 512 + 512 ≤ length file = omega (arith, ok.whole_file) in
      let read = file_read_at_lem io file (i * 512) 512 (ok.reads (i * 512) 512) inside in
      (
        take 512 (drop (i * 512) file),
        rw (clean, base_block) read,
        omega (arith, length-take 512 (drop (i * 512) file), length-drop (i * 512) file),
        λ k lt.
            let index : (i * 512 + k) / 512 ≡ i = omega arith in
            rw (index, clean, view)
              (get_or-take 512 (drop (i * 512) file) k 0 lt ∙ get_or-drop (i * 512) file k 0),
      )
]

-- The view with the bytes of a write.
abbrev pub written : (ℕ → ℕ) → ℕ → Bytes → ℕ → ℕ
written f off buffer p =
    if leb off p && ltb p (off + length buffer) then get_or buffer (p - off) 0 else f p

-- One round of the copy.
view-set_block :
    (file : Bytes) (dirty : Dirty) (position : ℕ) (base src : Bytes) (p : ℕ)
    → length base ≡ 512
    → ((k : ℕ) → k < 512 → get_or base k 0 ≡ view file dirty (position / 512 * 512 + k))
    → position % 512 + length src ≤ 512
    → view file (set_block dirty (position / 512) (splice base (position % 512) src)) p
      ≡ written (view file dirty) position src p
view-set_block file dirty position base src p size bytes fits =
    elim (Bool-cases (position / 512 == p / 512)) [
      | inr other ↦
          let found =
            block_of-set_block dirty (position / 512) (splice base (position % 512) src)
              (p / 512) in
          let outside : (leb position p && ltb p (position + length src)) ≡ false = ground arith in
          rw (found, other, outside, view)
      | inl same ↦
          let found =
            block_of-set_block dirty (position / 512) (splice base (position % 512) src)
              (p / 512) in
          let byte = get_or-splice base (position % 512) src (p % 512) (omega (arith, size)) in
          let index : position / 512 ≡ p / 512 = (==_iff (position / 512) (p / 512)).0 same in
          let place : position / 512 * 512 + p % 512 ≡ p = omega arith in
          let old : get_or base (p % 512) 0 ≡ view file dirty p =
            bytes (p % 512) (omega arith) ∙ ap (view file dirty) place in
          let test : (leb (position % 512) (p % 512) && ltb (p % 512) (position % 512 + length src))
              ≡ (leb position p && ltb p (position + length src)) =
            ground arith in
          let shift : p % 512 - position % 512 ≡ p - position = ground arith in
          rw (found, same, view) (byte ∙ rw (test, old, shift))
    ]

written-append :
    (f : ℕ → ℕ) (off n : ℕ) (buffer : Bytes) (p : ℕ)
    → n ≤ length buffer
    → written (written f off (take n buffer)) (off + n) (drop n buffer) p ≡ written f off buffer p
written-append f off n buffer p h = ground (
  arith,
  length-take n buffer,
  length-drop n buffer,
  get_or-take n buffer (p - off) 0,
  get_or-drop n buffer (p - (off + n)) 0,
)

length-set_block : (d : Dirty) (i : ℕ) (b : Bytes) → 0 < length (set_block d i b)
length-set_block [] i b = omega arith
length-set_block ((k, c) ∷ d) i b = ground arith

-- The copy ends, changes exactly the bytes of the write, and keeps whole blocks.
apply_rounds_lem :
    (io : Io) (file : Bytes) (rounds position : ℕ) (buffer : Bytes) (dirty : Dirty)
    → IsSound io file dirty
    → length buffer < rounds
    → position + length buffer ≤ length file
    → (dirty' : Dirty) × (apply_rounds io file rounds position buffer dirty
        ≡ some (record { dirty = dirty'; left = 0; failed = false }))
      × AllWhole (length file) dirty'
      × ((p : ℕ) → view file dirty' p ≡ written (view file dirty) position buffer p)
      × (min 1 (length buffer + length dirty) ≤ length dirty')
unfolding apply_rounds
apply_rounds_lem io file zero position buffer dirty ok h b = elim h [ ]
apply_rounds_lem io file (suc rounds) position [] dirty ok h b =
    (dirty, refl, ok.whole_blocks, λ p. ground arith, omega arith)
apply_rounds_lem io file (suc rounds) position (x ∷ xs) dirty ok h b =
    let buffer = x ∷ xs in
    let index = position / 512 in
    let in_block = position % 512 in
    let n = min (length buffer) (512 - in_block) in
    let (base, found, size, bytes) = base_block_lem io file dirty index ok (omega arith) in
    let src = take n buffer in
    let src_size : length src ≡ n = omega (arith, length-take n buffer) in
    let block = splice base in_block src in
    let block_size : length block ≡ 512 =
      omega (arith, size, length-splice base in_block src (omega (arith, size, src_size))) in
    let next = set_block dirty index block in
    let next_sound : IsSound io file next = record {
      reads = ok.reads;
      whole_file = ok.whole_file;
      whole_blocks =
          set_block-AllWhole (length file) dirty index block ok.whole_blocks block_size
            (omega arith);
    } in
    let step = view-set_block file dirty position base src in
    let (dirty', run, whole, sees, more) =
      apply_rounds_lem io file rounds (position + n) (drop n buffer) next next_sound
        (omega (arith, length-drop n buffer)) (omega (arith, length-drop n buffer)) in
    let some_left : (length buffer == 0) ≡ false = ground arith in
    (
      dirty',
      rw (some_left, found, run),
      whole,
      λ p.
          sees p
          ∙ ap
              (λ v.
                if leb (position + n) p && ltb p (position + n + length (drop n buffer))
                then get_or (drop n buffer) (p - (position + n)) 0
                else v)
              (step p size bytes (omega (arith, src_size)))
          ∙ written-append (view file dirty) position n buffer p (omega arith),
      omega (arith, more, length-set_block dirty index block),
    )

pub apply_write_lem :
    (io : Io) (file : Bytes) (off : ℕ) (buffer : Bytes) (dirty : Dirty)
    → IsSound io file dirty
    → off + length buffer ≤ length file
    → (dirty' : Dirty) × (apply_write io file off buffer dirty
        ≡ some (record { dirty = dirty'; left = 0; failed = false }))
      × AllWhole (length file) dirty'
      × ((p : ℕ) → view file dirty' p ≡ written (view file dirty) off buffer p)
      × (min 1 (length buffer + length dirty) ≤ length dirty')
unfolding apply_write
apply_write_lem io file off buffer dirty ok h =
    apply_rounds_lem io file (length buffer + 1) off buffer dirty ok (omega arith) h
