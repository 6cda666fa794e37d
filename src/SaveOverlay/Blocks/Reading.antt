-- ===== src/SaveOverlay/Blocks/Reading.antt =====
-- Reads of a card (ReadSaveAt of saveoverlay.go) give the bytes of its view.
use wii_bridge.Common.{
  ℕ, zero, suc, ◌+◌, ◌-◌, ◌/◌, ◌%◌, ◌≤◌, ◌<◌, ◌≡◌, refl, ap, ◌∙◌, true, false, ◌&&◌, some, [], ◌∷◌,
  ◌++◌, ltb, ◌==◌, min, arith, Bytes, length, take, drop, get_or, tabulate, tabulate-append,
  cut-eq-tabulate, append-nil, append_assoc, dec_lt, Bool-cases, Option-cases, inl, inr,
}
use wii_bridge.SaveOverlay.{Dirty, block_of, Io}
use wii_bridge.SaveOverlay.Blocks.{is_clean, span_rounds, read_rounds, read_card}
use wii_bridge.SaveOverlay.Blocks.View.{view, IsSound, length-block_of, file_read_at_lem}

-- The bytes of a clean block are those of the file.
abbrev CleanUpTo : Dirty → ℕ → ℕ → Type 0
CleanUpTo dirty position len =
    (q : ℕ) → position ≤ q → q < position + len → is_clean dirty (q / 512) ≡ true

span_rounds_lem :
    (dirty : Dirty) (position remaining rounds len : ℕ)
    → len ≤ remaining
    → remaining - len < rounds
    → (len < remaining → (position + len) % 512 ≡ 0)
    → CleanUpTo dirty position len
    → (m : ℕ) × (span_rounds dirty position remaining rounds len ≡ some m)
      × (len ≤ m)
      × (m ≤ remaining)
      × CleanUpTo dirty position m
unfolding span_rounds
span_rounds_lem dirty position remaining zero len b h a c = elim h [ ]
span_rounds_lem dirty position remaining (suc rounds) len b h a c =
    elim (Bool-cases (ltb len remaining && is_clean dirty ((position + len) / 512))) [
      | inr stop ↦ (len, rw stop, omega arith, b, c)
      | inl go ↦
          let more = min (remaining - len) 512 in
          let lt : len < remaining = ground arith in
          let clean : is_clean dirty ((position + len) / 512) ≡ true = ground arith in
          let aligned = a lt in
          let (m, run, lo, hi, all) =
            span_rounds_lem dirty position remaining rounds (len + more) (omega arith) (omega arith)
              (λ lt'. omega arith)
              λ q ge lt'. elim (dec_lt q (position + len)) [
                | yes old ↦ c q ge old
                | no new ↦
                    let same : q / 512 ≡ (position + len) / 512 = omega arith in
                    ap (is_clean dirty) same ∙ clean
              ] in
          (m, rw go run, omega arith, hi, all)
    ]

clean-view :
    (file : Bytes) (dirty : Dirty) (p : ℕ)
    → is_clean dirty (p / 512) ≡ true
    → view file dirty p ≡ get_or file p 0
clean-view file dirty p h = ground arith

clean_cut :
    (file : Bytes) (dirty : Dirty) (position m : ℕ)
    → CleanUpTo dirty position m
    → position + m ≤ length file
    → take m (drop position file) ≡ tabulate (view file dirty) position m
clean_cut file dirty position m clean b =
    cut-eq-tabulate file position m (view file dirty) position b λ i lt.
      clean-view file dirty (position + i) (clean (position + i) (omega arith) (omega arith))

dirty_cut :
    (file : Bytes) (dirty : Dirty) (position n : ℕ) (b : Bytes)
    → block_of dirty (position / 512) ≡ some b
    → length b ≡ 512
    → position % 512 + n ≤ 512
    → take n (drop (position % 512) b) ≡ tabulate (view file dirty) position n
dirty_cut file dirty position n b found size fits =
    cut-eq-tabulate b (position % 512) n (view file dirty) position (omega (arith, size)) λ i lt.
      let index : (position + i) / 512 ≡ position / 512 = omega arith in
      let place : (position + i) % 512 ≡ position % 512 + i = omega arith in
      rw (index, found, view) (ap (λ t. get_or b t 0) place)

-- A piece of a table in front of the rest.
pub join_pieces :
    (f : ℕ → ℕ) (position m n : ℕ) (done : Bytes)
    → m ≤ n
    → (done ++ tabulate f position m) ++ tabulate f (position + m) (n - m)
      ≡ done ++ tabulate f position n
join_pieces f position m n done h =
    let sum : m + (n - m) ≡ n = omega arith in
    append_assoc done (tabulate f position m) (tabulate f (position + m) (n - m))
    ∙ ap (λ t. done ++ t) (tabulate-append f position m (n - m) ∙ ap (tabulate f position) sum)

read_rounds_lem :
    (io : Io) (file : Bytes) (dirty : Dirty) (rounds position wanted : ℕ) (done : Bytes)
    → IsSound io file dirty
    → wanted < rounds
    → position + wanted ≤ length file
    → read_rounds io file dirty rounds position wanted done
      ≡ some (done ++ tabulate (view file dirty) position wanted, false)
unfolding read_rounds
read_rounds_lem io file dirty zero position wanted done ok h b = elim h [ ]
read_rounds_lem io file dirty (suc rounds) position zero done ok h b = rw append-nil
read_rounds_lem io file dirty (suc rounds) position (suc k) done ok h b =
    let f = view file dirty in
    let n = min (suc k) (512 - position % 512) in
    let some_left : (suc k == 0) ≡ false = ground arith in
    elim (Option-cases (block_of dirty (position / 512))) [
      | inr (block, found) ↦
          let size =
            length-block_of (length file) dirty (position / 512) block ok.whole_blocks found in
          let piece = dirty_cut file dirty position n block found size (omega arith) in
          let rest =
            read_rounds_lem io file dirty rounds (position + n) (suc k - n)
              (done ++ tabulate f position n) ok (omega arith) (omega arith) in
          rw (some_left, found, piece, read_rounds)
            (rest ∙ ap (λ t. some (t, false)) (join_pieces f position n (suc k) done (omega arith)))
      | inl clean ↦
          let here : is_clean dirty (position / 512) ≡ true = rw (clean, is_clean) in
          let (m, span, lo, hi, all) =
            span_rounds_lem dirty position (suc k) (suc k + 1) n (omega arith) (omega arith)
              (λ lt. omega arith)
              λ q ge lt.
                let same : q / 512 ≡ position / 512 = omega arith in
                ap (is_clean dirty) same ∙ here in
          let read = file_read_at_lem io file position m (ok.reads position m) (omega arith) in
          let piece = clean_cut file dirty position m all (omega arith) in
          let rest =
            read_rounds_lem io file dirty rounds (position + m) (suc k - m)
              (done ++ tabulate f position m) ok (omega arith) (omega arith) in
          rw (some_left, clean, span, read, piece, read_rounds)
            (rest ∙ ap (λ t. some (t, false)) (join_pieces f position m (suc k) done (omega arith)))
    ]

-- A read inside a card of whole blocks, whose file can be read, ends without an error and gives
-- byte for byte those of the changed blocks and, elsewhere, those of the file.
pub read_card_lem :
    (io : Io) (file : Bytes) (dirty : Dirty) (off n : ℕ)
    → IsSound io file dirty
    → off + n ≤ length file
    → read_card io file dirty off n ≡ some (tabulate (view file dirty) off n, false)
unfolding read_card
read_card_lem io file [] off n ok h =
    rw (file_read_at_lem io file off n (ok.reads off n) h)
      (ap (λ t. some (t, false)) (clean_cut file [] off n (λ q ge lt. refl) h))
read_card_lem io file (b ∷ dirty) off n ok h =
    read_rounds_lem io file (b ∷ dirty) (n + 1) off n [] ok (omega arith) h
