-- ===== src/Vdisk/Read/Payload.antt =====
-- The reads of source files: readAtFull and readSource of vdisk.go.
use wii_bridge.Common.{
  ℕ, zero, suc, ◌+◌, ◌-◌, ◌≤◌, ◌<◌, ◌≡◌, ◌≢◌, ap, ◌∙◌, false, Option, none, some, [], ◌++◌, arith,
  ◌==◌, Bytes, length, tabulate, tabulate-append, append-nil, append_assoc, Bool-cases, ==_iff, inl,
  inr,
}
use wii_bridge.Vdisk.{Source}
use wii_bridge.Vdisk.Read.{Files, Filled, read_at_rounds, read_at_full, read_source}

-- Files that are there, unchanged and readable: inside a file a read gives at least one of the
-- bytes asked for, and fails only where it gives them all (io.ReaderAt).
pub record IsReadable (files : Files) (contents : Source → ℕ → ℕ) : Type 0 where
  pub unchanged : (s : Source) → files.verify_source s ≡ none
  pub opens : (s : Source) → files.open_file s ≡ none
  pub closes : (s : Source) → files.close_file s ≡ none
  pub reads :
      (s : Source) (off n : ℕ)
      → 0 < n
      → off + n ≤ s.size
      → let (got, failure) = files.file_read_at s off n in
        (got ≡ tabulate (contents s) off (length got))
        × (0 < length got)
        × (length got ≤ n)
        × (length got ≢ n → failure ≡ none)

-- A call that filled the bytes and had no error.
abbrev pub complete : Bytes → Option Filled
complete bytes = some (record { bytes = bytes; failure = none })

module _ (files : Files) (contents : Source → ℕ → ℕ) (ok : IsReadable files contents) where
  read_at_rounds_lem :
      (s : Source) (rounds off wanted : ℕ) (done : Bytes)
      → wanted < rounds
      → off + wanted ≤ s.size
      → read_at_rounds files s rounds off wanted done
        ≡ complete (done ++ tabulate (contents s) off wanted)
  unfolding read_at_rounds
  read_at_rounds_lem s zero off wanted done h b = elim h [ ]
  read_at_rounds_lem s (suc rounds) off zero done h b = rw append-nil
  read_at_rounds_lem s (suc rounds) off (suc n) done h b =
      let some_left : (suc n == 0) ≡ false = ground arith in
      let got = (files.file_read_at s off (suc n)).0 in
      let (exact, some_byte, at_most, no_failure) = ok.reads s off (suc n) (omega arith) b in
      elim (Bool-cases (length got == suc n)) [
        | inl whole ↦
            let size : length got ≡ suc n = (==_iff (length got) (suc n)).0 whole in
            let bytes : got ≡ tabulate (contents s) off (suc n) =
              exact ∙ ap (tabulate (contents s) off) size in
            rw (some_left, whole) (ap (λ t. complete (done ++ t)) bytes)
        | inr short ↦
            let fails : (files.file_read_at s off (suc n)).1 ≡ none = no_failure (ground arith) in
            let progress : (length got == 0) ≡ false = ground arith in
            let rest =
              read_at_rounds_lem s rounds (off + length got) (suc n - length got) (done ++ got)
                (omega arith) (omega arith) in
            let sum : length got + (suc n - length got) ≡ suc n = omega arith in
            let joined : (done ++ got)
                  ++ tabulate (contents s) (off + length got) (suc n - length got)
                ≡ done ++ tabulate (contents s) off (suc n) =
              append_assoc done got (tabulate (contents s) (off + length got) (suc n - length got))
              ∙ ap (λ t. done ++ t)
                  (ap (λ g. g ++ tabulate (contents s) (off + length got) (suc n - length got))
                      exact
                    ∙ tabulate-append (contents s) off (length got) (suc n - length got)
                    ∙ ap (tabulate (contents s) off) sum) in
            rw (some_left, short, fails, progress) (rest ∙ ap complete joined)
      ]

  -- A payload read gives exactly the bytes wanted, without an error, whatever sizes the single
  -- reads of the file have: inside the file, which is unchanged and readable.
  pub read_source_lem :
      (s : Source) (off wanted : ℕ)
      → off + wanted ≤ s.size
      → read_source files s off wanted ≡ complete (tabulate (contents s) off wanted)
  read_source_lem s off wanted b =
      let full : read_at_full files s off wanted ≡ complete (tabulate (contents s) off wanted) =
        unfold read_at_full in read_at_rounds_lem s (wanted + 1) off wanted [] (omega arith) b in
      unfold read_source in rw (ok.unchanged s, ok.opens s, full, ok.closes s, read_source)
