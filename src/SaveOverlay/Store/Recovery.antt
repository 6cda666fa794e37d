-- ===== src/SaveOverlay/Store/Recovery.antt =====
-- Opening a card again after a crash (openObject of saveoverlay.go).
use wii_bridge.Common.{
  ℕ, ◌≤◌, ◌%◌, ◌≡◌, refl, sym, ap, ◌∙◌, subst, true, false, none, some, [], ◌∷◌, ◌==◌,
  if◌then◌else◌, arith, Bytes, length, get_or, Bool-cases, inl, inr,
}
use wii_bridge.SaveOverlay.{Io}
use wii_bridge.SaveOverlay.Blocks.View.{IsSound}
use wii_bridge.SaveOverlay.Journal.{Limits, loaded, load_journal}
use wii_bridge.SaveOverlay.Journal.Replay.{
  Writes, AllInside, total, encode_all, length-encode_all, replay, load_journal_lem,
}
use wii_bridge.SaveOverlay.Store.{
  Card, Faults, Opened, opened, load_failed, flush_failed, fresh_card, open_card, flush_card,
}
use wii_bridge.SaveOverlay.Store.Readable.{sees}
use wii_bridge.SaveOverlay.Store.Durable.{IsDurable, flush_card_lem}

module _ (sha256 : Bytes → Bytes) (sha_size : (b : Bytes) → length (sha256 b) ≡ 32)
    (limits : Limits) (io : Io) where
  -- What recovery may give: an open card with the same bytes; or, when its checkpoint could not be
  -- made, files that still have the same bytes. Loading the journal does not fail.
  abbrev pub IsRecovered : (ℕ → ℕ) → Opened → Type 0
  IsRecovered f (opened c') =
      (c'.is_blocked ≡ false)
      × ((ws : Writes) × IsDurable sha256 limits c' ws)
      × ((p : ℕ) → sees c' p ≡ f p)
  IsRecovered f (flush_failed c') =
      ((ws : Writes) × IsDurable sha256 limits c' ws) × ((p : ℕ) → sees c' p ≡ f p)
  IsRecovered f (load_failed e) = ⊥

  IsRecovered-same :
      (f g : ℕ → ℕ) (o : Opened) → ((p : ℕ) → f p ≡ g p) → IsRecovered f o → IsRecovered g o
  IsRecovered-same f g (opened c) h (free, d, same) = (free, d, λ p. same p ∙ h p)
  IsRecovered-same f g (flush_failed c) h (d, same) = (d, λ p. same p ∙ h p)
  IsRecovered-same f g (load_failed e) h no_way = absurd no_way

  recover_flush :
      (faults : Faults) (f : ℕ → ℕ) (c1 : Card) (ws : Writes)
      → IsDurable sha256 limits c1 ws
      → c1.is_blocked ≡ false
      → ((p : ℕ) → sees c1 p ≡ f p)
      → (o : Opened) × ((if (flush_card faults.first_ending c1).1
            then some (opened (flush_card faults.first_ending c1).0)
            else some (flush_failed (flush_card faults.first_ending c1).0))
          ≡ some o)
        × IsRecovered f o
  recover_flush faults f c1 ws d free same =
      let (ws2, d2, same2, size2, free2) =
        flush_card_lem sha256 limits faults.first_ending c1 ws d in
      elim (Bool-cases (flush_card faults.first_ending c1).1) [
        | inl ok ↦ (
          opened (flush_card faults.first_ending c1).0,
          rw ok,
          (free2 ∙ free, (ws2, d2), λ p. same2 p ∙ same p),
        )
        | inr bad ↦ (
          flush_failed (flush_card faults.first_ending c1).0,
          rw bad,
          ((ws2, d2), λ p. same2 p ∙ same p),
        )
      ]

  -- A journal on disk beside the file of a card.
  record OnDisk (size : ℕ) (file journal : Bytes) (ws : Writes) : Type 0 where
    journal_is : journal ≡ encode_all sha256 ws
    inside : AllInside (length file) ws
    size_is : length file ≡ size
    is_small : size ≤ 16777216
    is_aligned : length file % 512 ≡ 0
    pending : total ws ≤ limits.max_pending_bytes
    journal_fits : length journal ≤ limits.max_journal_bytes

  open_files :
      (faults : Faults) (size : ℕ) (file journal : Bytes) (ws : Writes)
      → OnDisk size file journal ws
      → ((at n : ℕ) → io.read_fails at n ≡ none)
      → (o : Opened) × (open_card sha256 limits io faults size file journal ≡ some o)
        × IsRecovered (replay ws (λ q. get_or file q 0)) o
  unfolding open_card fresh_card
  open_files faults size file journal [] d reads =
      let empty : (length journal == 0) ≡ true = ap (λ t. length t == 0) d.journal_is in
      let durable : IsDurable sha256 limits (fresh_card size file journal) [] = record {
        journal_is = d.journal_is;
        inside = tt;
        size_is = d.size_is;
        is_small = d.is_small;
        is_aligned = d.is_aligned;
        whole_blocks = tt;
        pending = omega arith;
        pending_fits = omega arith;
        recorded = omega arith;
        journal_fits = d.journal_fits;
        has_blocks = inr (refl, ap length d.journal_is);
        is_replay = λ p. refl;
      } in
      (opened (fresh_card size file journal), rw empty, (refl, ([], durable), λ p. refl))
  open_files faults size file journal ((off, buffer) ∷ ws) d reads =
      let all = (off, buffer) ∷ ws in
      let sound : IsSound io file [] = record {
        reads = reads;
        whole_file = d.is_aligned;
        whole_blocks = tt;
      } in
      let (dirty, run, whole, bytes, more) =
        load_journal_lem sha256 sha_size io limits file all sound
          (omega (arith, d.size_is, d.is_small)) d.inside d.pending
          (omega (arith, ap length d.journal_is, d.journal_fits)) in
      let loads : load_journal sha256 io limits size file journal
          ≡ some (loaded dirty (total all)) =
        rw (d.journal_is) (
          subst
            (λ n.
              load_journal sha256 io limits n file (encode_all sha256 all)
              ≡ some (loaded dirty (total all)))
            d.size_is run) in
      let some_bytes : (length journal == 0) ≡ false =
        ground (arith, ap length d.journal_is, length-encode_all sha256 sha_size io limits all) in
      let c1 : Card = record (fresh_card size file journal) {
        dirty = dirty;
        pending_bytes = total all;
      } in
      let durable : IsDurable sha256 limits c1 all = record {
        journal_is = d.journal_is;
        inside = d.inside;
        size_is = d.size_is;
        is_small = d.is_small;
        is_aligned = d.is_aligned;
        whole_blocks = whole;
        pending = omega arith;
        pending_fits = d.pending;
        recorded = omega arith;
        journal_fits = d.journal_fits;
        has_blocks = inl (omega (arith, more));
        is_replay = bytes;
      } in
      rw (some_bytes, loads, open_card)
        (recover_flush faults (replay all (λ q. get_or file q 0)) c1 all durable refl bytes)

  -- Opening the file and the journal of a card that keeps its invariant again, after a crash
  -- between its operations: the journal loads, and either the card is open with every byte that it
  -- had, or its checkpoint could not be made and the files on disk still have them. The reads of
  -- the file do not fail.
  pub open_card-IsRecovered :
      (faults : Faults) (c : Card) (ws : Writes)
      → IsDurable sha256 limits c ws
      → ((at n : ℕ) → io.read_fails at n ≡ none)
      → (o : Opened) × (open_card sha256 limits io faults c.card_size c.file c.journal ≡ some o)
        × IsRecovered (sees c) o
  open_card-IsRecovered faults c ws d reads =
      let disk : OnDisk c.card_size c.file c.journal ws = record {
        journal_is = d.journal_is;
        inside = d.inside;
        size_is = d.size_is;
        is_small = d.is_small;
        is_aligned = d.is_aligned;
        pending = omega (arith, d.pending, d.pending_fits);
        journal_fits = omega (arith, d.recorded, d.journal_fits);
      } in
      let (o, run, ok) = open_files faults c.card_size c.file c.journal ws disk reads in
      (
        o,
        run,
        IsRecovered-same (replay ws (λ q. get_or c.file q 0)) (sees c) o (λ p. sym (d.is_replay p))
            ok,
      )
