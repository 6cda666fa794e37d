-- ===== src/Fat32/CardStore.antt =====
-- The memory cards of gamecube/saveoverlay.go as the save store of backend.go.
use wii_bridge.Common.{
  ℕ, ◌+◌, ◌≤◌, ◌<◌, ◌≡◌, ap, String, Bool, true, false, Option, none, some, arith, Bytes, length,
  tabulate, Option-cases, inl, inr,
}
use wii_bridge.SaveOverlay.{Io}
use wii_bridge.SaveOverlay.Journal.{Limits}
use wii_bridge.SaveOverlay.Store.{Faults, SaveError, WriteResult, wrote, rejected}
use wii_bridge.SaveOverlay.Cards.{SaveStore, find_card, read_save_at, write_save_at}
use wii_bridge.SaveOverlay.Cards.Contents.{contents, size_of, AllServed}
use wii_bridge.SaveOverlay.Cards.Operations.{read_save_at_lem, write_save_at_lem, IsStoreOutcome}
use wii_bridge.Fat32.Backend.{SaveStoreOps}
use wii_bridge.Fat32.Backend.Contract.{SaveStoreLaws, IsEffect}

abbrev pub read_answer : Option (Bytes × Option SaveError) → Option (Bytes × Bool)
read_answer none = none
read_answer (some (got, none)) = some (got, true)
read_answer (some (got, some e)) = some (got, false)

abbrev pub write_answer : WriteResult → ℕ × Bool
write_answer (wrote n) = (n, true)
write_answer (rejected n e) = (n, false)

abbrev pub write_reply : Option (SaveStore × WriteResult) → Option (SaveStore × (ℕ × Bool))
write_reply none = none
write_reply (some (s, r)) = some (s, write_answer r)

module _ (sha256 : Bytes → Bytes) (sha_size : (b : Bytes) → length (sha256 b) ≡ 32)
    (limits : Limits) (io : String → Io)
    (reads : (key : String) (at n : ℕ) → (io key).read_fails at n ≡ none) (faults : Faults) where
  abbrev pub card_ops : SaveStoreOps SaveStore
  card_ops = record {
    read_save_at = λ s id off n. read_answer (read_save_at io s id off n);
    write_save_at =
        λ s id off buffer. write_reply (write_save_at sha256 limits io faults s id off buffer);
  }

  pub card_read :
      (s : SaveStore) (id : String) (off n : ℕ)
      → AllServed sha256 limits s.objects × (s.is_closed ≡ false)
      → 0 < n
      → off + n ≤ size_of s id
      → read_answer (read_save_at io s id off n) ≡ some (tabulate (contents s id) off n, true)
  card_read s id off n (ok, opened) some_bytes inside =
      elim (Option-cases (find_card id s.objects)) [
        | inl missing ↦
            let size : size_of s id ≡ 0 = rw (missing, size_of) in absurd (omega (arith, size))
        | inr (c, found) ↦
            let size : size_of s id ≡ c.card_size = rw (found, size_of) in
            ap read_answer (
              read_save_at_lem sha256 limits io s id off n c ok reads opened found
                (omega (arith, size)))
      ]

  pub card-IsEffect :
      (s : SaveStore) (id : String) (off : ℕ) (buffer : Bytes) (s' : SaveStore) (r : WriteResult)
      → IsStoreOutcome sha256 limits s id off buffer s' r
      → IsEffect contents s id off buffer s' (write_answer r).0 (write_answer r).1
  card-IsEffect s id off buffer s' (wrote n) h = h
  card-IsEffect s id off buffer s' (rejected n e) h = h

  -- The cards keep the laws of a save store.
  abbrev pub card_laws : SaveStoreLaws card_ops
  card_laws = record {
    IsGood = λ s. AllServed sha256 limits s.objects × (s.is_closed ≡ false);
    content = contents;
    card_size = size_of;
    read_law = card_read;
    write_law = λ s id off buffer (ok, opened).
        let (s', r, run, ok', opened', sizes, outcome) =
          write_save_at_lem sha256 limits sha_size io faults s id off buffer ok reads opened in
        (
          s',
          (write_answer r).0,
          (write_answer r).1,
          ap write_reply run,
          (ok', opened'),
          sizes,
          card-IsEffect s id off buffer s' r outcome,
        );
  }
