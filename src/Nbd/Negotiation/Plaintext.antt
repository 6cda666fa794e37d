-- ===== src/Nbd/Negotiation/Plaintext.antt =====
-- What the negotiation of nbd.go says outside TLS.
use wii_bridge.Common.{
  ℕ, zero, suc, ◌+◌, ◌≡◌, refl, sym, ap, ◌∙◌, true, false, Option, some, Bool-cases, not, ◌&&◌, inl,
  inr,
}
use wii_bridge.Nbd.{Backend, Server}
use wii_bridge.Nbd.Negotiation.{
  Link, conn, set_conn, Step, continue, stop, transmit, Parsed, parsed, refused, read_option,
  option_step, negotiate, greet, handshake_phase,
}
use wii_bridge.Nbd.Negotiation.Rounds.{link_of, pending, read_option-Behind}
use wii_bridge.Nbd.Negotiation.Security.{
  ends_loop, negotiate-stop, negotiate-continue, negotiate-Kept,
}

module _ {S T : Type 0} (server : Server) (backend : Backend S) (server' : Server)
    (backend' : Backend T) where
  option_step_plain :
      (l : Link) → l.secured ≡ false → option_step server backend l ≡ option_step server' backend' l
  option_step_plain l plain = outcome (read_option (conn l)) refl
    where
      outcome :
          (p : Parsed)
          → read_option (conn l) ≡ p
          → option_step server backend l ≡ option_step server' backend' l
      outcome (refused f) e = unfold option_step in rw (e, option_step)
      outcome (parsed r) e =
          let plain' : (set_conn l r.rest).secured ≡ false =
            (read_option-Behind l r e).secured ∙ plain in
          unfold option_step in rw (e, plain', option_step)

  negotiate_raw :
      (fuel : ℕ) (l : Link) (r r' : Step)
      → negotiate server backend fuel l ≡ some r
      → negotiate server' backend' fuel l ≡ some r'
      → (link_of r).raw ≡ (link_of r').raw
  negotiate_raw zero l r r' e e' = unfold negotiate in cc
  negotiate_raw (suc fuel) l r r' e e' = elim (Bool-cases l.secured) [
    | inl tls ↦
        ((negotiate-Kept server backend (suc fuel) l r e).confined tls).0
        ∙ sym ((negotiate-Kept server' backend' (suc fuel) l r' e').confined tls).0
    | inr plain ↦
        again (λ l'. negotiate_raw fuel l' r r') (option_step server backend l) refl
          (sym (option_step_plain l plain))
  ]
    where
      last :
          (x : Step)
          → option_step server backend l ≡ x
          → option_step server' backend' l ≡ x
          → ends_loop x ≡ true
          → (link_of r).raw ≡ (link_of r').raw
      last x eq eq' done =
          let one : ◌≡◌ {A = Option Step} (some x) (some r) =
            sym (negotiate-stop server backend fuel l x eq done) ∙ e in
          let two : ◌≡◌ {A = Option Step} (some x) (some r') =
            sym (negotiate-stop server' backend' fuel l x eq' done) ∙ e' in
          let same : r ≡ r' = cc (one, two) in ap (λ t. (link_of t).raw) same

      again :
          ((l' : Link)
            → negotiate server backend fuel l' ≡ some r
            → negotiate server' backend' fuel l' ≡ some r'
            → (link_of r).raw ≡ (link_of r').raw)
          → (x : Step) → option_step server backend l ≡ x
          → option_step server' backend' l ≡ option_step server backend l
          → (link_of r).raw ≡ (link_of r').raw
      again ih (continue l') eq same =
          ih l' (sym (negotiate-continue server backend fuel l l' eq) ∙ e)
            (sym (negotiate-continue server' backend' fuel l l' (same ∙ eq)) ∙ e')
      again ih (stop x l') eq same = last (stop x l') eq (same ∙ eq) refl
      again ih (transmit l') eq same = last (transmit l') eq (same ∙ eq) refl

  greet_same :
      (l : Link)
      → (not backend.read_only && not backend.writable) ≡ false
      → (not backend'.read_only && not backend'.writable) ≡ false
      → greet backend l ≡ greet backend' l
  unfolding greet
  greet_same l ok ok' = rw (ok, ok')

  -- What is read from and written to the connection outside TLS does not depend on the export: two
  -- servers with any export names, request limits and backends of any content, mode and size, that
  -- the first check admits, leave the same raw connection behind, on every input of the client.
  pub plaintext_independent :
      (l : Link) (r r' : Step)
      → (not backend.read_only && not backend.writable) ≡ false
      → (not backend'.read_only && not backend'.writable) ≡ false
      → handshake_phase server backend l ≡ some r
      → handshake_phase server' backend' l ≡ some r'
      → (link_of r).raw ≡ (link_of r').raw
  plaintext_independent l r r' ok ok' e e' = after (greet backend l) refl
    where
      last :
          (x : Step)
          → handshake_phase server backend l ≡ some x
          → handshake_phase server' backend' l ≡ some x
          → (link_of r).raw ≡ (link_of r').raw
      last x f f' =
          let one : ◌≡◌ {A = Option Step} (some x) (some r) = sym f ∙ e in
          let two : ◌≡◌ {A = Option Step} (some x) (some r') = sym f' ∙ e' in
          let same : r ≡ r' = cc (one, two) in ap (λ t. (link_of t).raw) same

      after : (x : Step) → greet backend l ≡ x → (link_of r).raw ≡ (link_of r').raw
      after (stop z l1) eq =
          let eq' : greet backend' l ≡ stop z l1 = sym (greet_same l ok ok') ∙ eq in
          last (stop z l1) (unfold handshake_phase in rw (eq, handshake_phase))
            (unfold handshake_phase in rw (eq', handshake_phase))
      after (transmit l1) eq =
          let eq' : greet backend' l ≡ transmit l1 = sym (greet_same l ok ok') ∙ eq in
          last (transmit l1) (unfold handshake_phase in rw (eq, handshake_phase))
            (unfold handshake_phase in rw (eq', handshake_phase))
      after (continue l1) eq =
          let eq' : greet backend' l ≡ continue l1 = sym (greet_same l ok ok') ∙ eq in
          let f : handshake_phase server backend l ≡ negotiate server backend (pending l1 + 1) l1 =
            unfold handshake_phase in rw (eq, handshake_phase) in
          let f' : handshake_phase server' backend' l
              ≡ negotiate server' backend' (pending l1 + 1) l1 =
            unfold handshake_phase in rw (eq', handshake_phase) in
          negotiate_raw (pending l1 + 1) l1 r r' (sym f ∙ e) (sym f' ∙ e')
