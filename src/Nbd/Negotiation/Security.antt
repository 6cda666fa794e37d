-- ===== src/Nbd/Negotiation/Security.antt =====
-- When the negotiation of nbd.go ends, and when the transmission phase begins.
use wii_bridge.Common.{
  ℕ, zero, suc, ◌+◌, ◌<◌, ◌≡◌, refl, sym, ap, ◌∙◌, subst, Bool, true, false, Option, some, arith,
  Bool-cases, inl, inr,
}
use wii_bridge.Nbd.{read_full, write_frame, Backend, Server}
use wii_bridge.Nbd.Negotiation.{
  Link, conn, Step, continue, stop, transmit, OptionRequest, parsed, read_option, option_step,
  negotiate, greet, handshake_phase,
}
use wii_bridge.Nbd.Negotiation.Rounds.{link_of, pending, transmits, Names, Held, option_step-Held}

abbrev pub ends_loop : Step → Bool
ends_loop (continue l) = false
ends_loop _ = true

module _ {S : Type 0} (server : Server) (backend : Backend S) where
  -- A round of the option loop begins the transmission phase only inside TLS, and only for an
  -- NBD_OPT_EXPORT_NAME or NBD_OPT_GO that carries the export's name.
  pub option_step_authorised :
      (l l' : Link)
      → option_step server backend l ≡ transmit l'
      → (l.secured ≡ true)
        × (o : OptionRequest) × (read_option (conn l) ≡ parsed o)
        × Names server o.option o.payload
  option_step_authorised l l' e =
      let held = option_step-Held server backend l in
      let yes' : transmits (option_step server backend l) ≡ true = ap transmits e in
      elim (Bool-cases l.secured) [
        | inl tls ↦ let (o, found, named) = held.named yes' in (tls, o, found, named)
        | inr plain ↦ cc (held.waits plain)
      ]

  pub negotiate-stop :
      (fuel : ℕ) (l : Link) (r : Step)
      → option_step server backend l ≡ r
      → ends_loop r ≡ true
      → negotiate server backend (suc fuel) l ≡ some r
  negotiate-stop fuel l (continue l') e done = cc
  negotiate-stop fuel l (stop x l') e done = unfold negotiate in rw (e, negotiate)
  negotiate-stop fuel l (transmit l') e done = unfold negotiate in rw (e, negotiate)

  pub negotiate-continue :
      (fuel : ℕ) (l l' : Link)
      → option_step server backend l ≡ continue l'
      → negotiate server backend (suc fuel) l ≡ negotiate server backend fuel l'
  negotiate-continue fuel l l' e = unfold negotiate in rw (e, negotiate)

  -- The option loop ends within one round more than there are bytes to read.
  negotiate_total :
      (fuel : ℕ) (l : Link)
      → pending l < fuel
      → (r : Step) × (negotiate server backend fuel l ≡ some r)
  negotiate_total zero l h = elim h [ ]
  negotiate_total (suc fuel) l h = again (negotiate_total fuel) (option_step server backend l) refl
    where
      again :
          ((l' : Link)
            → pending l' < fuel
            → (r : Step) × (negotiate server backend fuel l' ≡ some r))
          → (r : Step) → option_step server backend l ≡ r
          → (x : Step) × (negotiate server backend (suc fuel) l ≡ some x)
      again ih (continue l') e =
          let (x, found) =
            ih l' (omega (arith, (option_step-Held server backend l).shrinks l' e)) in
          (x, negotiate-continue fuel l l' e ∙ found)
      again ih (stop x l') e = (stop x l', negotiate-stop fuel l (stop x l') e refl)
      again ih (transmit l') e = (transmit l', negotiate-stop fuel l (transmit l') e refl)

-- What the loop keeps from the link it starts on to the step that ends it.
pub record Kept (l : Link) (r : Step) : Type 0 where
  pub confined : l.secured ≡ true → ((link_of r).raw ≡ l.raw) × ((link_of r).secured ≡ true)
  pub tls_first : transmits r ≡ true → (link_of r).secured ≡ true
  pub upgraded :
      (l.secured ≡ true → l.handshake ≡ true)
      → (link_of r).secured ≡ true
      → (link_of r).handshake ≡ true

Kept-trans :
    {S : Type 0} {server : Server} {backend : Backend S} {l l' : Link} {r : Step}
    → Held server backend l (continue l')
    → Kept l' r
    → Kept l r
Kept-trans h k = record {
  confined =
      λ tls. let (raw, tls') = h.confined tls in ((k.confined tls').0 ∙ raw, (k.confined tls').1);
  tls_first = k.tls_first;
  upgraded = λ u. k.upgraded (h.upgraded u);
}

Kept-last :
    {S : Type 0} {server : Server} {backend : Backend S} {l : Link} {r : Step}
    → Held server backend l r
    → Kept l r
Kept-last {l = l} {r = r} h = record {
  confined = h.confined;
  tls_first = λ t. elim (Bool-cases l.secured) [
    | inl tls ↦ (h.confined tls).1
    | inr plain ↦ cc (h.waits plain)
  ];
  upgraded = h.upgraded;
}

module _ {S : Type 0} (server : Server) (backend : Backend S) where
  pub negotiate-Kept :
      (fuel : ℕ) (l : Link) (r : Step) → negotiate server backend fuel l ≡ some r → Kept l r
  negotiate-Kept zero l r e = unfold negotiate in cc
  negotiate-Kept (suc fuel) l r e =
      again (λ l'. negotiate-Kept fuel l' r) (option_step server backend l) refl
    where
      last : (x : Step) → option_step server backend l ≡ x → ends_loop x ≡ true → Kept l r
      last x eq done =
          let same : ◌≡◌ {A = Option Step} (some x) (some r) =
            sym (negotiate-stop server backend fuel l x eq done) ∙ e in
          let here : x ≡ r = cc same in
          Kept-last {server = server} {backend = backend}
            (subst (Held server backend l) (eq ∙ here) (option_step-Held server backend l))

      again :
          ((l' : Link) → negotiate server backend fuel l' ≡ some r → Kept l' r)
          → (x : Step) → option_step server backend l ≡ x
          → Kept l r
      again ih (continue l') eq =
          Kept-trans {server = server} {backend = backend}
            (subst (Held server backend l) eq (option_step-Held server backend l))
            (ih l' (sym (negotiate-continue server backend fuel l l' eq) ∙ e))
      again ih (stop x l') eq = last (stop x l') eq refl
      again ih (transmit l') eq = last (transmit l') eq refl

  greeted :
      (l l1 : Link)
      → greet backend l ≡ continue l1
      → (l1.secured ≡ l.secured) × (l1.handshake ≡ l.handshake)
  unfolding greet write_frame read_full
  greeted l l1 e = ground arith

  greet_waits : (l : Link) → transmits (greet backend l) ≡ false
  unfolding greet write_frame read_full
  greet_waits l = ground arith

  -- A new connection reaches the transmission phase only inside TLS, after a handshake that
  -- succeeded, and the negotiation ends on every input of the client.
  pub tls_before_transmission :
      (l : Link)
      → l.secured ≡ false
      → (r : Step) × (handshake_phase server backend l ≡ some r)
        × (transmits r ≡ true → ((link_of r).secured ≡ true) × ((link_of r).handshake ≡ true))
  tls_before_transmission l plain = after (greet backend l) refl
    where
      after :
          (x : Step)
          → greet backend l ≡ x
          → (r : Step) × (handshake_phase server backend l ≡ some r)
            × (transmits r ≡ true → ((link_of r).secured ≡ true) × ((link_of r).handshake ≡ true))
      after (stop e l1) eq =
          (stop e l1, unfold handshake_phase in rw (eq, handshake_phase), λ h. cc)
      after (transmit l1) eq = absurd (cc (greet_waits l))
      after (continue l1) eq =
          let (r, found) = negotiate_total server backend (pending l1 + 1) l1 (omega arith) in
          let kept = negotiate-Kept (pending l1 + 1) l1 r found in
          let plain1 : l1.secured ≡ false = (greeted l l1 eq).0 ∙ plain in
          (
            r,
            unfold handshake_phase in rw (eq, handshake_phase) found,
            λ h. (kept.tls_first h, kept.upgraded (λ t. cc) (kept.tls_first h)),
          )
