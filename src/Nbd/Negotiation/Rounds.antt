-- ===== src/Nbd/Negotiation/Rounds.antt =====
-- One round of the option loop of nbd.go: what it takes from the connection and what it may change.
use wii_bridge.Common.{
  ℕ, ◌+◌, ◌≤◌, ◌<◌, ◌≡◌, refl, ap, [], ◌∙◌, Bool, true, false, Option, none, some, arith, Bytes,
  ◌⊎◌, length, Bool-cases, be_value, ==_iff, if◌then◌else◌, ◌||◌, if_both, ◌==◌, Option-cases, inl,
  inr, bytes_eq_sound,
}
use wii_bridge.Nbd.{
  opt_export_name, opt_go, opt_abort, opt_info, rep_err_unsup, rep_info, rep_ack, End, Wire,
  read_full, write_frame, Backend, Server,
}
use wii_bridge.Nbd.Transmission.Progress.{read_full-Took}
use wii_bridge.Nbd.Negotiation.{
  Link, conn, set_conn, Step, continue, stop, transmit, OptionRequest, Parsed, parsed, refused,
  read_option, option_reply, parse_info_name, names_export, reply_then, reply_then_close,
  export_name_chosen, info_requested, plain_option, secure_option, option_step,
}

abbrev pub link_of : Step → Link
link_of (continue l) = l
link_of (stop e l) = l
link_of (transmit l) = l

abbrev pub pending : Link → ℕ
pending l = length l.raw.input + length l.tls.input

-- What a reply may change of a link: the output and the room of the current connection.
record SameBut (l l' : Link) : Type 0 where
  raw_input : l'.raw.input ≡ l.raw.input
  tls_input : l'.tls.input ≡ l.tls.input
  secured : l'.secured ≡ l.secured
  handshake : l'.handshake ≡ l.handshake
  plain : l.secured ≡ true → l'.raw ≡ l.raw

SameBut-write : (l : Link) (frame : Bytes) → SameBut l (set_conn l (write_frame frame (conn l)).1)
unfolding write_frame conn
SameBut-write l frame = ground arith

SameBut-trans : {a b c : Link} → SameBut a b → SameBut b c → SameBut a c
SameBut-trans p q = record {
  raw_input = q.raw_input ∙ p.raw_input;
  tls_input = q.tls_input ∙ p.tls_input;
  secured = q.secured ∙ p.secured;
  handshake = q.handshake ∙ p.handshake;
  plain = λ h. q.plain (p.secured ∙ h) ∙ p.plain h;
}

-- A reply, and then what follows it: what holds of the end by a failed write, and of what follows
-- from any link that differs by the reply, holds of both.
module _ (Q : Step → Type 0) where
  reply_then_both :
      (l : Link) (option reply : ℕ) (payload : Bytes) (next : Link → Step)
      → ((l' : Link) (e : End) → SameBut l l' → Q (stop e l'))
      → ((l' : Link) → SameBut l l' → Q (next l'))
      → Q (reply_then l option reply payload next)
  reply_then_both l option reply payload next fails goes =
      let same = SameBut-write l (option_reply option reply payload) in
      unfold reply_then in
      if_both Q (write_frame (option_reply option reply payload) (conn l)).0 (goes _ same)
        (fails _ _ same)

abbrev pub transmits : Step → Bool
transmits (transmit l) = true
transmits _ = false

-- The option that starts the transmission phase carries the export's name.
abbrev pub Names : Server → ℕ → Bytes → Type 0
Names server option payload =
    ((option ≡ opt_export_name) × (payload ≡ server.export_name))
    ⊎ ((option ≡ opt_go) × (parse_info_name payload ≡ some server.export_name))

SameBut-refl : (l : Link) → SameBut l l
SameBut-refl l = ground arith

module _ {S : Type 0} (server : Server) (backend : Backend S) where
  -- What an option leaves: the same link but for what was written, and the transmission phase only
  -- for the export's name.
  abbrev Fair : Link → ℕ → Bytes → Step → Type 0
  Fair l option payload r =
      SameBut l (link_of r) × (transmits r ≡ true → Names server option payload)

  export_name_chosen-Fair :
      (l : Link) (option : ℕ) (payload : Bytes)
      → option ≡ opt_export_name
      → Fair l option payload (export_name_chosen server backend l payload)
  unfolding export_name_chosen write_frame conn
  export_name_chosen-Fair l option payload e =
      ground (arith, bytes_eq_sound payload server.export_name)

  named_go :
      (option : ℕ) (payload : Bytes)
      → names_export (parse_info_name payload) server.export_name ≡ true
      → option ≡ opt_go
      → Names server option payload
  named_go option payload h g = inr (g, from_name (parse_info_name payload) h)
    where
      from_name :
          (o : Option Bytes)
          → names_export o server.export_name ≡ true
          → o ≡ some server.export_name
      from_name none e = cc
      from_name (some b) e = ap some (bytes_eq_sound b server.export_name e)

  info_requested-Fair :
      (l : Link) (option : ℕ) (payload : Bytes)
      → Fair l option payload (info_requested server backend l option payload)
  info_requested-Fair l option payload =
      let Q : Step → Type 0 = Fair l option payload in
      elim (Bool-cases (names_export (parse_info_name payload) server.export_name)) [
        | inr other ↦
            unfold info_requested in
            rw other (
              reply_then_both Q l option rep_err_unsup [] continue (λ l' e p. (p, λ h. cc))
                (λ l' p. (p, λ h. cc)))
        | inl named ↦
            unfold info_requested in
            rw named (
              reply_then_both Q l option rep_info _ _ (λ l' e p. (p, λ h. cc))
                λ l1 p1.
                  reply_then_both Q l1 option rep_info _ _ (λ l' e p. (SameBut-trans p1 p, λ h. cc))
                    λ l2 p2.
                      reply_then_both Q l2 option rep_ack _ _
                        (λ l' e p. (SameBut-trans p1 (SameBut-trans p2 p), λ h. cc))
                        λ l3 p3. chosen l3 (SameBut-trans p1 (SameBut-trans p2 p3)) named)
      ]
    where
      chosen :
          (l3 : Link)
          → SameBut l l3
          → names_export (parse_info_name payload) server.export_name ≡ true
          → Fair l option payload (if option == opt_go then transmit l3 else continue l3)
      chosen l3 same named = elim (Bool-cases (option == opt_go)) [
        | inl go ↦ rw go (same, λ h. named_go option payload named ((==_iff option opt_go).0 go))
        | inr info ↦ rw info (same, λ h. cc)
      ]

  secure_option-Fair :
      (l : Link) (option : ℕ) (payload : Bytes)
      → Fair l option payload (secure_option server backend l option payload)
  secure_option-Fair l option payload = elim (Bool-cases (option == opt_abort)) [
    | inl abort ↦
        unfold secure_option reply_then_close in
        rw abort (SameBut-write l (option_reply option rep_ack []), λ h. cc)
    | inr on ↦ elim (Bool-cases (option == opt_export_name)) [
      | inl export ↦
          unfold secure_option in
          rw (on, export)
            (export_name_chosen-Fair l option payload ((==_iff option opt_export_name).0 export))
      | inr on' ↦
          unfold secure_option in
          rw (on, on')
            (if_both (Fair l option payload) ((option == opt_info) || (option == opt_go))
              (info_requested-Fair l option payload)
              (reply_then_both (Fair l option payload) l option rep_err_unsup [] continue
                (λ l' e p. (p, λ h. cc)) (λ l' p. (p, λ h. cc))))
    ]
  ]

-- Before TLS: the same link, which nothing but the handshake secures, and no transmission.
record Plain (l : Link) (r : Step) : Type 0 where
  raw_input : (link_of r).raw.input ≡ l.raw.input
  tls_input : (link_of r).tls.input ≡ l.tls.input
  tls_output : (link_of r).tls ≡ l.tls
  upgraded : (link_of r).secured ≡ true → (link_of r).handshake ≡ true
  waits : transmits r ≡ false

plain_option-Plain :
    (l : Link) (option len : ℕ) → l.secured ≡ false → Plain l (plain_option l option len)
unfolding plain_option reply_then write_frame conn
plain_option-Plain l option len h = ground arith

read_option_takes :
    (w : Wire) (r : OptionRequest)
    → read_option w ≡ parsed r
    → (length r.rest.input + 16 ≤ length w.input) × (r.rest.output ≡ w.output)
unfolding read_option
read_option_takes w r h = elim (Option-cases (read_full 8 w)) [
  | inl e ↦ ground arith
  | inr (a, ea) ↦ elim (Option-cases (read_full 4 a.1)) [
    | inl e ↦ ground arith
    | inr (b, eb) ↦ elim (Option-cases (read_full 4 b.1)) [
      | inl e ↦ ground arith
      | inr (c, ec) ↦ elim (Option-cases (read_full (be_value c.0) c.1)) [
        | inl e ↦ ground arith
        | inr (d, ed) ↦
            let rest : r.rest ≡ d.1 = ground arith in
            let ta = read_full-Took 8 w a.0 a.1 ea in
            let tb = read_full-Took 4 a.1 b.0 b.1 eb in
            let tc = read_full-Took 4 b.1 c.0 c.1 ec in
            let td = read_full-Took (be_value c.0) c.1 d.0 d.1 ed in
            let left : length r.rest.input ≡ length d.1.input =
              ap (λ (x : Wire). length x.input) rest in
            (
              omega (arith, left, ta.shorter, tb.shorter, tc.shorter, td.shorter),
              ap (λ (x : Wire). x.output) rest
                  ∙ td.same_output
                  ∙ tc.same_output
                  ∙ tb.same_output
                  ∙ ta.same_output,
            )
      ]
    ]
  ]
]

-- The link behind an option that has been read.
pub record Behind (l : Link) (w : Wire) : Type 0 where
  pub shorter : pending (set_conn l w) + 16 ≤ pending l
  pub secured : (set_conn l w).secured ≡ l.secured
  handshake : (set_conn l w).handshake ≡ l.handshake
  plain : l.secured ≡ true → (set_conn l w).raw ≡ l.raw

pub read_option-Behind :
    (l : Link) (r : OptionRequest) → read_option (conn l) ≡ parsed r → Behind l r.rest
read_option-Behind l r e =
    let (shorter, same) = read_option_takes (conn l) r e in unfold conn in ground arith

-- What one round of the option loop does, whatever the client sent.
pub record Held {S : Type 0} (server : Server) (backend : Backend S) (l : Link) (r : Step)
    : Type 0 where
  pub shrinks : (l' : Link) → r ≡ continue l' → pending l' < pending l
  pub confined : l.secured ≡ true → ((link_of r).raw ≡ l.raw) × ((link_of r).secured ≡ true)
  pub waits : l.secured ≡ false → transmits r ≡ false
  pub upgraded :
      (l.secured ≡ true → l.handshake ≡ true)
      → (link_of r).secured ≡ true
      → (link_of r).handshake ≡ true
  pub named :
      transmits r ≡ true
      → (o : OptionRequest) × (read_option (conn l) ≡ parsed o) × Names server o.option o.payload

module _ {S : Type 0} (server : Server) (backend : Backend S) where
  Held-Plain :
      (l l1 : Link) (r : Step)
      → pending l1 + 16 ≤ pending l
      → l.secured ≡ false
      → Plain l1 r
      → Held server backend l r
  Held-Plain l l1 r shorter plain p = record {
    shrinks = λ l' h. ground (arith, ap link_of h);
    confined = λ h. cc;
    waits = λ h. p.waits;
    upgraded = λ h. p.upgraded;
    named = λ h. cc (p.waits);
  }

  Held-secure :
      (l l1 : Link) (r : Step) (o : OptionRequest)
      → pending l1 + 16 ≤ pending l
      → l.secured ≡ true
      → l1.secured ≡ true
      → l1.handshake ≡ l.handshake
      → l1.raw ≡ l.raw
      → read_option (conn l) ≡ parsed o
      → Fair server backend l1 o.option o.payload r
      → Held server backend l r
  Held-secure l l1 r o shorter tls tls' hand raw e (p, named) = record {
    shrinks = λ l' h. ground (arith, ap link_of h);
    confined = λ h. (p.plain tls' ∙ raw, p.secured ∙ tls');
    waits = λ h. cc;
    upgraded = λ h h'. p.handshake ∙ hand ∙ h tls;
    named = λ h. (o, e, named h);
  }

  pub option_step-Held : (l : Link) → Held server backend l (option_step server backend l)
  option_step-Held l = outcome (read_option (conn l)) refl
    where
      outcome :
          (p : Parsed)
          → read_option (conn l) ≡ p
          → Held server backend l (option_step server backend l)
      outcome (refused f) e =
          unfold option_step in
          rw (e, option_step)
            record {
              shrinks = λ l' h. cc;
              confined = λ h. (refl, h);
              waits = λ h. refl;
              upgraded = λ h. h;
              named = λ h. cc;
            }
      outcome (parsed r) e =
          let b = read_option-Behind l r e in
          let l1 = set_conn l r.rest in
          elim (Bool-cases l.secured) [
            | inl tls ↦
                let tls' : l1.secured ≡ true = b.secured ∙ tls in
                unfold option_step in
                rw (e, tls', option_step)
                  (Held-secure l l1 (secure_option server backend l1 r.option r.payload) r b.shorter
                    tls tls' b.handshake (b.plain tls) e
                    (secure_option-Fair server backend l1 r.option r.payload))
            | inr plain ↦
                let plain' : l1.secured ≡ false = b.secured ∙ plain in
                unfold option_step in
                rw (e, plain', option_step)
                  (Held-Plain l l1 (plain_option l1 r.option (length r.payload)) b.shorter plain
                    (plain_option-Plain l1 r.option (length r.payload) plain'))
          ]
