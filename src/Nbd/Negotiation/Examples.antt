-- ===== src/Nbd/Negotiation/Examples.antt =====
-- The theorems of the negotiation at concrete clients.
use wii_bridge.Common.{
  ℕ, ◌≡◌, refl, true, false, some, List, [], ◌∷◌, ◌++◌, Bytes, length, be_bytes,
}
use wii_bridge.Nbd.{
  transmission_flags, opt_magic, rep_ack, unknown_export, opt_start_tls, opt_export_name, failed,
  Wire, Backend, Server, read_full,
}
use wii_bridge.Nbd.Negotiation.{
  Link, conn, plain_option, reply_then, option_reply, greeting, greet, negotiate, stop, Step,
  transmit, OptionRequest, parsed, read_option, option_step, secure_option, export_name_chosen,
  handshake_phase,
}
use wii_bridge.Nbd.Negotiation.Rounds.{link_of, transmits, Names}
use wii_bridge.Nbd.Negotiation.Security.{option_step_authorised, tls_before_transmission}
use wii_bridge.Nbd.Negotiation.Plaintext.{plaintext_independent}
use wii_bridge.Nbd.Fixtures.{server, logging}

abbrev option_bytes : ℕ → Bytes → Bytes
option_bytes option payload =
    be_bytes 8 opt_magic ++ (be_bytes 4 option ++ (be_bytes 4 (length payload) ++ payload))

-- A client that upgrades to TLS and then opens the export.
abbrev newcomer : Link
newcomer = record {
  raw = record { input = be_bytes 4 1 ++ option_bytes opt_start_tls []; output = []; room = 100 };
  tls = record { input = option_bytes opt_export_name (119 ∷ []); output = []; room = 100 };
  handshake = true;
  secured = false;
}

tls_before_transmission_example :
    (r : Step) × (handshake_phase server (logging true) newcomer ≡ some r)
    × (transmits r ≡ true → ((link_of r).secured ≡ true) × ((link_of r).handshake ≡ true))
tls_before_transmission_example = tls_before_transmission server (logging true) newcomer refl

abbrev inside_tls : Link
inside_tls = record newcomer { secured = true }

abbrev opened : Link
opened = record {
  raw = inside_tls.raw;
  tls = record { input = []; output = be_bytes 8 4096 ++ be_bytes 2 7; room = 90 };
  handshake = true;
  secured = true;
}

opens : option_step server (logging true) inside_tls ≡ transmit opened
unfolding option_step conn read_option secure_option export_name_chosen read_full transmission_flags
opens = refl

option_step_authorised_example :
    (inside_tls.secured ≡ true)
    × (o : OptionRequest) × (read_option (conn inside_tls) ≡ parsed o)
    × Names server o.option o.payload
option_step_authorised_example =
    option_step_authorised server (logging true) inside_tls opened opens

abbrev small : Backend (List ℕ)
small = record (logging false) { size = 512 }

abbrev other_server : Server
other_server = record { export_name = 120 ∷ []; max_request = 512 }

-- Where the two servers end: one opens the export, the other has no export of that name.
abbrev upgraded : Wire
upgraded = record {
  input = [];
  output = greeting ++ option_reply opt_start_tls rep_ack [];
  room = 62;
}

abbrev turned_away : Link
turned_away = record {
  raw = upgraded;
  tls = record { input = []; output = []; room = 100 };
  handshake = true;
  secured = true;
}

admitted :
    handshake_phase server (logging true) newcomer
    ≡ some (transmit (record opened { raw = upgraded }))
unfolding handshake_phase greet negotiate plain_option reply_then option_reply option_step conn
    read_option secure_option export_name_chosen read_full transmission_flags
admitted = refl

rejected :
    handshake_phase other_server small newcomer ≡ some (stop (failed unknown_export) turned_away)
unfolding handshake_phase greet negotiate plain_option reply_then option_reply option_step conn
    read_option secure_option export_name_chosen read_full transmission_flags
rejected = refl

plaintext_independent_example : upgraded ≡ turned_away.raw
plaintext_independent_example =
    plaintext_independent server (logging true) other_server small newcomer
      (transmit (record opened { raw = upgraded })) (stop (failed unknown_export) turned_away) refl
      refl admitted rejected
