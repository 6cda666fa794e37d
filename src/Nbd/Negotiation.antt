-- ===== src/Nbd/Negotiation.antt =====
-- `handle` of nbd.go: the greeting, the option loop and the upgrade to TLS.
pub mod Rounds
pub mod Security
pub mod Plaintext
pub mod Examples
use Prim.Native.Nat.{bit_or}
use wii_bridge.Common.{
  ℕ, zero, suc, ◌+◌, ◌%◌, Bool, true, false, ◌&&◌, ◌||◌, not, Option, none, some, [], ◌++◌, Bytes,
  bytes_eq, length, take, drop, be_bytes, be_value, ltb, ◌==◌, if◌then◌else◌,
}
use wii_bridge.Nbd.{
  nbd_magic, opt_magic, rep_magic, opt_export_name, opt_abort, opt_start_tls, opt_info, opt_go,
  rep_ack, rep_info, rep_err_unsup, transmission_flags, Fault, eof, write_failed, lacks_write,
  not_fixed_newstyle, invalid_option_magic, option_too_large, handshake_failed, unknown_export, End,
  finished, failed, Wire, read_full, write_frame, Backend, Server,
}

-- A raw connection and the TLS connection over it. crypto/tls gives what the client sends inside
-- TLS, and whether its handshake, with the client's certificate, succeeds.
pub record Link : Type 0 where
  pub raw : Wire
  pub tls : Wire
  pub handshake : Bool
  pub secured : Bool

-- The variable `conn`.
pub conn : Link → Wire
conn l = if l.secured then l.tls else l.raw

abbrev pub set_conn : Link → Wire → Link
set_conn l w = if l.secured then record l { tls = w } else record l { raw = w }

pub data Step : Type 0 where
  continue : Link → Step
  stop : End → Link → Step
  transmit : Link → Step

pub record OptionRequest : Type 0 where
  pub option : ℕ
  pub payload : Bytes
  pub rest : Wire

pub data Parsed : Type 0 where
  parsed : OptionRequest → Parsed
  refused : Fault → Parsed

-- The body of the loop up to the payload.
pub read_option : Wire → Parsed
read_option w = elim (read_full 8 w) [
  | none ↦ refused eof
  | some (magic, w1) ↦
      if not (be_value magic == opt_magic)
      then refused invalid_option_magic
      else elim (read_full 4 w1) [
        | none ↦ refused eof
        | some (option, w2) ↦ elim (read_full 4 w2) [
          | none ↦ refused eof
          | some (length_bytes, w3) ↦
              if ltb 65536 (be_value length_bytes)
              then refused option_too_large
              else elim (read_full (be_value length_bytes) w3) [
                | none ↦ refused eof
                | some (payload, w4) ↦
                    parsed (record { option = be_value option; payload = payload; rest = w4 })
              ]
        ]
      ]
]

pub parse_info_name : Bytes → Option Bytes
parse_info_name payload =
    if ltb (length payload) 4
    then none
    else let n = be_value (take 4 payload) in
      if ltb (length payload) (4 + n + 2) then none else some (take n (drop 4 payload))

pub option_reply : ℕ → ℕ → Bytes → Bytes
option_reply option reply payload =
    be_bytes 8 rep_magic
    ++ be_bytes 4 option
    ++ be_bytes 4 reply
    ++ be_bytes 4 (length payload)
    ++ payload

-- `writeOptionReply` on `conn`, and then what follows its success.
pub reply_then : Link → ℕ → ℕ → Bytes → (Link → Step) → Step
reply_then l option reply payload next =
    let (sent, w) = write_frame (option_reply option reply payload) (conn l) in
    if sent then next (set_conn l w) else stop (failed write_failed) (set_conn l w)

-- An option before TLS: only NBD_OPT_STARTTLS without a payload is taken.
pub plain_option : Link → ℕ → ℕ → Step
plain_option l option len =
    if not (option == opt_start_tls) || not (len == 0)
    then reply_then l option rep_err_unsup [] continue
    else reply_then l option rep_ack [] λ l1.
      if l1.handshake
      then continue (record l1 { secured = true })
      else stop (failed handshake_failed) l1

-- NBD_OPT_ABORT: the reply's error is dropped.
pub reply_then_close : Link → ℕ → Step
unfolding write_frame conn option_reply
reply_then_close l option =
    let (sent, w) = write_frame (option_reply option rep_ack []) (conn l) in
    stop finished (set_conn l w)

abbrev pub greeting : Bytes
greeting = be_bytes 8 nbd_magic ++ be_bytes 8 opt_magic ++ be_bytes 2 (bit_or 1 2)

-- The checks and the greeting before the option loop. The three writes of the greeting are one
-- frame here: a failure of any of them ends the session in the same way.
pub greet : {S : Type 0} → Backend S → Link → Step
greet backend l =
    if not backend.read_only && not backend.writable
    then stop (failed lacks_write) l
    else let (sent, w) = write_frame greeting l.raw in
      if not sent then stop (failed write_failed) (record l { raw = w }) else elim (read_full 4 w) [
        | none ↦ stop (failed eof) (record l { raw = w })
        | some (flags, w1) ↦
            if be_value flags % 2 == 0
            then stop (failed not_fixed_newstyle) (record l { raw = w1 })
            else continue (record l { raw = w1 })
      ]

-- A name from an information request against the export's own.
abbrev pub names_export : Option Bytes → Bytes → Bool
names_export none name = false
names_export (some b) name = bytes_eq b name

module _ {S : Type 0} (server : Server) (backend : Backend S) where
  -- The replies of NBD_OPT_INFO and NBD_OPT_GO.
  abbrev pub info_bytes : Bytes
  info_bytes =
      be_bytes 2 0 ++ be_bytes 8 backend.size ++ be_bytes 2 (transmission_flags backend.read_only)

  abbrev pub block_bytes : Bytes
  block_bytes = be_bytes 2 3 ++ be_bytes 4 512 ++ be_bytes 4 65536 ++ be_bytes 4 server.max_request

  -- NBD_OPT_EXPORT_NAME: two writes, the size and the flags, and then the transmission phase.
  pub export_name_chosen : Link → Bytes → Step
  unfolding write_frame conn
  export_name_chosen l payload =
      if not (bytes_eq payload server.export_name)
      then stop (failed unknown_export) l
      else let (sent, w) = write_frame (be_bytes 8 backend.size) (conn l) in
        let (sent', w') = write_frame (be_bytes 2 (transmission_flags backend.read_only)) w in
        if not sent
        then stop (failed write_failed) (set_conn l w)
        else if not sent'
        then stop (failed write_failed) (set_conn l w')
        else transmit (set_conn l w')

  -- NBD_OPT_INFO and NBD_OPT_GO.
  pub info_requested : Link → ℕ → Bytes → Step
  info_requested l option payload =
      if not (names_export (parse_info_name payload) server.export_name)
      then reply_then l option rep_err_unsup [] continue
      else reply_then l option rep_info info_bytes λ l1.
        reply_then l1 option rep_info block_bytes λ l2.
          reply_then l2 option rep_ack []
            λ l3. if option == opt_go then transmit l3 else continue l3

  -- An option inside TLS: the `switch`.
  pub secure_option : Link → ℕ → Bytes → Step
  secure_option l option payload =
      if option == opt_abort
      then reply_then_close l option
      else if option == opt_export_name
      then export_name_chosen l payload
      else if (option == opt_info) || (option == opt_go)
      then info_requested l option payload
      else reply_then l option rep_err_unsup [] continue

  -- One round of the option loop.
  pub option_step : Link → Step
  option_step l = elim (read_option (conn l)) [
    | refused f ↦ stop (failed f) l
    | parsed r ↦
        let l1 = set_conn l r.rest in
        if l1.secured
        then secure_option l1 r.option r.payload
        else plain_option l1 r.option (length r.payload)
  ]

  -- The option loop; a round takes at least 16 bytes of input, so fuel above their number is
  -- enough. `none` is a loop that is still running when the fuel ends.
  pub negotiate : ℕ → Link → Option Step
  negotiate zero l = none
  negotiate (suc fuel) l = elim (option_step l) [
    | continue l1 ↦ negotiate fuel l1
    | stop e l1 ↦ some (stop e l1)
    | transmit l1 ↦ some (transmit l1)
  ]

  -- `handle` up to the call of `transmission`, on a new connection.
  pub handshake_phase : Link → Option Step
  handshake_phase l = elim (greet backend l) [
    | continue l1 ↦ negotiate (length l1.raw.input + length l1.tls.input + 1) l1
    | stop e l1 ↦ some (stop e l1)
    | transmit l1 ↦ some (transmit l1)
  ]
