-- ===== src/Nbd/Transmission.antt =====
-- `transmission` of nbd.go: the request loop. The reply buffers' pool and the counters are left
-- out; a read's buffer is the one that the backend filled.
pub mod Progress
pub mod Access
pub mod Framing
pub mod Examples
use text.Mathlib.Text.{◌==◌ as str_eq}
use wii_bridge.Common.{
  ℕ, zero, suc, ◌-◌, ◌%◌, Bool, ◌||◌, not, Option, none, some, [], ◌++◌, Bytes, take, drop,
  be_bytes, be_value, ltb, ◌==◌, if◌then◌else◌,
}
use wii_bridge.Nbd.{
  request_magic, reply_magic, cmd_read, cmd_write, cmd_disconnect, cmd_flush, cmd_trim,
  cmd_write_zeroes, err_perm, err_io, err_invalid, Fault, eof, write_failed, invalid_request_magic,
  oversized_write, End, finished, failed, Wire, read_full, write_frame, SaveError, Backend, Server,
}

pub record Header : Type 0 where
  pub magic : ℕ
  pub flags_type : ℕ
  pub handle : ℕ
  pub offset : ℕ
  pub len : ℕ

-- The fields of the 28 bytes of `requestHeader`.
pub parse_header : Bytes → Header
parse_header b = record {
  magic = be_value (take 4 b);
  flags_type = be_value (take 4 (drop 4 b));
  handle = be_value (take 8 (drop 8 b));
  offset = be_value (take 8 (drop 16 b));
  len = be_value (take 4 (drop 24 b));
}

-- uint16(flagsType)
abbrev pub command : Header → ℕ
command h = h.flags_type % 65536

-- What a request's branch of the `switch` leaves: the status and the data of a read, or the end
-- of the session.
pub data Answer : Type 0 where
  answer : ℕ → Bytes → Answer
  broken : Fault → Answer

-- The codes for which a failed write is a permission error.
abbrev pub write_status : SaveError → ℕ
write_status e = elim e.error_code [
  | none ↦ err_io
  | some code ↦
      if str_eq code "SAVE-WRITE-OUTSIDE-EXTENT" || str_eq code "SAVE-WRITE-CROSSES-BOUNDARY"
      then err_perm
      else err_io
]

-- What a round of the loop leaves.
pub data Round (S : Type 0) : Type 0 where
  go_on : Wire → S → Round S
  ended : End → Wire → S → Round S

pub reply_frame : ℕ → ℕ → Bytes → Bytes
reply_frame status handle payload =
    be_bytes 4 reply_magic ++ be_bytes 4 status ++ be_bytes 8 handle ++ payload

-- The reply, or the end of the session.
pub finish_round : {S : Type 0} → ℕ → Answer → Wire → S → Round S
finish_round handle (broken f) w s = ended (failed f) w s
finish_round handle (answer status payload) w s =
    let (sent, w') = write_frame (reply_frame status handle payload) w in
    if sent then go_on w' s else ended (failed write_failed) w' s

module _ {S : Type 0} (server : Server) (backend : Backend S) where
  -- length == 0 || length > s.MaxRequest || offset > Size || length > Size - offset
  pub out_of_range : Header → Bool
  out_of_range h =
      h.len == 0
      || ltb server.max_request h.len
      || ltb backend.size h.offset
      || ltb (backend.size - h.offset) h.len

  pub handle_read : Header → S → Answer × S
  handle_read h s =
      if out_of_range h
      then (answer err_invalid [], s)
      else let ((filled, n, bad), s') = backend.read_at h.len h.offset s in
        (if bad || not (n == h.len) then answer err_io [] else answer 0 filled, s')

  pub handle_flush : S → Answer × S
  handle_flush s =
      if backend.read_only
      then (answer 0 [], s)
      else let (bad, s') = backend.sync s in (answer (if bad then err_io else 0) [], s')

  -- The payload of a write is taken from the connection before anything else is decided.
  pub store : Header → Bytes → S → Answer × S
  store h payload s =
      if backend.read_only
      then (answer err_perm [], s)
      else let ((n, failure), s') = backend.write_at payload h.offset s in
        (
          elim failure [
            | some e ↦ answer (write_status e) []
            | none ↦ answer (if n == h.len then 0 else err_io) []
          ],
          s',
        )

  -- io.CopyN(io.Discard, …) of the payload of a refused write.
  pub skip_payload : Header → Wire → Answer × Wire
  skip_payload h w = elim (read_full h.len w) [
    | none ↦ (broken eof, record w { input = [] })
    | some (payload, w') ↦ (answer err_invalid [], w')
  ]

  pub handle_write : Header → Wire → S → Answer × Wire × S
  handle_write h w s =
      if out_of_range h
      then if ltb server.max_request h.len
        then (broken oversized_write, w, s)
        else (let (a, w') = skip_payload h w in (a, w', s))
      else elim (read_full h.len w) [
        | none ↦ (broken eof, w, s)
        | some (payload, w') ↦ let (a, s') = store h payload s in (a, w', s')
      ]

  -- The `switch` on the command.
  pub dispatch : Header → Wire → S → Answer × Wire × S
  dispatch h w s =
      if command h == cmd_read
      then (let (a, s') = handle_read h s in (a, w, s'))
      else if command h == cmd_flush
      then (let (a, s') = handle_flush s in (a, w, s'))
      else if command h == cmd_write
      then handle_write h w s
      else if command h == cmd_trim
      then (answer err_perm [], w, s)
      else if command h == cmd_write_zeroes
      then (answer (if ltb server.max_request h.len then err_invalid else err_perm) [], w, s)
      else (answer err_invalid [], w, s)

  -- A round of the request loop behind its header.
  pub serve_header : Header → Wire → S → Round S
  serve_header h w s =
      if not (h.magic == request_magic)
      then ended (failed invalid_request_magic) w s
      else if command h == cmd_disconnect
      then ended finished w s
      else let (a, w', s') = dispatch h w s in finish_round h.handle a w' s'

  -- One round of the request loop.
  pub serve_request : Wire → S → Round S
  serve_request w s = elim (read_full 28 w) [
    | none ↦ ended (failed eof) w s
    | some (bytes, w') ↦ serve_header (parse_header bytes) w' s
  ]

  -- The request loop. A round takes at least 28 bytes, so fuel above the length of the input is
  -- enough; `none` is a loop that is still running when the fuel ends.
  pub transmission : ℕ → Wire → S → Option (End × Wire × S)
  transmission zero w s = none
  transmission (suc fuel) w s = elim (serve_request w s) [
    | go_on w' s' ↦ transmission fuel w' s'
    | ended e w' s' ↦ some (e, w', s')
  ]
