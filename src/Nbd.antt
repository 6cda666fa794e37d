-- ===== src/Nbd.antt =====
-- server/nbd-plugin/nbd.go: the fixed-newstyle NBD server. This file has the protocol constants,
-- the connection, and the backend that a session serves.
pub mod Negotiation
pub mod Transmission
pub mod Fixtures
use Prim.Native.Nat.{bit_or}
use wii_bridge.Common.{
  ℕ, ◌+◌, ◌-◌, String, Bool, true, false, Option, none, some, ◌++◌, Bytes, length, take, drop,
  be_bytes, ltb, leb, min, if◌then◌else◌,
}

abbrev pub nbd_magic : ℕ
nbd_magic = 0x4e42444d41474943

abbrev pub opt_magic : ℕ
opt_magic = 0x49484156454f5054

abbrev pub rep_magic : ℕ
rep_magic = 0x0003e889045565a9

abbrev pub request_magic : ℕ
request_magic = 0x25609513

abbrev pub reply_magic : ℕ
reply_magic = 0x67446698

abbrev pub opt_export_name : ℕ
opt_export_name = 1

abbrev pub opt_abort : ℕ
opt_abort = 2

abbrev pub opt_start_tls : ℕ
opt_start_tls = 5

abbrev pub opt_info : ℕ
opt_info = 6

abbrev pub opt_go : ℕ
opt_go = 7

abbrev pub rep_ack : ℕ
rep_ack = 1

abbrev pub rep_info : ℕ
rep_info = 3

abbrev pub rep_err_unsup : ℕ
rep_err_unsup = 0x80000001

abbrev pub cmd_read : ℕ
cmd_read = 0

abbrev pub cmd_write : ℕ
cmd_write = 1

abbrev pub cmd_disconnect : ℕ
cmd_disconnect = 2

abbrev pub cmd_flush : ℕ
cmd_flush = 3

abbrev pub cmd_trim : ℕ
cmd_trim = 4

abbrev pub cmd_write_zeroes : ℕ
cmd_write_zeroes = 6

abbrev pub err_perm : ℕ
err_perm = 1

abbrev pub err_io : ℕ
err_io = 5

abbrev pub err_invalid : ℕ
err_invalid = 22

-- flagHasFlags | flagSendFlush, and flagReadOnly for an immutable backend.
pub transmission_flags : Bool → ℕ
transmission_flags read_only = if read_only then bit_or (bit_or 1 4) 2 else bit_or 1 4

-- How a session ends: by itself (the nil error), or by one of the errors of the source.
pub data Fault : Type 0 where
  eof write_failed no_backend lacks_write not_fixed_newstyle : Fault
  invalid_option_magic option_too_large handshake_failed unknown_export : Fault
  invalid_request_magic oversized_write : Fault

pub data End : Type 0 where
  finished : End
  failed : Fault → End

-- One direction pair of a connection: what the peer will have sent, what was written to it, and
-- how many more bytes it takes before a write fails.
pub record Wire : Type 0 where
  pub input : Bytes
  pub output : Bytes
  pub room : ℕ

-- io.ReadFull, and binary.Read of a fixed-width integer.
unfoldable pub read_full : ℕ → Wire → Option (Bytes × Wire)
read_full n w =
    if ltb (length w.input) n
    then none
    else some (take n w.input, record w { input = drop n w.input })

-- conn.Write of a whole frame: all of it, or what still fits and an error.
unfoldable pub write_frame : Bytes → Wire → Bool × Wire
write_frame frame w =
    if leb (length frame) w.room
    then (true, record w { output = w.output ++ frame; room = w.room - length frame })
    else (false, record w { output = w.output ++ take w.room frame; room = 0 })

-- The errors that `WriteAt` returns, with the code of those that have one.
pub record SaveError : Type 0 where
  pub error_code : Option String

-- The interfaces `Backend`, `writeBackend` and `modeBackend`; `S` is what the calls may change.
-- `ReadAt` answers the filled buffer, the count and whether there was an error.
pub record Backend (S : Type 0) : Type 0 where
  pub size : ℕ
  pub read_only : Bool
  pub writable : Bool
  pub read_at : ℕ → ℕ → S → (Bytes × ℕ × Bool) × S
  pub write_at : Bytes → ℕ → S → (ℕ × Option SaveError) × S
  pub sync : S → Bool × S

pub record Server : Type 0 where
  pub export_name : Bytes
  pub max_request : ℕ
