-- ===== src/ExportProfile.antt =====
-- server/host-daemon/exportprofile/manager.go: the manager that serialises switches between the
-- Wii and the GameCube export. A method runs under the manager's mutex, so it is one function of
-- the manager; `error` results are values of `Error`.
pub mod System
pub mod Invariant
pub mod Switching
mod Examples
use text.Mathlib.Text.{◌==◌ as str_eq}
use wii_bridge.Common.{
  ℕ, ◌+◌, ◌-◌, String, Bool, true, false, ◌&&◌, ◌||◌, not, Option, none, some, ◌==◌, if◌then◌else◌,
}

pub data State : Type 0 where
  disconnected preparing validating exporting connected active : State
  disconnecting recovery_required error : State

pub data Error : Type 0 where
  unsupported_platform backend_missing : Error
  profile_callback : Error
  default_not_wii cannot_begin no_profile : Error
  cannot_mark_connected sessions_active cannot_disconnect : Error
  selection_requires_disconnected next_is_nil cleanup_failed recovery_invalid : Error

-- `*BasicProfile`, with the address that tells two profiles apart. Whether a callback is set is
-- part of the profile; what the callback answers is an argument of each call.
pub record Profile : Type 0 where
  pub address : ℕ
  pub name : String
  pub block_backend : Option ℕ
  pub immutable : Bool
  pub validate_profile : Bool
  pub close_profile : Bool

-- `Validate`: `none` is the nil error. `answer` is what the callback returns when it is called.
unfoldable pub validate : Profile → Option Error → Option Error
validate p answer =
    if not (str_eq p.name "wii") && not (str_eq p.name "gamecube")
    then some unsupported_platform
    else elim p.block_backend [
      | none ↦ some backend_missing
      | some b ↦ if p.validate_profile then answer else none
    ]

unfoldable pub close : Profile → Option Error → Option Error
close p answer = if p.close_profile then answer else none

pub record Manager : Type 0 where
  pub state : State
  pub current : Option Profile
  pub sessions : ℕ

unfoldable pub new : Option Profile → Option Error → Option Manager × Option Error
unfolding validate
new none answer = (none, some default_not_wii)
new (some p) answer =
    if not (str_eq p.name "wii") || not p.immutable
    then (none, some default_not_wii)
    else elim (validate p answer) [
      | some e ↦ (none, some e)
      | none ↦ (some (record { state = exporting; current = some p; sessions = 0 }), none)
    ]

abbrev pub can_begin : State → Bool
can_begin exporting = true
can_begin connected = true
can_begin active = true
can_begin _ = false

abbrev pub is_active : State → Bool
is_active active = true
is_active _ = false

abbrev pub is_exporting : State → Bool
is_exporting exporting = true
is_exporting _ = false

abbrev pub is_disconnected : State → Bool
is_disconnected disconnected = true
is_disconnected _ = false

-- `BeginSession`: the backend that the session is pinned to (which may be nil), or the error.
unfoldable pub begin_session : Manager → Manager × Option (Option ℕ) × Option Error
begin_session m = if not (can_begin m.state) then (m, none, some cannot_begin) else elim m.current [
  | none ↦ (m, none, some no_profile)
  | some p ↦ (record m { sessions = m.sessions + 1; state = active }, some p.block_backend, none)
]

-- The release callback of one session; the flag is its captured `released`.
unfoldable pub release : Manager → Bool → Manager × Bool
release m true = (m, true)
release m false =
    let left = m.sessions - 1 in
    (
      record m {
        sessions = left;
        state = if left == 0 && is_active m.state then connected else m.state;
      },
      true,
    )

unfoldable pub mark_connected : Manager → Manager × Option Error
mark_connected m =
    if not (is_exporting m.state)
    then (m, some cannot_mark_connected)
    else (record m { state = connected }, none)

disconnect_from : State → Manager → Manager × Option Error
disconnect_from exporting m = (record m { state = disconnected }, none)
disconnect_from connected m = (record m { state = disconnected }, none)
disconnect_from disconnected m = (m, none)
disconnect_from _ m = (m, some cannot_disconnect)

unfoldable pub disconnect : Manager → Manager × Option Error
unfolding disconnect_from
disconnect m =
    if not (m.sessions == 0) then (m, some sessions_active) else disconnect_from m.state m

-- What `Select` does once `next` is installed: the previous profile is closed, if it is another.
replace_current : Manager → Option Profile → Profile → Option Error → Manager × Option Error
replace_current m none next closed = (m, none)
replace_current m (some previous) next closed =
    if previous.address == next.address then (m, none) else elim (close previous closed) [
      | none ↦ (m, none)
      | some e ↦ (record m { state = recovery_required }, some cleanup_failed)
    ]

unfoldable pub select :
    Manager → Option Profile → Option Error → Option Error → Manager × Option Error
unfolding replace_current validate close
select m next validated closed =
    if not (is_disconnected m.state) || not (m.sessions == 0)
    then (m, some selection_requires_disconnected)
    else elim next [
      | none ↦ (m, some next_is_nil)
      | some p ↦ elim (validate p validated) [
        | some e ↦ (record m { state = error }, some e)
        | none ↦
            replace_current (record m { current = some p; state = exporting }) m.current p closed
      ]
    ]

recover_from : State → Manager → Manager × Option Error
recover_from error m =
    if not (m.sessions == 0)
    then (m, some sessions_active)
    else (record m { state = disconnected }, none)
recover_from recovery_required m =
    if not (m.sessions == 0)
    then (m, some sessions_active)
    else (record m { state = disconnected }, none)
recover_from _ m = (m, some recovery_invalid)

unfoldable pub recover : Manager → Manager × Option Error
unfolding recover_from
recover m = recover_from m.state m
