-- ===== src/ExportProfile/Examples.antt =====
-- The theorems of the export manager at concrete profiles and calls.
use wii_bridge.Common.{◌≡◌, ◌≢◌, refl, true, false, none, some, [], ◌∷◌}
use wii_bridge.ExportProfile.{
  exporting, disconnected, recovery_required, Error, Profile, Manager, new, validate, select,
}
use wii_bridge.ExportProfile.System.{
  System, begin, end_session, disconnect_host, recover_host, select_host, step, run,
}
use wii_bridge.ExportProfile.Invariant.{Inv, new-Inv, run-Inv, run-new-Inv}
use wii_bridge.ExportProfile.Switching.{
  session_pins_profile, release_idempotent, select_outcome, switch_possible,
}

abbrev wii : Profile
wii = record {
  address = 1;
  name = "wii";
  block_backend = some 10;
  immutable = true;
  validate_profile = false;
  close_profile = false;
}

abbrev gamecube : Profile
gamecube = record {
  address = 2;
  name = "gamecube";
  block_backend = some 20;
  immutable = false;
  validate_profile = true;
  close_profile = true;
}

abbrev start : System
start = record {
  manager = record { state = exporting; current = some wii; sessions = 0 };
  released = [];
}

new_starts : (new (some wii) none).0 ≡ some start.manager
unfolding new
new_starts = refl

start-Inv : Inv start
start-Inv = new-Inv (some wii) none new_starts

run-new-Inv_example : Inv (run start (begin ∷ begin ∷ disconnect_host ∷ end_session 0 ∷ []))
run-new-Inv_example =
    run-new-Inv (some wii) none start.manager (begin ∷ begin ∷ disconnect_host ∷ end_session 0 ∷ [])
      new_starts

abbrev busy : System
busy = run start (begin ∷ begin ∷ end_session 0 ∷ [])

session_pins_profile_example :
    (run busy (disconnect_host ∷ select_host (some gamecube) none none ∷ [])).manager.current
    ≡ busy.manager.current
unfolding run step
session_pins_profile_example =
    session_pins_profile busy (disconnect_host ∷ select_host (some gamecube) none none ∷ []) 1
      (run-Inv start (begin ∷ begin ∷ end_session 0 ∷ []) start-Inv) refl refl

release_idempotent_example :
    (step (step busy (end_session 1)).0 (end_session 1)).0 ≡ (step busy (end_session 1)).0
release_idempotent_example = release_idempotent busy 1

switch_possible_example :
    (run start
      (recover_host ∷ disconnect_host ∷ select_host (some gamecube) none none ∷ [])).manager
    ≡ record { state = exporting; current = some gamecube; sessions = 0 }
switch_possible_example = switch_possible start gamecube start-Inv refl refl

abbrev idle : Manager
idle = record { state = disconnected; current = some wii; sessions = 0 }

select_outcome_example :
    let (m', e) = select idle (some gamecube) none none in
    (e ≡ none
      → (p : Profile) × (some gamecube ≡ some p)
        × (idle.state ≡ disconnected)
        × (idle.sessions ≡ 0)
        × (validate p none ≡ none)
        × (m' ≡ record { state = exporting; current = some p; sessions = 0 }))
    × ((x : Error) → e ≡ some x → m'.state ≢ recovery_required → m'.current ≡ idle.current)
    × (m'.sessions ≡ idle.sessions)
select_outcome_example = select_outcome idle (some gamecube) none none

-- The first selection is refused while a session is outstanding.
refused :
    (step busy (select_host (some gamecube) none none)).1
    ≡ some Error.selection_requires_disconnected
unfolding run step
refused = refl
