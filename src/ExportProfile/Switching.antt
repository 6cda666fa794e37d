-- ===== src/ExportProfile/Switching.antt =====
-- When the exported profile may change (exportprofile/manager.go).
use wii_bridge.Common.{
  ℕ, zero, suc, ◌<◌, ◌≡◌, ◌≢◌, refl, ◌∙◌, Bool, true, false, Option, none, some, List, [], ◌∷◌,
  ◌++◌, arith, get_or, set, set-set, ◌==◌,
}
use wii_bridge.ExportProfile.{
  exporting, disconnected, recovery_required, Error, Profile, Manager, validate, select,
}
use wii_bridge.ExportProfile.System.{
  System, Call, begin, end_session, disconnect_host, recover_host, select_host, step, run,
  outstanding,
}
use wii_bridge.ExportProfile.Invariant.{Inv, is_usable, step-Inv}

abbrev pub ends : ℕ → Call → Bool
ends i (end_session j) = i == j
ends i _ = false

abbrev pub never_ends : ℕ → List Call → Bool
never_ends i [] = true
never_ends i (c ∷ cs) =
    let rest = never_ends i cs in elim (ends i c) [ true ↦ false | false ↦ rest ]

outstanding_pos : (flags : List Bool) (i : ℕ) → get_or flags i true ≡ false → 0 < outstanding flags
outstanding_pos [] i h = ground arith
outstanding_pos (false ∷ flags) i h = omega arith
outstanding_pos (true ∷ flags) zero h = ground arith
outstanding_pos (true ∷ flags) (suc i) h = outstanding_pos flags i h

get_or-issue :
    (flags : List Bool) (i : ℕ)
    → get_or flags i true ≡ false
    → get_or (flags ++ (false ∷ [])) i true ≡ false
get_or-issue [] i h = ground arith
get_or-issue (x ∷ flags) zero h = h
get_or-issue (x ∷ flags) (suc i) h = get_or-issue flags i h

get_or-set_other :
    (flags : List Bool) (i j : ℕ) (v : Bool)
    → (i == j) ≡ false
    → get_or (set flags j v) i true ≡ get_or flags i true
get_or-set_other [] i j v h = refl
get_or-set_other (x ∷ flags) zero zero v h = ground arith
get_or-set_other (x ∷ flags) zero (suc j) v h = refl
get_or-set_other (x ∷ flags) (suc i) zero v h = refl
get_or-set_other (x ∷ flags) (suc i) (suc j) v h = get_or-set_other flags i j v (ground arith)

-- One call that is not the release of session `i` leaves that session outstanding.
step_keeps_flag :
    (s : System) (c : Call) (i : ℕ)
    → ends i c ≡ false
    → get_or s.released i true ≡ false
    → get_or (step s c).0.released i true ≡ false
unfolding step
step_keeps_flag s begin i e h = ground (arith, get_or-issue s.released i)
step_keeps_flag s (end_session j) i e h =
    ground (arith, get_or-set_other s.released i j true e, get_or-set_other s.released i j false e)
step_keeps_flag s _ i e h = ground arith

step_pins :
    (s : System) (c : Call)
    → 0 < s.manager.sessions
    → (step s c).0.manager.current ≡ s.manager.current
unfolding step
step_pins s begin h = ground arith
step_pins s _ h = ground arith

-- In a system that satisfies the invariant, while session `i` has not been released, no sequence of
-- calls without its release changes the profile that the manager exports, whatever the Host
-- selects, disconnects or recovers in between.
pub session_pins_profile :
    (s : System) (cs : List Call) (i : ℕ)
    → Inv s
    → get_or s.released i true ≡ false
    → never_ends i cs ≡ true
    → (run s cs).manager.current ≡ s.manager.current
unfolding run
session_pins_profile s [] i v h e = refl
session_pins_profile s (c ∷ cs) i v h e =
    let stays : ends i c ≡ false = ground arith in
    session_pins_profile (step s c).0 cs i (step-Inv s c v) (step_keeps_flag s c i stays h)
      (ground arith)
    ∙ step_pins s c (ground (arith, v, outstanding_pos s.released i h))

get_or-set_released : (flags : List Bool) (i : ℕ) → get_or (set flags i true) i true ≡ true
get_or-set_released [] i = refl
get_or-set_released (x ∷ flags) zero = refl
get_or-set_released (x ∷ flags) (suc i) = get_or-set_released flags i

-- Calling a release callback a second time changes nothing, from any state of the manager.
pub release_idempotent :
    (s : System) (i : ℕ)
    → (step (step s (end_session i)).0 (end_session i)).0 ≡ (step s (end_session i)).0
unfolding step
release_idempotent s i =
    ground (arith, get_or-set_released s.released i, set-set s.released i true true)

-- A successful selection was made from DISCONNECTED with no session outstanding, of a profile
-- whose validation succeeded, and it leaves that profile exported with no session. A failed one
-- leaves the session count, and, unless the state ends at RECOVERY_REQUIRED, the profile too.
pub select_outcome :
    (m : Manager) (next : Option Profile) (validated closed : Option Error)
    → let (m', e) = select m next validated closed in
      (e ≡ none
        → (p : Profile) × (next ≡ some p)
          × (m.state ≡ disconnected)
          × (m.sessions ≡ 0)
          × (validate p validated ≡ none)
          × (m' ≡ record { state = exporting; current = some p; sessions = 0 }))
      × ((x : Error) → e ≡ some x → m'.state ≢ recovery_required → m'.current ≡ m.current)
      × (m'.sessions ≡ m.sessions)
unfolding select
select_outcome m none validated closed = ground arith
select_outcome m (some p) validated closed = (
  λ ok. (p, refl, ground arith, ground arith, ground arith, ground arith),
  λ x e h. ground arith,
  ground arith,
)

-- From every state that satisfies the invariant and has no session outstanding, recovering, disconnecting and selecting
-- a profile of a known platform with a backend, whose callbacks succeed, exports that profile.
pub switch_possible :
    (s : System) (p : Profile)
    → Inv s
    → s.manager.sessions ≡ 0
    → is_usable (some p) ≡ true
    → (run s (recover_host ∷ disconnect_host ∷ select_host (some p) none none ∷ [])).manager
      ≡ record { state = exporting; current = some p; sessions = 0 }
unfolding run step
switch_possible s p v h u = ground arith
