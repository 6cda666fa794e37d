-- ===== src/ExportProfile/Invariant.antt =====
-- What holds of the export manager between two calls (exportprofile/manager.go).
use text.Mathlib.Text.{◌==◌ as str_eq}
use wii_bridge.Common.{
  ℕ, zero, suc, ◌+◌, ◌<◌, ◌≡◌, refl, Bool, true, false, ◌||◌, Option, none, some, List, [], ◌∷◌,
  ◌++◌, arith, get_or, set,
}
use wii_bridge.ExportProfile.{
  State, preparing, validating, disconnecting, active, Error, Profile, Manager, new,
}
use wii_bridge.ExportProfile.System.{System, Call, begin, end_session, step, run, outstanding}

-- The states in which the mutex is never released.
abbrev pub is_transient : State → Bool
is_transient preparing = true
is_transient validating = true
is_transient disconnecting = true
is_transient _ = false

-- A profile that passed the tests of `Validate` itself.
abbrev pub is_usable : Option Profile → Bool
is_usable none = false
is_usable (some p) = elim p.block_backend [
  | none ↦ false
  | some b ↦ str_eq p.name "wii" || str_eq p.name "gamecube"
]

pub record Inv (s : System) : Type 0 where
  pub counted : s.manager.sessions ≡ outstanding s.released
  pub active_busy : s.manager.state ≡ active → 0 < s.manager.sessions
  pub busy_active : 0 < s.manager.sessions → s.manager.state ≡ active
  pub settled : is_transient s.manager.state ≡ false
  pub usable : is_usable s.manager.current ≡ true

outstanding-issue :
    (flags : List Bool) → outstanding (flags ++ (false ∷ [])) ≡ outstanding flags + 1
outstanding-issue [] = refl
outstanding-issue (true ∷ flags) = outstanding-issue flags
outstanding-issue (false ∷ flags) = omega (arith, outstanding-issue flags)

outstanding-end_lem :
    (flags : List Bool) (i : ℕ)
    → get_or flags i true ≡ false
    → outstanding flags ≡ suc (outstanding (set flags i true))
outstanding-end_lem [] i h = ground arith
outstanding-end_lem (true ∷ flags) zero h = ground arith
outstanding-end_lem (false ∷ flags) zero h = refl
outstanding-end_lem (true ∷ flags) (suc i) h = outstanding-end_lem flags i h
outstanding-end_lem (false ∷ flags) (suc i) h = omega (arith, outstanding-end_lem flags i h)

outstanding-set_again :
    (flags : List Bool) (i : ℕ)
    → get_or flags i true ≡ true
    → outstanding (set flags i true) ≡ outstanding flags
outstanding-set_again [] i h = refl
outstanding-set_again (true ∷ flags) zero h = refl
outstanding-set_again (false ∷ flags) zero h = ground arith
outstanding-set_again (true ∷ flags) (suc i) h = outstanding-set_again flags i h
outstanding-set_again (false ∷ flags) (suc i) h = omega (arith, outstanding-set_again flags i h)

pub step-Inv : (s : System) (c : Call) → Inv s → Inv (step s c).0
unfolding step
step-Inv s begin h = ground (arith, outstanding-issue s.released)
step-Inv s (end_session i) h =
    ground (arith, outstanding-end_lem s.released i, outstanding-set_again s.released i)
step-Inv s _ h = ground arith

pub run-Inv : (s : System) (cs : List Call) → Inv s → Inv (run s cs)
unfolding run
run-Inv s [] h = h
run-Inv s (c ∷ cs) h = run-Inv (step s c).0 cs (step-Inv s c h)

pub new-Inv :
    (p : Option Profile) (answer : Option Error) {m : Manager}
    → (new p answer).0 ≡ some m
    → Inv (record { manager = m; released = [] })
unfolding new
new-Inv p answer h = ground arith

-- From a manager that `new` returned, every sequence of calls, failing ones included, leaves the
-- session count equal to the number of sessions not yet released, the state at ACTIVE exactly
-- while there is one and at no transient state, and a profile of a known platform that has a
-- backend installed.
pub run-new-Inv :
    (p : Option Profile) (answer : Option Error) (m : Manager) (cs : List Call)
    → (new p answer).0 ≡ some m
    → Inv (run (record { manager = m; released = [] }) cs)
run-new-Inv p answer m cs h =
    run-Inv (record { manager = m; released = [] }) cs (new-Inv p answer h)
