-- ===== src/ExportProfile/System.antt =====
-- The export manager together with the release callbacks that it has handed out, under any
-- sequence of calls by NBD sessions and by the Host (exportprofile/manager.go; the mutex makes
-- each call one step).
use wii_bridge.Common.{
  ℕ, suc, Bool, true, false, Option, none, some, List, [], ◌∷◌, ◌++◌, get_or, set,
}
use wii_bridge.ExportProfile.{
  Error, Profile, Manager, begin_session, release, mark_connected, disconnect, select, recover,
}

-- `released` holds the captured flag of each callback, in the order of the sessions.
pub record System : Type 0 where
  pub manager : Manager
  pub released : List Bool

pub data Call : Type 0 where
  begin : Call
  end_session : ℕ → Call
  mark disconnect_host recover_host : Call
  select_host : Option Profile → Option Error → Option Error → Call

issue : Option (Option ℕ) → List Bool → List Bool
issue none flags = flags
issue (some backend) flags = flags ++ (false ∷ [])

-- A callback that was never handed out cannot be called: such an index does nothing.
unfoldable pub step : System → Call → System × Option Error
unfolding begin_session release mark_connected disconnect select recover issue
step s begin =
    let (m, backend, e) = begin_session s.manager in
    (record s { manager = m; released = issue backend s.released }, e)
step s (end_session i) =
    let (m, flag) = release s.manager (get_or s.released i true) in
    (record s { manager = m; released = set s.released i flag }, none)
step s mark = let (m, e) = mark_connected s.manager in (record s { manager = m }, e)
step s disconnect_host = let (m, e) = disconnect s.manager in (record s { manager = m }, e)
step s recover_host = let (m, e) = recover s.manager in (record s { manager = m }, e)
step s (select_host next validated closed) =
    let (m, e) = select s.manager next validated closed in (record s { manager = m }, e)

unfoldable pub run : System → List Call → System
run s [] = s
run s (c ∷ cs) = run (step s c).0 cs

-- The sessions that have not been released.
abbrev pub outstanding : List Bool → ℕ
outstanding [] = 0
outstanding (false ∷ flags) = suc (outstanding flags)
outstanding (true ∷ flags) = outstanding flags
