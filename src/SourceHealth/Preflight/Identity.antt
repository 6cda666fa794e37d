-- ===== src/SourceHealth/Preflight/Identity.antt =====
-- The identity of a source root across checks (sourcehealth.go).
use text.Mathlib.TextEquality.{eq_iff}
use wii_bridge.Common.{
  ℕ, ◌+◌, ◌≡◌, ◌≢◌, refl, sym, ◌∙◌, ap, subst, String, true, false, Option, none, some, arith,
  Bool-cases, Option-cases, inl, inr,
}
use wii_bridge.SourceHealth.{
  State, Code, available, Record, OsError, SourceId, base, failure, classify,
}
use wii_bridge.SourceHealth.Preflight.{
  Probe, identity_problem, had_items, listing_problem, problem, info_of, id_of, trusted, preflight,
  forget, preflight_replacement,
}

-- What a failed check leaves of the last trusted record.
pub record Kept (previous : Record) (path : String) (r : Record) : Type 0 where
  pub checked_path : r.root_path ≡ path
  pub same_source : r.source_id ≡ previous.source_id
  pub same_filesystem_id : r.filesystem_id ≡ previous.filesystem_id
  pub same_inode : r.root_inode ≡ previous.root_inode
  pub same_device : r.last_known_device ≡ previous.last_known_device
  pub same_mount : r.last_known_mount_info ≡ previous.last_known_mount_info
  pub same_count : r.last_successful_item_count ≡ previous.last_successful_item_count
  pub same_success : r.last_successful_scan ≡ previous.last_successful_scan
  pub counted : r.consecutive_failures ≡ previous.consecutive_failures + 1

failure-Kept :
    (source_id : SourceId) (previous : Record) (root : String) (s : State) (c : _) (now : ℕ)
    → Kept previous root (failure source_id (some previous) root s c now)
unfolding failure base
failure-Kept source_id previous root s c now = ground arith

classify-state : (e : OsError) → (classify e).0 ≢ available
unfolding classify
classify-state OsError.permission h = absurd (cc h)
classify-state _ h = absurd (cc h)

problem-state :
    (previous : Option Record) (probe : Probe) (p : _)
    → problem previous probe ≡ some p
    → p.0 ≢ available
unfolding problem identity_problem listing_problem
problem-state none probe p h e = grind (arith, classify-state)
problem-state (some previous) probe p h e = grind (arith, classify-state)

-- A failed check is a failure by the root's problem.
record Failed (source_id : SourceId) (previous : Option Record) (probe : Probe) (now : ℕ)
    : Type 0 where
  problem_found : State × Code
  found : problem previous probe ≡ some problem_found
  by_failure :
      (preflight source_id previous probe now).outcome
      ≡ failure source_id previous probe.absolute problem_found.0 problem_found.1 now

preflight-Failed :
    (source_id : SourceId) (previous : Option Record) (probe : Probe) (now : ℕ)
    → (preflight source_id previous probe now).failed ≡ true
    → Failed source_id previous probe now
unfolding preflight
preflight-Failed source_id previous probe now h = elim (Option-cases (problem previous probe)) [
  | inl fine ↦
      let flag : (preflight source_id previous probe now).failed ≡ false = rw (fine, preflight) in
      absurd (cc (sym h ∙ flag))
  | inr (p, found) ↦ record { problem_found = p; found = found; by_failure = rw (found, preflight) }
]

failure-state :
    (source_id : SourceId) (previous : Option Record) (root : String) (s : State) (c : Code)
    (now : ℕ)
    → (failure source_id previous root s c now).state ≡ s
unfolding failure
failure-state source_id previous root s c now = refl

Failed-state :
    (source_id : SourceId) (previous : Option Record) (probe : Probe) (now : ℕ)
    → Failed source_id previous probe now
    → (preflight source_id previous probe now).outcome.state ≢ available
Failed-state source_id previous probe now f e =
    problem-state previous probe f.problem_found f.found (
      sym (failure-state source_id previous probe.absolute f.problem_found.0 f.problem_found.1 now)
      ∙ sym (ap (λ r. r.state) f.by_failure)
      ∙ e)

preflight-Kept :
    (source_id : SourceId) (previous : Record) (probe : Probe) (now : ℕ)
    → Failed source_id (some previous) probe now
    → Kept previous probe.absolute (preflight source_id (some previous) probe now).outcome
preflight-Kept source_id previous probe now f =
    subst (Kept previous probe.absolute) (sym f.by_failure)
      (failure-Kept source_id previous probe.absolute f.problem_found.0 f.problem_found.1 now)

failure-path :
    (source_id : SourceId) (previous : Option Record) (root : String) (s : State) (c : Code)
    (now : ℕ)
    → (failure source_id previous root s c now).root_path ≡ root
unfolding failure base
failure-path source_id none root s c now = refl
failure-path source_id (some previous) root s c now = refl

preflight-path :
    (source_id : SourceId) (previous : Option Record) (probe : Probe) (now : ℕ)
    → Failed source_id previous probe now
    → (preflight source_id previous probe now).outcome.root_path ≡ probe.absolute
preflight-path source_id previous probe now f =
    ap (λ r. r.root_path) f.by_failure
    ∙ failure-path source_id previous probe.absolute f.problem_found.0 f.problem_found.1 now

replacement-Kept :
    (source_id : SourceId) (previous : Record) (probe : Probe) (now : ℕ)
    → (preflight_replacement source_id previous probe now).failed ≡ true
    → let r = (preflight_replacement source_id previous probe now).outcome in
      Kept previous probe.absolute r × (r.state ≢ available)
unfolding preflight_replacement
replacement-Kept source_id previous probe now h =
    let checked = preflight source_id (some (forget previous)) probe now in
    elim (Bool-cases checked.failed) [
      | inl bad ↦
          let f = preflight-Failed source_id (some (forget previous)) probe now bad in
          let kept =
            failure-Kept source_id previous checked.outcome.root_path checked.outcome.state
              checked.outcome.failure_code checked.outcome.last_attempted_scan in
          let path = preflight-path source_id (some (forget previous)) probe now f in
          rw bad (
            subst
                (λ t. Kept previous t (
                  failure source_id (some previous) checked.outcome.root_path checked.outcome.state
                    checked.outcome.failure_code checked.outcome.last_attempted_scan))
                path kept,
            λ e. Failed-state source_id (some (forget previous)) probe now f (
                sym (
                  failure-state source_id (some previous) checked.outcome.root_path
                    checked.outcome.state checked.outcome.failure_code
                    checked.outcome.last_attempted_scan)
                ∙ e),
          )
      | inr good ↦ absurd (ground arith)
    ]

-- A failed check of a known source keeps the source's id, the file system's id, the root's inode,
-- the device, the mount, the last item count and the time of the last success, counts the failure,
-- and does not leave the source available; so does a failed check of a replacement. The record's
-- path is not kept: it becomes the path that was checked.
pub failed_check_keeps :
    (source_id : SourceId) (previous : Record) (probe : Probe) (now : ℕ)
    → let first = preflight source_id (some previous) probe now in
      let second = preflight_replacement source_id previous probe now in
      (first.failed ≡ true
        → Kept previous probe.absolute first.outcome × (first.outcome.state ≢ available))
      × (second.failed ≡ true
          → Kept previous probe.absolute second.outcome × (second.outcome.state ≢ available))
failed_check_keeps source_id previous probe now = (
  λ h.
      let f = preflight-Failed source_id (some previous) probe now h in
      (
        preflight-Kept source_id previous probe now f,
        Failed-state source_id (some previous) probe now f,
      ),
  replacement-Kept source_id previous probe now,
)

preflight-fine :
    (source_id : SourceId) (previous : Option Record) (probe : Probe) (now : ℕ)
    → (preflight source_id previous probe now).failed ≡ false
    → (problem previous probe ≡ none)
      × ((preflight source_id previous probe now).outcome ≡ trusted source_id previous probe now)
unfolding preflight
preflight-fine source_id previous probe now h = elim (Option-cases (problem previous probe)) [
  | inl fine ↦ (fine, rw (fine, preflight))
  | inr (p, found) ↦
      let flag : (preflight source_id previous probe now).failed ≡ true = rw (found, preflight) in
      absurd (cc (sym h ∙ flag))
]

trusted_lem :
    (source_id : SourceId) (previous : Record) (probe : Probe) (now : ℕ)
    → previous.filesystem_id ≢ ""
    → problem (some previous) probe ≡ none
    → let r = trusted source_id (some previous) probe now in
      (r.state ≡ available)
      × (r.filesystem_id ≡ previous.filesystem_id)
      × (r.root_inode ≡ previous.root_inode)
      × (r.root_path ≡ previous.root_path)
      × (r.root_inode ≢ 0)
      × (id_of probe.stable_id ≡ previous.filesystem_id)
      × ((info_of probe.lstat).inode ≡ previous.root_inode)
      × (probe.absolute ≡ previous.root_path)
      × (had_items (some previous) ≡ true → probe.is_empty ≡ false)
unfolding problem identity_problem listing_problem trusted base
trusted_lem source_id previous probe now known h = ground (
  arith,
  eq_iff (id_of probe.stable_id) previous.filesystem_id,
  eq_iff (id_of probe.stable_id) "",
  eq_iff probe.absolute previous.root_path,
  eq_iff previous.filesystem_id "",
)

-- A check that succeeds against a record with a file system's identity found the recorded
-- identity: the operating system answered with the recorded file system's id and the recorded
-- inode, which is not 0, at the recorded path. The new record is available and has this identity;
-- and if the last scan had found items, the root is not empty.
pub preflight_same_identity :
    (source_id : SourceId) (previous : Record) (probe : Probe) (now : ℕ)
    → previous.filesystem_id ≢ ""
    → (preflight source_id (some previous) probe now).failed ≡ false
    → let r = (preflight source_id (some previous) probe now).outcome in
      (r.state ≡ available)
      × (r.filesystem_id ≡ previous.filesystem_id)
      × (r.root_inode ≡ previous.root_inode)
      × (r.root_path ≡ previous.root_path)
      × (r.root_inode ≢ 0)
      × (id_of probe.stable_id ≡ previous.filesystem_id)
      × ((info_of probe.lstat).inode ≡ previous.root_inode)
      × (probe.absolute ≡ previous.root_path)
      × (had_items (some previous) ≡ true → probe.is_empty ≡ false)
preflight_same_identity source_id previous probe now known h =
    let (fine, result) = preflight-fine source_id (some previous) probe now h in
    rw result (trusted_lem source_id previous probe now known fine)
