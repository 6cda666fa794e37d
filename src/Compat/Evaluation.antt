-- ===== src/Compat/Evaluation.antt =====
-- `Evaluate`, `MarkCachedStale` and `Unreachable` of compat.go.
pub mod Contract
mod Examples
use text.Mathlib.Text.{◌==◌ as str_eq}
use wii_bridge.Common.{
  ℕ, ◌+◌, ◌-◌, String, Bool, true, false, ◌&&◌, ◌||◌, not, Option, none, some, List, [], ◌∷◌, ◌++◌,
  ltb, leb, ◌==◌, max, min, if◌then◌else◌,
}
use wii_bridge.Compat.{
  Descriptor, Go, DescriptorError, contains, validate, State, compatible, compatible_with_warnings,
  blocked, unreachable, Problem, host_malformed, firmware_malformed, board_mismatch,
  board_unsupported, device_mismatch, no_overlap, capability_missing, status_stale,
  firmware_unreachable, Result,
}
use wii_bridge.Compat.Requirements.{Operation, Requirements, requirements_for}

-- `EvaluateOptions`, with the time set.
pub record EvaluateOptions : Type 0 where
  pub operation : Operation
  pub expected_board : String
  pub expected_device_id : String
  pub board_supported : Option Bool
  pub additional_required : List String
  pub now : ℕ

pub block : Problem → Result → Result
block p r = record r { status = blocked; errors = r.errors ++ (p ∷ []) }

-- An `if` that blocks.
pub check : Bool → Problem → Result → Result
check failed p r = if failed then block p r else r

abbrev pub differs : String → String → Bool
differs expected found = not (str_eq expected "") && not (str_eq found expected)

abbrev pub is_refused : Option Bool → Bool
is_refused none = false
is_refused (some supported) = not supported

-- The identity of the connected firmware.
pub check_identity : Descriptor → EvaluateOptions → Result → Result
check_identity firmware options r =
    check (differs options.expected_device_id firmware.device_id) device_mismatch (
      check (is_refused options.board_supported) board_unsupported
        (check (differs options.expected_board firmware.board) board_mismatch r))

pub negotiate : Descriptor → Descriptor → Result → Result
negotiate host firmware r =
    let minimum = max host.protocol_min firmware.protocol_min in
    let maximum = min host.protocol_max firmware.protocol_max in
    if ltb maximum minimum
    then block no_overlap r
    else record r { negotiated_protocol = some maximum }

-- The capabilities of the first list that the second one lacks.
abbrev pub lacking : List String → List String → List String
lacking [] available = []
lacking (c ∷ cs) available =
    let rest = lacking cs available in if contains available c then rest else c ∷ rest

abbrev pub is_empty : List String → Bool
is_empty [] = true
is_empty (c ∷ cs) = false

pub check_required : Go → List String → Descriptor → Result → Result
check_required go required firmware r =
    let missing = go.sort_strings (lacking required firmware.capabilities) in
    check (not (is_empty missing)) capability_missing (record r { missing_capabilities = missing })

-- A warning for each optional capability that is missing.
abbrev warn_all : List String → List Problem
warn_all [] = []
warn_all (c ∷ cs) = capability_missing ∷ warn_all cs

abbrev pub with_warnings : State → List Problem → State
with_warnings compatible (w ∷ ws) = compatible_with_warnings
with_warnings s ws = s

pub check_optional : List String → Descriptor → Result → Result
check_optional optional firmware r =
    let warnings = r.warnings ++ warn_all (lacking optional firmware.capabilities) in
    record r { warnings = warnings; status = with_warnings r.status warnings }

abbrev pub all_required : EvaluateOptions → List String
all_required options = (requirements_for options.operation).required ++ options.additional_required

abbrev pub start : Go → EvaluateOptions → Result
start go options = record {
  status = compatible;
  checked_at = options.now;
  negotiated_protocol = none;
  required_capabilities = go.sort_strings (all_required options);
  missing_capabilities = [];
  warnings = [];
  errors = [];
}

-- `Evaluate` behind the validation of both descriptors.
pub assess : Go → Descriptor → Descriptor → EvaluateOptions → Result → Result
assess go host firmware options r =
    check_optional (requirements_for options.operation).optional firmware (
      check_required go (all_required options) firmware
        (negotiate host firmware (check_identity firmware options r)))

pub evaluate : Go → Descriptor → Descriptor → EvaluateOptions → Result
evaluate go host firmware options = elim (validate go host "host") [
  | some e ↦ block host_malformed (start go options)
  | none ↦ elim (validate go firmware "firmware") [
    | some e ↦ block firmware_malformed (start go options)
    | none ↦ assess go host firmware options (start go options)
  ]
]

-- `MarkCachedStale`; 30 s is the default age, and a `checked_at` of 0 is the zero time.
pub mark_cached_stale : Result → ℕ → ℕ → Result
mark_cached_stale r now maximum_age =
    let age = if maximum_age == 0 then 30000000000 else maximum_age in
    if (r.checked_at == 0) || leb (now - r.checked_at) age then r else record r {
      warnings = r.warnings ++ (status_stale ∷ []);
      status = with_warnings r.status (status_stale ∷ []);
    }

pub unreachable_result : ℕ → Result
unreachable_result now = record {
  status = unreachable;
  checked_at = now;
  negotiated_protocol = none;
  required_capabilities = [];
  missing_capabilities = [];
  warnings = [];
  errors = firmware_unreachable ∷ [];
}
