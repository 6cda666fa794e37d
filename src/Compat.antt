-- ===== src/Compat.antt =====
-- shared/compat/compat.go: the compatibility contract between the Host and the Pi's firmware.
-- Times are numbers of nanoseconds; messages of errors are left out. A number of a descriptor that
-- is negative is rejected as 0 is, so the fields are natural numbers.
pub mod Requirements
pub mod Evaluation
use Prim.Native.String.{len}
use text.Mathlib.Text.{◌==◌ as str_eq}
use wii_bridge.Common.{
  ℕ, ◌+◌, ◌-◌, String, Bool, true, false, ◌&&◌, ◌||◌, not, Option, none, some, List, [], ◌∷◌, ◌++◌,
  ◌≡◌, arith, ltb, leb, ◌==◌, max, min, if◌then◌else◌,
}

pub record Descriptor : Type 0 where
  pub schema_version : ℕ
  pub protocol_min : ℕ
  pub protocol_max : ℕ
  pub product_version : String
  pub revision : String
  pub build_time : String
  pub platform : String
  pub board : String
  pub device_id : String
  pub capabilities : List String

-- What the code takes from Go's library: time.Parse of a time.RFC3339 string succeeds, the regular
-- expression of the capabilities matches, sort.Strings.
pub record Go : Type 0 where
  pub is_rfc3339 : String → Bool
  pub matches_capability : String → Bool
  pub sort_strings : List String → List String

pub data DescriptorError : Type 0 where
  unsupported_schema invalid_range incomplete_identity not_rfc3339 : DescriptorError
  unexpected_platform invalid_platform no_board malformed duplicate : DescriptorError

abbrev pub contains : List String → String → Bool
contains [] x = false
contains (y ∷ ys) x = if str_eq y x then true else contains ys x

-- The loop over the capabilities, with those that were seen.
unfoldable pub check_capabilities : Go → List String → List String → Option DescriptorError
check_capabilities go seen [] = none
check_capabilities go seen (c ∷ cs) =
    if not (go.matches_capability c)
    then some malformed
    else if contains seen c
    then some duplicate
    else check_capabilities go (c ∷ seen) cs

-- Empty, or more bytes than the limit.
abbrev pub unfit : String → ℕ → Bool
unfit s limit = str_eq s "" || ltb limit (len s)

-- `Descriptor.Validate`.
unfoldable pub validate : Go → Descriptor → String → Option DescriptorError
validate go d expected_platform =
    if not (d.schema_version == 1)
    then some unsupported_schema
    else if ltb d.protocol_min 1 || ltb d.protocol_max d.protocol_min
    then some invalid_range
    else if unfit d.product_version 64 || unfit d.revision 128 || unfit d.build_time 64
    then some incomplete_identity
    else if not (str_eq d.build_time "unknown") && not (go.is_rfc3339 d.build_time)
    then some not_rfc3339
    else if not (str_eq expected_platform "") && not (str_eq d.platform expected_platform)
    then some unexpected_platform
    else if not (str_eq d.platform "host") && not (str_eq d.platform "firmware")
    then some invalid_platform
    else if str_eq d.platform "firmware" && unfit d.board 128
    then some no_board
    else check_capabilities go [] d.capabilities

-- An empty range of protocols is refused.
pub rejected-range :
    (go : Go) (d : Descriptor) (platform : String)
    → ltb d.protocol_max d.protocol_min ≡ true
    → validate go d platform ≡ none
    → ⊥
unfolding validate
rejected-range go d platform bad h = ground arith

pub data State : Type 0 where
  compatible compatible_with_warnings blocked unreachable unknown : State

pub data Problem : Type 0 where
  host_malformed firmware_malformed board_mismatch board_unsupported device_mismatch : Problem
  no_overlap capability_missing status_stale firmware_unreachable : Problem

pub record Result : Type 0 where
  pub status : State
  pub checked_at : ℕ
  pub negotiated_protocol : Option ℕ
  pub required_capabilities : List String
  pub missing_capabilities : List String
  pub warnings : List Problem
  pub errors : List Problem
