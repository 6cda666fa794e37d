-- ===== src/Compat/Evaluation/Examples.antt =====
-- The theorems of the compatibility contract at concrete descriptors.
use wii_bridge.Common.{◌≢◌, refl, true, some, [], ◌∷◌, List, String}
use wii_bridge.Compat.{Descriptor, Go, validate, check_capabilities, blocked}
use wii_bridge.Compat.Requirements.{
  wii_connect, requirements_for, cap_wii_read_only, cap_nbd_connect, cap_usb_attach,
}
use wii_bridge.Compat.Evaluation.{
  EvaluateOptions, check, check_identity, negotiate, check_required, check_optional, assess,
  evaluate,
}
use wii_bridge.Compat.Evaluation.Contract.{Fit, evaluate_lem}

abbrev go : Go
go = record { is_rfc3339 = λ s. true; matches_capability = λ s. true; sort_strings = λ xs. xs }

abbrev descriptor : String → List String → Descriptor
descriptor platform capabilities = record {
  schema_version = 1;
  protocol_min = 1;
  protocol_max = 1;
  product_version = "1.0";
  revision = "abc";
  build_time = "unknown";
  platform = platform;
  board = "pi-zero-2w";
  device_id = "";
  capabilities = capabilities;
}

abbrev host : Descriptor
host = descriptor "host" []

abbrev firmware : Descriptor
firmware = descriptor "firmware" (cap_usb_attach ∷ cap_nbd_connect ∷ cap_wii_read_only ∷ [])

abbrev options : EvaluateOptions
options = record {
  operation = wii_connect;
  expected_board = "pi-zero-2w";
  expected_device_id = "";
  board_supported = some true;
  additional_required = [];
  now = 1;
}

allowed : (evaluate go host firmware options).status ≢ blocked
unfolding evaluate validate check_capabilities assess check check_identity negotiate check_required
    check_optional requirements_for
allowed e = absurd (cc e)

evaluate_lem_example : Fit go host firmware options (evaluate go host firmware options)
evaluate_lem_example = evaluate_lem go host firmware options (λ xs. refl) allowed
