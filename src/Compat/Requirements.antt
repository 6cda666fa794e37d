-- ===== src/Compat/Requirements.antt =====
-- The operations of compat.go and the capabilities that each needs.
use wii_bridge.Common.{String, List, [], ◌∷◌}

pub data Operation : Type 0 where
  status wii_connect gamecube_physical gamecube_emulated usb_detach usb_attach : Operation
  nbd_disconnect safe_disconnect automatic_switch reboot shutdown performance_metrics : Operation

pub record Requirements : Type 0 where
  pub required : List String
  pub optional : List String

abbrev pub cap_wii_read_only : String
cap_wii_read_only = "wii-read-only-export-v1"

abbrev pub cap_gamecube_schema2 : String
cap_gamecube_schema2 = "gamecube-schema2-no-copy-v1"

abbrev pub cap_gamecube_physical_memory_card : String
cap_gamecube_physical_memory_card = "gamecube-physical-memory-card-v1"

abbrev pub cap_gamecube_save_overlay : String
cap_gamecube_save_overlay = "gamecube-save-overlay-v1"

abbrev pub cap_safe_platform_switching : String
cap_safe_platform_switching = "safe-platform-switching-v1"

abbrev pub cap_usb_detach : String
cap_usb_detach = "usb-detach-v1"

abbrev pub cap_usb_attach : String
cap_usb_attach = "usb-attach-v1"

abbrev pub cap_nbd_connect : String
cap_nbd_connect = "nbd-connect-v1"

abbrev pub cap_nbd_disconnect : String
cap_nbd_disconnect = "nbd-disconnect-v1"

abbrev pub cap_automatic_platform_switching : String
cap_automatic_platform_switching = "automatic-platform-switching-v1"

abbrev pub cap_firmware_reboot : String
cap_firmware_reboot = "firmware-reboot-v1"

abbrev pub cap_firmware_shutdown : String
cap_firmware_shutdown = "firmware-shutdown-v1"

abbrev pub cap_diagnostic_status : String
cap_diagnostic_status = "diagnostic-status-v1"

abbrev pub cap_runtime_metrics : String
cap_runtime_metrics = "runtime-metrics-v1"

abbrev only : List String → Requirements
only caps = record { required = caps; optional = [] }

-- The operations that have no case of their own are `status`.
unfoldable pub requirements_for : Operation → Requirements
requirements_for wii_connect = only (cap_wii_read_only ∷ cap_nbd_connect ∷ cap_usb_attach ∷ [])
requirements_for gamecube_physical = only (
    cap_gamecube_schema2 ∷ cap_gamecube_physical_memory_card ∷ cap_safe_platform_switching
    ∷ cap_nbd_connect ∷ cap_usb_attach ∷ [])
requirements_for gamecube_emulated = only (
    cap_gamecube_schema2 ∷ cap_gamecube_save_overlay ∷ cap_safe_platform_switching ∷ cap_nbd_connect
    ∷ cap_usb_attach ∷ [])
requirements_for usb_detach = only (cap_usb_detach ∷ [])
requirements_for usb_attach = only (cap_usb_attach ∷ [])
requirements_for nbd_disconnect = only (cap_nbd_disconnect ∷ [])
requirements_for safe_disconnect = only (cap_usb_detach ∷ cap_nbd_disconnect ∷ [])
requirements_for automatic_switch = only (
    cap_automatic_platform_switching ∷ cap_safe_platform_switching ∷ cap_usb_detach
    ∷ cap_nbd_disconnect ∷ cap_nbd_connect ∷ cap_usb_attach ∷ [])
requirements_for reboot = only (cap_firmware_reboot ∷ [])
requirements_for shutdown = only (cap_firmware_shutdown ∷ [])
requirements_for performance_metrics = record { required = []; optional = cap_runtime_metrics ∷ [] }
requirements_for status = record {
  required = cap_diagnostic_status ∷ [];
  optional = cap_runtime_metrics ∷ [];
}
