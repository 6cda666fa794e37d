-- ===== src/Fat32/Validate/Examples.antt =====
-- The check of a volume's tables at small tables, which stand in order already.
use mathlib.Core.List.Permᴰ as Permᴰ
use wii_bridge.Common.{◌≡◌, refl, none, List, [], ◌∷◌, pos, arith}
use wii_bridge.Fat32.Validate.{
  MetadataRange, SourceRange, SaveRange, metadata_fault, source_fault, save_fault, overlap_fault,
  validate_ranges,
}
use wii_bridge.Fat32.Validate.Sound.{IsAccepted, validate_ranges_lem}

abbrev metadata : List MetadataRange
metadata = record { virtual_offset = pos 0; length = pos 3 } ∷ []

abbrev sources : List SourceRange
sources =
    record { virtual_offset = pos 100; length = pos 8; source_offset = pos 4; source_size = pos 12 }
    ∷ []

abbrev saves : List SaveRange
saves =
    record {
      virtual_offset = pos 512;
      length = pos 1024;
      save_object_id = "a";
      card_offset = pos 0;
      card_size = pos 1024;
    }
    ∷ record {
      virtual_offset = pos 1536;
      length = pos 512;
      save_object_id = "b";
      card_offset = pos 512;
      card_size = pos 1024;
    }
    ∷ []

small_accepted : validate_ranges (λ ss. ss) (pos 4096) metadata sources saves ≡ none
unfolding validate_ranges metadata_fault source_fault save_fault overlap_fault
small_accepted = refl

validate_ranges_lem_example : IsAccepted (pos 4096) metadata sources saves 700
validate_ranges_lem_example =
    validate_ranges_lem (λ ss. ss) (pos 4096) metadata sources saves 700 (λ ss. Permᴰ.refl ss)
      (4096, refl, omega arith) (omega arith, tt) ((omega arith, (12, refl, omega arith)), tt)
      ((omega arith, omega arith), ((omega arith, omega arith), tt)) small_accepted
