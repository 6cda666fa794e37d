-- ===== src/Fat32/Validate.antt =====
-- `validateRanges` of layout.go: what a volume's tables must satisfy before a backend is opened.
-- The order that sort.Slice gives equal starts is not specified: it is an argument.
pub mod Apart
pub mod Ranges
pub mod Sound
mod Examples
use text.Mathlib.Text.{◌==◌ as str_eq}
use wii_bridge.Common.{
  String, Bool, ◌||◌, not, Option, none, some, List, [], ◌∷◌, ◌++◌, if◌then◌else◌, ℤ, pos, add64,
  sub64, less,
}
use wii_bridge.Fat32.Handles.{has_path}

pub data RangeFault : Type 0 where
  metadata_exceeds source_exceeds save_exceeds duplicate_save overlap : RangeFault

-- What validateRanges reads of a `MetadataExtent`, an `Extent` and a `SaveExtent`; the numbers are
-- int64 values, which may be negative.
pub record MetadataRange : Type 0 where
  pub virtual_offset : ℤ
  pub length : ℤ

pub record SourceRange : Type 0 where
  pub virtual_offset : ℤ
  pub length : ℤ
  pub source_offset : ℤ
  pub source_size : ℤ

pub record SaveRange : Type 0 where
  pub virtual_offset : ℤ
  pub length : ℤ
  pub save_object_id : String
  pub card_offset : ℤ
  pub card_size : ℤ

-- `span`.
pub record Span : Type 0 where
  pub first : ℤ
  pub end : ℤ

abbrev pub spans : {A : Type 0} → (A → ℤ) → (A → ℤ) → List A → List Span
spans start len [] = []
spans start len (e ∷ es) =
    record { first = start e; end = add64 (start e) (len e) } ∷ spans start len es

abbrev pub metadata_outside : ℤ → MetadataRange → Bool
metadata_outside size e =
    less e.virtual_offset (pos 0)
    || (not (less (pos 0) e.length) || less (sub64 size e.length) e.virtual_offset)

pub metadata_fault : ℤ → List MetadataRange → Option RangeFault
metadata_fault size [] = none
metadata_fault size (e ∷ es) =
    let rest = metadata_fault size es in
    if metadata_outside size e then some metadata_exceeds else rest

abbrev pub source_outside : ℤ → SourceRange → Bool
source_outside size e =
    less e.virtual_offset (pos 0)
    || (less e.length (pos 0)
        || (less e.source_offset (pos 0)
            || (less (sub64 e.source_size e.length) e.source_offset
                || less (sub64 size e.length) e.virtual_offset)))

pub source_fault : ℤ → List SourceRange → Option RangeFault
source_fault size [] = none
source_fault size (e ∷ es) =
    let rest = source_fault size es in if source_outside size e then some source_exceeds else rest

abbrev pub save_outside : ℤ → SaveRange → Bool
save_outside size e =
    less e.virtual_offset (pos 0)
    || (not (less (pos 0) e.length)
        || (str_eq e.save_object_id ""
            || (less e.card_offset (pos 0)
                || (not (less (pos 0) e.card_size)
                    || (less (sub64 e.card_size e.length) e.card_offset
                        || less (sub64 size e.length) e.virtual_offset)))))

-- With the identifiers that were seen.
pub save_fault : ℤ → List String → List SaveRange → Option RangeFault
save_fault size seen [] = none
save_fault size seen (e ∷ es) =
    let rest = save_fault size (e.save_object_id ∷ seen) es in
    if save_outside size e
    then some save_exceeds
    else if has_path e.save_object_id seen
    then some duplicate_save
    else rest

-- The spans in the order of their starts: none reaches into the next.
pub overlap_fault : List Span → Option RangeFault
overlap_fault [] = none
overlap_fault (s ∷ []) = none
overlap_fault (s ∷ t ∷ ss) =
    let rest = overlap_fault (t ∷ ss) in if less t.first s.end then some overlap else rest

abbrev pub all_spans : List MetadataRange → List SourceRange → List SaveRange → List Span
all_spans metadata sources saves =
    spans (λ e. e.virtual_offset) (λ e. e.length) metadata
    ++ (spans (λ e. e.virtual_offset) (λ e. e.length) sources
        ++ spans (λ e. e.virtual_offset) (λ e. e.length) saves)

-- `validateRanges`: the error, if there is one.
pub validate_ranges :
    (List Span → List Span)
    → ℤ
    → List MetadataRange
    → List SourceRange
    → List SaveRange
    → Option RangeFault
validate_ranges sort size metadata sources saves = elim (metadata_fault size metadata) [
  | some f ↦ some f
  | none ↦ elim (source_fault size sources) [
    | some f ↦ some f
    | none ↦ elim (save_fault size [] saves) [
      | some f ↦ some f
      | none ↦ overlap_fault (sort (all_spans metadata sources saves))
    ]
  ]
]
