-- ===== src/Fat32/Validate/Ranges.antt =====
-- The tests of validateRanges (layout.go) on single ranges: inside the volume, the file, the card.
use text.Mathlib.Text.{◌==◌ as str_eq}
use text.Mathlib.TextEquality.{eq_iff}
use wii_bridge.Common.{
  Each, ◌≡◌, ◌≢◌, refl, sym, String, Bool, true, false, ◌||◌, not, Option, none, some, List, [],
  ◌∷◌, if◌then◌else◌, arith, Bool-cases, inl, inr, ℤ, pos, negsuc, less, sub64, IsInt64, IsSize,
  IsWithin, sub64-IsWithin, positive,
}
use wii_bridge.Fat32.Handles.{has_path}
use wii_bridge.Fat32.Validate.{
  MetadataRange, SourceRange, SaveRange, metadata_outside, metadata_fault, source_outside,
  source_fault, save_outside, save_fault, RangeFault, metadata_exceeds, source_exceeds,
  save_exceeds, duplicate_save,
}

-- No save object stands in two ranges.
abbrev pub AllOther : String → List SaveRange → Type 0
AllOther id [] = Unit
AllOther id (e ∷ es) = (e.save_object_id ≢ id) × AllOther id es

abbrev pub UniqueObjects : List SaveRange → Type 0
UniqueObjects [] = Unit
UniqueObjects (e ∷ es) = AllOther e.save_object_id es × UniqueObjects es

none_seen : (seen : List String) → Each (λ id. AllOther id []) seen
none_seen [] = tt
none_seen (id ∷ seen) = (tt, none_seen seen)

seen_apart :
    (e : SaveRange) (es : List SaveRange) (seen : List String)
    → has_path e.save_object_id seen ≡ false
    → Each (λ id. AllOther id es) seen
    → Each (λ id. AllOther id (e ∷ es)) seen
seen_apart e es [] new others = tt
seen_apart e es (id ∷ seen) new (other, others) = elim (Bool-cases (str_eq id e.save_object_id)) [
  | inl same ↦ absurd (ground arith)
  | inr differs ↦ (
    ((λ one. cc (differs, (eq_iff id e.save_object_id).1 (sym one))), other),
    seen_apart e es seen (ground arith) others,
  )
]

-- A metadata range that is in the volume, and not empty.
abbrev pub IsMetadataInside : ℤ → MetadataRange → Type 0
IsMetadataInside size e = IsWithin size e.virtual_offset e.length × (e.length ≢ pos 0)

-- A source range that is in the volume, and in its file.
abbrev pub IsSourceInside : ℤ → SourceRange → Type 0
IsSourceInside size e =
    IsWithin size e.virtual_offset e.length × IsWithin e.source_size e.source_offset e.length

-- A save range that is in the volume, in its card, not empty, and of a named object.
abbrev pub IsSaveInside : ℤ → SaveRange → Type 0
IsSaveInside size e =
    IsWithin size e.virtual_offset e.length
    × IsWithin e.card_size e.card_offset e.length
    × (e.length ≢ pos 0)
    × (e.save_object_id ≢ "")

if_some :
    (b : Bool) (f : RangeFault) (o : Option RangeFault)
    → (if b then some f else o) ≡ none
    → (b ≡ false) × (o ≡ none)
if_some true f o h = absurd (cc h)
if_some false f o h = (refl, h)

or_false : (a b : Bool) → (a || b) ≡ false → (a ≡ false) × (b ≡ false)
or_false true b h = absurd (cc h)
or_false false b h = (refl, h)

metadata_inside :
    (size : ℤ) (e : MetadataRange)
    → IsSize size
    → IsInt64 e.length
    → metadata_outside size e ≡ false
    → IsMetadataInside size e
metadata_inside size e small range h =
    let (at, h1) =
      or_false (less e.virtual_offset (pos 0))
        (not (less (pos 0) e.length) || less (sub64 size e.length) e.virtual_offset) h in
    let (len, fits) =
      or_false (not (less (pos 0) e.length)) (less (sub64 size e.length) e.virtual_offset) h1 in
    let (up, some_length) = positive e.length len in
    (sub64-IsWithin size e.virtual_offset e.length small range at up fits, some_length)

source_inside :
    (size : ℤ) (e : SourceRange)
    → IsSize size
    → IsInt64 e.length
    → IsSize e.source_size
    → source_outside size e ≡ false
    → IsSourceInside size e
source_inside size e small range file h =
    let in_file = less (sub64 e.source_size e.length) e.source_offset in
    let in_volume = less (sub64 size e.length) e.virtual_offset in
    let start = less e.source_offset (pos 0) in
    let (at, h1) =
      or_false (less e.virtual_offset (pos 0))
        (less e.length (pos 0) || (start || (in_file || in_volume))) h in
    let (up, h2) = or_false (less e.length (pos 0)) (start || (in_file || in_volume)) h1 in
    let (from, h3) = or_false start (in_file || in_volume) h2 in
    let (fits, fits') = or_false in_file in_volume h3 in
    (
      sub64-IsWithin size e.virtual_offset e.length small range at up fits',
      sub64-IsWithin e.source_size e.source_offset e.length file range from up fits,
    )

positive-IsSize : (n : ℤ) → IsInt64 n → less n (pos 0) ≡ false → IsSize n
positive-IsSize (pos n) range h = (n, refl, range)
positive-IsSize (negsuc n) range h = absurd (cc h)

save_inside :
    (size : ℤ) (e : SaveRange)
    → IsSize size
    → IsInt64 e.length
    → IsInt64 e.card_size
    → save_outside size e ≡ false
    → IsSaveInside size e
save_inside size e small range card h =
    let empty = not (less (pos 0) e.length) in
    let unnamed = str_eq e.save_object_id "" in
    let start = less e.card_offset (pos 0) in
    let no_card = not (less (pos 0) e.card_size) in
    let in_card = less (sub64 e.card_size e.length) e.card_offset in
    let in_volume = less (sub64 size e.length) e.virtual_offset in
    let (at, h1) =
      or_false (less e.virtual_offset (pos 0))
        (empty || (unnamed || (start || (no_card || (in_card || in_volume))))) h in
    let (len, h2) = or_false empty (unnamed || (start || (no_card || (in_card || in_volume)))) h1 in
    let (named, h3) = or_false unnamed (start || (no_card || (in_card || in_volume))) h2 in
    let (from, h4) = or_false start (no_card || (in_card || in_volume)) h3 in
    let (card_len, h5) = or_false no_card (in_card || in_volume) h4 in
    let (fits, fits') = or_false in_card in_volume h5 in
    let (up, some_length) = positive e.length len in
    let card' = positive-IsSize e.card_size card (positive e.card_size card_len).0 in
    (
      sub64-IsWithin size e.virtual_offset e.length small range at up fits',
      sub64-IsWithin e.card_size e.card_offset e.length card' range from up fits,
      some_length,
      λ none. cc (named, (eq_iff e.save_object_id "").1 none),
    )

pub metadata_fault_lem :
    (size : ℤ) (es : List MetadataRange)
    → IsSize size
    → Each (λ e. IsInt64 e.length) es
    → metadata_fault size es ≡ none
    → Each (IsMetadataInside size) es
unfolding metadata_fault
metadata_fault_lem size [] small ranges h = tt
metadata_fault_lem size (e ∷ es) small (range, ranges) h =
    let (fits, rest) =
      if_some (metadata_outside size e) metadata_exceeds (metadata_fault size es) h in
    (metadata_inside size e small range fits, metadata_fault_lem size es small ranges rest)

pub source_fault_lem :
    (size : ℤ) (es : List SourceRange)
    → IsSize size
    → Each (λ e. IsInt64 e.length × IsSize e.source_size) es
    → source_fault size es ≡ none
    → Each (IsSourceInside size) es
unfolding source_fault
source_fault_lem size [] small ranges h = tt
source_fault_lem size (e ∷ es) small ((range, file), ranges) h =
    let (fits, rest) = if_some (source_outside size e) source_exceeds (source_fault size es) h in
    (source_inside size e small range file fits, source_fault_lem size es small ranges rest)

pub save_fault_lem :
    (size : ℤ) (seen : List String) (es : List SaveRange)
    → IsSize size
    → Each (λ e. IsInt64 e.length × IsInt64 e.card_size) es
    → save_fault size seen es ≡ none
    → UniqueObjects es × Each (IsSaveInside size) es × Each (λ id. AllOther id es) seen
unfolding save_fault
save_fault_lem size seen [] small ranges h = (tt, tt, none_seen seen)
save_fault_lem size seen (e ∷ es) small ((range, card), ranges) h =
    let id = e.save_object_id in
    let (fits, rest) =
      if_some (save_outside size e) save_exceeds
        (if has_path id seen then some duplicate_save else save_fault size (id ∷ seen) es) h in
    let (new, rest') =
      if_some (has_path id seen) duplicate_save (save_fault size (id ∷ seen) es) rest in
    let (unique, inside, (others, seen_others)) =
      save_fault_lem size (id ∷ seen) es small ranges rest' in
    (
      (others, unique),
      (save_inside size e small range card fits, inside),
      seen_apart e es seen new seen_others,
    )
