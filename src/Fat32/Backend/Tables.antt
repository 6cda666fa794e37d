-- ===== src/Fat32/Backend/Tables.antt =====
-- The lookups findSave, findMetadata and findSource of backend.go on ordered tables.
use wii_bridge.Common.{
  along_some, ℕ, ◌≡◌, refl, sym, ◌∙◌, String, Option, none, some, List, [], ◌∷◌, leb, if◌then◌else◌,
  Bool-cases, ◌≢◌, inl, inr,
}
use wii_bridge.Common.Search.{search_table}
use wii_bridge.Fat32.{Extent, MetadataExtent, SaveExtent}
use wii_bridge.Fat32.Backend.{find_save, find_metadata, find_source}
use wii_bridge.Fat32.Backend.Lookup.{
  covers, covering, Ordered, ends_past, if_covered, search-covering, head_covers, tail_covers,
}

abbrev pub save_at : List SaveExtent → ℕ → Option SaveExtent
save_at = covering (λ e. e.virtual_offset) (λ e. e.length)

abbrev pub metadata_at : List MetadataExtent → ℕ → Option MetadataExtent
metadata_at = covering (λ e. e.virtual_offset) (λ e. e.length)

abbrev pub source_at : List Extent → ℕ → Option Extent
source_at = covering (λ e. e.virtual_offset) (λ e. e.length)

save_covered :
    (p : ℕ) (o : Option SaveExtent)
    → elim o [ none ↦ none | some e ↦ if leb e.virtual_offset p then some e else none ]
      ≡ if_covered (λ e. e.virtual_offset) (λ e. e.length) p o
save_covered p none = refl
save_covered p (some e) = refl

pub find_save_lem :
    (es : List SaveExtent) (p : ℕ)
    → Ordered (λ e. e.virtual_offset) (λ e. e.length) es
    → find_save es p ≡ save_at es p
unfolding find_save
find_save_lem es p o =
    save_covered p (search_table (ends_past (λ e. e.virtual_offset) (λ e. e.length) p) es)
    ∙ search-covering (λ e. e.virtual_offset) (λ e. e.length) p es o

-- No card stands in two extents.
abbrev pub AllOther : String → List SaveExtent → Type 0
AllOther id [] = Unit
AllOther id (e ∷ es) = (e.save_object_id ≢ id) × AllOther id es

abbrev pub UniqueCards : List SaveExtent → Type 0
UniqueCards [] = Unit
UniqueCards (e ∷ es) = AllOther e.save_object_id es × UniqueCards es

AllOther-save_at :
    (id : String) (es : List SaveExtent) (p : ℕ) (e : SaveExtent)
    → AllOther id es
    → save_at es p ≡ some e
    → e.save_object_id ≢ id
AllOther-save_at id [] p e o h = absurd (cc h)
AllOther-save_at id (e' ∷ es) p e (o, os) h =
    elim (Bool-cases (covers (λ t. t.virtual_offset) (λ t. t.length) e' p)) [
      | inl here ↦
          along_some (λ t. t.save_object_id ≢ id) e' e
            (head_covers (λ t. t.virtual_offset) (λ t. t.length) e' es p e here h) o
      | inr there ↦
          AllOther-save_at id es p e os
            (tail_covers (λ t. t.virtual_offset) (λ t. t.length) e' es p e there h)
    ]

-- Positions of the same card are in the same extent.
pub UniqueCards-save_at :
    (es : List SaveExtent) (p q : ℕ) (e d : SaveExtent)
    → UniqueCards es
    → save_at es p ≡ some e
    → save_at es q ≡ some d
    → e.save_object_id ≡ d.save_object_id
    → some e ≡ some d
UniqueCards-save_at [] p q e d u hp hq same = absurd (cc hp)
UniqueCards-save_at (e' ∷ es) p q e d (u, us) hp hq same =
    let start : SaveExtent → ℕ = λ t. t.virtual_offset in
    let len : SaveExtent → ℕ = λ t. t.length in
    elim (Bool-cases (covers start len e' p)) [
      | inl here ↦
          let first = head_covers start len e' es p e here hp in
          elim (Bool-cases (covers start len e' q)) [
            | inl here' ↦ sym first ∙ head_covers start len e' es q d here' hq
            | inr there' ↦
                let id : e'.save_object_id ≡ d.save_object_id =
                  along_some (λ t. t.save_object_id ≡ d.save_object_id) e e' (sym first) same in
                absurd (
                  AllOther-save_at e'.save_object_id es q d u
                    (tail_covers start len e' es q d there' hq) (sym id))
          ]
      | inr there ↦
          let rest = tail_covers start len e' es p e there hp in
          elim (Bool-cases (covers start len e' q)) [
            | inl here' ↦
                let id : e.save_object_id ≡ e'.save_object_id =
                  along_some (λ t. e.save_object_id ≡ t.save_object_id) d e'
                    (sym (head_covers start len e' es q d here' hq)) same in
                absurd (AllOther-save_at e'.save_object_id es p e u rest id)
            | inr there' ↦
                UniqueCards-save_at es p q e d us rest (tail_covers start len e' es q d there' hq)
                  same
          ]
    ]

metadata_covered :
    (p : ℕ) (o : Option MetadataExtent)
    → elim o [ none ↦ none | some e ↦ if leb e.virtual_offset p then some e else none ]
      ≡ if_covered (λ e. e.virtual_offset) (λ e. e.length) p o
metadata_covered p none = refl
metadata_covered p (some e) = refl

pub find_metadata_lem :
    (es : List MetadataExtent) (p : ℕ)
    → Ordered (λ e. e.virtual_offset) (λ e. e.length) es
    → find_metadata es p ≡ metadata_at es p
unfolding find_metadata
find_metadata_lem es p o =
    metadata_covered p (search_table (ends_past (λ e. e.virtual_offset) (λ e. e.length) p) es)
    ∙ search-covering (λ e. e.virtual_offset) (λ e. e.length) p es o

source_covered :
    (p : ℕ) (o : Option Extent)
    → elim o [ none ↦ none | some e ↦ if leb e.virtual_offset p then some e else none ]
      ≡ if_covered (λ e. e.virtual_offset) (λ e. e.length) p o
source_covered p none = refl
source_covered p (some e) = refl

pub find_source_lem :
    (es : List Extent) (p : ℕ)
    → Ordered (λ e. e.virtual_offset) (λ e. e.length) es
    → find_source es p ≡ source_at es p
unfolding find_source
find_source_lem es p o =
    source_covered p (search_table (ends_past (λ e. e.virtual_offset) (λ e. e.length) p) es)
    ∙ search-covering (λ e. e.virtual_offset) (λ e. e.length) p es o
