-- ===== src/Fat32/Validate/Sound.antt =====
-- The tables that validateRanges (layout.go) accepts are inside the volume and apart.
use mathlib.Core.List.{Permᴰ}
use mathlib.Core.List.Permᴰ as Permᴰ
use wii_bridge.Common.{
  Each, ℕ, ◌+◌, ◌≤◌, ◌≡◌, refl, sym, ◌∙◌, true, Option, none, some, List, [], ◌∷◌, ◌++◌, arith,
  Bool-cases, Option-cases, ◌⊎◌, inl, inr, ℤ, add64, natural, IsInt64, IsSize, IsWithin,
  add64-natural,
}
use wii_bridge.Fat32.Backend.Lookup.{covers, covering, covering_past}
use wii_bridge.Fat32.Validate.{
  MetadataRange, SourceRange, SaveRange, Span, spans, metadata_fault, source_fault, save_fault,
  overlap_fault, all_spans, validate_ranges, RangeFault,
}
use wii_bridge.Fat32.Validate.Ranges.{
  UniqueObjects, IsMetadataInside, IsSourceInside, IsSaveInside, metadata_fault_lem,
  source_fault_lem, save_fault_lem,
}
use wii_bridge.Fat32.Validate.Apart.{
  in_span, IsApart, AllApart, Disjoint, Each-behind, Each-front, Each-append, Each-Perm,
  Disjoint-behind, Disjoint-Perm, overlap_fault-Disjoint,
}

module _ {A : Type 0} (start len : A → ℤ) where
  -- The item that covers a position.
  abbrev pub covering_range : List A → ℕ → Option A
  covering_range = covering (λ e. natural (start e)) (λ e. natural (len e))

  -- An item whose end does not wrap.
  abbrev IsWhole : A → Type 0
  IsWhole e = natural (add64 (start e) (len e)) ≡ natural (start e) + natural (len e)

  spans_up :
      (es : List A)
      → Each IsWhole es
      → Each (λ t. natural t.first ≤ natural t.end) (spans start len es)
  spans_up [] h = tt
  spans_up (e ∷ es) (h, hs) = (omega (arith, h), spans_up es hs)

  in_span-covers :
      (e : A) (p : ℕ)
      → IsWhole e
      → in_span (record { first = start e; end = add64 (start e) (len e) }) p
        ≡ covers (λ t. natural (start t)) (λ t. natural (len t)) e p
  in_span-covers e p h = rw h

  AllApart-covering :
      (s : Span) (es : List A) (p : ℕ)
      → Each IsWhole es
      → AllApart s (spans start len es)
      → in_span s p ≡ true
      → covering_range es p ≡ none
  AllApart-covering s [] p whole h inside = refl
  AllApart-covering s (e ∷ es) p (w, ws) (h, hs) inside =
      covering_past (λ t. natural (start t)) (λ t. natural (len t)) e es p
        (sym (in_span-covers e p w) ∙ h p inside)
      ∙ AllApart-covering s es p ws hs inside

  -- A position that an item covers is in no span behind the table.
  covered_apart :
      (es : List A) (rest : List Span) (p : ℕ) (e : A)
      → Each IsWhole es
      → Disjoint (spans start len es ++ rest)
      → covering_range es p ≡ some e
      → (s : Span) × (in_span s p ≡ true) × AllApart s rest
  covered_apart [] rest p e whole d h = absurd (cc h)
  covered_apart (x ∷ xs) rest p e (w, ws) (d, ds) h =
      let span : Span = record { first = start x; end = add64 (start x) (len x) } in
      elim (Bool-cases (covers (λ t. natural (start t)) (λ t. natural (len t)) x p)) [
        | inl here ↦ (
          span,
          in_span-covers x p w ∙ here,
          Each-behind (IsApart span) (spans start len xs) rest d,
        )
        | inr there ↦
            covered_apart xs rest p e ws ds
              (sym (covering_past (λ t. natural (start t)) (λ t. natural (len t)) x xs p there) ∙ h)
      ]

-- No position is in two tables, no card stands in two extents, and every extent is inside.
pub record IsAccepted (size : ℤ) (metadata : List MetadataRange) (sources : List SourceRange)
    (saves : List SaveRange) (q : ℕ) : Type 0 where
  pub metadata_or_source :
      (covering_range (λ e. e.virtual_offset) (λ e. e.length) metadata q ≡ none)
      ⊎ (covering_range (λ e. e.virtual_offset) (λ e. e.length) sources q ≡ none)
  pub metadata_or_save :
      (covering_range (λ e. e.virtual_offset) (λ e. e.length) metadata q ≡ none)
      ⊎ (covering_range (λ e. e.virtual_offset) (λ e. e.length) saves q ≡ none)
  pub source_or_save :
      (covering_range (λ e. e.virtual_offset) (λ e. e.length) sources q ≡ none)
      ⊎ (covering_range (λ e. e.virtual_offset) (λ e. e.length) saves q ≡ none)
  pub unique : UniqueObjects saves
  pub metadata_inside : Each (IsMetadataInside size) metadata
  pub sources_inside : Each (IsSourceInside size) sources
  pub saves_inside : Each (IsSaveInside size) saves

no_fault :
    (o rest : Option RangeFault)
    → elim o [ some f ↦ some f | none ↦ rest ] ≡ none
    → (o ≡ none) × (rest ≡ none)
no_fault none rest h = (refl, h)
no_fault (some f) rest h = absurd (cc h)

abbrev faults_behind_sources :
    (List Span → List Span)
    → ℤ
    → List MetadataRange
    → List SourceRange
    → List SaveRange
    → Option RangeFault
faults_behind_sources sort size metadata sources saves = elim (save_fault size [] saves) [
  | some f ↦ some f
  | none ↦ overlap_fault (sort (all_spans metadata sources saves))
]

abbrev faults_behind_metadata :
    (List Span → List Span)
    → ℤ
    → List MetadataRange
    → List SourceRange
    → List SaveRange
    → Option RangeFault
faults_behind_metadata sort size metadata sources saves = elim (source_fault size sources) [
  | some f ↦ some f
  | none ↦ faults_behind_sources sort size metadata sources saves
]

all_up :
    (metadata : List MetadataRange) (sources : List SourceRange) (saves : List SaveRange)
    → Each (IsWhole (λ (e : MetadataRange). e.virtual_offset) (λ e. e.length)) metadata
    → Each (IsWhole (λ (e : SourceRange). e.virtual_offset) (λ e. e.length)) sources
    → Each (IsWhole (λ (e : SaveRange). e.virtual_offset) (λ e. e.length)) saves
    → Each (λ t. natural t.first ≤ natural t.end) (all_spans metadata sources saves)
all_up metadata sources saves wm ws wv =
    let m = spans (λ (e : MetadataRange). e.virtual_offset) (λ e. e.length) metadata in
    let s = spans (λ (e : SourceRange). e.virtual_offset) (λ e. e.length) sources in
    let v = spans (λ (e : SaveRange). e.virtual_offset) (λ e. e.length) saves in
    Each-append (λ t. natural t.first ≤ natural t.end) m (s ++ v)
      (spans_up (λ e. e.virtual_offset) (λ e. e.length) metadata wm)
      (Each-append (λ t. natural t.first ≤ natural t.end) s v
        (spans_up (λ e. e.virtual_offset) (λ e. e.length) sources ws)
        (spans_up (λ e. e.virtual_offset) (λ e. e.length) saves wv))

metadata_apart :
    (metadata : List MetadataRange) (sources : List SourceRange) (saves : List SaveRange) (q : ℕ)
    → Each (IsWhole (λ (e : MetadataRange). e.virtual_offset) (λ e. e.length)) metadata
    → Each (IsWhole (λ (e : SourceRange). e.virtual_offset) (λ e. e.length)) sources
    → Each (IsWhole (λ (e : SaveRange). e.virtual_offset) (λ e. e.length)) saves
    → Disjoint (all_spans metadata sources saves)
    → ((covering_range (λ e. e.virtual_offset) (λ e. e.length) metadata q ≡ none)
        ⊎ (covering_range (λ e. e.virtual_offset) (λ e. e.length) sources q ≡ none))
      × ((covering_range (λ e. e.virtual_offset) (λ e. e.length) metadata q ≡ none)
          ⊎ (covering_range (λ e. e.virtual_offset) (λ e. e.length) saves q ≡ none))
metadata_apart metadata sources saves q wm ws wv d =
    elim (Option-cases (covering_range (λ e. e.virtual_offset) (λ e. e.length) metadata q)) [
      | inl gap ↦ (inl gap, inl gap)
      | inr (e, found) ↦
          let s = spans (λ (e : SourceRange). e.virtual_offset) (λ e. e.length) sources in
          let v = spans (λ (e : SaveRange). e.virtual_offset) (λ e. e.length) saves in
          let (span, inside, apart) =
            covered_apart (λ t. t.virtual_offset) (λ t. t.length) metadata (s ++ v) q e wm d
              found in
          (
            inr (
                AllApart-covering (λ t. t.virtual_offset) (λ t. t.length) span sources q ws
                  (Each-front (IsApart span) s v apart) inside),
            inr (
                AllApart-covering (λ t. t.virtual_offset) (λ t. t.length) span saves q wv
                  (Each-behind (IsApart span) s v apart) inside),
          )
    ]

source_apart :
    (metadata : List MetadataRange) (sources : List SourceRange) (saves : List SaveRange) (q : ℕ)
    → Each (IsWhole (λ (e : MetadataRange). e.virtual_offset) (λ e. e.length)) metadata
    → Each (IsWhole (λ (e : SourceRange). e.virtual_offset) (λ e. e.length)) sources
    → Each (IsWhole (λ (e : SaveRange). e.virtual_offset) (λ e. e.length)) saves
    → Disjoint (all_spans metadata sources saves)
    → (covering_range (λ e. e.virtual_offset) (λ e. e.length) sources q ≡ none)
      ⊎ (covering_range (λ e. e.virtual_offset) (λ e. e.length) saves q ≡ none)
source_apart metadata sources saves q wm ws wv d =
    elim (Option-cases (covering_range (λ e. e.virtual_offset) (λ e. e.length) sources q)) [
      | inl gap ↦ inl gap
      | inr (e, found) ↦
          let m = spans (λ (e : MetadataRange). e.virtual_offset) (λ e. e.length) metadata in
          let s = spans (λ (e : SourceRange). e.virtual_offset) (λ e. e.length) sources in
          let v = spans (λ (e : SaveRange). e.virtual_offset) (λ e. e.length) saves in
          let (span, inside, apart) =
            covered_apart (λ t. t.virtual_offset) (λ t. t.length) sources v q e ws
              (Disjoint-behind m (s ++ v) d) found in
          inr
            (AllApart-covering (λ t. t.virtual_offset) (λ t. t.length) span saves q wv apart inside)
    ]

-- An extent inside the volume ends where it says.
all-IsWhole :
    {A : Type 0} (start len : A → ℤ) (size : ℤ) (es : List A)
    → IsSize size
    → Each (λ e. IsWithin size (start e) (len e)) es
    → Each (IsWhole start len) es
all-IsWhole start len size [] small h = tt
all-IsWhole start len size (e ∷ es) small (h, hs) =
    (add64-natural size (start e) (len e) small h, all-IsWhole start len size es small hs)

Each-imp :
    {A : Type 0} (P Q : A → Type 0) (es : List A) → ((e : A) → P e → Q e) → Each P es → Each Q es
Each-imp P Q [] f h = tt
Each-imp P Q (e ∷ es) f (h, hs) = (f e h, Each-imp P Q es f hs)

-- What `validateRanges` accepts, of int64 values, when the size of the volume and the sizes of the
-- image files are not negative: every extent starts and ends inside the volume, every source extent
-- inside its file and every save extent inside its card, no number of theirs is negative, metadata
-- and save extents are not empty, no save object stands in two extents, and no position is in two
-- of the tables, whatever order sort.Slice gives.
pub validate_ranges_lem :
    (sort : List Span → List Span) (size : ℤ) (metadata : List MetadataRange)
    (sources : List SourceRange) (saves : List SaveRange)
    → (q : ℕ) → ((ss : List Span) → Permᴰ (sort ss) ss)
    → IsSize size
    → Each (λ e. IsInt64 e.length) metadata
    → Each (λ e. IsInt64 e.length × IsSize e.source_size) sources
    → Each (λ e. IsInt64 e.length × IsInt64 e.card_size) saves
    → validate_ranges sort size metadata sources saves ≡ none
    → IsAccepted size metadata sources saves q
unfolding validate_ranges
validate_ranges_lem sort size metadata sources saves q sorts small lm ls lv h =
    let all = all_spans metadata sources saves in
    let (m, h1) =
      no_fault (metadata_fault size metadata)
        (faults_behind_metadata sort size metadata sources saves) h in
    let (s, h2) =
      no_fault (source_fault size sources) (faults_behind_sources sort size metadata sources saves)
        h1 in
    let (v, h3) = no_fault (save_fault size [] saves) (overlap_fault (sort all)) h2 in
    let m_inside = metadata_fault_lem size metadata small lm m in
    let s_inside = source_fault_lem size sources small ls s in
    let (unique, v_inside, none_others) = save_fault_lem size [] saves small lv v in
    let wm =
      all-IsWhole (λ e. e.virtual_offset) (λ e. e.length) size metadata small
        (Each-imp (IsMetadataInside size) (λ e. IsWithin size e.virtual_offset e.length) metadata
          (λ e i. i.0) m_inside) in
    let ws =
      all-IsWhole (λ e. e.virtual_offset) (λ e. e.length) size sources small
        (Each-imp (IsSourceInside size) (λ e. IsWithin size e.virtual_offset e.length) sources
          (λ e i. i.0) s_inside) in
    let wv =
      all-IsWhole (λ e. e.virtual_offset) (λ e. e.length) size saves small
        (Each-imp (IsSaveInside size) (λ e. IsWithin size e.virtual_offset e.length) saves
          (λ e i. i.0) v_inside) in
    let up =
      Each-Perm (λ t. natural t.first ≤ natural t.end) all (sort all) (Permᴰ.symm (sorts all))
        (all_up metadata sources saves wm ws wv) in
    let apart =
      Disjoint-Perm (sort all) all (sorts all) (overlap_fault-Disjoint (sort all) up h3) in
    let (metadata_or_source, metadata_or_save) =
      metadata_apart metadata sources saves q wm ws wv apart in
    record {
      metadata_or_source = metadata_or_source;
      metadata_or_save = metadata_or_save;
      source_or_save = source_apart metadata sources saves q wm ws wv apart;
      unique = unique;
      metadata_inside = m_inside;
      sources_inside = s_inside;
      saves_inside = v_inside;
    }
