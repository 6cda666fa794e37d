-- ===== src/Vdisk/Read/Layout.antt =====
-- The extents of the Wii disk (vdisk.go): which one holds a position, and what the binary search
-- of `ReadAt` finds.
use wii_bridge.Common.{
  ℕ, ◌+◌, ◌%◌, ◌≤◌, ◌<◌, ◌≡◌, ◌⊎◌, refl, ◌∙◌, true, ◌&&◌, Option, none, some, List, [], ◌∷◌, arith,
  ltb, leb, if◌then◌else◌, Bool-cases, inl, inr, ltb→lt, ltb-false,
}
use wii_bridge.Common.Search.{search_table_lem, first_where, Upward, AllTrue}
use wii_bridge.Vdisk.{Extent, Disk}
use wii_bridge.Vdisk.Read.{extent_after, mapped_extent}

-- The extent whose range holds the position: no search.
abbrev pub holding : List Extent → ℕ → Option Extent
holding [] position = none
holding (e ∷ es) position =
    if ltb position (e.start + e.len) && leb e.start position then some e else holding es position

-- Extents in ascending order, each from a sector's start or from the end of the one before it, and
-- within its source unless it is padding.
abbrev pub Laid : ℕ → List Extent → Type 0
Laid lo [] = Unit
Laid lo (e ∷ es) =
    (lo ≤ e.start)
    × ((e.start % 512 ≡ 0) ⊎ (e.start ≡ lo))
    × ((e.zero ≡ true) ⊎ (e.source_offset + e.len ≤ e.source.size))
    × Laid (e.start + e.len) es

all_after :
    (lo position : ℕ) (es : List Extent)
    → Laid lo es
    → position < lo
    → AllTrue (extent_after position) es
all_after lo position [] o h = tt
all_after lo position (e ∷ es) o h =
    (ground arith, all_after (e.start + e.len) position es o.3 (omega arith))

Laid-Upward : (lo position : ℕ) (es : List Extent) → Laid lo es → Upward (extent_after position) es
Laid-Upward lo position [] o = tt
Laid-Upward lo position (e ∷ es) o = (
  λ h. all_after (e.start + e.len) position es o.3 (ltb→lt position (e.start + e.len) h),
  Laid-Upward (e.start + e.len) position es o.3,
)

holding_below :
    (lo position : ℕ) (es : List Extent) → Laid lo es → position < lo → holding es position ≡ none
holding_below lo position [] o h = refl
holding_below lo position (e ∷ es) o h =
    ground (arith, holding_below (e.start + e.len) position es o.3)

-- The item of the scan, if the position is not before it.
abbrev reaching : ℕ → Option Extent → Option Extent
reaching position none = none
reaching position (some e) = if leb e.start position then some e else none

scan_lem :
    (lo position : ℕ) (es : List Extent)
    → Laid lo es
    → reaching position (first_where (extent_after position) es) ≡ holding es position
scan_lem lo position [] o = refl
scan_lem lo position (e ∷ es) o = elim (Bool-cases (ltb position (e.start + e.len))) [
  | inr past ↦ rw past (scan_lem (e.start + e.len) position es o.3)
  | inl before ↦ elim (Bool-cases (leb e.start position)) [
    | inl here ↦ rw (before, here)
    | inr gap ↦ rw (
      before,
      gap,
      holding_below (e.start + e.len) position es o.3 (ltb→lt position (e.start + e.len) before),
    )
  ]
]

pub mapped_extent_lem :
    (d : Disk) (position : ℕ)
    → Laid 0 d.extents
    → mapped_extent d position ≡ holding d.extents position
unfolding mapped_extent
mapped_extent_lem d position o =
    let found =
      (search_table_lem (extent_after position) d.extents (Laid-Upward 0 position d.extents o)).0 in
    rw (found, mapped_extent)
      (cases (first_where (extent_after position) d.extents) ∙ scan_lem 0 position d.extents o)
  where
    cases :
        (x : Option Extent)
        → elim x [ none ↦ none | some e ↦ if leb e.start position then some e else none ]
          ≡ reaching position x
    cases none = refl
    cases (some e) = refl

pub record Holds (lo position : ℕ) (e : Extent) : Type 0 where
  pub above : lo ≤ position
  pub from_start : e.start ≤ position
  pub before_end : position < e.start + e.len
  pub backed : (e.zero ≡ true) ⊎ (e.source_offset + e.len ≤ e.source.size)

pub holding-Holds :
    (lo position : ℕ) (es : List Extent) (e : Extent)
    → Laid lo es
    → holding es position ≡ some e
    → Holds lo position e
holding-Holds lo position [] e o h = absurd (cc h)
holding-Holds lo position (x ∷ es) e o h =
    elim (Bool-cases (ltb position (x.start + x.len) && leb x.start position)) [
      | inl here ↦ let same : x ≡ e = ground arith in ground arith
      | inr there ↦
          let below = holding-Holds (x.start + x.len) position es e o.3 (ground arith) in
          ground (arith, below)
    ]

-- The rest of the extent is held by it.
pub holding_on :
    (lo position q : ℕ) (es : List Extent) (e : Extent)
    → Laid lo es
    → holding es position ≡ some e
    → position ≤ q
    → q < e.start + e.len
    → holding es q ≡ some e
holding_on lo position q [] e o h le lt = absurd (cc h)
holding_on lo position q (x ∷ es) e o h le lt =
    elim (Bool-cases (ltb position (x.start + x.len) && leb x.start position)) [
      | inl here ↦ let same : x ≡ e = ground arith in ground arith
      | inr there ↦
          let h' : holding es position ≡ some e = ground arith in
          let below = holding-Holds (x.start + x.len) position es e o.3 h' in
          let rest = holding_on (x.start + x.len) position q es e o.3 h' le lt in
          ground (arith, rest, below.above)
    ]

-- From a gap, the rest of the sector is a gap.
pub holding_gap :
    (lo position i : ℕ) (es : List Extent)
    → Laid lo es
    → lo ≤ position
    → holding es position ≡ none
    → position % 512 + i < 512
    → holding es (position + i) ≡ none
holding_gap lo position i [] o above h lt = refl
holding_gap lo position i (x ∷ es) o above h lt =
    elim (Bool-cases (ltb position (x.start + x.len))) [
      | inr past ↦
          let rest =
            holding_gap (x.start + x.len) position i es o.3
              (ltb-false position (x.start + x.len) past) (ground arith) lt in
          ground (arith, rest)
      | inl before ↦
          let not_here : position < x.start = ground arith in
          let still : position + i < x.start = elim o.1 [
            | inl aligned ↦ omega arith
            | inr joined ↦ omega arith
          ] in
          ground (arith, holding_below (x.start + x.len) (position + i) es o.3)
    ]
