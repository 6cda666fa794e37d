-- ===== src/Fat32/Reader/Gaps.antt =====
-- The gaps between extents (ReadAt of backend.go): up to the next start, nothing is covered.
use wii_bridge.Common.{
  Each, along_some, ℕ, ◌+◌, ◌≤◌, ◌<◌, ◌≡◌, refl, sym, ap, ◌∙◌, subst, Bool, true, false, Option,
  none, some, List, [], ◌∷◌, ltb, if◌then◌else◌, arith, Bool-cases, inl, inr,
}
use wii_bridge.Common.Search.{search_table, search_table_lem, first_where, AllTrue, Upward}
use wii_bridge.Fat32.Backend.Lookup.{
  covers, covering, AllFrom, Ordered, covering-AllFrom, covering_past, covering_here,
}
use wii_bridge.Fat32.Reader.{next_start}

module _ {A : Type 0} (start len : A → ℕ) where
  -- What holds of every item holds of the one that covers a position.
  pub covering-Each :
      (P : A → Type 0) (es : List A) (p : ℕ) (e : A)
      → Each P es
      → covering start len es p ≡ some e
      → P e
  covering-Each P [] p e all h = absurd (cc h)
  covering-Each P (x ∷ xs) p e (one, all) h = elim (Bool-cases (covers start len x p)) [
    | inl here ↦ along_some P x e (sym (covering_here start len x xs p here) ∙ h) one
    | inr there ↦ covering-Each P xs p e all (sym (covering_past start len x xs p there) ∙ h)
  ]

  abbrev starts_after : ℕ → A → Bool
  starts_after p e = ltb p (start e)

  AllFrom-AllTrue :
      (k p : ℕ) (es : List A) → p < k → AllFrom start len k es → AllTrue (starts_after p) es
  AllFrom-AllTrue k p [] lt h = tt
  AllFrom-AllTrue k p (e ∷ es) lt (h, hs) = (ground arith, AllFrom-AllTrue k p es lt hs)

  starts-Upward : (p : ℕ) (es : List A) → Ordered start len es → Upward (starts_after p) es
  starts-Upward p [] o = tt
  starts-Upward p (e ∷ es) (o, os) =
      (λ h. AllFrom-AllTrue (start e + len e) p es (ground arith) o, starts-Upward p es os)

  abbrev limited : ℕ → Option A → ℕ
  limited limit none = limit
  limited limit (some e) = if ltb (start e) limit then start e else limit

  next_limited :
      (o : Option A) (limit : ℕ)
      → elim o [ none ↦ limit | some e ↦ if ltb (start e) limit then start e else limit ]
        ≡ limited limit o
  next_limited none limit = refl
  next_limited (some e) limit = refl

  next_start_lem :
      (es : List A) (position limit : ℕ)
      → Ordered start len es
      → next_start start es position limit ≡ limited limit (first_where (starts_after position) es)
  unfolding next_start
  next_start_lem es position limit o =
      next_limited (search_table (starts_after position) es) limit
      ∙ ap (limited limit)
          (search_table_lem (starts_after position) es (starts-Upward position es o)).0

  first_later :
      (p : ℕ) (e : A) (es : List A)
      → starts_after p e ≡ true
      → first_where (starts_after p) (e ∷ es) ≡ some e
  first_later p e es h = rw h

  first_before :
      (p : ℕ) (e : A) (es : List A)
      → starts_after p e ≡ false
      → first_where (starts_after p) (e ∷ es) ≡ first_where (starts_after p) es
  first_before p e es h = rw h

  first_gap :
      (es : List A) (position limit q : ℕ)
      → Ordered start len es
      → covering start len es position ≡ none
      → position ≤ q
      → q < limited limit (first_where (starts_after position) es)
      → covering start len es q ≡ none
  first_gap [] position limit q o h le lt = refl
  first_gap (e ∷ es) position limit q (o, os) h le lt =
      elim (Bool-cases (starts_after position e)) [
        | inl later ↦
            let next : q < limited limit (some e) =
              subst (λ t. q < limited limit t) (first_later position e es later) lt in
            let apart : covers start len e q ≡ false = ground arith in
            covering_past start len e es q apart
            ∙ covering-AllFrom start len (start e + len e) q es (ground arith) o
        | inr before ↦ elim (Bool-cases (covers start len e position)) [
          | inl here ↦ absurd (cc (h, covering_here start len e es position here))
          | inr past ↦
              let apart : covers start len e q ≡ false = ground arith in
              covering_past start len e es q apart
              ∙ first_gap es position limit q os
                  (sym (covering_past start len e es position past) ∙ h) le
                  (subst (λ t. q < limited limit t) (first_before position e es before) lt)
        ]
      ]

  limited_range :
      (position limit : ℕ) (es : List A)
      → position < limit
      → (position < limited limit (first_where (starts_after position) es))
        × (limited limit (first_where (starts_after position) es) ≤ limit)
  limited_range position limit [] h = (h, omega arith)
  limited_range position limit (e ∷ es) h = elim (Bool-cases (starts_after position e)) [
    | inl here ↦ rw here (ground arith, ground arith)
    | inr there ↦ rw there (limited_range position limit es h)
  ]

  -- From an uncovered position up to the next start nothing is covered.
  pub next_start-gap :
      (es : List A) (position limit : ℕ)
      → Ordered start len es
      → covering start len es position ≡ none
      → position < limit
      → (position < next_start start es position limit)
        × (next_start start es position limit ≤ limit)
        × ((q : ℕ)
            → position ≤ q
            → q < next_start start es position limit
            → covering start len es q ≡ none)
  next_start-gap es position limit o h lt =
      let same = next_start_lem es position limit o in
      let (lo, hi) = limited_range position limit es lt in
      (
        omega (arith, same, lo),
        omega (arith, same, hi),
        λ q le below. first_gap es position limit q o h le (omega (arith, same, below)),
      )
