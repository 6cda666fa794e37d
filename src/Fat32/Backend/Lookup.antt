-- ===== src/Fat32/Backend/Lookup.antt =====
-- Binary search in an ordered table of items that cover positions.
use wii_bridge.Common.{
  along_some, ℕ, ◌+◌, ◌≤◌, ◌<◌, ◌≡◌, refl, sym, ap, ◌∙◌, Bool, true, false, Option, none, some,
  List, [], ◌∷◌, leb, ltb, ◌&&◌, if◌then◌else◌, arith, Bool-cases, inl, inr,
}
use wii_bridge.Common.Search.{search_table, search_table_lem, first_where, AllTrue, Upward}

-- A table of items, each of which covers positions of the volume.
module _ {A : Type 0} (start len : A → ℕ) where
  abbrev pub covers : A → ℕ → Bool
  covers e p = leb (start e) p && ltb p (start e + len e)

  -- The item that covers a position, found by a scan.
  abbrev pub covering : List A → ℕ → Option A
  covering [] p = none
  covering (e ∷ es) p = if covers e p then some e else covering es p

  abbrev pub AllFrom : ℕ → List A → Type 0
  AllFrom k [] = Unit
  AllFrom k (e ∷ es) = (k ≤ start e) × AllFrom k es

  -- In order, and none reaches into a later one.
  abbrev pub Ordered : List A → Type 0
  Ordered [] = Unit
  Ordered (e ∷ es) = AllFrom (start e + len e) es × Ordered es

  abbrev pub ends_past : ℕ → A → Bool
  ends_past p e = ltb p (start e + len e)

  abbrev pub if_covered : ℕ → Option A → Option A
  if_covered p none = none
  if_covered p (some e) = if leb (start e) p then some e else none

  AllFrom-AllTrue : (k p : ℕ) (es : List A) → p < k → AllFrom k es → AllTrue (ends_past p) es
  AllFrom-AllTrue k p [] lt h = tt
  AllFrom-AllTrue k p (e ∷ es) lt (h, hs) = (ground arith, AllFrom-AllTrue k p es lt hs)

  Ordered-Upward : (p : ℕ) (es : List A) → Ordered es → Upward (ends_past p) es
  Ordered-Upward p [] o = tt
  Ordered-Upward p (e ∷ es) (o, os) =
      (λ h. AllFrom-AllTrue (start e + len e) p es (ground arith) o, Ordered-Upward p es os)

  pub covering-AllFrom : (k p : ℕ) (es : List A) → p < k → AllFrom k es → covering es p ≡ none
  covering-AllFrom k p [] lt h = refl
  covering-AllFrom k p (e ∷ es) lt (h, hs) =
      let apart : covers e p ≡ false = ground arith in rw apart (covering-AllFrom k p es lt hs)

  pub covering_past :
      (e' : A) (es : List A) (p : ℕ) → covers e' p ≡ false → covering (e' ∷ es) p ≡ covering es p
  covering_past e' es p there = rw there

  pub covering_here :
      (e' : A) (es : List A) (p : ℕ) → covers e' p ≡ true → covering (e' ∷ es) p ≡ some e'
  covering_here e' es p here = rw here

  first_past :
      (p : ℕ) (e : A) (es : List A)
      → ends_past p e ≡ false
      → first_where (ends_past p) (e ∷ es) ≡ first_where (ends_past p) es
  first_past p e es past = rw past

  first-covering :
      (p : ℕ) (es : List A)
      → Ordered es
      → if_covered p (first_where (ends_past p) es) ≡ covering es p
  first-covering p [] o = refl
  first-covering p (e ∷ es) (o, os) = elim (Bool-cases (ends_past p e)) [
    | inr past ↦
        let apart : covers e p ≡ false = ground arith in
        ap (if_covered p) (first_past p e es past)
        ∙ (first-covering p es os ∙ sym (covering_past e es p apart))
    | inl before ↦ elim (Bool-cases (leb (start e) p)) [
      | inl here ↦ rw (before, here)
      | inr gap ↦ rw (before, gap) (sym (covering-AllFrom (start e + len e) p es (ground arith) o))
    ]
  ]

  -- Binary search finds the item that covers the position.
  pub search-covering :
      (p : ℕ) (es : List A)
      → Ordered es
      → if_covered p (search_table (ends_past p) es) ≡ covering es p
  search-covering p es o =
      ap (if_covered p) (search_table_lem (ends_past p) es (Ordered-Upward p es o)).0
      ∙ first-covering p es o

  pub head_covers :
      (e' : A) (es : List A) (p : ℕ) (e : A)
      → covers e' p ≡ true
      → covering (e' ∷ es) p ≡ some e
      → some e' ≡ some e
  head_covers e' es p e here h = sym (covering_here e' es p here) ∙ h

  pub tail_covers :
      (e' : A) (es : List A) (p : ℕ) (e : A)
      → covers e' p ≡ false
      → covering (e' ∷ es) p ≡ some e
      → covering es p ≡ some e
  tail_covers e' es p e there h = sym (covering_past e' es p there) ∙ h

  -- The item that is found covers the position.
  pub covering-covers : (es : List A) (p : ℕ) (e : A) → covering es p ≡ some e → covers e p ≡ true
  covering-covers [] p e h = absurd (cc h)
  covering-covers (e' ∷ es) p e h = elim (Bool-cases (covers e' p)) [
    | inl here ↦ along_some (λ t. covers t p ≡ true) e' e (head_covers e' es p e here h) here
    | inr there ↦ covering-covers es p e (tail_covers e' es p e there h)
  ]

  AllFrom-covering :
      (k : ℕ) (es : List A) (p : ℕ) (e : A) → AllFrom k es → covering es p ≡ some e → k ≤ start e
  AllFrom-covering k [] p e o h = absurd (cc h)
  AllFrom-covering k (e' ∷ es) p e (o, os) h = elim (Bool-cases (covers e' p)) [
    | inl here ↦ along_some (λ t. k ≤ start t) e' e (head_covers e' es p e here h) o
    | inr there ↦ AllFrom-covering k es p e os (tail_covers e' es p e there h)
  ]

  -- Another position inside the item is covered by the same item.
  pub covering_same :
      (es : List A) (p q : ℕ) (e : A)
      → Ordered es
      → covering es p ≡ some e
      → covers e q ≡ true
      → covering es q ≡ some e
  covering_same [] p q e o h inside = absurd (cc h)
  covering_same (e' ∷ es) p q e (o, os) h inside = elim (Bool-cases (covers e' p)) [
    | inl here ↦
        let head = head_covers e' es p e here h in
        let inside' : covers e' q ≡ true =
          along_some (λ t. covers t q ≡ true) e e' (sym head) inside in
        rw inside' head
    | inr there ↦
        let tail = tail_covers e' es p e there h in
        let later = AllFrom-covering (start e' + len e') es p e o tail in
        let apart : covers e' q ≡ false = ground arith in
        rw apart (covering_same es p q e os tail inside)
  ]
