-- ===== src/Fat32/Validate/Apart.antt =====
-- Spans that the test of validateRanges (layout.go) accepts cover no position twice.
use mathlib.Core.List.{Permᴰ}
use mathlib.Core.List.Permᴰ.{nil, cons, swap, trans}
use wii_bridge.Common.{
  less, natural, less-natural, Each, ℕ, ◌≤◌, ◌≡◌, refl, sym, ◌∙◌, subst, Bool, true, false, ◌&&◌,
  none, List, [], ◌∷◌, ◌++◌, ltb, leb, arith, Bool-cases, inl, inr,
}
use wii_bridge.Fat32.Validate.{Span, overlap_fault}

abbrev pub in_span : Span → ℕ → Bool
in_span s p = leb (natural s.first) p && ltb p (natural s.end)

abbrev pub IsApart : Span → Span → Type 0
IsApart s t = (p : ℕ) → in_span s p ≡ true → in_span t p ≡ false

abbrev pub AllApart : Span → List Span → Type 0
AllApart s = Each (IsApart s)

-- No position is in two of the spans.
abbrev pub Disjoint : List Span → Type 0
Disjoint [] = Unit
Disjoint (s ∷ ss) = AllApart s ss × Disjoint ss

IsApart-sym : (s t : Span) → IsApart s t → IsApart t s
IsApart-sym s t h p covered = elim (Bool-cases (in_span s p)) [
  | inr apart ↦ apart
  | inl both ↦ absurd (cc (h p both, covered))
]

pub Each-behind {ℓ κ} :
    {A : Type ℓ} (P : A → Type κ) (xs ys : List A) → Each P (xs ++ ys) → Each P ys
Each-behind P [] ys h = h
Each-behind P (x ∷ xs) ys (h, hs) = Each-behind P xs ys hs

pub Each-append {ℓ κ} :
    {A : Type ℓ} (P : A → Type κ) (xs ys : List A) → Each P xs → Each P ys → Each P (xs ++ ys)
Each-append P [] ys h k = k
Each-append P (x ∷ xs) ys (h, hs) k = (h, Each-append P xs ys hs k)

pub Each-front {ℓ κ} :
    {A : Type ℓ} (P : A → Type κ) (xs ys : List A) → Each P (xs ++ ys) → Each P xs
Each-front P [] ys h = tt
Each-front P (x ∷ xs) ys (h, hs) = (h, Each-front P xs ys hs)

pub Disjoint-behind : (xs ys : List Span) → Disjoint (xs ++ ys) → Disjoint ys
Disjoint-behind [] ys d = d
Disjoint-behind (x ∷ xs) ys (d, ds) = Disjoint-behind xs ys ds

pub Each-Perm : {A : Type 0} (P : A → Type 0) (xs ys : List A) → Permᴰ xs ys → Each P xs → Each P ys
Each-Perm P _ _ nil h = h
Each-Perm P _ _ (cons e d) (h, hs) = (subst P e h, Each-Perm P _ _ d hs)
Each-Perm P _ _ (swap e d) (h, (k, hs)) = (subst P d k, (subst P e h, hs))
Each-Perm P _ _ (trans d e) hs = Each-Perm P _ _ e (Each-Perm P _ _ d hs)

-- The order does not matter.
pub Disjoint-Perm : (xs ys : List Span) → Permᴰ xs ys → Disjoint xs → Disjoint ys
Disjoint-Perm _ _ nil h = h
Disjoint-Perm _ _ (cons {b = b} {l₁ = xs} {l₂ = ys} e d) (h, hs) =
    (Each-Perm (IsApart b) xs ys d (subst (λ t. AllApart t xs) e h), Disjoint-Perm xs ys d hs)
Disjoint-Perm _ _ (swap {a = a} {b = b} {a' = a'} {l = l} e d) ((h, hs), (k, ks)) = (
  (
    subst (λ t. IsApart a' t) e (subst (λ t. IsApart t a) d (IsApart-sym a b h)),
    subst (λ t. AllApart t l) d k,
  ),
  (subst (λ t. AllApart t l) e hs, ks),
)
Disjoint-Perm _ _ (trans d e) h = Disjoint-Perm _ _ e (Disjoint-Perm _ _ d h)

AllFrom-spans :
    (k : ℕ) (s : Span) (ss : List Span)
    → natural s.end ≤ k
    → Each (λ t. k ≤ natural t.first) ss
    → AllApart s ss
AllFrom-spans k s [] h all = tt
AllFrom-spans k s (t ∷ ts) h (one, all) = (λ p covered. ground arith, AllFrom-spans k s ts h all)

Each-from :
    (k m : ℕ) (ss : List Span)
    → k ≤ m
    → Each (λ t. m ≤ natural t.first) ss
    → Each (λ t. k ≤ natural t.first) ss
Each-from k m [] h all = tt
Each-from k m (t ∷ ts) h (one, all) = (omega arith, Each-from k m ts h all)

over_absurd :
    (s t : Span) (ts : List Span)
    → less t.first s.end ≡ true
    → overlap_fault (s ∷ t ∷ ts) ≡ none
    → ⊥
unfolding overlap_fault
over_absurd s t ts over h = cc (h, over)

not_over :
    (s t : Span) (ts : List Span)
    → less t.first s.end ≡ false
    → overlap_fault (s ∷ t ∷ ts) ≡ none
    → overlap_fault (t ∷ ts) ≡ none
unfolding overlap_fault
not_over s t ts fine h = sym (rw fine) ∙ h

-- When none reaches into the next, all that follow stand behind the first.
chain_from :
    (s : Span) (ss : List Span)
    → Each (λ t. natural t.first ≤ natural t.end) (s ∷ ss)
    → overlap_fault (s ∷ ss) ≡ none
    → Each (λ t. natural s.end ≤ natural t.first) ss × (overlap_fault ss ≡ none)
unfolding overlap_fault
chain_from s [] (up, ups) h = (tt, refl)
chain_from s (t ∷ ts) (up, (upt, ups)) h = elim (Bool-cases (less t.first s.end)) [
  | inl over ↦ absurd (over_absurd s t ts over h)
  | inr fine ↦
      let rest = not_over s t ts fine h in
      let gap = less-natural t.first s.end fine in
      let (later, none_over) = chain_from t ts (upt, ups) rest in
      ((gap, Each-from (natural s.end) (natural t.end) ts (omega (arith, gap)) later), rest)
]

pub overlap_fault-Disjoint :
    (ss : List Span)
    → Each (λ t. natural t.first ≤ natural t.end) ss
    → overlap_fault ss ≡ none
    → Disjoint ss
overlap_fault-Disjoint [] up h = tt
overlap_fault-Disjoint (s ∷ ss) (up, ups) h =
    let (later, rest) = chain_from s ss (up, ups) h in
    (AllFrom-spans (natural s.end) s ss (omega arith) later, overlap_fault-Disjoint ss ups rest)
