-- ===== src/Cache/Linked.antt =====
-- The map and the list of the Pi's cache hold the same elements (cache.go).
use text.Mathlib.TextEquality.{eq_iff}
use wii_bridge.Common.{
  Each, ℕ, suc, ◌+◌, ◌<◌, ◌≡◌, refl, sym, ap, ◌∙◌, subst, true, false, none, some, List, [], ◌∷◌,
  length, ◌==◌, ==_iff, arith, along_some, Bool-cases, inl, inr,
}
use wii_bridge.Cache.{Key, same_key, Element, Cache, lookup, delete, element_at, unlink, remove}

abbrev pub total : List Element → ℕ
total [] = 0
total (e ∷ es) = length e.value + total es

abbrev pub IsOther : ℕ → Element → Type 0
IsOther id e = (e.id == id) ≡ false

-- No identity stands twice.
abbrev pub DistinctIds : List Element → Type 0
DistinctIds [] = Unit
DistinctIds (x ∷ xs) = Each (IsOther x.id) xs × DistinctIds xs

abbrev pub IsMapped : List (Key × Element) → Element → Type 0
IsMapped items e = lookup e.key items ≡ some e

-- The counter is the size of the elements; the map has each element of the list under its key, and
-- each element of the map is in the list; the identities are different and were handed out.
pub record IsLinked (c : Cache) : Type 0 where
  pub counted : c.bytes ≡ total c.lru
  pub mapped : Each (IsMapped c.items) c.lru
  pub listed :
      (k : Key) (e : Element)
      → lookup k c.items ≡ some e
      → (e.key ≡ k) × (element_at e.id c.lru ≡ some e)
  pub distinct : DistinctIds c.lru
  pub handed_out : Each (λ e. e.id < c.next_id) c.lru

pub same_key_refl : (k : Key) → same_key k k ≡ true
same_key_refl k = ground (arith, eq_iff k.snapshot k.snapshot)

pub same_key-eq : (a b : Key) → same_key a b ≡ true → a ≡ b
same_key-eq a b h = ground (arith, eq_iff a.snapshot b.snapshot)

Each-unlink :
    (P : Element → Type 0) (id : ℕ) (xs : List Element) → Each P xs → Each P (unlink id xs)
Each-unlink P id [] h = tt
Each-unlink P id (x ∷ xs) (h, hs) = elim (Bool-cases (x.id == id)) [
  | inl here ↦ rw here hs
  | inr there ↦ rw there (h, Each-unlink P id xs hs)
]

unlink-DistinctIds : (id : ℕ) (xs : List Element) → DistinctIds xs → DistinctIds (unlink id xs)
unlink-DistinctIds id [] d = tt
unlink-DistinctIds id (x ∷ xs) (d, ds) = elim (Bool-cases (x.id == id)) [
  | inl here ↦ rw here ds
  | inr there ↦ rw there (Each-unlink (IsOther x.id) id xs d, unlink-DistinctIds id xs ds)
]

element_at-unlink :
    (id other : ℕ) (xs : List Element) (e : Element)
    → (id == other) ≡ false
    → element_at id xs ≡ some e
    → element_at id (unlink other xs) ≡ some e
element_at-unlink id other [] e apart h = absurd (cc h)
element_at-unlink id other (x ∷ xs) e apart h = elim (Bool-cases (x.id == other)) [
  | inl here ↦ let past : (x.id == id) ≡ false = ground arith in rw here (sym (rw past) ∙ h)
  | inr there ↦ elim (Bool-cases (x.id == id)) [
    | inl found ↦ rw (there, found) (sym (rw found) ∙ h)
    | inr past ↦ rw (there, past) (element_at-unlink id other xs e apart (sym (rw past) ∙ h))
  ]
]

pub total-unlink :
    (id : ℕ) (xs : List Element) (e : Element)
    → element_at id xs ≡ some e
    → (total xs ≡ length e.value + total (unlink id xs)) × (length xs ≡ suc (length (unlink id xs)))
total-unlink id [] e h = absurd (cc h)
total-unlink id (x ∷ xs) e h = elim (Bool-cases (x.id == id)) [
  | inl here ↦ let same : x ≡ e = ground arith in rw (here, same) (refl, refl)
  | inr there ↦
      let (sum, size) = total-unlink id xs e (sym (rw there) ∙ h) in
      rw there (omega (arith, sum), ap suc size)
]

pub element_at-Each :
    (P : Element → Type 0) (id : ℕ) (xs : List Element) (e : Element)
    → Each P xs
    → element_at id xs ≡ some e
    → P e
element_at-Each P id [] e h found = absurd (cc found)
element_at-Each P id (x ∷ xs) e (h, hs) found = elim (Bool-cases (x.id == id)) [
  | inl here ↦ along_some P x e (sym (rw here) ∙ found) h
  | inr there ↦ element_at-Each P id xs e hs (sym (rw there) ∙ found)
]

pub lookup-delete :
    (k other : Key) (items : List (Key × Element))
    → same_key other k ≡ false
    → lookup k (delete other items) ≡ lookup k items
lookup-delete k other [] apart = refl
lookup-delete k other ((key, e) ∷ items) apart = elim (Bool-cases (same_key key other)) [
  | inl gone ↦
      let skip : same_key key k ≡ false =
        ap (λ t. same_key t k) (same_key-eq key other gone) ∙ apart in
      rw (gone, skip) (lookup-delete k other items apart)
  | inr stays ↦ elim (Bool-cases (same_key key k)) [
    | inl here ↦ rw (stays, here)
    | inr there ↦ rw (stays, there) (lookup-delete k other items apart)
  ]
]

pub deleted : (k : Key) (items : List (Key × Element)) → lookup k (delete k items) ≡ none
deleted k [] = refl
deleted k ((key, e) ∷ items) = elim (Bool-cases (same_key key k)) [
  | inl gone ↦ rw gone (deleted k items)
  | inr stays ↦ rw stays (rw stays (deleted k items))
]

-- Removing an element leaves the elements of other identities in the map.
delete-IsMapped :
    (items : List (Key × Element)) (e x : Element)
    → IsMapped items e
    → IsOther e.id x
    → IsMapped items x
    → IsMapped (delete e.key items) x
delete-IsMapped items e x in_map other h = elim (Bool-cases (same_key e.key x.key)) [
  | inl same ↦
      let key : e.key ≡ x.key = same_key-eq e.key x.key same in
      let one : some e ≡ some x = sym in_map ∙ (ap (λ t. lookup t items) key ∙ h) in
      let id : x.id ≡ e.id = along_some (λ t. t.id ≡ e.id) e x one refl in absurd (ground arith)
  | inr apart ↦ lookup-delete x.key e.key items apart ∙ h
]

delete-AllMapped :
    (items : List (Key × Element)) (e : Element) (xs : List Element)
    → IsMapped items e
    → Each (IsOther e.id) xs
    → Each (IsMapped items) xs
    → Each (IsMapped (delete e.key items)) xs
delete-AllMapped items e [] in_map others h = tt
delete-AllMapped items e (x ∷ xs) in_map (other, others) (h, hs) =
    (delete-IsMapped items e x in_map other h, delete-AllMapped items e xs in_map others hs)

unlink-AllMapped :
    (items : List (Key × Element)) (e : Element) (xs : List Element)
    → IsMapped items e
    → DistinctIds xs
    → Each (IsMapped items) xs
    → Each (IsMapped (delete e.key items)) (unlink e.id xs)
unlink-AllMapped items e [] in_map d h = tt
unlink-AllMapped items e (x ∷ xs) in_map (d, ds) (h, hs) = elim (Bool-cases (x.id == e.id)) [
  | inl here ↦
      let same : x.id ≡ e.id = (==_iff x.id e.id).0 here in
      rw here (delete-AllMapped items e xs in_map (subst (λ t. Each (IsOther t) xs) same d) hs)
  | inr there ↦
      rw there (delete-IsMapped items e x in_map there h, unlink-AllMapped items e xs in_map ds hs)
]

-- `remove` of an element of the map keeps the correspondence.
pub remove-IsLinked :
    (e : Element) (c : Cache)
    → IsLinked c
    → lookup e.key c.items ≡ some e
    → IsLinked (remove (some e) c)
unfolding remove
remove-IsLinked e c l found =
    let (key, at) = l.listed e.key e found in
    let (sum, size) = total-unlink e.id c.lru e at in
    record {
      counted = omega (arith, sum, l.counted);
      mapped = unlink-AllMapped c.items e c.lru found l.distinct l.mapped;
      listed = λ k x there. elim (Bool-cases (same_key e.key k)) [
        | inl same ↦
            let gone : lookup k (delete e.key c.items) ≡ none =
              subst (λ t. lookup t (delete e.key c.items) ≡ none) (same_key-eq e.key k same)
                (deleted e.key c.items) in
            absurd (cc (gone, there))
        | inr apart ↦
            let (x_key, x_at) = l.listed k x (sym (lookup-delete k e.key c.items apart) ∙ there) in
            elim (Bool-cases (x.id == e.id)) [
              | inr other ↦ (x_key, element_at-unlink x.id e.id c.lru x other x_at)
              | inl one ↦
                  let id : x.id ≡ e.id = (==_iff x.id e.id).0 one in
                  let both : some e ≡ some x =
                    sym at ∙ (ap (λ t. element_at t c.lru) (sym id) ∙ x_at) in
                  let keys : e.key ≡ k = along_some (λ t. t.key ≡ k) x e (sym both) x_key in
                  let same : same_key e.key k ≡ true =
                    subst (λ t. same_key e.key t ≡ true) keys (same_key_refl e.key) in
                  absurd (cc (apart, same))
            ]
      ];
      distinct = unlink-DistinctIds e.id c.lru l.distinct;
      handed_out = Each-unlink (λ t. t.id < c.next_id) e.id c.lru l.handed_out;
    }
