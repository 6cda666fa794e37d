-- ===== src/Cache/Bounded.antt =====
-- The cache of the Pi stays within its bytes and finds what was put last (cache.go).
use wii_bridge.Common.{
  Each, ◌+◌, ◌≤◌, ◌≡◌, refl, sym, ap, ◌∙◌, subst, false, ◌||◌, not, none, some, ◌∷◌, Bytes, length,
  ltb, ◌==◌, arith, along_some, Option-cases, inl, inr,
}
use wii_bridge.Cache.{Key, same_key, Element, Cache, lookup, delete, remove, push, put, get}
use wii_bridge.Cache.Eviction.{IsBounded, lookup_behind, remove-OnlyFrom, push-IsLinked, evict_lem}
use wii_bridge.Cache.Linked.{IsMapped, IsLinked, deleted, remove-IsLinked}

-- `Put` first removes the old element of the key.
remove_old :
    (k : Key) (c : Cache)
    → IsLinked c
    → let c1 = remove (lookup k c.items) c in
      IsLinked c1 × (lookup k c1.items ≡ none) × (c1.max_bytes ≡ c.max_bytes)
unfolding remove
remove_old k c l = elim (Option-cases (lookup k c.items)) [
  | inl missing ↦ rw (missing, remove) (l, missing, refl)
  | inr (old, found) ↦
      let (key, at) = l.listed k old found in
      let found' : lookup old.key c.items ≡ some old = ap (λ t. lookup t c.items) key ∙ found in
      let gone : lookup k (delete old.key c.items) ≡ none =
        subst (λ t. lookup t (delete old.key c.items) ≡ none) key (deleted old.key c.items) in
      rw (found, remove) (remove-IsLinked old c l found', gone, refl)
]

get_found :
    (k : Key) (c : Cache) (e : Element) → lookup k c.items ≡ some e → (get k c).0 ≡ some e.value
unfolding get
get_found k c e h = rw (h, get)

found_by_get :
    (k : Key) (c : Cache) (v : Bytes)
    → (get k c).0 ≡ some v
    → (e : Element) × (lookup k c.items ≡ some e) × (e.value ≡ v)
unfolding get
found_by_get k c v h = elim (Option-cases (lookup k c.items)) [
  | inl missing ↦ let nothing : (get k c).0 ≡ none = rw (missing, get) in absurd (cc (nothing, h))
  | inr (e, found) ↦
      (e, found, along_some (λ t. e.value ≡ t) e.value v (sym (get_found k c e found) ∙ h) refl)
]

push_only :
    (k j : Key) (value : Bytes) (c : Cache) (x : Element)
    → same_key k j ≡ false
    → lookup j (push k value c).items ≡ some x
    → lookup j c.items ≡ some x
unfolding push
push_only k j value c x apart h = lookup_behind j k c.items x (sym (rw apart) ∙ h)

-- Putting a value of the key's length that fits the cache ends: in a cache whose map and list hold
-- the same elements, whose counter is their size and which is within its limit, all this stays so;
-- the key then gives the value, and another key gives nothing that it did not give before.
pub put_lem :
    (k : Key) (value : Bytes) (c : Cache)
    → IsBounded c
    → length value ≤ c.max_bytes
    → k.len ≡ length value
    → (c' : Cache) × (put k value c ≡ some c')
      × IsBounded c'
      × (c'.max_bytes ≡ c.max_bytes)
      × ((get k c').0 ≡ some value)
      × ((j : Key) (v : Bytes)
          → same_key k j ≡ false
          → (get j c').0 ≡ some v
          → (get j c).0 ≡ some v)
unfolding put push
put_lem k value c b fits size =
    let accepted : (ltb c.max_bytes (length value) || not (k.len == length value)) ≡ false =
      ground arith in
    let (l1, new, limit) = remove_old k c b.linked in
    let c1 = remove (lookup k c.items) c in
    let e : Element = record { id = c1.next_id; key = k; value = value } in
    let (c', run, evicted) =
      evict_lem (length (e ∷ c1.lru) + 1) (push k value c1) e c1.lru
        (push-IsLinked k value c1 l1 new) refl (omega arith) (omega (arith, limit)) in
    let front = subst (Each (IsMapped c'.items)) evicted.front evicted.bounded.linked.mapped in
    (
      c',
      rw accepted run,
      evicted.bounded,
      evicted.same_limit ∙ limit,
      get_found k c' e front.0,
      λ j v apart found.
          let (x, there, is) = found_by_get j c' v found in
          let before =
            remove-OnlyFrom (lookup k c.items) c j x
              (push_only k j value c1 x apart (evicted.only j x there)) in
          get_found j c x before ∙ ap some is,
    )
