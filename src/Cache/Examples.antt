-- ===== src/Cache/Examples.antt =====
-- The theorem of the Pi's cache at a concrete cache.
use wii_bridge.Common.{
  ◌≡◌, refl, false, some, [], ◌∷◌, arith, Bytes, sym, ◌∙◌, none, along_some, Bool-cases, inl, inr,
}
use wii_bridge.Cache.{Key, same_key, Element, Cache, lookup, element_at, put, get}
use wii_bridge.Cache.Linked.{same_key-eq}
use wii_bridge.Cache.Eviction.{IsBounded}
use wii_bridge.Cache.Bounded.{put_lem}

abbrev key : Key
key = record { snapshot = "s"; offset = 512; len = 2; version = 1 }

abbrev older : Element
older = record { id = 0; key = key; value = 1 ∷ 2 ∷ [] }

abbrev other_key : Key
other_key = record key { offset = 1024; len = 1 }

abbrev other : Element
other = record { id = 1; key = other_key; value = 3 ∷ [] }

-- The key stands in the cache already.
abbrev small : Cache
small = record {
  max_bytes = 3;
  bytes = 3;
  items = (key, older) ∷ (other_key, other) ∷ [];
  lru = other ∷ older ∷ [];
  next_id = 2;
}

small-IsBounded : IsBounded small
small-IsBounded = record {
  linked = record {
    counted = refl;
    mapped = (refl, (refl, tt));
    listed = λ k e h. elim (Bool-cases (same_key key k)) [
      | inl same ↦
          along_some (λ t. (t.key ≡ k) × (element_at t.id small.lru ≡ some t)) older e
            (sym (rw same) ∙ h) (same_key-eq key k same, refl)
      | inr apart ↦ elim (Bool-cases (same_key other_key k)) [
        | inl same ↦
            along_some (λ t. (t.key ≡ k) × (element_at t.id small.lru ≡ some t)) other e
              (sym (rw (apart, same)) ∙ h) (same_key-eq other_key k same, refl)
        | inr gone ↦
            let nothing : lookup k small.items ≡ none = rw (apart, gone) in absurd (cc (nothing, h))
      ]
    ];
    distinct = ((refl, tt), (tt, tt));
    handed_out = (omega arith, (omega arith, tt));
  };
  within = omega arith;
}

put_lem_example :
    (c' : Cache) × (put key (8 ∷ 9 ∷ []) small ≡ some c')
    × IsBounded c'
    × (c'.max_bytes ≡ 3)
    × ((get key c').0 ≡ some (8 ∷ 9 ∷ []))
    × ((j : Key) (v : Bytes)
        → same_key key j ≡ false
        → (get j c').0 ≡ some v
        → (get j small).0 ≡ some v)
put_lem_example = put_lem key (8 ∷ 9 ∷ []) small small-IsBounded (omega arith) refl
