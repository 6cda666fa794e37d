-- ===== src/Cache/Eviction.antt =====
-- The eviction of the Pi's cache (`Put` of cache.go) ends within the limit, and spares what was
-- put last.
use wii_bridge.Common.{
  Each, ℕ, zero, suc, ◌+◌, ◌≤◌, ◌<◌, ◌≡◌, refl, sym, ap, ◌∙◌, subst, true, false, Option, none,
  some, List, [], ◌∷◌, Bytes, length, ltb, ◌==◌, arith, along_some, Bool-cases, inl, inr,
}
use wii_bridge.Cache.{
  Key, same_key, Element, Cache, lookup, delete, assign, element_at, unlink, last, back, remove,
  evict, push,
}
use wii_bridge.Cache.Linked.{
  total, IsOther, DistinctIds, IsMapped, IsLinked, same_key_refl, same_key-eq, total-unlink,
  element_at-Each, lookup-delete, deleted, remove-IsLinked,
}

-- The map and the list correspond, and the bytes are within the limit.
pub record IsBounded (c : Cache) : Type 0 where
  pub linked : IsLinked c
  pub within : c.bytes ≤ c.max_bytes

-- Every element that the second cache finds is one that the first finds under the same key.
abbrev pub OnlyFrom : Cache → Cache → Type 0
OnlyFrom c c' = (j : Key) (x : Element) → lookup j c'.items ≡ some x → lookup j c.items ≡ some x

pub lookup_behind :
    (j k : Key) (items : List (Key × Element)) (x : Element)
    → lookup j (delete k items) ≡ some x
    → lookup j items ≡ some x
lookup_behind j k items x h = elim (Bool-cases (same_key k j)) [
  | inr apart ↦ sym (lookup-delete j k items apart) ∙ h
  | inl same ↦
      let gone : lookup j (delete k items) ≡ none =
        subst (λ t. lookup t (delete k items) ≡ none) (same_key-eq k j same) (deleted k items) in
      absurd (cc (gone, h))
]

pub remove-OnlyFrom : (o : Option Element) (c : Cache) → OnlyFrom c (remove o c)
unfolding remove
remove-OnlyFrom none c j x h = h
remove-OnlyFrom (some e) c j x h = lookup_behind j e.key c.items x h

assign-AllMapped :
    (k : Key) (e : Element) (items : List (Key × Element)) (xs : List Element)
    → lookup k items ≡ none
    → Each (IsMapped items) xs
    → Each (IsMapped (assign k e items)) xs
assign-AllMapped k e items [] new h = tt
assign-AllMapped k e items (x ∷ xs) new (h, hs) = elim (Bool-cases (same_key k x.key)) [
  | inl same ↦ absurd (cc (same_key-eq k x.key same, new, h))
  | inr apart ↦
      (rw apart (lookup-delete x.key k items apart ∙ h), assign-AllMapped k e items xs new hs)
]

below-IsOther :
    (n : ℕ) (xs : List Element)
    → Each (λ e. e.id < n) xs
    → Each (IsOther n) xs × Each (λ e. e.id < n + 1) xs
below-IsOther n [] h = (tt, tt)
below-IsOther n (x ∷ xs) (h, hs) =
    let (others, below) = below-IsOther n xs hs in ((ground arith, others), (omega arith, below))

pub push-IsLinked :
    (k : Key) (value : Bytes) (c : Cache)
    → IsLinked c
    → lookup k c.items ≡ none
    → IsLinked (push k value c)
unfolding push
push-IsLinked k value c l new =
    let e : Element = record { id = c.next_id; key = k; value = value } in
    let (others, below) = below-IsOther c.next_id c.lru l.handed_out in
    record {
      counted = omega (arith, l.counted);
      mapped = (rw (same_key_refl k), assign-AllMapped k e c.items c.lru new l.mapped);
      listed = λ j x h. elim (Bool-cases (same_key k j)) [
        | inl same ↦
            let itself : (e.id == e.id) ≡ true = ground arith in
            along_some (λ t. (t.key ≡ j) × (element_at t.id (e ∷ c.lru) ≡ some t)) e x
              (sym (rw same) ∙ h) (same_key-eq k j same, rw itself)
        | inr apart ↦
            let (key, at) =
              l.listed j x (sym (lookup-delete j k c.items apart) ∙ (sym (rw apart) ∙ h)) in
            let older = element_at-Each (λ t. t.id < c.next_id) x.id c.lru x l.handed_out at in
            let past : (e.id == x.id) ≡ false = ground arith in (key, rw past at)
      ];
      distinct = (others, l.distinct);
      handed_out = (omega arith, below);
    }

Each-last :
    (P : Element → Type 0) (x : Element) (xs : List Element) → Each P (x ∷ xs) → P (last x xs)
Each-last P x [] (h, hs) = h
Each-last P x (y ∷ ys) (h, hs) = Each-last P y ys hs

-- What a loop that ended left: an element that fits by itself is still in front.
pub record Evicted (c : Cache) (e : Element) (c' : Cache) : Type 0 where
  pub bounded : IsBounded c'
  pub same_limit : c'.max_bytes ≡ c.max_bytes
  pub behind : List Element
  pub front : c'.lru ≡ e ∷ behind
  pub only : OnlyFrom c c'

pub evict_lem :
    (rounds : ℕ) (c : Cache) (e : Element) (es : List Element)
    → IsLinked c
    → c.lru ≡ e ∷ es
    → length es < rounds
    → length e.value ≤ c.max_bytes
    → (c' : Cache) × (evict rounds c ≡ some c') × Evicted c e c'
unfolding evict remove
evict_lem zero c e es l front h fits = elim h [ ]
evict_lem (suc rounds) c e [] l front h fits =
    let sum : c.bytes ≡ length e.value + 0 = l.counted ∙ ap total front in
    let enough : ltb c.max_bytes c.bytes ≡ false = ground arith in
    (
      c,
      rw enough,
      record {
        bounded = record { linked = l; within = omega (arith, sum) };
        same_limit = refl;
        behind = [];
        front = front;
        only = λ j x found. found;
      },
    )
evict_lem (suc rounds) c e (x ∷ xs) l front h fits = elim (Bool-cases (ltb c.max_bytes c.bytes)) [
  | inr enough ↦ (
    c,
    rw enough,
    record {
      bounded = record { linked = l; within = ground arith };
      same_limit = refl;
      behind = x ∷ xs;
      front = front;
      only = λ j y found. found;
    },
  )
  | inl over ↦
      let z = last x xs in
      let z_back : back c.lru ≡ some z = ap back front in
      let all = subst (Each (IsMapped c.items)) front l.mapped in
      let (others, distinct) = subst DistinctIds front l.distinct in
      let found = Each-last (IsMapped c.items) x xs all.1 in
      let other = Each-last (IsOther e.id) x xs others in
      let apart : (e.id == z.id) ≡ false = ground arith in
      let (key, at) = l.listed z.key z found in
      let at' : element_at z.id (x ∷ xs) ≡ some z =
        sym (rw apart) ∙ (sym (ap (element_at z.id) front) ∙ at) in
      let (sum, size) = total-unlink z.id (x ∷ xs) z at' in
      let left : unlink z.id c.lru ≡ e ∷ unlink z.id (x ∷ xs) = ap (unlink z.id) front ∙ rw apart in
      let (c', run, evicted) =
        evict_lem rounds (remove (some z) c) e (unlink z.id (x ∷ xs)) (remove-IsLinked z c l found)
          left (omega (arith, size)) fits in
      (
        c',
        rw (over, z_back) run,
        record {
          bounded = evicted.bounded;
          same_limit = evicted.same_limit;
          behind = evicted.behind;
          front = evicted.front;
          only = λ j y there. remove-OnlyFrom (some z) c j y (evicted.only j y there);
        },
      )
]
