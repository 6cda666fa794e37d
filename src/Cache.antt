-- ===== src/Cache.antt =====
-- pi/controller/cache/cache.go: the read-through cache of the Pi, least recently used first out. A
-- method runs under the mutex, so it is one function of the cache. An element of the list is a
-- pointer to an entry that never changes: here its identity with the entry, and the map and the
-- list both hold it. Identities are handed out in order. The counter never falls below zero while
-- it is the size of the entries, so it is a natural number.
pub mod Linked
pub mod Eviction
pub mod Bounded
mod Examples
use text.Mathlib.Text.{◌==◌ as str_eq}
use wii_bridge.Common.{
  ℕ, zero, suc, ◌+◌, ◌-◌, String, Bool, true, false, ◌&&◌, ◌||◌, not, Option, none, some, List, [],
  ◌∷◌, Bytes, length, ltb, ◌==◌, if◌then◌else◌, ℤ, pos, negsuc,
}

-- The offset and the length are the request's, which are not negative.
pub record Key : Type 0 where
  pub snapshot : String
  pub offset : ℕ
  pub len : ℕ
  pub version : ℕ

abbrev pub same_key : Key → Key → Bool
same_key a b =
    str_eq a.snapshot b.snapshot
    && (a.offset == b.offset)
    && (a.len == b.len)
    && (a.version == b.version)

-- `*list.Element`, with the `entry` that it holds.
pub record Element : Type 0 where
  pub id : ℕ
  pub key : Key
  pub value : Bytes

-- `items` is the map, and `lru` the list, the most recently used element first.
pub record Cache : Type 0 where
  pub max_bytes : ℕ
  pub bytes : ℕ
  pub items : List (Key × Element)
  pub lru : List Element
  pub next_id : ℕ

pub new_cache : ℤ → Cache
new_cache (pos n) = record { max_bytes = n; bytes = 0; items = []; lru = []; next_id = 0 }
new_cache (negsuc n) = record { max_bytes = 0; bytes = 0; items = []; lru = []; next_id = 0 }

abbrev pub lookup : Key → List (Key × Element) → Option Element
lookup k [] = none
lookup k ((key, e) ∷ items) = if same_key key k then some e else lookup k items

-- `delete` of a map.
abbrev pub delete : Key → List (Key × Element) → List (Key × Element)
delete k [] = []
delete k ((key, e) ∷ items) = if same_key key k then delete k items else (key, e) ∷ delete k items

abbrev pub assign : Key → Element → List (Key × Element) → List (Key × Element)
assign k e items = (k, e) ∷ delete k items

-- The element of an identity in the list.
abbrev pub element_at : ℕ → List Element → Option Element
element_at id [] = none
element_at id (x ∷ xs) = if x.id == id then some x else element_at id xs

-- `List.Remove`, which does nothing for an element that is not in the list.
abbrev pub unlink : ℕ → List Element → List Element
unlink id [] = []
unlink id (x ∷ xs) = if x.id == id then xs else x ∷ unlink id xs

-- `List.MoveToFront`, which does nothing for an element that is not in the list.
abbrev pub move_to_front : Element → List Element → List Element
move_to_front e xs = elim (element_at e.id xs) [ none ↦ xs | some x ↦ e ∷ unlink e.id xs ]

abbrev pub last : Element → List Element → Element
last x [] = x
last x (y ∷ ys) = last y ys

abbrev pub back : List Element → Option Element
back [] = none
back (x ∷ xs) = some (last x xs)

pub remove : Option Element → Cache → Cache
remove none c = c
remove (some e) c = record c {
  items = delete e.key c.items;
  bytes = c.bytes - length e.value;
  lru = unlink e.id c.lru;
}

-- The loop that evicts, with the rounds that are left; `none` is a loop that is still running.
pub evict : ℕ → Cache → Option Cache
evict zero c = none
evict (suc rounds) c =
    let rest = evict rounds (remove (back c.lru) c) in
    if ltb c.max_bytes c.bytes then rest else some c

-- The new element in front of the list and in the map.
pub push : Key → Bytes → Cache → Cache
push k value c =
    let e : Element = record { id = c.next_id; key = k; value = value } in
    record c {
      items = assign k e c.items;
      bytes = c.bytes + length value;
      lru = e ∷ c.lru;
      next_id = c.next_id + 1;
    }

-- Each round removes an element, so as many rounds as there are elements, and one more, are
-- enough.
pub put : Key → Bytes → Cache → Option Cache
put k value c =
    if ltb c.max_bytes (length value) || not (k.len == length value)
    then some c
    else let c1 = remove (lookup k c.items) c in
      let c2 = push k value c1 in evict (length c2.lru + 1) c2

pub get : Key → Cache → Option Bytes × Cache
get k c = elim (lookup k c.items) [
  | none ↦ (none, c)
  | some e ↦ (some e.value, record c { lru = move_to_front e c.lru })
]

pub clear : Cache → Cache
clear c = record c { items = []; lru = []; bytes = 0 }
