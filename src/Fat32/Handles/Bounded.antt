-- ===== src/Fat32/Handles/Bounded.antt =====
-- The number of open image files (backend.go) stays within the limit.
use wii_bridge.Common.{
  ◌+◌, ◌≤◌, ◌<◌, ◌≡◌, refl, ap, String, true, List, [], ◌∷◌, leb, arith, length, Bool-cases, inl,
  inr,
}
use wii_bridge.Fat32.Handles.{
  Os, Handles, has_path, without_path, split_back, open_new, evict_back, open_path, drop_cached,
}

-- Within the limit, now and at every time before.
pub record IsBounded (h : Handles) : Type 0 where
  pub limited : 0 < h.limit
  pub within : length h.lru ≤ h.limit
  pub peaked : h.stats.peak_open_files ≤ h.limit

length-without_path : (path : String) (xs : List String) → length (without_path path xs) ≤ length xs
length-without_path path [] = omega arith
length-without_path path (x ∷ xs) = ground (arith, length-without_path path xs)

length-has_path :
    (path : String) (xs : List String)
    → has_path path xs ≡ true
    → length (without_path path xs) + 1 ≡ length xs
length-has_path path [] h = absurd (cc h)
length-has_path path (x ∷ xs) h = ground (arith, length-has_path path xs)

length-split_back : (x : String) (xs : List String) → length (split_back x xs).0 ≡ length xs
length-split_back x [] = refl
length-split_back x (y ∷ ys) = omega (arith, length-split_back y ys)

open_new-IsBounded :
    (os : Os) (h : Handles) (path : String)
    → 0 < h.limit
    → length h.lru < h.limit
    → h.stats.peak_open_files ≤ h.limit
    → IsBounded (open_new os h path).0
unfolding open_new
open_new-IsBounded os h path l w p = elim (Bool-cases (os.opens path)) [
  | inl opened ↦ rw opened (record { limited = l; within = omega arith; peaked = omega arith })
  | inr failed ↦ rw failed (record { limited = l; within = omega arith; peaked = p })
]

-- After an eviction there is room.
evict_back-IsBounded :
    (os : Os) (h : Handles) (xs : List String)
    → IsBounded h
    → h.lru ≡ xs
    → (length (evict_back os h xs).0.lru < h.limit)
      × ((evict_back os h xs).0.limit ≡ h.limit)
      × ((evict_back os h xs).0.stats.peak_open_files ≤ h.limit)
unfolding evict_back
evict_back-IsBounded os h [] b e = (omega (arith, b.limited, ap length e), refl, b.peaked)
evict_back-IsBounded os h (x ∷ xs) b e = elim (Bool-cases (os.closes (split_back x xs).1)) [
  | inl closed ↦
      rw closed (omega (arith, b.within, ap length e, length-split_back x xs), refl, b.peaked)
  | inr stuck ↦
      rw stuck (omega (arith, b.within, ap length e, length-split_back x xs), refl, b.peaked)
]

-- With a limit above 0, opening a file keeps the number of open files, and the largest number so
-- far, within it, whatever the operating system answers.
pub open_path-IsBounded :
    (os : Os) (h : Handles) (path : String) → IsBounded h → IsBounded (open_path os h path).0
unfolding open_path
open_path-IsBounded os h path b = elim (Bool-cases (has_path path h.lru)) [
  | inl hit ↦ rw hit (record {
    limited = b.limited;
    within = omega (arith, length-has_path path h.lru hit, b.within);
    peaked = b.peaked;
  })
  | inr miss ↦ elim (Bool-cases (leb h.limit (length h.lru))) [
    | inr room ↦ rw (miss, room) (open_new-IsBounded os h path b.limited (ground arith) b.peaked)
    | inl full ↦
        let (room, limit, peak) = evict_back-IsBounded os h h.lru b refl in
        elim (Bool-cases (evict_back os h h.lru).1) [
          | inl ok ↦
              rw (miss, full, ok)
                (open_new-IsBounded os (evict_back os h h.lru).0 path
                  (omega (arith, limit, b.limited)) (omega (arith, limit)) (omega (arith, limit)))
          | inr bad ↦
              rw (miss, full, bad)
                (record {
                  limited = omega (arith, limit, b.limited);
                  within = omega (arith, limit);
                  peaked = omega (arith, limit);
                })
        ]
  ]
]

pub drop_cached-IsBounded :
    (h : Handles) (path : String) → IsBounded h → IsBounded (drop_cached h path)
unfolding drop_cached
drop_cached-IsBounded h path b = elim (Bool-cases (has_path path h.lru)) [
  | inl hit ↦ rw hit (record {
    limited = b.limited;
    within = omega (arith, length-without_path path h.lru, b.within);
    peaked = b.peaked;
  })
  | inr miss ↦ rw miss b
]

evict_back-closes :
    (os : Os) (h : Handles) (xs : List String)
    → ((path : String) → os.closes path ≡ true)
    → (evict_back os h xs).1 ≡ true
unfolding evict_back
evict_back-closes os h [] closes = refl
evict_back-closes os h (x ∷ xs) closes = rw (closes (split_back x xs).1)

pub open_path-opens :
    (os : Os) (h : Handles) (path : String)
    → os.opens path ≡ true
    → ((p : String) → os.closes p ≡ true)
    → (open_path os h path).1 ≡ true
unfolding open_path open_new
open_path-opens os h path opens closes = elim (Bool-cases (has_path path h.lru)) [
  | inl hit ↦ rw hit
  | inr miss ↦ elim (Bool-cases (leb h.limit (length h.lru))) [
    | inr room ↦ rw (miss, room, opens)
    | inl full ↦ rw (miss, full, evict_back-closes os h h.lru closes, opens)
  ]
]
