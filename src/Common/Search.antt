-- ===== src/Common/Search.antt =====
-- sort.Search of Go's standard library, which the source calls on its ordered extent tables:
-- binary search for the least index at which a monotone predicate holds.
use Prim.Native.Nat.{ℕ, zero, suc, ◌+◌, ◌/◌, ◌≤◌, ◌<◌, ◌-◌}
use mathlib.Core.Path.{◌≡◌}
use mathlib.Core.Bool.{Bool, true, false}
use mathlib.Core.Option.{Option, none, some}
use mathlib.Core.List.{List, [], ◌∷◌}
use mathlib.Core.Path.{refl}
use native.Mathlib.Omega.{arith}
use native.Mathlib.Decide.{dec_lt}
use wii_bridge.Common.Lists.{length, get_elem?, drop}
use mathlib.Core.Logic.{inl, inr}
use wii_bridge.Common.Tests.{ltb, ltb→lt, ltb-false, Bool-cases, if◌then◌else◌}

-- The loop `for i < j`, which halves j - i; fuel of at least j - i rounds is enough.
pub search_loop : ℕ → (ℕ → Bool) → ℕ → ℕ → ℕ
search_loop zero f i j = i
search_loop (suc fuel) f i j =
    let right = search_loop fuel f ((i + j) / 2 + 1) j in
    let left = search_loop fuel f i ((i + j) / 2) in
    if ltb i j then if f ((i + j) / 2) then left else right else i

unfoldable pub search_index : ℕ → (ℕ → Bool) → ℕ
unfolding search_loop
search_index n f = search_loop n f 0 n

abbrev pub IsMonotone : (ℕ → Bool) → Type 0
IsMonotone f = (a b : ℕ) → a ≤ b → f a ≡ true → f b ≡ true

-- What the loop returns: nothing below it passes the test, and all from it up to `n` does.
pub record IsFirst (n : ℕ) (f : ℕ → Bool) (r : ℕ) : Type 0 where
  pub bound : r ≤ n
  pub before : (k : ℕ) → k < r → f k ≡ false
  pub after : (k : ℕ) → r ≤ k → k < n → f k ≡ true

module _ (f : ℕ → Bool) (mono : IsMonotone f) where
  not_before : (m k : ℕ) → f m ≡ false → k < suc m → f k ≡ false
  not_before m k h lt = ground (arith, mono k m (omega arith))

  search_loop-IsFirst :
      (n fuel i j : ℕ)
      → j - i ≤ fuel
      → i ≤ j
      → j ≤ n
      → ((k : ℕ) → k < i → f k ≡ false)
      → ((k : ℕ) → j ≤ k → k < n → f k ≡ true)
      → IsFirst n f (search_loop fuel f i j)
  unfolding search_loop
  search_loop-IsFirst n zero i j hf hij hjn lo hi = record {
    bound = omega arith;
    before = lo;
    after = λ k h h'. hi k (omega arith) h';
  }
  search_loop-IsFirst n (suc fuel) i j hf hij hjn lo hi = elim (Bool-cases (ltb i j)) [
    | inr stop ↦ rw stop (record {
      bound = omega arith;
      before = lo;
      after = λ k h h'. hi k (omega (arith, ltb-false i j stop)) h';
    })
    | inl go ↦
        let lt = ltb→lt i j go in
        elim (Bool-cases (f ((i + j) / 2))) [
          | inl hit ↦
              rw (go, hit)
                (search_loop-IsFirst n fuel i ((i + j) / 2) (omega arith) (omega arith)
                  (omega arith) lo (λ k h h'. mono ((i + j) / 2) k h hit))
          | inr miss ↦
              rw (go, miss)
                (search_loop-IsFirst n fuel ((i + j) / 2 + 1) j (omega arith) (omega arith) hjn
                  (λ k h. not_before ((i + j) / 2) k miss (omega arith)) hi)
        ]
  ]

  pub search_index-IsFirst : (n : ℕ) → IsFirst n f (search_index n f)
  unfolding search_index
  search_index-IsFirst n =
      search_loop-IsFirst n n 0 n (omega arith) (omega arith) (omega arith)
        (λ k h. absurd (omega arith)) (λ k h h'. absurd (omega arith))

-- sort.Search over a table, with the item at the index that it returns.
module _ {ℓ} {A : Type ℓ} (p : A → Bool) where
  -- The test as a function of the index. It is never called at an index past the end.
  abbrev pub at_index : List A → ℕ → Bool
  at_index [] i = true
  at_index (x ∷ xs) zero = p x
  at_index (x ∷ xs) (suc i) = at_index xs i

  unfoldable pub search_table : List A → Option A
  unfolding search_index
  search_table xs = get_elem? xs (search_index (length xs) (at_index xs))

  unfoldable pub search_rest : List A → List A
  unfolding search_index
  search_rest xs = drop (search_index (length xs) (at_index xs)) xs

  -- The same, item by item.
  abbrev pub first_where : List A → Option A
  first_where [] = none
  first_where (x ∷ xs) = if p x then some x else first_where xs

  abbrev pub drop_until : List A → List A
  drop_until [] = []
  drop_until (x ∷ xs) = if p x then x ∷ xs else drop_until xs

  abbrev pub AllTrue : List A → Type 0
  AllTrue [] = Unit
  AllTrue (x ∷ xs) = (p x ≡ true) × AllTrue xs

  -- Once an item passes, all later ones do.
  abbrev pub Upward : List A → Type 0
  Upward [] = Unit
  Upward (x ∷ xs) = (p x ≡ true → AllTrue xs) × Upward xs

  AllTrue-at : (xs : List A) (i : ℕ) → AllTrue xs → at_index xs i ≡ true
  AllTrue-at [] i h = refl
  AllTrue-at (x ∷ xs) zero h = h.0
  AllTrue-at (x ∷ xs) (suc i) h = AllTrue-at xs i h.1

  at_index-IsMonotone : (xs : List A) → Upward xs → IsMonotone (at_index xs)
  at_index-IsMonotone [] u a b le h = refl
  at_index-IsMonotone (x ∷ xs) u zero zero le h = h
  at_index-IsMonotone (x ∷ xs) u zero (suc b) le h = AllTrue-at xs b (u.0 h)
  at_index-IsMonotone (x ∷ xs) u (suc a) zero le h = absurd (omega arith)
  at_index-IsMonotone (x ∷ xs) u (suc a) (suc b) le h =
      at_index-IsMonotone xs u.1 a b (omega arith) h

  first_at :
      (xs : List A) (r : ℕ)
      → r ≤ length xs
      → ((k : ℕ) → k < r → at_index xs k ≡ false)
      → at_index xs r ≡ true
      → (get_elem? xs r ≡ first_where xs) × (drop r xs ≡ drop_until xs)
  first_at [] zero h before here = (refl, refl)
  first_at [] (suc r) h before here = absurd (omega arith)
  first_at (x ∷ xs) zero h before here = (rw here, rw here)
  first_at (x ∷ xs) (suc r) h before here =
      let miss : p x ≡ false = before 0 (omega arith) in
      rw miss (first_at xs r (omega arith) (λ k lt. before (suc k) (omega arith)) here)

  past_end : (xs : List A) (r : ℕ) → length xs ≤ r → at_index xs r ≡ true
  past_end [] r h = refl
  past_end (x ∷ xs) zero h = absurd (omega arith)
  past_end (x ∷ xs) (suc r) h = past_end xs r (omega arith)

  -- On a table in which the passing items stand last, binary search finds what the scan finds.
  pub search_table_lem :
      (xs : List A)
      → Upward xs
      → (search_table xs ≡ first_where xs) × (search_rest xs ≡ drop_until xs)
  unfolding search_table search_rest
  search_table_lem xs u =
      let first = search_index-IsFirst (at_index xs) (at_index-IsMonotone xs u) (length xs) in
      let r = search_index (length xs) (at_index xs) in
      first_at xs r first.bound first.before (elim (dec_lt r (length xs)) [
        | yes lt ↦ first.after r (omega arith) lt
        | no ge ↦ past_end xs r (omega arith)
      ])
