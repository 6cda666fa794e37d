-- ===== src/Common/Splice.antt =====
-- Copies into the middle of a byte string (Go's copy (b[off:], bytes)), and cuts of concatenations.
use Prim.Native.Nat.{ℕ, zero, suc, ◌+◌, ◌-◌, ◌≤◌, ◌<◌}
use mathlib.Core.Path.{◌≡◌, refl, ap, ◌∙◌, sym}
use mathlib.Core.Bool.{◌&&◌}
use mathlib.Core.List.{List, [], ◌∷◌, ◌++◌}
use native.Mathlib.Omega.{arith}
use wii_bridge.Common.Tests.{ltb, leb, if◌then◌else◌}
use wii_bridge.Common.Lists.{length, take, drop, get_or, length-append, length-take, length-drop}
use wii_bridge.Common.Wire.{Bytes}

abbrev pub splice : Bytes → ℕ → Bytes → Bytes
splice b off bytes = take off b ++ (bytes ++ drop (off + length bytes) b)

module _ {ℓ} {A : Type ℓ} where
  pub get_or-append :
      (xs ys : List A) (i : ℕ) (d : A)
      → get_or (xs ++ ys) i d
        ≡ (if ltb i (length xs) then get_or xs i d else get_or ys (i - length xs) d)
  get_or-append [] ys i d = ground arith
  get_or-append (x ∷ xs) ys zero d = ground arith
  get_or-append (x ∷ xs) ys (suc i) d = ground (arith, get_or-append xs ys i d)

  pub get_or-take :
      (n : ℕ) (xs : List A) (i : ℕ) (d : A) → i < n → get_or (take n xs) i d ≡ get_or xs i d
  get_or-take zero xs i d h = absurd (omega arith)
  get_or-take (suc n) [] i d h = refl
  get_or-take (suc n) (x ∷ xs) zero d h = refl
  get_or-take (suc n) (x ∷ xs) (suc i) d h = get_or-take n xs i d (omega arith)

  pub get_or-drop :
      (n : ℕ) (xs : List A) (i : ℕ) (d : A) → get_or (drop n xs) i d ≡ get_or xs (n + i) d
  get_or-drop zero xs i d = ap (λ k. get_or xs k d) (omega arith)
  get_or-drop (suc n) [] i d = refl
  get_or-drop (suc n) (x ∷ xs) i d =
      let e : suc n + i ≡ suc (n + i) = omega arith in
      get_or-drop n xs i d ∙ ap (λ k. get_or (x ∷ xs) k d) (sym e)

  pub take-append_le : (n : ℕ) (xs ys : List A) → n ≤ length xs → take n (xs ++ ys) ≡ take n xs
  take-append_le zero xs ys h = refl
  take-append_le (suc n) [] ys h = absurd (omega arith)
  take-append_le (suc n) (x ∷ xs) ys h = ap (λ t. x ∷ t) (take-append_le n xs ys (omega arith))

  pub drop-append_le :
      (n : ℕ) (xs ys : List A) → n ≤ length xs → drop n (xs ++ ys) ≡ drop n xs ++ ys
  drop-append_le zero xs ys h = refl
  drop-append_le (suc n) [] ys h = absurd (omega arith)
  drop-append_le (suc n) (x ∷ xs) ys h = drop-append_le n xs ys (omega arith)

pub length-splice :
    (b : Bytes) (off : ℕ) (bytes : Bytes)
    → off + length bytes ≤ length b
    → length (splice b off bytes) ≡ length b
length-splice b off bytes h = omega (
  arith,
  length-append (take off b) (bytes ++ drop (off + length bytes) b),
  length-append bytes (drop (off + length bytes) b),
  length-take off b,
  length-drop (off + length bytes) b,
)

pub get_or-splice :
    (b : Bytes) (off : ℕ) (bytes : Bytes) (i : ℕ)
    → off + length bytes ≤ length b
    → get_or (splice b off bytes) i 0
      ≡ (if leb off i && ltb i (off + length bytes) then get_or bytes (i - off) 0 else get_or b i 0)
get_or-splice b off bytes i h =
    let outer = get_or-append (take off b) (bytes ++ drop (off + length bytes) b) i 0 in
    let inner = get_or-append bytes (drop (off + length bytes) b) (i - length (take off b)) 0 in
    let size : length (take off b) ≡ off = omega (arith, length-take off b) in
    ground (
      arith,
      outer,
      inner,
      size,
      get_or-take off b i 0,
      get_or-drop (off + length bytes) b (i - off - length bytes) 0,
    )

pub take_more : (n : ℕ) (xs : Bytes) → length xs ≤ n → take n xs ≡ xs
take_more zero [] h = refl
take_more zero (x ∷ xs) h = absurd (omega arith)
take_more (suc n) [] h = refl
take_more (suc n) (x ∷ xs) h = ap (λ t. x ∷ t) (take_more n xs (omega arith))
