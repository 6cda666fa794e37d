-- ===== src/Common/Tabulate.antt =====
-- Byte strings given by a function of the position.
use wii_bridge.Common.Lists.{length, take, drop, get_or, replicate}
use Prim.Native.Nat.{ℕ, zero, suc, ◌+◌, ◌≤◌, ◌<◌}
use mathlib.Core.Path.{◌≡◌, refl, sym, ap, ap₂, ◌∙◌}
use mathlib.Core.List.{[], ◌∷◌, ◌++◌}
use native.Mathlib.Omega.{arith}
use wii_bridge.Common.Wire.{Bytes}

-- f off, f (off + 1), … : `n` values.
abbrev pub tabulate : (ℕ → ℕ) → ℕ → ℕ → Bytes
tabulate f off zero = []
tabulate f off (suc n) = f off ∷ tabulate f (off + 1) n

pub length-tabulate : (f : ℕ → ℕ) (off n : ℕ) → length (tabulate f off n) ≡ n
length-tabulate f off zero = refl
length-tabulate f off (suc n) = ap suc (length-tabulate f (off + 1) n)

pub tabulate-append :
    (f : ℕ → ℕ) (off m n : ℕ) → tabulate f off m ++ tabulate f (off + m) n ≡ tabulate f off (m + n)
tabulate-append f off zero n =
    let e : off + 0 ≡ off = omega arith in let e' : 0 + n ≡ n = omega arith in rw (e, e')
tabulate-append f off (suc m) n =
    let e : off + suc m ≡ off + 1 + m = omega arith in
    let e' : suc m + n ≡ suc (m + n) = omega arith in
    rw (e, e') (ap (λ t. f off ∷ t) (tabulate-append f (off + 1) m n))

-- Values that agree on the range make the same table.
pub tabulate_ext :
    (f g : ℕ → ℕ) (off n : ℕ)
    → ((i : ℕ) → off ≤ i → i < off + n → f i ≡ g i)
    → tabulate f off n ≡ tabulate g off n
tabulate_ext f g off zero h = refl
tabulate_ext f g off (suc n) h =
    ap₂ ◌∷◌ (h off (omega arith) (omega arith))
      (tabulate_ext f g (off + 1) n (λ i lo hi. h i (omega arith) (omega arith)))

pub replicate-eq-tabulate :
    (f : ℕ → ℕ) (off n : ℕ)
    → ((i : ℕ) → off ≤ i → i < off + n → f i ≡ 0)
    → replicate n 0 ≡ tabulate f off n
replicate-eq-tabulate f off zero h = refl
replicate-eq-tabulate f off (suc n) h =
    ap₂ ◌∷◌ (sym (h off (omega arith) (omega arith)))
      (replicate-eq-tabulate f (off + 1) n (λ i lo hi. h i (omega arith) (omega arith)))

-- A cut of a list, value by value.
pub cut-eq-tabulate :
    (xs : Bytes) (k n : ℕ) (f : ℕ → ℕ) (off : ℕ)
    → k + n ≤ length xs
    → ((i : ℕ) → i < n → f (off + i) ≡ get_or xs (k + i) 0)
    → take n (drop k xs) ≡ tabulate f off n
cut-eq-tabulate xs k zero f off h e = refl
cut-eq-tabulate [] k (suc n) f off h e = absurd (omega arith)
cut-eq-tabulate (x ∷ xs) zero (suc n) f off h e =
    let here : f off ≡ x = ap f (omega arith) ∙ e 0 (omega arith) in
    ap₂ ◌∷◌ (sym here) (
      cut-eq-tabulate xs zero n f (off + 1) (omega arith) λ i lt.
        let index : 0 + suc i ≡ suc (0 + i) = omega arith in
        let place : off + 1 + i ≡ off + suc i = omega arith in
        ap f place ∙ e (suc i) (omega arith) ∙ ap (λ k. get_or (x ∷ xs) k 0) index)
cut-eq-tabulate (x ∷ xs) (suc k) (suc n) f off h e =
    cut-eq-tabulate xs k (suc n) f off (omega arith) λ i lt.
      let index : suc k + i ≡ suc (k + i) = omega arith in
      e i lt ∙ ap (λ j. get_or (x ∷ xs) j 0) index

-- Values that agree behind two offsets make the same table.
pub tabulate_shift :
    (f g : ℕ → ℕ) (a b n : ℕ)
    → ((i : ℕ) → i < n → f (a + i) ≡ g (b + i))
    → tabulate f a n ≡ tabulate g b n
tabulate_shift f g a b zero h = refl
tabulate_shift f g a b (suc n) h =
    let here : f a ≡ g b = ap f (omega arith) ∙ h 0 (omega arith) ∙ ap g (omega arith) in
    ap₂ ◌∷◌ here (
      tabulate_shift f g (a + 1) (b + 1) n λ i lt.
        let left : a + 1 + i ≡ a + suc i = omega arith in
        let right : b + suc i ≡ b + 1 + i = omega arith in
        ap f left ∙ h (suc i) (omega arith) ∙ ap g right)

pub take_all : (xs : Bytes) → take (length xs) xs ≡ xs
take_all [] = refl
take_all (x ∷ xs) = ap (λ t. x ∷ t) (take_all xs)
