-- ===== src/Common/Int.antt =====
-- Signed 64-bit offsets and lengths: `negsuc n` is -(n + 1).
use Prim.Native.Nat.{ℕ, ◌+◌, ◌-◌, ◌%◌, ◌≤◌, ◌<◌}
use mathlib.Core.Path.{◌≡◌, refl, sym, ap, ◌∙◌, subst}
use mathlib.Core.Logic.{◌≢◌, inl, inr}
use mathlib.Core.Bool.{Bool, true, false, not}
use native.Mathlib.Omega.{arith}
use wii_bridge.Common.Tests.{ltb, if◌then◌else◌, Bool-cases}

pub data ℤ : Type 0 where
  pos : ℕ → ℤ
  negsuc : ℕ → ℤ

-- Two's complement.
abbrev pub bits : ℤ → ℕ
bits (pos n) = n
bits (negsuc n) = 18446744073709551615 - n

abbrev pub of_bits : ℕ → ℤ
of_bits n = if ltb n 9223372036854775808 then pos n else negsuc (18446744073709551615 - n)

-- The sum and the difference of int64 values wrap at 2 ^ 64.
abbrev pub add64 : ℤ → ℤ → ℤ
add64 a b = of_bits ((bits a + bits b) % 18446744073709551616)

abbrev pub sub64 : ℤ → ℤ → ℤ
sub64 a b = of_bits ((bits a + (18446744073709551616 - bits b)) % 18446744073709551616)

abbrev pub less : ℤ → ℤ → Bool
less (pos a) (pos b) = ltb a b
less (pos a) (negsuc b) = false
less (negsuc a) (pos b) = true
less (negsuc a) (negsuc b) = ltb b a

-- The natural number of a value that is not negative.
abbrev pub natural : ℤ → ℕ
natural (pos n) = n
natural (negsuc n) = 0

abbrev pub IsInt64 : ℤ → Type 0
IsInt64 (pos n) = n < 9223372036854775808
IsInt64 (negsuc n) = n < 9223372036854775808

-- A value that is not negative.
abbrev pub IsSize : ℤ → Type 0
IsSize a = (n : ℕ) × (a ≡ pos n) × (n < 9223372036854775808)

-- A range of a file or a volume: not negative, and inside its bound.
abbrev pub IsWithin : ℤ → ℤ → ℤ → Type 0
IsWithin bound offset len =
    (b : ℕ) × (o : ℕ) × (n : ℕ) × (bound ≡ pos b) × (offset ≡ pos o) × (len ≡ pos n) × (o + n ≤ b)

pub less-natural : (a b : ℤ) → less a b ≡ false → natural b ≤ natural a
less-natural (pos a) (pos b) h = ground arith
less-natural (pos a) (negsuc b) h = omega arith
less-natural (negsuc a) (pos b) h = absurd (cc h)
less-natural (negsuc a) (negsuc b) h = omega arith

sub64_fits :
    (b n : ℕ)
    → b < 9223372036854775808
    → n < 9223372036854775808
    → n ≤ b
    → sub64 (pos b) (pos n) ≡ pos (b - n)
sub64_fits b n hb hn le =
    let same : (b + (18446744073709551616 - n)) % 18446744073709551616 ≡ b - n = omega arith in
    let small : ltb (b - n) 9223372036854775808 ≡ true = ground arith in rw (same, small)

sub64_negative :
    (b n : ℕ)
    → b < 9223372036854775808
    → n < 9223372036854775808
    → b < n
    → sub64 (pos b) (pos n) ≡ negsuc (18446744073709551615 - (b + (18446744073709551616 - n)))
sub64_negative b n hb hn lt =
    let same : (b + (18446744073709551616 - n)) % 18446744073709551616
        ≡ b + (18446744073709551616 - n) =
      omega arith in
    let large : ltb (b + (18446744073709551616 - n)) 9223372036854775808 ≡ false = ground arith in
    rw (same, large)

-- The test of a range as the source writes it.
pub sub64-IsWithin :
    (bound offset len : ℤ)
    → IsSize bound
    → IsInt64 len
    → less offset (pos 0) ≡ false
    → less len (pos 0) ≡ false
    → less (sub64 bound len) offset ≡ false
    → IsWithin bound offset len
sub64-IsWithin bound (negsuc o) len size range h k fits = absurd (cc h)
sub64-IsWithin bound (pos o) (negsuc n) size range h k fits = absurd (cc k)
sub64-IsWithin bound (pos o) (pos n) (b, is, small) range h k fits =
    let fits' : less (sub64 (pos b) (pos n)) (pos o) ≡ false =
      subst (λ t. less (sub64 t (pos n)) (pos o) ≡ false) is fits in
    elim (Bool-cases (ltb b n)) [
      | inl over ↦
          let minus = sub64_negative b n small range (ground arith) in
          absurd (cc (sym (ap (λ t. less t (pos o)) minus) ∙ fits'))
      | inr room ↦
          let diff = sub64_fits b n small range (ground arith) in
          let below : ltb (b - n) o ≡ false = sym (ap (λ t. less t (pos o)) diff) ∙ fits' in
          (b, o, n, is, refl, refl, ground arith)
    ]

-- The end of such a range does not wrap.
pub add64-natural :
    (bound offset len : ℤ)
    → IsSize bound
    → IsWithin bound offset len
    → natural (add64 offset len) ≡ natural offset + natural len
add64-natural bound offset len (c, is', small) (b, o, n, is, at, size, fits) =
    let one : natural bound ≡ c = ap natural is' in
    let two : natural bound ≡ b = ap natural is in
    let same : (o + n) % 18446744073709551616 ≡ o + n = omega arith in
    let low : ltb (o + n) 9223372036854775808 ≡ true = ground arith in
    rw (at, size) (rw (same, low))

-- A test for a value that is not positive.
pub positive :
    (len : ℤ) → not (less (pos 0) len) ≡ false → (less len (pos 0) ≡ false) × (len ≢ pos 0)
positive (negsuc n) h = absurd (cc h)
positive (pos n) h = (ground arith, λ e. let zero : n ≡ 0 = ap natural e in absurd (ground arith))
