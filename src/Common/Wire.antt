-- ===== src/Common/Wire.antt =====
-- Fixed-width integers as bytes (encoding/binary of Go's standard library): big-endian for NBD,
-- little-endian for the on-disk structures. A byte is a number below 256.
use Prim.Native.Nat.{ℕ, zero, suc, ◌+◌, ◌*◌, ◌/◌, ◌%◌, ◌^◌, ◌<◌}
use mathlib.Core.Path.{◌≡◌, refl, ap}
use mathlib.Core.List.{List, [], ◌∷◌}
use mathlib.Core.Bool.{Bool, true, false, ◌&&◌}
use native.Mathlib.Omega.{arith}
use wii_bridge.Common.Lists.{length}
use wii_bridge.Common.Tests.{◌==◌}

abbrev pub Bytes : Type 0
Bytes = List ℕ

-- The low `w` bytes of `x`, the most significant first.
abbrev pub be_bytes : ℕ → ℕ → Bytes
be_bytes zero x = []
be_bytes (suc w) x = x / 256 ^ w % 256 ∷ be_bytes w x

abbrev pub be_value : Bytes → ℕ
be_value [] = 0
be_value (b ∷ bs) = b * 256 ^ length bs + be_value bs

-- The low `w` bytes of `x`, the least significant first.
abbrev pub le_bytes : ℕ → ℕ → Bytes
le_bytes zero x = []
le_bytes (suc w) x = x % 256 ∷ le_bytes w (x / 256)

abbrev pub le_value : Bytes → ℕ
le_value [] = 0
le_value (b ∷ bs) = b + 256 * le_value bs

pub length-be_bytes : (w x : ℕ) → length (be_bytes w x) ≡ w
length-be_bytes zero x = refl
length-be_bytes (suc w) x = ap suc (length-be_bytes w x)

pub length-le_bytes : (w x : ℕ) → length (le_bytes w x) ≡ w
length-le_bytes zero x = refl
length-le_bytes (suc w) x = ap suc (length-le_bytes w (x / 256))

pub be_value-be_bytes_two : (x : ℕ) → x < 65536 → be_value (be_bytes 2 x) ≡ x
be_value-be_bytes_two x h = omega arith

pub be_value-be_bytes_four : (x : ℕ) → x < 4294967296 → be_value (be_bytes 4 x) ≡ x
be_value-be_bytes_four x h = omega arith

pub be_value-be_bytes_eight : (x : ℕ) → x < 18446744073709551616 → be_value (be_bytes 8 x) ≡ x
be_value-be_bytes_eight x h = omega arith

pub le_value-le_bytes_four : (x : ℕ) → x < 4294967296 → le_value (le_bytes 4 x) ≡ x
le_value-le_bytes_four x h = omega arith

-- Comparison of byte strings.
abbrev pub bytes_eq : Bytes → Bytes → Bool
bytes_eq [] [] = true
bytes_eq [] (b ∷ bs) = false
bytes_eq (a ∷ as') [] = false
bytes_eq (a ∷ as') (b ∷ bs) = (a == b) && bytes_eq as' bs

pub bytes_eq_sound : (a b : Bytes) → bytes_eq a b ≡ true → a ≡ b
bytes_eq_sound [] [] h = refl
bytes_eq_sound [] (b ∷ bs) h = cc
bytes_eq_sound (a ∷ as') [] h = cc
bytes_eq_sound (a ∷ as') (b ∷ bs) h = ground (arith, bytes_eq_sound as' bs)

pub bytes_eq_refl : (a : Bytes) → bytes_eq a a ≡ true
bytes_eq_refl [] = refl
bytes_eq_refl (a ∷ as') = ground (arith, bytes_eq_refl as')
