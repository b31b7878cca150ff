-- ===== src/Common/Word.antt =====
-- Machine words as bit patterns: a w-bit integer is a number below 2 ^ w.
use Prim.Native.Nat.{ℕ, zero, suc, ◌+◌, ◌-◌, ◌*◌, ◌/◌, ◌%◌, ◌^◌, ◌<◌}
use mathlib.Core.Path.{◌≡◌, refl, ap}
use mathlib.Core.Bool.{Bool}
use mathlib.Core.List.{List, [], ◌∷◌}
use native.Mathlib.Nat.{pow-suc}
use native.Mathlib.Omega.{arith}
use simple_poject.Common.Tests.{ltb, leb, if◌then◌else◌}
use simple_poject.Common.Lists.{length}

-- int and unsigned share these: + and - wrap.
abbrev pub add32 : ℕ → ℕ → ℕ
add32 a b = (a + b) % 2 ^ 32

abbrev pub sub32 : ℕ → ℕ → ℕ
sub32 a b = (a + 2 ^ 32 - b) % 2 ^ 32

-- < on int: flipping the sign bit makes the order that of the numbers.
abbrev pub slt32 : ℕ → ℕ → Bool
slt32 a b = ltb (add32 a (2 ^ 31)) (add32 b (2 ^ 31))

abbrev pub is_negative : ℕ → Bool
is_negative a = leb (2 ^ 31) a

-- abs of an int
abbrev pub abs32 : ℕ → ℕ
abs32 a = if is_negative a then sub32 0 a else a

-- (int) of a short
abbrev pub extend16 : ℕ → ℕ
extend16 a = if ltb a (2 ^ 15) then a else a + 2 ^ 32 - 2 ^ 16

-- The bytes of a number, lowest first, as x64 stores them.
unfoldable pub to_bytes : ℕ → ℕ → List ℕ
to_bytes zero v = []
to_bytes (suc k) v = v % 256 ∷ to_bytes k (v / 256)

pub of_bytes : List ℕ → ℕ
of_bytes [] = 0
of_bytes (b ∷ bs) = b + 256 * of_bytes bs

pub length-to_bytes : (k v : ℕ) → length (to_bytes k v) ≡ k
unfolding to_bytes
length-to_bytes zero v = refl
length-to_bytes (suc k) v = ap suc (length-to_bytes k (v / 256))

pub of_bytes-to_bytes : (k v : ℕ) → v < 256 ^ k → of_bytes (to_bytes k v) ≡ v
unfolding to_bytes of_bytes
of_bytes-to_bytes zero v h = omega arith
of_bytes-to_bytes (suc k) v h =
    omega (arith, of_bytes-to_bytes k (v / 256) (omega (arith, pow-suc 256 k)))
