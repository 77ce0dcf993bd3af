-- ===== src/Base/Shift.antt =====
-- `(x << 8) | b` for a byte `b`, from the binary digits that `bit_or` stands for.
use Prim.Native.Nat.{
  ℕ, zero, suc, ◌+◌, ◌*◌, ◌/◌, ◌%◌, ◌^◌, ◌≤◌, ◌<◌, max, bit_or, digits, bit_or-bitwise,
}
use mathlib.Core.Path.{◌≡◌, refl, ◌∙◌, ap}
use native.Mathlib.Omega.{arith}
use native.Mathlib.Nat.{pow-suc}

abbrev digits_or : ℕ → ℕ → ℕ → ℕ
digits_or rounds x y = digits (λ d. d) max rounds x y

-- The rounds do not matter once there are as many as the number on the left.
digits_or-rounds : (r s x y : ℕ) → x ≤ r → x ≤ s → digits_or r x y ≡ digits_or s x y
digits_or-rounds zero zero x y h k = refl
digits_or-rounds zero (suc s) zero y h k = refl
digits_or-rounds (suc r) zero zero y h k = refl
digits_or-rounds (suc r) (suc s) zero y h k = refl
digits_or-rounds zero s (suc x) y h k = absurd (omega arith)
digits_or-rounds (suc r) zero (suc x) y h k = absurd (omega arith)
digits_or-rounds (suc r) (suc s) (suc x) y h k =
    omega (arith, digits_or-rounds r s (suc x / 2) (y / 2) (omega arith) (omega arith))

digits_or-double :
    (z x y : ℕ)
    → suc z ≡ 2 * suc x
    → digits_or (suc z) (suc z) y ≡ 2 * digits_or (suc x) (suc x) (y / 2) + y % 2
digits_or-double z x y e = omega (arith, shorter (suc z / 2) (omega arith))
  where
    shorter : (h : ℕ) → h ≡ suc x → digits_or z h (y / 2) ≡ digits_or (suc x) (suc x) (y / 2)
    shorter h i = rw i (digits_or-rounds z (suc x) (suc x) (y / 2) (omega arith) (omega arith))

double : (z x y : ℕ) → z ≡ 2 * suc x → bit_or z y ≡ 2 * digits_or (suc x) (suc x) (y / 2) + y % 2
double zero x y e = absurd (omega arith)
double (suc z) x y e = bit_or-bitwise (suc z) y ∙ digits_or-double z x y e

-- An even number on the left leaves the lowest digit to the right.
bit_or-double : (x y : ℕ) → bit_or (2 * x) y ≡ 2 * bit_or x (y / 2) + y % 2
bit_or-double zero y = omega (arith, bit_or-bitwise 0 y, bit_or-bitwise 0 (y / 2))
bit_or-double (suc x) y =
    omega (arith, double (2 * suc x) x y (omega arith), bit_or-bitwise (suc x) (y / 2))

digits_or-nil : (r x : ℕ) → x ≤ r → digits_or r x 0 ≡ x
digits_or-nil zero zero h = refl
digits_or-nil (suc r) zero h = refl
digits_or-nil zero (suc x) h = absurd (omega arith)
digits_or-nil (suc r) (suc x) h = omega (arith, digits_or-nil r (suc x / 2) (omega arith))

bit_or-nil : (x : ℕ) → bit_or x 0 ≡ x
bit_or-nil x = bit_or-bitwise x 0 ∙ digits_or-nil x x (omega arith)

-- One number above `k` zero digits, and another that fits below.
bit_or_above : (k x y : ℕ) → y < 2 ^ k → bit_or (x * 2 ^ k) y ≡ x * 2 ^ k + y
bit_or_above zero x y h = ground (arith, bit_or-nil x)
bit_or_above (suc k) x y h = ground (
  arith,
  ap (λ (t : ℕ). x * t) (pow-suc 2 k),
  bit_or-double (x * 2 ^ k) y,
  bit_or_above k x (y / 2) (omega (arith, pow-suc 2 k)),
)

pub bit_or_byte : (x b : ℕ) → b < 256 → bit_or (x * 256) b ≡ x * 256 + b
bit_or_byte x b h = bit_or_above 8 x b h
