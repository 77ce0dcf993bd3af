-- ===== src/Base/Bits.antt =====
-- Masks and flags on one byte as arithmetic; each is a table that evaluation checks.
use Prim.Native.Nat.{ℕ, zero, suc, ◌+◌, ◌*◌, ◌/◌, ◌%◌, ◌<◌, bit_and, bit_or, bit_xor, ◌-◌}
use mathlib.Core.Path.{◌≡◌, refl}
use mathlib.Core.Bool.{Bool, true, ◌&&◌}
use native.Mathlib.Omega.{arith}
use cursor_embed_cus_mqtt_su.Base.Tests.{◌==◌, ==_iff}

abbrev pub IsByte : ℕ → Type 0
IsByte b = b < 256

holds_below : ℕ → (ℕ → Bool) → Bool
holds_below zero p = true
holds_below (suc n) p = p n && holds_below n p

holds_below-apply : (n : ℕ) (p : ℕ → Bool) (x : ℕ) → holds_below n p ≡ true → x < n → p x ≡ true
unfolding holds_below
holds_below-apply zero p x h lt = absurd (omega arith)
holds_below-apply (suc n) p x h lt = ground (arith, holds_below-apply n p x)

-- Two functions that agree below `n` by evaluation are equal there.
agree : (n : ℕ) (f g : ℕ → ℕ) (x : ℕ) → holds_below n (λ y. f y == g y) ≡ true → x < n → f x ≡ g x
agree n f g x h lt = (==_iff (f x) (g x)).0 (holds_below-apply n (λ y. f y == g y) x h lt)

pub low_seven : (b : ℕ) → IsByte b → bit_and b 127 ≡ b % 128
unfolding holds_below
low_seven b = agree 256 (λ y. bit_and y 127) (λ y. y % 128) b refl

pub top_bit : (b : ℕ) → IsByte b → bit_and b 128 ≡ b / 128 * 128
unfolding holds_below
top_bit b = agree 256 (λ y. bit_and y 128) (λ y. y / 128 * 128) b refl

pub set_top_bit : (b : ℕ) → b < 128 → bit_or b 128 ≡ b + 128
unfolding holds_below
set_top_bit b = agree 128 (λ y. bit_or y 128) (λ y. y + 128) b refl

pub low_nibble : (b : ℕ) → IsByte b → bit_and b 15 ≡ b % 16
unfolding holds_below
low_nibble b = agree 256 (λ y. bit_and y 15) (λ y. y % 16) b refl

pub low_two : (b : ℕ) → IsByte b → bit_and b 3 ≡ b % 4
unfolding holds_below
low_two b = agree 256 (λ y. bit_and y 3) (λ y. y % 4) b refl

pub low_bit : (b : ℕ) → IsByte b → bit_and b 1 ≡ b % 2
unfolding holds_below
low_bit b = agree 256 (λ y. bit_and y 1) (λ y. y % 2) b refl

-- A nibble beside the top bit.
pub join_top_bit : (b : ℕ) → b < 16 → bit_or 128 (bit_and b 15) ≡ 128 + b
unfolding holds_below
join_top_bit b = agree 16 (λ y. bit_or 128 (bit_and y 15)) (λ y. 128 + y) b refl

pub join_no_bit : (b : ℕ) → b < 16 → bit_or 0 (bit_and b 15) ≡ b
unfolding holds_below
join_no_bit b = agree 16 (λ y. bit_or 0 (bit_and y 15)) (λ y. y) b refl

pub xor_ones : (b : ℕ) → IsByte b → bit_xor 255 b ≡ 255 - b
unfolding holds_below
xor_ones b = agree 256 (λ y. bit_xor 255 y) (λ y. 255 - y) b refl

pub xor_zero : (b : ℕ) → IsByte b → bit_xor 0 b ≡ b
unfolding holds_below
xor_zero b = agree 256 (λ y. bit_xor 0 y) (λ y. y) b refl
