-- ===== src/Common/Bits.antt =====
-- Shifts and masks as arithmetic, and the one fact about `|` that the models need.
use Prim.Native.Nat.{
  ℕ, zero, suc, ◌+◌, ◌*◌, ◌/◌, ◌%◌, ◌^◌, ◌≤◌, ◌<◌, max, bit_or, digits, bit_or-bitwise,
}
use mathlib.Core.Path.{◌≡◌, refl, sym, ap}
use native.Mathlib.Omega.{arith}
use native.Mathlib.Nat.{mul_assoc, pow-suc}

-- `x & (2 ** k - 1)`, `x >> k` and `x << k`
abbrev pub low_bits : ℕ → ℕ → ℕ
low_bits x k = x % 2 ^ k

abbrev pub shr : ℕ → ℕ → ℕ
shr x k = x / 2 ^ k

abbrev pub shl : ℕ → ℕ → ℕ
shl x k = x * 2 ^ k

-- bit k of `x`, which is not 0 exactly when `x & (1 << k)` is not 0
abbrev pub bit : ℕ → ℕ → ℕ
bit x k = x / 2 ^ k % 2

abbrev or_digits : ℕ → ℕ → ℕ → ℕ
or_digits = digits (λ b. b) max

or_digits_fuel :
    (fuel other x y : ℕ) → x ≤ fuel → x ≤ other → or_digits fuel x y ≡ or_digits other x y
or_digits_fuel (suc fuel) (suc other) (suc x) y h k =
    omega (arith, or_digits_fuel fuel other (suc x / 2) (y / 2) (omega arith) (omega arith))
or_digits_fuel (suc fuel) (suc other) zero y h k = refl
or_digits_fuel (suc fuel) zero zero y h k = refl
or_digits_fuel zero (suc other) zero y h k = refl
or_digits_fuel zero zero x y h k = refl
or_digits_fuel zero (suc other) (suc x) y h k = absurd (omega arith)
or_digits_fuel (suc fuel) zero (suc x) y h k = absurd (omega arith)

zero-bit_or : (b : ℕ) → bit_or 0 b ≡ b
zero-bit_or b = bit_or-bitwise 0 b

bit_or_lowest : (a b : ℕ) → bit_or a b ≡ bit_or (a / 2) (b / 2) * 2 + max (a % 2) (b % 2)
bit_or_lowest zero b = omega (arith, zero-bit_or b, zero-bit_or (b / 2))
bit_or_lowest (suc a) b = omega (
  arith,
  bit_or-bitwise (suc a) b,
  bit_or-bitwise (suc a / 2) (b / 2),
  or_digits_fuel a (suc a / 2) (suc a / 2) (b / 2) (omega arith) (omega arith),
)

-- Above the bits of `a`, `|` adds.
pub bit_or-shl : (k a b : ℕ) → a < 2 ^ k → bit_or a (shl b k) ≡ a + shl b k
bit_or-shl zero a b h = omega (
  arith,
  ap (λ (t : ℕ). bit_or t (b * 1)) (let e : a ≡ 0 = omega arith in e),
  zero-bit_or (b * 1),
)
bit_or-shl (suc k) a b h =
    let double : b * 2 ^ suc k ≡ b * 2 ^ k * 2 = rw (pow-suc 2 k) (sym (mul_assoc b (2 ^ k) 2)) in
    let half : b * 2 ^ suc k / 2 ≡ b * 2 ^ k = omega arith in
    omega (
      arith,
      bit_or_lowest a (b * 2 ^ suc k),
      ap (λ (t : ℕ). bit_or (a / 2) t) half,
      bit_or-shl k (a / 2) b (omega (arith, pow-suc 2 k)),
    )
