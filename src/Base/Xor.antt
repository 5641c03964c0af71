-- ===== src/Base/Xor.antt =====
-- Exclusive or of unsigned numbers: the library's `bit_xor`, and that doing it twice undoes it.
use Prim.Native.Nat.{
  ℕ, zero, suc, ◌+◌, ◌*◌, ◌/◌, ◌%◌, ◌≤◌, ◌<◌, bit_xor, digits, differ, bit_xor-bitwise,
}
use mathlib.Core.Path.{◌≡◌, refl, ap}
use native.Mathlib.Omega.{arith}

abbrev xor_digits : ℕ → ℕ → ℕ → ℕ
xor_digits n a b = digits (λ b. b) differ n a b

xor_digits_fuel : (n m a b : ℕ) → a ≤ n → a ≤ m → xor_digits n a b ≡ xor_digits m a b
xor_digits_fuel zero zero a b p q = refl
xor_digits_fuel zero (suc m) zero b p q = refl
xor_digits_fuel zero (suc m) (suc a) b p q = absurd (omega arith)
xor_digits_fuel (suc n) zero zero b p q = refl
xor_digits_fuel (suc n) zero (suc a) b p q = absurd (omega arith)
xor_digits_fuel (suc n) (suc m) zero b p q = refl
xor_digits_fuel (suc n) (suc m) (suc a) b p q =
    ap (λ k. k * 2 + differ (suc a % 2) (b % 2))
      (xor_digits_fuel n m (suc a / 2) (b / 2) (omega arith) (omega arith))

-- One digit at a time.
bit_xor-digit : (a b : ℕ) → bit_xor a b ≡ bit_xor (a / 2) (b / 2) * 2 + differ (a % 2) (b % 2)
bit_xor-digit zero b = omega (arith, bit_xor-bitwise 0 b, bit_xor-bitwise 0 (b / 2))
bit_xor-digit (suc a) b = omega (
  arith,
  bit_xor-bitwise (suc a) b,
  bit_xor-bitwise (suc a / 2) (b / 2),
  xor_digits_fuel a (suc a / 2) (suc a / 2) (b / 2) (omega arith) (omega arith),
)

differ-twice : (x y : ℕ) → x < 2 → y < 2 → differ (differ x y) y ≡ x
differ-twice zero zero p q = refl
differ-twice zero (suc zero) p q = refl
differ-twice (suc zero) zero p q = refl
differ-twice (suc zero) (suc zero) p q = refl
differ-twice (suc (suc x)) y p q = absurd (omega arith)
differ-twice zero (suc (suc y)) p q = absurd (omega arith)
differ-twice (suc zero) (suc (suc y)) p q = absurd (omega arith)

differ_bound : (x y : ℕ) → x < 2 → y < 2 → differ x y < 2
differ_bound zero y p q = q
differ_bound (suc x) zero p q = p
differ_bound (suc x) (suc y) p q = differ_bound x y (omega arith) (omega arith)

xor-twice_within : (n a b : ℕ) → a ≤ n → b ≤ n → bit_xor (bit_xor a b) b ≡ a
xor-twice_within zero zero zero p q = refl
xor-twice_within zero (suc a) b p q = absurd (omega arith)
xor-twice_within zero zero (suc b) p q = absurd (omega arith)
xor-twice_within (suc n) a b p q =
    let y = bit_xor a b in
    let ih = xor-twice_within n (a / 2) (b / 2) (omega arith) (omega arith) in
    let first = bit_xor-digit a b in
    let second = bit_xor-digit y b in
    let bound = differ_bound (a % 2) (b % 2) (omega arith) (omega arith) in
    let half : y / 2 ≡ bit_xor (a / 2) (b / 2) = omega (arith, first, bound) in
    let low : y % 2 ≡ differ (a % 2) (b % 2) = omega (arith, first, bound) in
    let twice = differ-twice (a % 2) (b % 2) (omega arith) (omega arith) in
    let high = ap (λ k. bit_xor k (b / 2)) half in
    let digit = ap (λ k. differ k (b % 2)) low in omega (arith, second, ih, twice, high, digit)

pub bit_xor_twice : (a b : ℕ) → bit_xor (bit_xor a b) b ≡ a
bit_xor_twice a b = xor-twice_within (a + b) a b (omega arith) (omega arith)
