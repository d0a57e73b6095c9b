-- ===== src/Base/Bits.antt =====
-- `|` of numbers whose digits do not overlap, as a sum.
use Prim.Native.Nat.{
  ℕ, zero, suc, ◌+◌, ◌-◌, ◌*◌, ◌/◌, ◌%◌, ◌^◌, ◌≤◌, ◌<◌, max, digits, bit_or, bit_or-bitwise,
}
use mathlib.Core.Path.{◌≡◌, refl, ap}
use native.Mathlib.Nat.{pow-suc}
use native.Mathlib.Omega.{arith}

abbrev or_digits : ℕ → ℕ → ℕ → ℕ
or_digits n a b = digits (λ y. y) max n a b

-- More fuel than the first number needs changes nothing.
or_digits-suc : (n a b : ℕ) → a ≤ n → or_digits (suc n) a b ≡ or_digits n a b
or_digits-suc zero zero b h = refl
or_digits-suc zero (suc a) b h = absurd (omega arith)
or_digits-suc (suc n) zero b h = refl
or_digits-suc (suc n) (suc a) b h = omega (arith, or_digits-suc n (suc a / 2) (b / 2) (omega arith))

or_digits-add : (k a b : ℕ) → or_digits (k + a) a b ≡ or_digits a a b
or_digits-add zero a b = ap (λ n. or_digits n a b) (omega arith)
or_digits-add (suc k) a b =
    let e : suc k + a ≡ suc (k + a) = omega arith in
    rw e (omega (arith, or_digits-suc (k + a) a b (omega arith), or_digits-add k a b))

-- The lowest digit first.
bit_or_lowest : (a b : ℕ) → bit_or a b ≡ bit_or (a / 2) (b / 2) * 2 + max (a % 2) (b % 2)
bit_or_lowest zero b = omega (arith, bit_or-bitwise 0 b, bit_or-bitwise 0 (b / 2))
bit_or_lowest (suc a) b =
    let h = suc a / 2 in
    let e : (a - h) + h ≡ a = omega arith in
    let d = rw e at (or_digits-add (a - h) h (b / 2)) in
    omega (arith, bit_or-bitwise (suc a) b, bit_or-bitwise h (b / 2), d)

bit_or-zero_below : (n a : ℕ) → a ≤ n → bit_or a 0 ≡ a
bit_or-zero_below zero a h = let e : a ≡ 0 = omega arith in rw e (bit_or-bitwise 0 0)
bit_or-zero_below (suc n) a h =
    omega (arith, bit_or_lowest a 0, bit_or-zero_below n (a / 2) (omega arith))

-- The second number lies above the digits of the first.
pub bit_or_above : (k a b : ℕ) → a < 2 ^ k → bit_or a (b * 2 ^ k) ≡ a + b * 2 ^ k
bit_or_above zero a b h =
    let e : a ≡ 0 = omega arith in rw e (omega (arith, bit_or-bitwise 0 (b * 2 ^ 0)))
bit_or_above (suc k) a b h =
    let p = pow-suc 2 k in
    let e : b * 2 ^ suc k ≡ 2 * (b * 2 ^ k) = omega (arith, ap (λ (t : ℕ). b * t) p) in
    let half = ap (bit_or (a / 2)) (let t : 2 * (b * 2 ^ k) / 2 ≡ b * 2 ^ k = omega arith in t) in
    rw e (
      omega (
        arith,
        bit_or_lowest a (2 * (b * 2 ^ k)),
        half,
        bit_or_above k (a / 2) b (omega (arith, p)),
      ))

-- The three lowest digits are set.
pub bit_or_seven : (a : ℕ) → a % 8 ≡ 0 → bit_or a 7 ≡ a + 7
bit_or_seven a h = omega (
  arith,
  bit_or_lowest a 7,
  bit_or_lowest (a / 2) 3,
  bit_or_lowest (a / 2 / 2) 1,
  bit_or-zero_below (a / 2 / 2 / 2) (a / 2 / 2 / 2) (omega arith),
)
