-- ===== src/Prelude/Bits.antt =====
-- Bit operations on native numbers as arithmetic.
use Prim.Native.Nat.{
  ℕ, zero, suc, ◌+◌, ◌*◌, ◌/◌, ◌%◌, ◌^◌, ◌≤◌, ◌<◌, min, max, bit_and, bit_or, digits,
  bit_and-bitwise, bit_or-bitwise,
}
use native.Mathlib.Nat.{pow-suc}
use mathlib.Core.Path.{◌≡◌, refl, ap}
use mathlib.Core.Bool.{Bool, true, ◌&&◌}
use native.Mathlib.Omega.{arith}
use tronz.Prelude.Tests.{◌==◌, ==_iff}

-- A test of every value below a small bound, by evaluation.
unfoldable pub all_below : ℕ → (ℕ → Bool) → Bool
all_below zero test = true
all_below (suc bound) test = test bound && all_below bound test

pub all_below_at :
    (test : ℕ → Bool) (value bound : ℕ)
    → value < bound
    → all_below bound test ≡ true
    → test value ≡ true
unfolding all_below
all_below_at test value zero less passed = absurd (omega arith)
all_below_at test value (suc bound) less passed = ground (arith, all_below_at test value bound)

or_fuel : (n m a b : ℕ) → a ≤ n → a ≤ m → digits (λ t. t) max n a b ≡ digits (λ t. t) max m a b
or_fuel zero zero a b p q = refl
or_fuel zero (suc m) zero b p q = refl
or_fuel zero (suc m) (suc a) b p q = absurd (omega arith)
or_fuel (suc n) zero zero b p q = refl
or_fuel (suc n) zero (suc a) b p q = absurd (omega arith)
or_fuel (suc n) (suc m) zero b p q = refl
or_fuel (suc n) (suc m) (suc a) b p q =
    omega (arith, or_fuel n m (suc a / 2) (b / 2) (omega arith) (omega arith))

zero-bit_or : (b : ℕ) → bit_or 0 b ≡ b
zero-bit_or b = bit_or-bitwise 0 b

bit_or_digit : (a b : ℕ) → bit_or a b ≡ bit_or (a / 2) (b / 2) * 2 + max (a % 2) (b % 2)
bit_or_digit zero b = omega (arith, zero-bit_or b, zero-bit_or (b / 2))
bit_or_digit (suc a) b = omega (
  arith,
  bit_or-bitwise (suc a) b,
  bit_or-bitwise (suc a / 2) (b / 2),
  or_fuel a (suc a / 2) (suc a / 2) (b / 2) (omega arith) (omega arith),
)

twice_pow : (s c : ℕ) → c * 2 ^ suc s ≡ c * 2 ^ s * 2
twice_pow s c = omega (arith, ap (λ (t : ℕ). c * t) (pow-suc 2 s))

-- Where the bits do not overlap, `|` is a sum.
pub bit_or_disjoint : (s a c : ℕ) → a < 2 ^ s → bit_or a (c * 2 ^ s) ≡ a + c * 2 ^ s
bit_or_disjoint zero a c h =
    let e : a ≡ 0 = omega arith in rw e (omega (arith, zero-bit_or (c * 2 ^ 0)))
bit_or_disjoint (suc s) a c h =
    let half : c * 2 ^ suc s / 2 ≡ c * 2 ^ s = omega (arith, twice_pow s c) in
    omega (
      arith,
      twice_pow s c,
      pow-suc 2 s,
      bit_or_digit a (c * 2 ^ suc s),
      ap (bit_or (a / 2)) half,
      bit_or_disjoint s (a / 2) c (omega (arith, pow-suc 2 s)),
    )

agree_below :
    (n : ℕ) (f g : ℕ → ℕ) → all_below n (λ x. f x == g x) ≡ true → (x : ℕ) → x < n → f x ≡ g x
agree_below n f g t x h = (==_iff _ _).0 (all_below_at (λ v. f v == g v) x n h t)

pub low_seven : (b : ℕ) → b < 256 → bit_and b 0x7f ≡ b % 128
unfolding all_below
low_seven = agree_below 256 (λ b. bit_and b 0x7f) (λ b. b % 128) refl

pub top_bit : (b : ℕ) → b < 256 → bit_and b 0x80 ≡ b / 128 * 128
unfolding all_below
top_bit = agree_below 256 (λ b. bit_and b 0x80) (λ b. b / 128 * 128) refl

and_fuel :
    (n m a b : ℕ) → a ≤ n → a ≤ m → digits (λ _. zero) min n a b ≡ digits (λ _. zero) min m a b
and_fuel zero zero a b p q = refl
and_fuel zero (suc m) zero b p q = refl
and_fuel zero (suc m) (suc a) b p q = absurd (omega arith)
and_fuel (suc n) zero zero b p q = refl
and_fuel (suc n) zero (suc a) b p q = absurd (omega arith)
and_fuel (suc n) (suc m) zero b p q = refl
and_fuel (suc n) (suc m) (suc a) b p q =
    omega (arith, and_fuel n m (suc a / 2) (b / 2) (omega arith) (omega arith))

pub zero-bit_and : (b : ℕ) → bit_and 0 b ≡ 0
zero-bit_and b = bit_and-bitwise 0 b

bit_and_digit : (a b : ℕ) → bit_and a b ≡ bit_and (a / 2) (b / 2) * 2 + min (a % 2) (b % 2)
bit_and_digit zero b = omega (arith, zero-bit_and b, zero-bit_and (b / 2))
bit_and_digit (suc a) b = omega (
  arith,
  bit_and-bitwise (suc a) b,
  bit_and-bitwise (suc a / 2) (b / 2),
  and_fuel a (suc a / 2) (suc a / 2) (b / 2) (omega arith) (omega arith),
)

no_mask : (n a : ℕ) → a ≤ n → bit_and a 0 ≡ 0
no_mask n zero h = refl
no_mask zero (suc a) h = absurd (omega arith)
no_mask (suc n) (suc a) h =
    omega (arith, bit_and_digit (suc a) 0, no_mask n (suc a / 2) (omega arith))

-- `& 7` keeps the remainder by eight, at any width.
pub low_three : (a : ℕ) → bit_and a 7 ≡ a % 8
low_three a = omega (
  arith,
  bit_and_digit a 7,
  bit_and_digit (a / 2) 3,
  bit_and_digit (a / 2 / 2) 1,
  no_mask (a / 2 / 2 / 2) (a / 2 / 2 / 2) (omega arith),
)
