-- ===== src/Primitives/Amount/Decimal.antt =====
-- The digits that Rust's formatter writes, and the number that they spell.
use Prim.Native.Nat.{◌^◌}
use native.Mathlib.Nat.{pow-suc}
use tronz.Prelude.{
  ℕ, zero, suc, ◌+◌, ◌-◌, ◌*◌, ◌/◌, ◌%◌, ◌≤◌, ◌<◌, ◌≡◌, refl, ap, ◌∙◌, [], ◌∷◌, ◌++◌, Bytes, length,
  length-append, length-replicate, replicate, All, All-append, arith,
}
use tronz.Primitives.Amount.{decimal, decimal_u64, pad_six}

abbrev pub IsDigit : ℕ → Type 0
IsDigit b = (b'0' ≤ b) × (b ≤ b'9')

-- The number that the digits spell behind `n`.
abbrev pub value : ℕ → Bytes → ℕ
value n [] = n
value n (b ∷ bs) = value (n * 10 + (b - b'0')) bs

pub value-append : (n : ℕ) (xs ys : Bytes) → value n (xs ++ ys) ≡ value (value n xs) ys
value-append n [] ys = refl
value-append n (x ∷ xs) ys = value-append (n * 10 + (x - b'0')) xs ys

pub le-value : (n : ℕ) (xs : Bytes) → n ≤ value n xs
le-value n [] = omega arith
le-value n (x ∷ xs) = omega (arith, le-value (n * 10 + (x - b'0')) xs)

pub decimal-IsDigit : (f n : ℕ) → All IsDigit (decimal f n)
unfolding decimal
decimal-IsDigit zero n = omega arith
decimal-IsDigit (suc f) n = ground (
  arith,
  decimal-IsDigit f (n / 10),
  All-append IsDigit (decimal f (n / 10)) ((b'0' + n % 10) ∷ []) (decimal-IsDigit f (n / 10)),
)

pub ten_pow : (f : ℕ) → 10 ^ suc f ≡ 10 * 10 ^ f
ten_pow f = omega (arith, pow-suc 10 f)

pub value-decimal : (f n : ℕ) → n < 10 ^ suc f → value 0 (decimal f n) ≡ n
unfolding decimal
value-decimal zero n h = omega arith
value-decimal (suc f) n h = ground (
  arith,
  ten_pow (suc f),
  value-append 0 (decimal f (n / 10)) ((b'0' + n % 10) ∷ []),
  value-decimal f (n / 10),
)

length-decimal : (k f n : ℕ) → n < 10 ^ suc k → length (decimal f n) ≤ suc k
unfolding decimal
length-decimal k zero n h = omega arith
length-decimal zero (suc f) n h = ground arith
length-decimal (suc k) (suc f) n h = ground (
  arith,
  ten_pow (suc k),
  length-append (decimal f (n / 10)) ((b'0' + n % 10) ∷ []),
  length-decimal k f (n / 10),
)

zeros-IsDigit : (k : ℕ) → All IsDigit (replicate k b'0')
zeros-IsDigit zero = tt
zeros-IsDigit (suc k) = (omega arith, zeros-IsDigit k)

value-zeros : (k n : ℕ) (xs : Bytes) → value 0 (replicate k b'0' ++ xs) ≡ value 0 xs
value-zeros zero n xs = refl
value-zeros (suc k) n xs = value-zeros k n xs

pub pad_six-IsDigit : (n : ℕ) → All IsDigit (pad_six (decimal_u64 n))
unfolding pad_six
pad_six-IsDigit n =
    All-append IsDigit (replicate (6 - length (decimal_u64 n)) b'0') (decimal_u64 n)
      (zeros-IsDigit (6 - length (decimal_u64 n))) (decimal-IsDigit 19 n)

pub value-pad_six : (n : ℕ) → n < 10 ^ 20 → value 0 (pad_six (decimal_u64 n)) ≡ n
unfolding pad_six
value-pad_six n h =
    value-zeros (6 - length (decimal_u64 n)) n (decimal_u64 n) ∙ value-decimal 19 n h

pub length-pad_six : (n : ℕ) → n < 1_000_000 → length (pad_six (decimal_u64 n)) ≡ 6
unfolding pad_six
length-pad_six n h = omega (
  arith,
  length-append (replicate (6 - length (decimal_u64 n)) b'0') (decimal_u64 n),
  length-replicate {A = ℕ} (6 - length (decimal_u64 n)) b'0',
  length-decimal 5 19 n,
)

pub value_shift : (n : ℕ) (ds : Bytes) → value n ds ≡ n * 10 ^ length ds + value 0 ds
value_shift n [] = omega arith
value_shift n (d ∷ ds) = omega (
  arith,
  value_shift (n * 10 + (d - b'0')) ds,
  value_shift (0 * 10 + (d - b'0')) ds,
  ap (λ (t : ℕ). n * t) (ten_pow (length ds)),
)
