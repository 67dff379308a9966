-- ===== src/Primitives/Amount/Text.antt =====
-- What `from_str` reads, and that it reads back what `Display` writes.
use Prim.Native.Nat.{◌^◌}
use native.Mathlib.Nat.{add-zero}
use tronz.Prelude.{
  le→leb, ℕ, zero, suc, ◌-◌, ◌*◌, ◌/◌, ◌%◌, ◌≤◌, ◌≡◌, refl, ap, ◌∙◌, true, false, none, some, [],
  ◌∷◌, ◌++◌, append-nil, Bytes, length, take, All, All-append, arith, leb, if◌then◌else◌, ok, err,
  to_option,
}
use tronz.Prelude.Int.{pos, i64_max, pos_part}
use tronz.Primitives.Amount.{
  Trx, scan, scan_byte, scan_start, max_sun, starts_with_minus, any_non_ascii, parsed, scaled,
  from_str, parse_error, format_trx, decimal_u64, pad_six,
}
use tronz.Primitives.Amount.Decimal.{
  IsDigit, value, value_shift, ten_pow, value-append, decimal-IsDigit, value-decimal,
  pad_six-IsDigit, value-pad_six, length-pad_six,
}
use tronz.Primitives.Amount.Parse.{
  scan_whole, scan_fraction, digits_value-value, digits_ascii, strip, scan-strip,
  any_non_ascii-strip, scan_minus,
}
use tronz.Primitives.Amount.Arithmetic.{IsAmount}

All-take : (n : ℕ) (ds : Bytes) → All IsDigit ds → All IsDigit (take n ds)
All-take zero ds h = tt
All-take (suc n) [] h = tt
All-take (suc n) (d ∷ ds) h = (h.0, All-take n ds h.1)

-- The sun that a text of whole and fractional digits stands for: the digits beyond the sixth
-- fractional one are cut off, and missing ones count as zeros.
abbrev pub sun_of : Bytes → Bytes → ℕ
sun_of w f = value 0 (w ++ take 6 f) * 10 ^ (6 - length f)

text_start : (w f : Bytes) → All IsDigit w → starts_with_minus (w ++ b'.' ∷ f) ≡ false
text_start [] f hw = refl
text_start (d ∷ w) f hw = ground arith

text_ascii : (w f : Bytes) → All IsDigit w → All IsDigit f → any_non_ascii (w ++ b'.' ∷ f) ≡ false
text_ascii w f hw hf = digits_ascii w (b'.' ∷ f) hw ∙ rw (← append-nil f) (digits_ascii f [] hf)

scan_text :
    (w f : Bytes)
    → All IsDigit w
    → All IsDigit f
    → scan (w ++ b'.' ∷ f) scan_start
      ≡ some (record { whole = w; fraction = f; in_fraction = true })
unfolding scan scan_byte
scan_text w f hw hf =
    scan_whole w (b'.' ∷ f) [] [] hw ∙ (rw append-nil at (scan_fraction f [] w [] hf))

le-mul_pow : (v k : ℕ) → v ≤ v * 10 ^ k
le-mul_pow v zero = omega arith
le-mul_pow v (suc k) = omega (arith, le-mul_pow v k, ap (λ (t : ℕ). v * t) (ten_pow k))

parsed_text :
    (w f : Bytes)
    → All IsDigit w
    → All IsDigit f
    → parsed (record { whole = w; fraction = f; in_fraction = true })
      ≡ (if leb (sun_of w f) max_sun then some (record { sun = pos (sun_of w f) }) else none)
unfolding parsed
parsed_text w f hw hf = ground (
  arith,
  digits_value-value (w ++ take 6 f) 0 (omega arith)
      (All-append IsDigit w (take 6 f) hw (All-take 6 f hf)),
  le-mul_pow (value 0 (w ++ take 6 f)) (6 - length f),
)

-- Every text of digits with a point among them is read as its exact value in sun, cut off below one
-- sun; it is refused exactly when that value is above `i64::MAX`.
pub from_str-text :
    (w f : Bytes)
    → All IsDigit w
    → All IsDigit f
    → from_str (w ++ b'.' ∷ f) ≡ (
        if leb (sun_of w f) max_sun
        then ok (record { sun = pos (sun_of w f) })
        else err (parse_error (w ++ b'.' ∷ f)))
unfolding from_str
from_str-text w f hw hf =
    ground
      (arith, scan_text w f hw hf, parsed_text w f hw hf, text_start w f hw, text_ascii w f hw hf)

-- A text that begins with a minus sign keeps it.
start_strip : (s : Bytes) → starts_with_minus s ≡ true → starts_with_minus (strip s) ≡ true
start_strip [] h = h
start_strip (b ∷ bs) h = ground arith

take_all : (n : ℕ) (xs : Bytes) → length xs ≤ n → take n xs ≡ xs
take_all zero [] h = refl
take_all zero (x ∷ xs) h = absurd (omega arith)
take_all (suc n) [] h = refl
take_all (suc n) (x ∷ xs) h = ap (◌∷◌ x) (take_all n xs (omega arith))

sun_of-format :
    (n : ℕ)
    → n ≤ i64_max
    → sun_of (decimal_u64 (n / 1_000_000)) (pad_six (decimal_u64 (n % 1_000_000))) ≡ n
sun_of-format n h =
    let w = decimal_u64 (n / 1_000_000) in
    let f = pad_six (decimal_u64 (n % 1_000_000)) in
    let six : length f ≡ 6 = length-pad_six (n % 1_000_000) (omega arith) in
    rw (take_all 6 f (omega arith), six, value-append 0 w f, value_shift (value 0 w) f, six)
      (omega (
        arith,
        value-decimal 19 (n / 1_000_000) (omega arith),
        value-pad_six (n % 1_000_000) (omega arith),
      ))

positive : (t : Trx) → IsAmount t → (n : ℕ) × (t ≡ record { sun = pos n }) × (n ≤ i64_max)
positive t h = (pos_part t.sun, ground arith, ground arith)

format-positive :
    (n : ℕ)
    → format_trx (record { sun = pos n })
      ≡ decimal_u64 (n / 1_000_000) ++ b'.' ∷ pad_six (decimal_u64 (n % 1_000_000))
unfolding format_trx
format-positive n = ground (arith, add-zero n)

from_str-positive :
    (n : ℕ)
    → n ≤ i64_max
    → from_str (format_trx (record { sun = pos n })) ≡ ok (record { sun = pos n })
from_str-positive n h =
    let w = decimal_u64 (n / 1_000_000) in
    let f = pad_six (decimal_u64 (n % 1_000_000)) in
    rw (format-positive n) (
      from_str-text w f (decimal-IsDigit 19 (n / 1_000_000)) (pad_six-IsDigit (n % 1_000_000))
      ∙ rw (sun_of-format n h, le→leb n max_sun h))

-- `parse_trx` reads back, exactly, what `format_trx` writes for every amount.
pub from_str-format_trx : (t : Trx) → IsAmount t → from_str (format_trx t) ≡ ok t
from_str-format_trx t h = let (n, e, fits) = positive t h in rw e (from_str-positive n fits)

scaled_bound : (v k : ℕ) (t : Trx) → scaled v k ≡ some t → IsAmount t
unfolding scaled
scaled_bound v k t h = ground arith

-- Whatever `parse_trx` accepts is an amount: not negative, and within an `i64`.
pub from_str-IsAmount : (s : Bytes) (t : Trx) → from_str s ≡ ok t → IsAmount t
unfolding from_str
from_str-IsAmount s t h = ground arith

-- The separators `_` change nothing: with or without them a text has the same value or is refused.
pub from_str-strip : (s : Bytes) → to_option (from_str (strip s)) ≡ to_option (from_str s)
unfolding from_str
from_str-strip s =
    ground (
      arith,
      scan-strip s scan_start,
      any_non_ascii-strip s,
      scan_minus s scan_start,
      start_strip s,
    )
