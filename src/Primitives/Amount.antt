-- ===== src/Primitives/Amount.antt =====
-- crates/primitives/src/amount.rs. A string is the list of its UTF-8 bytes; the `i64` of a `Trx` is
-- a ℤ. Decimal printing is that of Rust's formatter, over the at most twenty digits of a `u64`.
pub mod Decimal
pub mod Parse
pub mod Text
pub mod Arithmetic
mod Tests
use Prim.Native.Nat.{◌^◌}
use tronz.Prelude.{
  ℕ, zero, suc, ◌+◌, ◌-◌, ◌*◌, ◌/◌, ◌%◌, ◌≤◌, Bool, true, false, not, ◌&&◌, ◌||◌, Option, none,
  some, List, [], ◌∷◌, ◌++◌, Bytes, codes, length, take, replicate, Result, ok, err, ◌>>=◌, ok_or,
  ltb, leb, ◌==◌, if◌then◌else◌,
}
use tronz.Prelude.Int.{ℤ, pos, negsuc, neg_part, pos_part, ◌+ℤ◌, ◌-ℤ◌, ltb_ℤ, i64_max, fits_i64}

abbrev pub max_sun : ℕ
max_sun = i64_max

abbrev pub sun_per_trx : ℕ
sun_per_trx = 1_000_000

abbrev pub u64_max : ℕ
u64_max = 18_446_744_073_709_551_615

pub data AmountError : Type 0 where
  negative : ℤ → AmountError
  parse_error : Bytes → AmountError

pub record Trx : Type 0 where
  pub sun : ℤ

abbrev pub trx_zero : Trx
trx_zero = record { sun = pos 0 }

unfoldable pub from_sun : ℤ → Result AmountError Trx
from_sun sun = if ltb_ℤ sun (pos 0) then err (negative sun) else ok (record { sun = sun })

-- `i64::checked_add` and `i64::checked_sub`.
abbrev pub checked : ℤ → Option ℤ
checked z = if fits_i64 z then some z else none

abbrev pub non_negative : Option ℤ → Option Trx
non_negative none = none
non_negative (some v) = if ltb_ℤ v (pos 0) then none else some (record { sun = v })

unfoldable pub checked_add : Trx → Trx → Option Trx
checked_add a b =
    if ltb_ℤ a.sun (pos 0) || ltb_ℤ b.sun (pos 0)
    then none
    else non_negative (checked (a.sun +ℤ b.sun))

unfoldable pub checked_sub : Trx → Trx → Option Trx
checked_sub a b =
    if ltb_ℤ a.sun (pos 0) || ltb_ℤ b.sun (pos 0)
    then none
    else non_negative (checked (a.sun -ℤ b.sun))

-- The variables of the first loop of `from_str`.
pub record Scan : Type 0 where
  pub whole : Bytes
  pub fraction : Bytes
  pub in_fraction : Bool

abbrev pub is_digit : ℕ → Bool
is_digit b = leb b'0' b && leb b b'9'

pub scan_byte : Scan → ℕ → Option Scan
scan_byte s b =
    if b == b'_'
    then some s
    else if b == b'.' && not s.in_fraction
    then some (record s { in_fraction = true })
    else if is_digit b && s.in_fraction
    then some (record s { fraction = s.fraction ++ b ∷ [] })
    else if is_digit b
    then some (record s { whole = s.whole ++ b ∷ [] })
    else none

pub scan : Bytes → Scan → Option Scan
scan [] s = some s
scan (b ∷ bs) s = elim (scan_byte s b) [ none ↦ none | some s' ↦ scan bs s' ]

abbrev pub scan_start : Scan
scan_start = record { whole = []; fraction = []; in_fraction = false }

-- `u64::checked_mul` and `u64::checked_add`.
abbrev pub checked_u64 : ℕ → Option ℕ
checked_u64 n = if leb n u64_max then some n else none

pub accumulate : ℕ → ℕ → Option ℕ
accumulate value digit = elim (checked_u64 (value * 10)) [
  | none ↦ none
  | some v ↦ checked_u64 (v + digit)
]

pub digits_value : Bytes → ℕ → Option ℕ
digits_value [] value = some value
digits_value (b ∷ bs) value = elim (is_digit b) [
  | true ↦ elim (accumulate value (b - b'0')) [ none ↦ none | some v ↦ digits_value bs v ]
  | false ↦ none
]

abbrev pub any_non_ascii : Bytes → Bool
any_non_ascii [] = false
any_non_ascii (b ∷ bs) = leb 128 b || any_non_ascii bs

abbrev pub starts_with_minus : Bytes → Bool
starts_with_minus [] = false
starts_with_minus (b ∷ bs) = b == b'-'

-- The last step: scale by the fractional digits that are missing, and hold to `i64::MAX`.
pub scaled : ℕ → ℕ → Option Trx
scaled value decimal_len = elim (checked_u64 (value * 10 ^ (6 - decimal_len))) [
  | none ↦ none
  | some v ↦ if leb v max_sun then some (record { sun = pos v }) else none
]

pub parsed : Scan → Option Trx
unfolding scaled
parsed s = elim (digits_value (s.whole ++ take 6 s.fraction) 0) [
  | none ↦ none
  | some value ↦ scaled value (length s.fraction)
]

pub scan_parsed : Bytes → Option Trx
unfolding parsed
scan_parsed s = elim (scan s scan_start) [ none ↦ none | some t ↦ parsed t ]

-- `FromStr for Trx`, and its alias `parse_trx`.
unfoldable pub from_str : Bytes → Result AmountError Trx
unfolding scan_parsed
from_str s =
    if starts_with_minus s || any_non_ascii s
    then err (parse_error s)
    else ok_or (scan_parsed s) (parse_error s)

-- The decimal digits of a number below 10 ^ (fuel + 1), with no leading zero.
pub decimal : ℕ → ℕ → Bytes
decimal zero n = (b'0' + n % 10) ∷ []
decimal (suc fuel) n =
    let front = decimal fuel (n / 10) in
    if ltb n 10 then (b'0' + n) ∷ [] else front ++ (b'0' + n % 10) ∷ []

abbrev pub decimal_u64 : ℕ → Bytes
decimal_u64 n = decimal 19 n

-- `{:06}`.
pub pad_six : Bytes → Bytes
pad_six s = replicate (6 - length s) b'0' ++ s

-- `Display for Trx`, and its alias `format_trx`.
unfoldable pub format_trx : Trx → Bytes
unfolding pad_six decimal
format_trx t =
    let abs = pos_part t.sun + neg_part t.sun in
    (if ltb_ℤ t.sun (pos 0) then codes "-" else [])
    ++ decimal_u64 (abs / sun_per_trx)
    ++ b'.' ∷ pad_six (decimal_u64 (abs % sun_per_trx))
