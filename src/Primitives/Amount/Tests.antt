-- ===== src/Primitives/Amount/Tests.antt =====
-- Runs of crates/primitives/src/amount.rs at concrete inputs.
use tronz.Prelude.{
  ℕ, ◌≡◌, refl, ok, err, some, none, [], codes, leb, if◌then◌else◌, arith, to_option,
}
use tronz.Prelude.Int.{pos, negsuc, ◌+ℤ◌, ◌-ℤ◌, i64_max}
use tronz.Primitives.Amount.{
  Trx, from_str, format_trx, parse_error, checked_add, checked_sub, max_sun, digits_value,
  accumulate, scan, scan_byte,
}
use tronz.Primitives.Amount.Arithmetic.{IsAmount, checked_sub_iff}
use tronz.Primitives.Amount.Text.{
  from_str-text, from_str-format_trx, from_str-IsAmount, from_str-strip,
}

abbrev trx : ℕ → Trx
trx n = record { sun = pos n }

parses_separators : from_str (codes "1.0_1") ≡ ok (trx 1_010_000)
unfolding from_str scan scan_byte digits_value accumulate
parses_separators = refl

parses_maximum : from_str (codes "9223372036854.775807") ≡ ok (trx i64_max)
unfolding from_str scan scan_byte digits_value accumulate
parses_maximum = refl

rejects_above_maximum :
    from_str (codes "9223372036854.775808") ≡ err (parse_error (codes "9223372036854.775808"))
unfolding from_str scan scan_byte digits_value accumulate
rejects_above_maximum = refl

truncates : from_str (codes "1.1234567") ≡ ok (trx 1_123_456)
unfolding from_str scan scan_byte digits_value accumulate
truncates = refl

displays_negative : format_trx (record { sun = negsuc 1_499_999 }) ≡ codes "-1.500000"
unfolding format_trx
displays_negative = refl

from_str-text_example :
    from_str (codes "12.5")
    ≡ (if leb 12_500_000 max_sun then ok (trx 12_500_000) else err (parse_error []))
from_str-text_example = from_str-text (codes "12") (codes "5") (omega arith) (omega arith)

from_str-format_trx_example : from_str (format_trx (trx 1_500_000)) ≡ ok (trx 1_500_000)
from_str-format_trx_example = from_str-format_trx (trx 1_500_000) (omega arith)

from_str-IsAmount_example : IsAmount (trx 1_123_456)
from_str-IsAmount_example = from_str-IsAmount (codes "1.1234567") (trx 1_123_456) truncates

from_str-strip_example : to_option (from_str (codes "1.01")) ≡ to_option (from_str (codes "1.0_1"))
from_str-strip_example = from_str-strip (codes "1.0_1")

checked_sub_example : checked_sub (trx 7) (trx 5) ≡ some (trx 2)
unfolding ◌-ℤ◌
checked_sub_example =
    (checked_sub_iff (trx 7) (trx 5) (trx 2)).1 (omega arith, omega arith, refl, omega arith)

checked_sub_below_zero : checked_sub (trx 5) (trx 7) ≡ none
unfolding checked_sub ◌-ℤ◌
checked_sub_below_zero = refl

seven : checked_add (trx 5) (trx 2) ≡ some (trx 7)
unfolding checked_add ◌+ℤ◌
seven = refl
