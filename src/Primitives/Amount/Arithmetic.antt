-- ===== src/Primitives/Amount/Arithmetic.antt =====
-- Checked arithmetic on amounts.
use tronz.Prelude.{◌≡◌, ◌↔◌, some, arith}
use tronz.Prelude.Int.{pos, ◌+ℤ◌, ◌-ℤ◌, ◌≤ℤ◌, i64_max}
use tronz.Primitives.Amount.{Trx, checked_add, checked_sub}

-- Not negative, and within an `i64`.
abbrev pub IsAmount : Trx → Type 0
IsAmount t = (pos 0 ≤ℤ t.sun) × (t.sun ≤ℤ pos i64_max)

-- `checked_add` gives `c` exactly when neither operand is negative, `c` is their sum as integers,
-- and that sum is an amount.
pub checked_add_iff :
    (a b c : Trx)
    → (checked_add a b ≡ some c)
      ↔ ((pos 0 ≤ℤ a.sun) × (pos 0 ≤ℤ b.sun) × (c.sun ≡ a.sun +ℤ b.sun) × IsAmount c)
unfolding checked_add ◌+ℤ◌
checked_add_iff a b c = ground arith

-- `checked_sub` gives `c` exactly when neither operand is negative, `c` is their difference as
-- integers, and that difference is an amount: in particular never a negative one.
pub checked_sub_iff :
    (a b c : Trx)
    → (checked_sub a b ≡ some c)
      ↔ ((pos 0 ≤ℤ a.sun) × (pos 0 ≤ℤ b.sun) × (c.sun ≡ a.sun -ℤ b.sun) × IsAmount c)
unfolding checked_sub ◌-ℤ◌
checked_sub_iff a b c = ground arith

-- Subtraction takes back what addition put on, whenever the addition succeeds.
pub checked_sub-checked_add : (a b c : Trx) → checked_add a b ≡ some c → checked_sub c b ≡ some a
unfolding checked_add checked_sub ◌+ℤ◌ ◌-ℤ◌
checked_sub-checked_add a b c h = ground arith
