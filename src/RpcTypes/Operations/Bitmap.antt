-- ===== src/RpcTypes/Operations/Bitmap.antt =====
-- Bits of a bitmap, read and written.
use Prim.Native.Nat.{bit_and, bit_or}
use tronz.Prelude.{
  ℕ, ◌-◌, ◌/◌, ◌%◌, ◌^◌, ◌<◌, ◌≡◌, refl, Bool, true, false, not, ◌||◌, ◌&&◌, ◌==◌, arith,
}
use tronz.Prelude.Bits.{all_below, all_below_at}
use tronz.RpcTypes.Operations.{has, mask}

abbrev agree : Bool → Bool → Bool
agree true b = b
agree false b = not b

agree_eq : (a b : Bool) → agree a b ≡ true → a ≡ b
agree_eq a b h = ground arith

-- The eight bits of every byte, after one is set or cleared.
abbrev bit_set : ℕ → ℕ → ℕ → Bool
bit_set b k j = agree (has (bit_or b (2 ^ k)) (2 ^ j)) (j == k || has b (2 ^ j))

abbrev bit_cleared : ℕ → ℕ → ℕ → Bool
bit_cleared b k j = agree (has (bit_and b (255 - 2 ^ k)) (2 ^ j)) (not (j == k) && has b (2 ^ j))

every_set : all_below 256 (λ b. all_below 8 (λ k. all_below 8 (λ j. bit_set b k j))) ≡ true
unfolding all_below
every_set = refl

every_cleared : all_below 256 (λ b. all_below 8 (λ k. all_below 8 (λ j. bit_cleared b k j))) ≡ true
unfolding all_below
every_cleared = refl

every_small :
    all_below 256
      (λ b. all_below 8 (λ k. bit_or b (2 ^ k) / 256 == 0 && bit_and b (255 - 2 ^ k) / 256 == 0))
    ≡ true
unfolding all_below
every_small = refl

three_below :
    (test : ℕ → ℕ → ℕ → Bool) (b k j : ℕ)
    → all_below 256 (λ b. all_below 8 (λ k. all_below 8 (λ j. test b k j))) ≡ true
    → b < 256
    → k < 8
    → j < 8
    → test b k j ≡ true
three_below test b k j all hb hk hj =
    all_below_at (λ j. test b k j) j 8 hj
      (all_below_at (λ k. all_below 8 (λ j. test b k j)) k 8 hk
        (all_below_at (λ b. all_below 8 (λ k. all_below 8 (λ j. test b k j))) b 256 hb all))

pub has-bit_or :
    (b k j : ℕ) → b < 256 → has (bit_or b (mask k)) (mask j) ≡ (j % 8 == k % 8 || has b (mask j))
has-bit_or b k j h =
    agree_eq _ _ (three_below bit_set b (k % 8) (j % 8) every_set h (omega arith) (omega arith))

pub has-bit_and :
    (b k j : ℕ)
    → b < 256
    → has (bit_and b (255 - mask k)) (mask j) ≡ (not (j % 8 == k % 8) && has b (mask j))
has-bit_and b k j h =
    agree_eq _ _
      (three_below bit_cleared b (k % 8) (j % 8) every_cleared h (omega arith) (omega arith))

pub byte_stays : (b k : ℕ) → b < 256 → (bit_or b (mask k) < 256) × (bit_and b (255 - mask k) < 256)
byte_stays b k h =
    let small = all_below_at _ (k % 8) 8 (omega arith) (all_below_at _ b 256 h every_small) in
    ground arith
