-- ===== src/RpcTypes/Wire/Varint.antt =====
-- `read_varint` against the varint encoding.
use Prim.Native.Nat.{bit_and, bit_or}
use native.Mathlib.Nat.{pow-suc, div-add-mod}
use native.Mathlib.Numerals.{towards_suc}
use tronz.Prelude.{
  ℕ, zero, suc, ◌+◌, ◌*◌, ◌/◌, ◌%◌, ◌^◌, ◌≤◌, ◌<◌, ◌≡◌, ◌≢◌, refl, ap, ◌∙◌, Bytes, [], ◌∷◌, ◌++◌,
  length, ok, err, ltb, if◌then◌else◌, arith,
}
use tronz.Prelude.Bits.{low_seven, top_bit, bit_or_disjoint}
use tronz.RpcTypes.Wire.{malformed, varint_loop, read_varint, varint_too_long}

-- Groups of seven bits, lowest first, with the top bit set on all but the last; `more` bounds the
-- groups that may follow the first.
pub varint_bytes : ℕ → ℕ → Bytes
varint_bytes zero n = n ∷ []
varint_bytes (suc more) n =
    let rest = varint_bytes more (n / 128) in if ltb n 128 then n ∷ [] else (n % 128 + 128) ∷ rest

-- The encoding of a `u64`.
abbrev pub encode_varint : ℕ → Bytes
encode_varint n = varint_bytes 9 n

pub varint_bytes-pos : (more n : ℕ) → 0 < length (varint_bytes more n)
unfolding varint_bytes
varint_bytes-pos zero n = omega arith
varint_bytes-pos (suc more) n = ground arith

pow_seven : (s : ℕ) → 2 ^ (s + 7) ≡ 128 * 2 ^ s
pow_seven s = simp towards_suc (omega (arith, pow-suc 2 s))

round_last :
    (rounds shift value n : ℕ) (rest : Bytes)
    → n < 128
    → value < 2 ^ shift
    → value + n * 2 ^ shift < 2 ^ 64
    → (shift ≡ 63 → n ≤ 1)
    → varint_loop (suc rounds) shift value (n ∷ rest) ≡ ok (value + n * 2 ^ shift, rest)
unfolding varint_loop
round_last rounds shift value n rest hn hv fits top =
    ground (arith, low_seven n, top_bit n, bit_or_disjoint shift value n)

round_inner :
    (rounds shift value g : ℕ) (rest : Bytes)
    → g < 128
    → value < 2 ^ shift
    → value + g * 2 ^ shift < 2 ^ 64
    → shift ≢ 63
    → varint_loop (suc rounds) shift value ((g + 128) ∷ rest)
      ≡ varint_loop rounds (shift + 7) (value + g * 2 ^ shift) rest
unfolding varint_loop
round_inner rounds shift value g rest hg hv fits below =
    ground (arith, low_seven (g + 128), top_bit (g + 128), bit_or_disjoint shift value g)

mul_bound : (g p : ℕ) → g < 128 → g * p + p ≤ 128 * p
mul_bound g p h = grind arith

split_group : (n s : ℕ) → n * 2 ^ s ≡ n % 128 * 2 ^ s + n / 128 * 2 ^ (s + 7)
split_group n s = omega (
  arith,
  ap (λ (t : ℕ). t * 2 ^ s) (div-add-mod n 128),
  ap (λ (t : ℕ). n / 128 * t) (pow_seven s),
)

top_group : (n s value : ℕ) → value + n * 2 ^ s < 2 ^ 64 → s ≡ 63 → n ≤ 1
top_group n s value h e = omega (arith, ap (λ (t : ℕ). n * 2 ^ t) e)

varint_loop-bytes :
    (more n shift value : ℕ) (rest : Bytes)
    → shift + 7 * more ≡ 63
    → n < 128 ^ suc more
    → value < 2 ^ shift
    → value + n * 2 ^ shift < 2 ^ 64
    → varint_loop (suc more) shift value (varint_bytes more n ++ rest)
      ≡ ok (value + n * 2 ^ shift, rest)
unfolding varint_bytes
varint_loop-bytes zero n shift value rest at hn hv fits =
    round_last 0 shift value n rest (omega arith) hv fits (top_group n shift value fits)
varint_loop-bytes (suc more) n shift value rest at hn hv fits = ground (
  arith,
  pow-suc 128 (suc more),
  pow_seven shift,
  split_group n shift,
  round_last (suc more) shift value n rest,
  round_inner (suc more) shift value (n % 128) (varint_bytes more (n / 128) ++ rest),
  mul_bound (n % 128) (2 ^ shift),
  varint_loop-bytes more (n / 128) (shift + 7) (value + n % 128 * 2 ^ shift) rest,
)

-- Every `u64` is read back from its encoding, and what follows it is left.
pub read_varint-encode_varint :
    (n : ℕ) (rest : Bytes) → n < 2 ^ 64 → read_varint (encode_varint n ++ rest) ≡ ok (n, rest)
unfolding read_varint
read_varint-encode_varint n rest h =
    varint_loop-bytes 9 n 0 0 rest refl (omega arith) (omega arith) (omega arith) ∙ ground arith

varint_loop_shrinks :
    (rounds shift value : ℕ) (bytes : Bytes) (n : ℕ) (rest : Bytes)
    → varint_loop rounds shift value bytes ≡ ok (n, rest)
    → length rest < length bytes
unfolding varint_loop
varint_loop_shrinks zero shift value bytes n rest h = cc
varint_loop_shrinks (suc rounds) shift value [] n rest h = cc
varint_loop_shrinks (suc rounds) shift value (b ∷ bytes) n rest h = ground (
  arith,
  varint_loop_shrinks rounds (shift + 7) (bit_or value (bit_and b 0x7f * 2 ^ shift % 2 ^ 64)) bytes
      n rest,
)

-- A varint that is read takes a byte at least.
pub read_varint_shrinks :
    (bytes : Bytes) (n : ℕ) (rest : Bytes)
    → read_varint bytes ≡ ok (n, rest)
    → length rest < length bytes
unfolding read_varint
read_varint_shrinks bytes n rest h = varint_loop_shrinks 10 0 0 bytes n rest h

varint_loop_in_time :
    (rounds shift value : ℕ) (bytes : Bytes)
    → shift + 7 * suc rounds ≡ 70
    → varint_loop (suc rounds) shift value bytes ≢ err (malformed varint_too_long)
unfolding varint_loop
varint_loop_in_time rounds shift value [] at h = cc
varint_loop_in_time zero shift value (b ∷ bytes) at h = ground (arith, top_bit b)
varint_loop_in_time (suc rounds) shift value (b ∷ bytes) at h = ground (
  arith,
  varint_loop_in_time rounds (shift + 7) (bit_or value (bit_and b 0x7f * 2 ^ shift % 2 ^ 64)) bytes,
)

-- The last return of `read_varint` is dead: its tenth byte either ends the varint or overflows.
pub read_varint-ne-too_long : (bytes : Bytes) → read_varint bytes ≢ err (malformed varint_too_long)
unfolding read_varint
read_varint-ne-too_long bytes = varint_loop_in_time 9 0 0 bytes refl
