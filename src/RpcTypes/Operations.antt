-- ===== src/RpcTypes/Operations.antt =====
-- crates/rpc-types/src/types/contract.rs: `OperationSet`, the contract kinds that a permission grants, as a
-- bitmap of 32 bytes.
pub mod Bitmap
pub mod Sets
pub mod Refinement
pub mod Iteration
mod Tests
use Prim.Native.Nat.{bit_and, bit_or}
use tronz.Prelude.{
  ℕ, zero, suc, ◌+◌, ◌-◌, ◌*◌, ◌/◌, ◌%◌, ◌^◌, ◌<◌, ◌≡◌, Bool, true, false, not, ◌&&◌, Option, none,
  some, List, [], ◌∷◌, ◌++◌, Bytes, length, get_elem?, get_or, take, drop, replicate, min, All,
  Result, ok, err, ◌>>=◌, ltb, ◌==◌, if◌then◌else◌,
}
use tronz.Prelude.Int.{ℤ, pos, negsuc}
use tronz.RpcTypes.Kind.{ContractKind, id, from_i32}

pub record OperationSet : Type 0 where
  pub bitmap : Bytes

pub data OperationSetError : Type 0 where
  out_of_range : ℤ → OperationSetError
  non_zero_excess_bits : OperationSetError

-- What the type promises: 32 bytes.
abbrev pub IsOperationSet : OperationSet → Type 0
IsOperationSet s = (length s.bitmap ≡ 32) × All (λ b. b < 256) s.bitmap

abbrev pub all_zero : Bytes → Bool
all_zero [] = true
all_zero (b ∷ bs) = b == 0 && all_zero bs

abbrev pub empty : OperationSet
empty = record { bitmap = replicate 32 0 }

unfoldable pub from_bytes : Bytes → Result OperationSetError OperationSet
from_bytes bytes =
    if ltb 32 (length bytes) && not (all_zero (drop 32 bytes))
    then err non_zero_excess_bits
    else ok (record { bitmap = take 32 bytes ++ replicate (32 - min (length bytes) 32) 0 })

pub is_empty : OperationSet → Bool
is_empty s = all_zero s.bitmap

-- `1 << (bit % 8)`.
abbrev pub mask : ℕ → ℕ
mask bit = 2 ^ (bit % 8)

-- `usize::try_from` of an `i32`.
abbrev pub to_usize : ℤ → Option ℕ
to_usize (pos n) = some n
to_usize (negsuc n) = none

-- `*byte & mask != 0`.
abbrev pub has : ℕ → ℕ → Bool
has byte m = not (bit_and byte m == 0)

abbrev pub has_bit : Option ℕ → ℕ → Bool
has_bit none m = false
has_bit (some byte) m = has byte m

abbrev pub contains_at : OperationSet → Option ℕ → Bool
contains_at s none = false
contains_at s (some bit) = has_bit (get_elem? s.bitmap (bit / 8)) (mask bit)

pub contains : OperationSet → ContractKind → Bool
contains s kind = contains_at s (to_usize (id kind))

-- An assignment to an element, which stands in the slice.
pub set_at : ℕ → ℕ → Bytes → Bytes
set_at i byte [] = []
set_at zero byte (b ∷ bs) = byte ∷ bs
set_at (suc i) byte (b ∷ bs) = b ∷ set_at i byte bs

abbrev pub put_byte : OperationSet → ℕ → ℕ → OperationSet
put_byte s bit byte = record { bitmap = set_at (bit / 8) byte s.bitmap }

abbrev pub insert_at : OperationSet → ℤ → Option ℕ → Result OperationSetError (Bool × OperationSet)
insert_at s i none = err (out_of_range i)
insert_at s i (some bit) =
    if ltb bit 256
    then (let byte = get_or s.bitmap (bit / 8) 0 in
        ok (not (has byte (mask bit)), put_byte s bit (bit_or byte (mask bit))))
    else err (out_of_range i)

pub insert : OperationSet → ContractKind → Result OperationSetError (Bool × OperationSet)
insert s kind = insert_at s (id kind) (to_usize (id kind))

abbrev pub remove_byte : OperationSet → ℕ → Option ℕ → Bool × OperationSet
remove_byte s bit none = (false, s)
remove_byte s bit (some byte) =
    (has byte (mask bit), put_byte s bit (bit_and byte (255 - mask bit)))

abbrev pub remove_at : OperationSet → Option ℕ → Bool × OperationSet
remove_at s none = (false, s)
remove_at s (some bit) = remove_byte s bit (get_elem? s.bitmap (bit / 8))

pub remove : OperationSet → ContractKind → Bool × OperationSet
remove s kind = remove_at s (to_usize (id kind))

-- The loop of `try_from_iter`.
pub insert_all : List ContractKind → OperationSet → Result OperationSetError OperationSet
unfolding insert
insert_all [] s = ok s
insert_all (k ∷ ks) s = do (inserted, s') ← insert s k; insert_all ks s'

pub try_from_iter : List ContractKind → Result OperationSetError OperationSet
unfolding insert_all
try_from_iter kinds = insert_all kinds empty

-- The loop of `OperationSetIter::next`, of which at most `left` rounds are left; with the kind it
-- yields the position to go on from.
pub next_loop : ℕ → OperationSet → ℕ → Option (ContractKind × ℕ)
next_loop zero s position = none
next_loop (suc left) s position =
    let rest = next_loop left s (position + 1) in
    if has (get_or s.bitmap (position / 8) 0) (mask position)
    then some (from_i32 (pos position), position + 1)
    else rest

pub next : OperationSet → ℕ → Option (ContractKind × ℕ)
unfolding next_loop
next s position = next_loop (256 - position) s position

abbrev pub and_collect : Option (ContractKind × ℕ) → (ℕ → List ContractKind) → List ContractKind
and_collect none rest = []
and_collect (some (kind, position)) rest = kind ∷ rest position

-- What an iterator yields until it ends, on fuel.
pub collect : ℕ → OperationSet → ℕ → List ContractKind
unfolding next
collect zero s position = []
collect (suc fuel) s position = and_collect (next s position) (collect fuel s)

pub iter : OperationSet → List ContractKind
unfolding collect
iter s = collect 257 s 0
