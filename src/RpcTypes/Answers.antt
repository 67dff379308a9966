-- ===== src/RpcTypes/Answers.antt =====
-- crates/rpc-types/src/codec/mod.rs: the addresses and hashes in the answers of a node, one and many.
pub mod Addresses
mod Tests
use tronz.Prelude.{
  ℕ, ◌≡◌, Bool, true, false, Option, none, some, List, [], ◌∷◌, Bytes, length, replicate, Result,
  ok, err, ◌>>=◌, map_err, ◌==◌, if◌then◌else◌,
}
use tronz.Primitives.Address.{Address, AddressError, from_slice, from_evm_bytes}
use tronz.RpcTypes.Wire.{ResponseError, malformed, bad_address}
use tronz.RpcTypes.Block.{is_empty}

unfoldable pub addr : Bytes → Result ResponseError Address
addr bytes = map_err (λ e. malformed bad_address) (from_slice bytes)

abbrev pub ok_or_none {ℓ κ} : {E : Type ℓ} {A : Type κ} → Result E A → Option A
ok_or_none (ok a) = some a
ok_or_none (err e) = none

unfoldable pub opt_addr : Bytes → Option Address
opt_addr bytes = if is_empty bytes then none else ok_or_none (from_slice bytes)

unfoldable pub log_addr : Bytes → Result ResponseError Address
unfolding addr
log_addr bytes = if length bytes == 20 then ok (from_evm_bytes bytes) else addr bytes

unfoldable pub b256 : Bytes → Bytes
b256 bytes = if length bytes == 32 then bytes else replicate 32 0

abbrev pub push_some : {B : Type 0} → Option B → List B → List B
push_some none bs = bs
push_some (some b) bs = b ∷ bs

module _ {A B : Type 0} where
  -- `map(f).collect::<Result<Vec<_>, _>>()`.
  unfoldable pub collect_results :
      (A → Result ResponseError B) → List A → Result ResponseError (List B)
  collect_results f [] = ok []
  collect_results f (a ∷ more) = do b ← f a; bs ← collect_results f more; ok (b ∷ bs)

  unfoldable pub filter_map : (A → Option B) → List A → List B
  filter_map f [] = []
  filter_map f (a ∷ more) = push_some (f a) (filter_map f more)

-- Addresses of a listing: of witnesses, delegates and signers.
pub addresses_from_proto : List Bytes → Result ResponseError (List Address)
unfolding collect_results addr
addresses_from_proto raw = collect_results addr raw
