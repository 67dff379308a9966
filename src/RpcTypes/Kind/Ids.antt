-- ===== src/RpcTypes/Kind/Ids.antt =====
-- The protobuf ids of the contract kinds.
use tronz.Prelude.{ℕ, ◌≡◌, refl, arith}
use tronz.Prelude.Int.{ℤ, pos, negsuc}
use tronz.RpcTypes.Kind.{
  ContractKind, from_i32, id, from_0, from_21, from_48, unknown, create_account,
}

id-from_48 : (n : ℕ) → id (from_48 n) ≡ pos n
unfolding id from_48
id-from_48 n = ground arith

id-from_21 : (n : ℕ) → id (from_21 n) ≡ pos n
unfolding id from_21
id-from_21 n = ground arith

id-from_0 : (n : ℕ) → id (from_0 n) ≡ pos n
unfolding id from_0
id-from_0 n = ground arith

-- Reading an id and writing it back gives the same id, known or not: none is lost.
pub id-from_i32 : (v : ℤ) → id (from_i32 v) ≡ v
unfolding from_i32
id-from_i32 (pos n) = ground (arith, id-from_48 n, id-from_21 n, id-from_0 n)
id-from_i32 (negsuc n) = unfold id in refl

-- A kind that the build names.
abbrev pub IsKnown : ContractKind → Type 0
IsKnown (unknown v) = ⊥
IsKnown _ = Unit {0}

-- Every kind that the build names is read back from its id.
pub from_i32-id : (k : ContractKind) → IsKnown k → from_i32 (id k) ≡ k
unfolding from_i32 id from_0 from_21 from_48
from_i32-id create_account h = refl
from_i32-id (unknown v) h = absurd h
from_i32-id _ h = refl

-- No two kinds that the build names share an id.
pub id-injective : (j k : ContractKind) → IsKnown j → IsKnown k → id j ≡ id k → j ≡ k
id-injective j k hj hk e = cc (from_i32-id j hj, from_i32-id k hk)
