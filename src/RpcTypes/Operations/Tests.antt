-- ===== src/RpcTypes/Operations/Tests.antt =====
-- Runs of `OperationSet` of crates/rpc-types/src/types/contract.rs at concrete inputs.
use tronz.Prelude.{◌≡◌, refl, true, not, ◌||◌, ◌&&◌, List, [], ◌∷◌, ok, arith, replicate}
use tronz.RpcTypes.Kind.{ContractKind, id, transfer, un_delegate_resource}
use tronz.RpcTypes.Operations.{
  OperationSet, IsOperationSet, try_from_iter, contains, insert, remove, iter, insert_all, set_at,
}
use tronz.RpcTypes.Operations.Refinement.{
  insert-adds, remove-drops, try_from_iter-contains, same_id, any_same,
}
use tronz.RpcTypes.Operations.Iteration.{try_from_iter-iter}

abbrev two_kinds : List ContractKind
two_kinds = un_delegate_resource ∷ transfer ∷ []

-- The bits 1 and 58.
abbrev two_bits : OperationSet
two_bits = record { bitmap = 2 ∷ 0 ∷ 0 ∷ 0 ∷ 0 ∷ 0 ∷ 0 ∷ 4 ∷ replicate 24 0 }

-- The bit 1.
abbrev one_bit : OperationSet
one_bit = record { bitmap = 2 ∷ replicate 31 0 }

two_bits-IsOperationSet : IsOperationSet two_bits
two_bits-IsOperationSet = ground arith

one_bit-IsOperationSet : IsOperationSet one_bit
one_bit-IsOperationSet = ground arith

two_built : try_from_iter two_kinds ≡ ok two_bits
unfolding try_from_iter insert_all insert set_at id
two_built = refl

one_inserted : insert one_bit un_delegate_resource ≡ ok (true, two_bits)
unfolding insert set_at id
one_inserted = refl

insert-adds_example :
    IsOperationSet two_bits
    × (true ≡ not (contains one_bit un_delegate_resource))
    × ((j : ContractKind)
        → contains two_bits j ≡ (same_id j un_delegate_resource || contains one_bit j))
insert-adds_example =
    insert-adds one_bit two_bits un_delegate_resource true one_bit-IsOperationSet one_inserted

remove-drops_example :
    IsOperationSet (remove two_bits transfer).1
    × ((remove two_bits transfer).0 ≡ contains two_bits transfer)
    × ((j : ContractKind)
        → contains (remove two_bits transfer).1 j
          ≡ (not (same_id j transfer) && contains two_bits j))
remove-drops_example = remove-drops two_bits transfer two_bits-IsOperationSet

try_from_iter-contains_example :
    IsOperationSet two_bits × ((j : ContractKind) → contains two_bits j ≡ any_same two_kinds j)
try_from_iter-contains_example = try_from_iter-contains two_kinds two_bits two_built

try_from_iter-iter_example :
    (s' : OperationSet) × (try_from_iter (iter two_bits) ≡ ok s')
    × ((j : ContractKind) → contains s' j ≡ contains two_bits j)
try_from_iter-iter_example = try_from_iter-iter two_bits two_bits-IsOperationSet
