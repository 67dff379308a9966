-- ===== src/RpcTypes/Response/Tests.antt =====
-- Runs of the conversion of permissions of crates/rpc-types/src/codec/mod.rs at concrete inputs.
use tronz.Prelude.{◌≡◌, refl, [], ◌∷◌, ok, replicate}
use tronz.Prelude.Int.{pos}
use tronz.Primitives.Address.{Address, IsAddress, address_zero, from_slice}
use tronz.RpcTypes.Operations.{IsOperationSet, empty, from_bytes}
use tronz.RpcTypes.Permissions.{Permission, weight_of}
use tronz.RpcTypes.Messages.Accounts.{PermissionMessage}
use tronz.RpcTypes.Response.{permission_from_proto, keys_from_proto}
use tronz.RpcTypes.Response.Sent.{permission_from_proto-sent_weight, sent_weight}

-- One key without an address, and one with the zero address.
abbrev sent : PermissionMessage
sent = record {
  permission_type = pos 2;
  id = pos 2;
  permission_name = [];
  threshold = pos 1;
  parent_id = pos 0;
  operations = [];
  keys =
      (record { address = []; weight = pos 5 })
      ∷ (record { address = 65 ∷ replicate 20 0; weight = pos 1 })
      ∷ [];
}

abbrev read : Permission
read = record {
  id = pos 2;
  permission_name = [];
  threshold = pos 1;
  keys = (record { address = address_zero; weight = pos 1 }) ∷ [];
  operations = empty;
}

sent_read : permission_from_proto sent ≡ ok read
unfolding permission_from_proto keys_from_proto from_bytes from_slice
sent_read = refl

permission_from_proto-sent_weight_example :
    (read.id ≡ sent.id)
    × (read.threshold ≡ sent.threshold)
    × IsOperationSet read.operations
    × ((a : Address) → IsAddress a → weight_of read a ≡ sent_weight sent.keys a.bytes)
permission_from_proto-sent_weight_example = permission_from_proto-sent_weight sent read tt sent_read
