-- ===== src/RpcTypes/Messages/Abi/Tests.antt =====
-- An ABI with an event of a category that the client does not know.
use tronz.Prelude.{◌≡◌, true, false, [], ◌∷◌}
use tronz.Prelude.Int.{pos}
use tronz.RpcTypes.Messages.Abi.{AbiMessage, from_proto, to_proto}
use tronz.RpcTypes.Messages.Abi.RoundTrip.{to_proto-from_proto}

abbrev stored : AbiMessage
stored = record {
  entrys =
      record {
        anonymous = false;
        constant = true;
        name = 102 ∷ [];
        inputs = record { indexed = true; name = 97 ∷ []; ty = 98 ∷ [] } ∷ [];
        outputs = [];
        entry_type = pos 77;
        accepts_trx = false;
        state_mutability = pos 2;
      }
      ∷ [];
}

to_proto-from_proto_example : to_proto (from_proto stored) ≡ stored
to_proto-from_proto_example = to_proto-from_proto stored
