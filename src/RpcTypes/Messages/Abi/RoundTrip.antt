-- ===== src/RpcTypes/Messages/Abi/RoundTrip.antt =====
-- An ABI that is read from a message and sent again.
use tronz.Prelude.{◌≡◌, refl, ap, List, [], ◌∷◌, map}
use tronz.Abi.Entries.Codes.{entry_type_as_i32-from_i32, mutability_as_i32-from_i32}
use tronz.RpcTypes.Messages.Abi.{
  ParamMessage, EntryMessage, AbiMessage, from_proto, to_proto, entry_from_proto, entry_to_proto,
  param_from_proto, param_to_proto,
}

params_again : (ps : List ParamMessage) → map param_to_proto (map param_from_proto ps) ≡ ps
params_again [] = refl
params_again (p ∷ ps) = ap (λ t. p ∷ t) (params_again ps)

entry_again : (e : EntryMessage) → entry_to_proto (entry_from_proto e) ≡ e
entry_again e = λ i. record {
  anonymous = e.anonymous;
  constant = e.constant;
  name = e.name;
  inputs = params_again e.inputs i;
  outputs = params_again e.outputs i;
  entry_type = entry_type_as_i32-from_i32 e.entry_type i;
  accepts_trx = e.accepts_trx;
  state_mutability = mutability_as_i32-from_i32 e.state_mutability i;
}

entries_again : (es : List EntryMessage) → map entry_to_proto (map entry_from_proto es) ≡ es
entries_again [] = refl
entries_again (e ∷ es) = λ i. entry_again e i ∷ entries_again es i

-- The ABI that a node stores, read into the types of the client and written again, is the same message:
-- the order of the entries is kept, and so are categories and mutabilities that the client does not know.
pub to_proto-from_proto : (abi : AbiMessage) → to_proto (from_proto abi) ≡ abi
unfolding to_proto from_proto
to_proto-from_proto abi = ap (λ es. record { entrys = es }) (entries_again abi.entrys)
