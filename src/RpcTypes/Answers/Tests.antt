-- ===== src/RpcTypes/Answers/Tests.antt =====
-- A listing of one address.
use tronz.Prelude.{◌≡◌, ◌↔◌, [], ◌∷◌, replicate, map, ok, All}
use tronz.Primitives.Address.{Address, IsAddress}
use tronz.RpcTypes.Answers.{addresses_from_proto}
use tronz.RpcTypes.Answers.Addresses.{addresses_from_proto_iff}

abbrev listed : Address
listed = record { bytes = 0x41 ∷ replicate 20 7 }

addresses_from_proto_iff_example :
    (addresses_from_proto (listed.bytes ∷ []) ≡ ok (listed ∷ []))
    ↔ ((listed.bytes ∷ [] ≡ map (λ a. a.bytes) (listed ∷ [])) × All IsAddress (listed ∷ []))
addresses_from_proto_iff_example = addresses_from_proto_iff (listed.bytes ∷ []) (listed ∷ [])
