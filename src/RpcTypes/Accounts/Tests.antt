-- ===== src/RpcTypes/Accounts/Tests.antt =====
-- An answer for an account that is not activated, with votes for a witness and for no address.
use tronz.Prelude.{◌≡◌, ◌≢◌, ◌⊎◌, true, false, none, [], ◌∷◌, Bytes, replicate, ok, err}
use tronz.Prelude.Int.{pos}
use tronz.Primitives.Address.{Address}
use tronz.RpcTypes.Wire.{ResponseError}
use tronz.RpcTypes.Response.{AccountMessage}
use tronz.RpcTypes.Accounts.{AccountInfo, account_from_proto}
use tronz.RpcTypes.Accounts.Found.{AreAddress, Described, account_from_proto-cases}

abbrev exact : Bytes → Bytes
exact text = text

abbrev queried : Address
queried = record { bytes = 0x41 ∷ replicate 20 7 }

abbrev answer : AccountMessage
answer = record {
  account_name = [];
  address = [];
  balance = pos 5;
  votes =
      record { vote_address = 1 ∷ []; vote_count = pos 1 }
      ∷ record { vote_address = 0x41 ∷ replicate 20 8; vote_count = pos 2 }
      ∷ [];
  asset_v2 = [];
  frozen_v2 = [];
  unfrozen_v2 = [];
  owner_permission = none;
  witness_permission = none;
  active_permission = [];
}

account_from_proto-cases_example :
    ((answer.address ≡ [])
      × ((info : AccountInfo) × (account_from_proto exact answer queried ≡ ok info)
          × (info.address ≡ queried)
          × (info.is_activated ≡ false)
          × Described answer info))
    ⊎ (AreAddress answer.address
        × ((info : AccountInfo) × (account_from_proto exact answer queried ≡ ok info)
            × (info.address.bytes ≡ answer.address)
            × (info.is_activated ≡ true)
            × Described answer info))
    ⊎ ((answer.address ≢ [])
        × (AreAddress answer.address → ⊥)
        × ((e : ResponseError) × (account_from_proto exact answer queried ≡ err e)))
account_from_proto-cases_example = account_from_proto-cases exact answer queried
