-- ===== src/RpcTypes/Accounts/Found.antt =====
-- The account that an answer describes.
use tronz.Prelude.{
  ◌≡◌, ◌≢◌, ◌⊎◌, inl, inr, refl, ap, subst, true, false, List, [], ◌∷◌, Bytes, ok, err, Bool-cases,
  Result-cases,
}
use tronz.Primitives.Address.{Address, IsAddress}
use tronz.RpcTypes.Wire.{ResponseError}
use tronz.RpcTypes.Block.{is_empty}
use tronz.RpcTypes.Messages.Accounts.{VoteMessage}
use tronz.RpcTypes.Answers.{addr, filter_map}
use tronz.RpcTypes.Answers.Addresses.{addr_iff}
use tronz.RpcTypes.Response.{AccountMessage}
use tronz.RpcTypes.Accounts.{AccountInfo, Vote, vote_from_proto, account_from_proto}

-- Bytes that are an address, whole.
abbrev pub AreAddress : Bytes → Type 0
AreAddress bytes = IsAddress (record { bytes = bytes })

-- The votes are those that name an address, in order, each with its count.
abbrev pub VotesRead : List VoteMessage → List Vote → Type 0
VotesRead [] votes = votes ≡ []
VotesRead (v ∷ vs) votes =
    (AreAddress v.vote_address
      × ((rest : List Vote) × (votes
            ≡ record { vote_address = record { bytes = v.vote_address }; vote_count = v.vote_count }
              ∷ rest)
          × VotesRead vs rest))
    ⊎ ((AreAddress v.vote_address → ⊥) × VotesRead vs votes)

-- What is read of an account, its address apart.
abbrev pub Described : AccountMessage → AccountInfo → Type 0
Described a info =
    (info.balance.sun ≡ a.balance)
    × (info.trc10_balances ≡ a.asset_v2)
    × VotesRead a.votes info.votes

votes-VotesRead : (vs : List VoteMessage) → VotesRead vs (filter_map vote_from_proto vs)
unfolding filter_map
votes-VotesRead [] = refl
votes-VotesRead (v ∷ vs) = elim (Result-cases (addr v.vote_address)) [
  | inl (a, read) ↦
      let (is, well) = (addr_iff v.vote_address a).0 read in
      let whole : AreAddress v.vote_address = subst IsAddress is well in
      let again = (addr_iff v.vote_address (record { bytes = v.vote_address })).1 (refl, whole) in
      rw again (inl (whole, (filter_map vote_from_proto vs, refl, votes-VotesRead vs)))
  | inr (e, bad) ↦ rw bad (
      inr (
        λ whole. absurd (
            cc
              (bad, (addr_iff v.vote_address (record { bytes = v.vote_address })).1 (refl, whole))),
        votes-VotesRead vs,
      ))
]

-- If the node names no address, the account is the one that was asked for, and is not activated; if it
-- names an address, the account is that one, and is activated; and if it names anything else, the
-- answer is refused. Of an account that is read the balances are the node's, and its votes are those
-- that the node sent for an address, in order and with their counts.
pub account_from_proto-cases :
    (lossy : Bytes → Bytes) (a : AccountMessage) (queried : Address)
    → ((a.address ≡ [])
        × ((info : AccountInfo) × (account_from_proto lossy a queried ≡ ok info)
            × (info.address ≡ queried)
            × (info.is_activated ≡ false)
            × Described a info))
      ⊎ (AreAddress a.address
          × ((info : AccountInfo) × (account_from_proto lossy a queried ≡ ok info)
              × (info.address.bytes ≡ a.address)
              × (info.is_activated ≡ true)
              × Described a info))
      ⊎ ((a.address ≢ [])
          × (AreAddress a.address → ⊥)
          × ((e : ResponseError) × (account_from_proto lossy a queried ≡ err e)))
unfolding account_from_proto
account_from_proto-cases lossy a queried = elim (Bool-cases (is_empty a.address)) [
  | inl absent ↦
      inl (
        nil a.address absent,
        rw absent (_, refl, refl, refl, (refl, refl, votes-VotesRead a.votes)),
      )
  | inr named ↦ elim (Result-cases (addr a.address)) [
    | inl (address, read) ↦
        let (is, well) = (addr_iff a.address address).0 read in
        inr (
          inl (
            subst IsAddress is well,
            rw (named, read)
                (_, refl, ap (λ t. t.bytes) is, refl, (refl, refl, votes-VotesRead a.votes)),
          ))
    | inr (e, bad) ↦ inr (
        inr (
          λ h. cc (named, ap is_empty h),
          λ whole.
              absurd
                (cc (bad, (addr_iff a.address (record { bytes = a.address })).1 (refl, whole))),
          rw (named, bad) (e, refl),
        ))
  ]
]
  where
    nil : (b : Bytes) → is_empty b ≡ true → b ≡ []
    nil [] h = refl
    nil (x ∷ b) h = cc
