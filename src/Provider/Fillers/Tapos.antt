-- ===== src/Provider/Fillers/Tapos.antt =====
-- What the TAPOS filler puts into a request, and when it asks the node.
use tronz.Prelude.{
  ℕ, ◌-◌, ◌<◌, ◌≡◌, ◌⊎◌, inl, inr, none, some, ◌∷◌, ok, arith, Option-cases, Result-cases,
}
use tronz.RpcTypes.Block.{BlockInfo}
use tronz.RpcTypes.Transaction.{TransactionRequest}
use tronz.Provider.Fillers.{Node, State, tapos_fill, fresh, now_block, with_tapos}

-- A request that has no reference block gets the fields of one block, which is the cached one
-- while that is fresh, and otherwise the node's answer to a single call.
pub tapos_fill-fields :
    (expiry ttl : ℕ) (node : Node) (tx tx' : TransactionRequest) (s s' : State)
    → tx.ref_block_bytes ≡ none
    → tapos_fill expiry ttl node tx s ≡ (s', ok tx')
    → (b : BlockInfo) × (tx' ≡ with_tapos expiry ttl b tx)
      × (((fresh node.now ttl s.cached ≡ some b) × (s' ≡ s))
          ⊎ ((fresh node.now ttl s.cached ≡ none)
              × (node.get_now_block ≡ ok b)
              × (s' ≡ record s { cached = some (b, node.later); log = now_block ∷ s.log })))
unfolding tapos_fill
tapos_fill-fields expiry ttl node tx tx' s s' h e =
    elim (Option-cases (fresh node.now ttl s.cached)) [
      | inl stale ↦ elim (Result-cases node.get_now_block) [
        | inl (b, got) ↦ (b, ground arith, inr (stale, got, ground arith))
        | inr (x, lost) ↦ ground arith
      ]
      | inr (b, known) ↦ (b, ground arith, inl (known, ground arith))
    ]

-- After a block has been fetched, a request that is filled before its time to live is over asks the
-- node nothing and changes no cache.
pub tapos_fill-caches :
    (expiry ttl : ℕ) (node node' : Node) (tx tx' tx2 : TransactionRequest) (s s' : State)
    → tx.ref_block_bytes ≡ none
    → fresh node.now ttl s.cached ≡ none
    → tapos_fill expiry ttl node tx s ≡ (s', ok tx')
    → node'.now - node.later < ttl
    → (tapos_fill expiry ttl node' tx2 s').0 ≡ s'
unfolding tapos_fill
tapos_fill-caches expiry ttl node node' tx tx' tx2 s s' h none_fresh e soon = ground arith
