-- ===== src/Provider/Error/Broadcasts.antt =====
-- crates/provider/src/error.rs, `RpcError::broadcast`: which failures of a broadcast leave its outcome open.
use tronz.Prelude.{◌≡◌, ◌⊎◌, inl, inr, refl, none, Bytes, arith}
use tronz.Provider.Error.{
  TransportErrorKind, rpc, connect, proto, malformed_response, mispriced, refused, unsupported,
  custom, non_retryable, invalid_argument, permission_denied, unauthenticated, unimplemented,
  broadcast_unknown, broadcast_error, error_tx_id, is_refused, is_refusal_code, promote,
}

-- The node has answered that it did not take the transaction.
abbrev pub Refusal : TransportErrorKind → Type 0
Refusal (refused m) = Unit {0}
Refusal (unsupported m) = Unit {0}
Refusal (rpc c m) =
    (c ≡ invalid_argument) ⊎ (c ≡ permission_denied) ⊎ (c ≡ unauthenticated) ⊎ (c ≡ unimplemented)
Refusal e = ⊥

-- A refusal is reported as itself, with no id to look up; any other failure with the id of the transaction.
pub broadcast_error_cases :
    (id : Bytes) (e : TransportErrorKind)
    → (Refusal e × (broadcast_error id e ≡ promote e) × (error_tx_id (promote e) ≡ none))
      ⊎ ((Refusal e → ⊥) × (broadcast_error id e ≡ broadcast_unknown id e))
unfolding broadcast_error is_refused is_refusal_code promote error_tx_id
broadcast_error_cases id (refused m) = inl (tt, refl, refl)
broadcast_error_cases id (unsupported m) = inl (tt, refl, refl)
broadcast_error_cases id (rpc c m) = ground arith
broadcast_error_cases id (connect m) = inr (λ h. h, refl)
broadcast_error_cases id (proto m) = inr (λ h. h, refl)
broadcast_error_cases id (malformed_response m) = inr (λ h. h, refl)
broadcast_error_cases id (mispriced a b) = inr (λ h. h, refl)
broadcast_error_cases id (custom m) = inr (λ h. h, refl)
broadcast_error_cases id (non_retryable m) = inr (λ h. h, refl)
