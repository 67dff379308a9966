-- ===== src/Provider/Error/Status.antt =====
-- Which failures are retried and which are asked again.
use tronz.Prelude.{ℕ, ◌≡◌, ◌⊎◌, ◌↔◌, ◌≤◌, true, none, some, Bytes, arith}
use tronz.Provider.Error.{
  RpcStatusCode, TransportErrorKind, rpc, unavailable, resource_exhausted, aborted, is_retryable,
  is_retryable_code, is_worth_reasking, as_transport_err, promote, map_status, map_http_status,
  map_code, failed,
}

-- Every failure that a call is retried on is one that polling asks again on, also after it is
-- promoted; and a status is retried exactly if it is one of the three transient ones.
pub is_retryable-is_worth_reasking :
    (e : TransportErrorKind) (c : RpcStatusCode) (m : Bytes)
    → (is_retryable e ≡ true → is_worth_reasking (promote e) ≡ true)
      × ((is_retryable (rpc c m) ≡ true)
          ↔ ((c ≡ unavailable) ⊎ (c ≡ resource_exhausted) ⊎ (c ≡ aborted)))
unfolding is_retryable is_worth_reasking promote is_retryable_code as_transport_err
is_retryable-is_worth_reasking e c m = (ground arith, ground arith)

-- The statuses of a gateway that decide alone: 401, 403, 429 and 502 to 504.
abbrev pub Decides : ℕ → Type 0
Decides n = (n ≡ 401) ⊎ (n ≡ 403) ⊎ (n ≡ 429) ⊎ ((502 ≤ n) × (n ≤ 504))

abbrev pub IsTransient : RpcStatusCode → Type 0
IsTransient c = (c ≡ unavailable) ⊎ (c ≡ resource_exhausted) ⊎ (c ≡ aborted)

-- A gateway's answer of 429 or of 502 to 504 is retried whatever the code says, and one of 401 or
-- 403 never is; with any other status, and with none, it is retried exactly if the code is unavailable,
-- resource exhausted or aborted.
pub map_status-is_retryable :
    (n : ℕ) (code : RpcStatusCode) (describe : ℕ → Bytes) (m : Bytes)
    → ((is_retryable (map_status (some n) (failed code) describe m) ≡ true)
        ↔ ((n ≡ 429) ⊎ ((502 ≤ n) × (n ≤ 504)) ⊎ ((Decides n → ⊥) × IsTransient code)))
      × ((is_retryable (map_status none (failed code) describe m) ≡ true) ↔ IsTransient code)
unfolding is_retryable map_status map_http_status map_code is_retryable_code
map_status-is_retryable n code describe m = (ground arith, ground arith)
