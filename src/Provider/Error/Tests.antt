-- ===== src/Provider/Error/Tests.antt =====
-- Runs of the error classification at concrete inputs.
use tronz.Prelude.{◌≡◌, refl, inl, true, some, []}
use tronz.Provider.Error.{unimplemented, is_retryable, map_status, failed}
use tronz.Provider.Error.Status.{map_status-is_retryable}

map_status-is_retryable_example :
    is_retryable (map_status (some 429) (failed unimplemented) (λ n. []) []) ≡ true
map_status-is_retryable_example =
    (map_status-is_retryable 429 unimplemented (λ n. []) []).0.1 (inl refl)
