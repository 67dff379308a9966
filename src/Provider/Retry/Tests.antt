-- ===== src/Provider/Retry/Tests.antt =====
-- Runs of the retries at concrete inputs.
use tronz.Prelude.{ℕ, ◌+◌, ◌≡◌, some, [], ◌∷◌, List, Result, ok, err, if◌then◌else◌, ltb}
use tronz.Provider.Error.{TransportErrorKind, rpc, unavailable, unimplemented}
use tronz.Provider.Retry.{Middleware, retry}
use tronz.Provider.Retry.Attempts.{retry-EndsAt, EndsAt}

-- Two failures that pass, and then an answer.
abbrev flaky : ℕ → Result TransportErrorKind ℕ
flaky n = if ltb n 2 then err (rpc unavailable []) else ok 7

retry-EndsAt_example :
    (last : ℕ) × (retry 5 flaky ≡ some (record { attempts = last + 1; result = flaky last }))
    × EndsAt 5 0 flaky last
retry-EndsAt_example = retry-EndsAt flaky 5

abbrev layers : List Middleware
layers =
    record { name = 1; before = ok tt }
    ∷ record { name = 2; before = err (rpc unimplemented []) }
    ∷ []
