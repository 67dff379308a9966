-- ===== src/Provider/Retry.antt =====
-- crates/provider/src/transport/grpc/core.rs, `retry` and `call_with_retry`: a call is attempted until it
-- answers, fails for good or runs out of attempts, between the two halves of each middleware. The
-- answers of the node are a function of the attempt, and the waits between attempts, which
-- are random, are left out.
pub mod Attempts
pub mod Nesting
mod Tests
use tronz.Prelude.{
  ℕ, zero, suc, ◌+◌, ◌-◌, ◌≡◌, Bool, true, false, not, ◌||◌, Option, none, some, List, [], ◌∷◌,
  ◌++◌, map, Result, ok, err, ltb, leb, ◌==◌, if◌then◌else◌,
}
use tronz.Provider.Error.{TransportErrorKind, is_retryable}

-- How a call came out, and after how many attempts.
pub record Outcome (A : Type 0) : Type 0 where
  pub attempts : ℕ
  pub result : Result TransportErrorKind A

-- `max_attempts.max(1)`.
abbrev pub at_least_one : ℕ → ℕ
at_least_one n = if leb n 1 then 1 else n

module _ {A : Type 0} where
  -- One round of the loop, with what the rest of it gives.
  pub after_attempt : ℕ → ℕ → Option (Outcome A) → Result TransportErrorKind A → Option (Outcome A)
  unfolding is_retryable
  after_attempt max attempt rest (ok v) = some (record { attempts = attempt + 1; result = ok v })
  after_attempt max attempt rest (err e) =
      if leb max (attempt + 1) || not (is_retryable e)
      then some (record { attempts = attempt + 1; result = err e })
      else rest

  -- `loop`, on fuel: `none` is a loop that has not ended.
  pub retry_loop : ℕ → ℕ → ℕ → (ℕ → Result TransportErrorKind A) → Option (Outcome A)
  unfolding after_attempt
  retry_loop zero max attempt f = none
  retry_loop (suc fuel) max attempt f =
      let rest = retry_loop fuel max (attempt + 1) f in after_attempt max attempt rest (f attempt)

  pub retry : ℕ → (ℕ → Result TransportErrorKind A) → Option (Outcome A)
  unfolding retry_loop
  retry max_attempts f = retry_loop (at_least_one max_attempts) (at_least_one max_attempts) 0 f

pub record Middleware : Type 0 where
  pub name : ℕ
  pub before : Result TransportErrorKind (Unit {0})

pub data Event : Type 0 where
  before_ran : ℕ → Event
  refused_by : ℕ → Event
  call_ran : ℕ → Event
  after_ran : ℕ → ℕ → Event

-- The first loop of `call_with_retry`: the names that entered, and the refusal, if there is one.
pub record Entry : Type 0 where
  pub entered : List ℕ
  pub refused : Option (ℕ × TransportErrorKind)

abbrev pub enter_one : ℕ → Entry → Result TransportErrorKind (Unit {0}) → Entry
enter_one n rest (ok u) = record { entered = n ∷ rest.entered; refused = rest.refused }
enter_one n rest (err e) = record { entered = []; refused = some (n, e) }

pub enter : List Middleware → Entry
enter [] = record { entered = []; refused = none }
enter (m ∷ ms) = enter_one m.name (enter ms) m.before

-- The last loop, over the reverse of those that entered.
pub leave : List ℕ → ℕ → List Event
leave [] attempts = []
leave (n ∷ ns) attempts = leave ns attempts ++ after_ran n attempts ∷ []

module _ {A : Type 0} where
  abbrev pub refusal :
      List ℕ
      → Option (ℕ × TransportErrorKind)
      → Option (Outcome A)
      → List Event × Option (Result TransportErrorKind A)
  refusal entered (some (n, e)) out =
      (map before_ran entered ++ (refused_by n ∷ leave entered 0), some (err e))
  refusal entered none none = (map before_ran entered, none)
  refusal entered none (some o) =
      (map before_ran entered ++ (call_ran o.attempts ∷ leave entered o.attempts), some o.result)

  pub call_with_retry :
      ℕ
      → List Middleware
      → (ℕ → Result TransportErrorKind A)
      → List Event × Option (Result TransportErrorKind A)
  unfolding retry enter leave
  call_with_retry max_attempts middleware f =
      refusal (enter middleware).entered (enter middleware).refused (retry max_attempts f)
