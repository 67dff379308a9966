-- ===== src/Provider/Retry/Attempts.antt =====
-- The retry loop ends, after at most the attempts it is given.
use tronz.Prelude.{
  ℕ, zero, suc, ◌+◌, ◌≡◌, ◌⊎◌, ◌≤◌, ◌<◌, refl, ap, sym, ◌∙◌, subst, Bool-cases, err-injective, inl,
  inr, true, false, Option, none, some, Result, ok, err, arith, leb,
}
use tronz.Provider.Error.{TransportErrorKind, is_retryable}
use tronz.Provider.Retry.{Outcome, after_attempt, retry_loop, retry, at_least_one}

-- A loop that ends with the answer of attempt `last`, counted from 0.
abbrev pub EndsAt : {A : Type 0} → ℕ → ℕ → (ℕ → Result TransportErrorKind A) → ℕ → Type 0
EndsAt max from f last =
    (from ≤ last)
    × (last < max)
    × ((n : ℕ)
        → from ≤ n
        → n < last
        → (e : TransportErrorKind) × (f n ≡ err e) × (is_retryable e ≡ true))
    × ((e : TransportErrorKind) → f last ≡ err e → (max ≤ last + 1) ⊎ (is_retryable e ≡ false))

split_le : (a n : ℕ) → a ≤ n → (a ≡ n) ⊎ (a + 1 ≤ n)
split_le a n h = ground arith

module _ {A : Type 0} where
  attempt-cases :
      (max attempt : ℕ) (rest : Option (Outcome A)) (r : Result TransportErrorKind A)
      → ((after_attempt max attempt rest r ≡ some (record { attempts = attempt + 1; result = r }))
          × ((e : TransportErrorKind) → r ≡ err e → (max ≤ attempt + 1) ⊎ (is_retryable e ≡ false)))
        ⊎ ((after_attempt max attempt rest r ≡ rest)
            × (attempt + 1 < max)
            × ((e : TransportErrorKind) × (r ≡ err e) × (is_retryable e ≡ true)))
  unfolding after_attempt
  attempt-cases max attempt rest (ok v) = inl (refl, λ e h. cc)
  attempt-cases max attempt rest (err e) = elim (Bool-cases (leb max (attempt + 1))) [
    | inl last ↦ inl (rw last, λ e' h. inl (ground arith))
    | inr more ↦ elim (Bool-cases (is_retryable e)) [
      | inl again ↦ inr (rw (more, again), ground arith, (e, refl, again))
      | inr never ↦
          inl (rw (more, never), λ e' h. inr (ap is_retryable (err-injective (sym h)) ∙ never))
    ]
  ]

module _ {A : Type 0} (f : ℕ → Result TransportErrorKind A) where
  stop_here :
      (max attempt : ℕ)
      → attempt < max
      → ((e : TransportErrorKind)
          → f attempt ≡ err e
          → (max ≤ attempt + 1) ⊎ (is_retryable e ≡ false))
      → EndsAt max attempt f attempt
  stop_here max attempt h last = (omega arith, h, λ n a b. absurd (omega arith), last)

  one_more :
      (max attempt last : ℕ)
      → ((e : TransportErrorKind) × (f attempt ≡ err e) × (is_retryable e ≡ true))
      → EndsAt max (attempt + 1) f last
      → EndsAt max attempt f last
  one_more max attempt last again (a, b, c, d) = (
    omega arith,
    b,
    λ n low high. elim (split_le attempt n low) [
      | inl e ↦
          subst (λ k. (e : TransportErrorKind) × (f k ≡ err e) × (is_retryable e ≡ true)) e again
      | inr more ↦ c n more high
    ],
    d,
  )

  retry_loop-EndsAt :
      (fuel max attempt : ℕ)
      → attempt + suc fuel ≡ max
      → (last : ℕ) × (retry_loop (suc fuel) max attempt f
          ≡ some (record { attempts = last + 1; result = f last }))
        × EndsAt max attempt f last
  unfolding retry_loop
  retry_loop-EndsAt zero max attempt h = elim (attempt-cases max attempt none (f attempt)) [
    | inl (stop, last) ↦ (attempt, stop, stop_here max attempt (omega arith) last)
    | inr (go, more, again) ↦ absurd (omega arith)
  ]
  retry_loop-EndsAt (suc fuel) max attempt h =
      elim (attempt-cases max attempt (retry_loop (suc fuel) max (attempt + 1) f) (f attempt)) [
        | inl (stop, last) ↦ (attempt, stop, stop_here max attempt (omega arith) last)
        | inr (go, more, again) ↦
            let (last, ends, when) = retry_loop-EndsAt fuel max (attempt + 1) (omega arith) in
            (last, go ∙ ends, one_more max attempt last again when)
      ]

  positive_loop :
      (m : ℕ)
      → 0 < m
      → (last : ℕ) × (retry_loop m m 0 f ≡ some (record { attempts = last + 1; result = f last }))
        × EndsAt m 0 f last
  positive_loop zero h = absurd (omega arith)
  positive_loop (suc n) h = retry_loop-EndsAt n (suc n) 0 (omega arith)

  -- The loop ends: a call is attempted at least once and at most `max_attempts` times, every attempt
  -- but the last failed with an error that may be transient, and the last one, which is what is
  -- answered, is no such error unless the attempts are used up.
  pub retry-EndsAt :
      (max_attempts : ℕ)
      → (last : ℕ) × (retry max_attempts f ≡ some (record { attempts = last + 1; result = f last }))
        × EndsAt (at_least_one max_attempts) 0 f last
  unfolding retry
  retry-EndsAt max_attempts = positive_loop (at_least_one max_attempts) (ground arith)
