-- ===== src/Provider/Retry/Nesting.antt =====
-- The halves of the middleware around a call are nested.
use tronz.Prelude.{ℕ, Option, none, some, List, [], ◌∷◌, ◌==◌, if◌then◌else◌}
use tronz.Provider.Retry.{Event, before_ran, refused_by, call_ran, after_ran}

-- A stack machine over the events: what is still open, or `none` where a half has no other.
abbrev pub replay_one : Option (List ℕ) → Event → Option (List ℕ)
replay_one none e = none
replay_one (some rest) (before_ran n) = some (n ∷ rest)
replay_one (some rest) (refused_by n) = some rest
replay_one (some rest) (call_ran k) = some rest
replay_one (some []) (after_ran n k) = none
replay_one (some (m ∷ rest)) (after_ran n k) = if m == n then some rest else none

pub replay : Option (List ℕ) → List Event → Option (List ℕ)
replay s [] = s
replay s (e ∷ es) = replay (replay_one s e) es
