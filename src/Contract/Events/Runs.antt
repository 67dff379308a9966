-- ===== src/Contract/Events/Runs.antt =====
-- Any number of polls in a row, whatever the provider answers each time.
use tronz.Prelude.{
  ℕ, zero, suc, ◌+◌, ◌-◌, ◌*◌, ◌^◌, ◌<◌, ◌≤◌, ◌≡◌, inl, inr, sym, ap, ◌∙◌, subst, true, Option,
  List, [], ◌∷◌, ◌++◌, append_assoc, Result, ok, err, arith, Result-cases, All, replicate,
}
use native.Mathlib.Nat.{suc-mul}
use tronz.Prelude.Int.{ℤ, pos}
use tronz.Primitives.Address.{Address}
use tronz.Contract.Events.{SolEvent, Provider, ContractError, EventWatcher, poll, poll_at, Polled}
use tronz.Contract.Events.Cursor.{Stands, window, Honest, Serves}
use tronz.Contract.Events.Following.{Moved, reached, poll-cases, poll-Moved}

module _ (e : SolEvent) (address : Option Address) where
  abbrev pub events_of : Result ContractError (List e.Event) → List e.Event
  events_of (ok events) = events
  events_of (err x) = []

  -- Polling again and again, whatever the provider answers each time: the watcher in the end, and all
  -- events that were answered.
  pub follow : List Provider → EventWatcher → EventWatcher × List e.Event
  unfolding poll
  follow [] w = (w, [])
  follow (p ∷ ps) w =
      let rest = follow ps (poll e address p w).0 in
      (rest.0, events_of (poll e address p w).1 ++ rest.1)

  module _ (chain : ℕ → List e.Event) where
    window-append :
        (n j k : ℕ)
        → window e address chain n (j + k)
          ≡ window e address chain n j ++ window e address chain (n + j) k
    window-append n zero k = λ i. window e address chain (shift i) (none_first i)
      where
        shift : n ≡ n + 0
        shift = omega arith

        none_first : 0 + k ≡ k
        none_first = omega arith
    window-append n (suc j) k =
        ap (λ (t : ℕ). window e address chain n t) {y = suc (j + k)} (omega arith)
        ∙ ap (λ t. chain n ++ t) (window-append (n + 1) j k)
        ∙ sym (
            append_assoc (chain n) (window e address chain (n + 1) j)
              (window e address chain (n + 1 + j) k))
        ∙ ap (λ (t : ℕ). chain n ++ window e address chain (n + 1) j ++ window e address chain t k)
            {y = n + suc j} (omega arith)

    -- A provider that answers truthfully, if at all, and with heights that fit.
    abbrev pub IsTruthful : Provider → Type 0
    IsTruthful p =
        Honest e address chain p
        × ((z : ℤ) → p.get_now_block ≡ ok z → (h : ℕ) × (z ≡ pos h) × (h < 2 ^ 60))

    abbrev Kept : ℕ → ℕ → ℕ → Polled e address → Type 0
    Kept n c m p =
        (n' : ℕ) × (n ≤ n')
        × Stands p.0 n' c m
        × (events_of p.1 ≡ window e address chain n (n' - n))

    poll-Kept :
        (p : Provider) (w : EventWatcher) (n c m : ℕ)
        → IsTruthful p
        → Stands w n c m
        → Kept n c m (poll e address p w)
    unfolding poll
    poll-Kept p w n c m (honest, heads) stands = elim (Result-cases p.get_now_block) [
      | inr (x, lost) ↦
          subst (Kept n c m) (sym (ap (poll_at e address p w) lost)) (
            n,
            omega arith,
            stands,
            ap (λ (k : ℕ). window e address chain n k) {x = 0} (omega arith),
          )
      | inl (z, found) ↦
          let (h, is_h, small) = heads z found in
          let asked : poll_at e address p w p.get_now_block ≡ poll_at e address p w (ok (pos h)) =
            ap (poll_at e address p w) (found ∙ ap ok is_h) in
          subst (Kept n c m) (sym asked)
            (elim (poll-cases e address chain p w n c m stands honest h small) [
              | inl (same, (x, lost)) ↦ (
                n,
                omega arith,
                subst (λ v. Stands v n c m) (sym same) stands,
                ap events_of lost
                    ∙ ap (λ (k : ℕ). window e address chain n k) {x = 0} (omega arith),
              )
              | inr (on, found_events, end) ↦ (
                reached e address chain n c m h,
                forward h stands.some_blocks,
                on,
                ap events_of found_events,
              )
            ])
    ]
      where
        forward : (h : ℕ) → 1 ≤ m → n ≤ reached e address chain n c m h
        forward h one = ground arith

    -- A watcher at block `n` that is polled any number of times, with providers that fail or answer
    -- truthfully and with heights below 2 ^ 60: it ends at some block from `n` on, and has answered with
    -- the events of exactly the blocks that it passed, each once and in the order of the chain. The
    -- cursor, the confirmations and the blocks per poll are at most 2 ^ 60 at the start.
    pub follow-once :
        (ps : List Provider) (w : EventWatcher) (n c m : ℕ)
        → All IsTruthful ps
        → Stands w n c m
        → (n' : ℕ) × (n ≤ n')
          × Stands (follow ps w).0 n' c m
          × ((follow ps w).1 ≡ window e address chain n (n' - n))
    unfolding follow
    follow-once [] w n c m truthful stands =
        (n, omega arith, stands, ap (λ (k : ℕ). window e address chain n k) {x = 0} (omega arith))
    follow-once (p ∷ ps) w n c m (here, later) stands =
        let (n1, le1, stands1, read1) = poll-Kept p w n c m here stands in
        let (n2, le2, stands2, read2) =
          follow-once ps (poll e address p w).0 n1 c m later stands1 in
        (
          n2,
          omega arith,
          stands2,
          (λ i. read1 i ++ read2 i)
              ∙ ap
                  (λ (k : ℕ).
                    window e address chain n (n1 - n) ++ window e address chain k (n2 - n1))
                  {y = n + (n1 - n)} (omega arith)
              ∙ sym (window-append n (n1 - n) (n2 - n1))
              ∙ ap (λ (k : ℕ). window e address chain n k) {y = n2 - n} (omega arith),
        )

    reached_end :
        (n c m h : ℕ) → 1 ≤ m → h < n + c + 1 * m → h < reached e address chain n c m h + c
    reached_end n c m h one near = ground arith

    reached_nearer :
        (n c m h j : ℕ)
        → 1 ≤ m
        → h < n + c + suc (suc j) * m
        → h < reached e address chain n c m h + c + suc j * m
    reached_nearer n c m h j one near = let rows = suc-mul (suc j) m in ground (arith, rows)

    served :
        (p : Provider) (h : ℕ)
        → Honest e address chain p
        → Serves e address p
        → p.get_now_block ≡ ok (pos h)
        → h < 2 ^ 60
        → (w : EventWatcher) (n c m : ℕ) → Stands w n c m
        → Moved e address chain n c m h (poll e address p w)
    unfolding poll
    served p h honest serves at small w n c m stands =
        subst (Moved e address chain n c m h) (sym (ap (poll_at e address p w) at))
          (poll-Moved e address chain p w n c m stands honest serves h small)

    -- A provider that answers for every block with the events of the chain, at a head `h` below 2 ^ 60,
    -- polled `k` times from block `n`, with `c` confirmations and at most `m` blocks in a poll, each at
    -- most 2 ^ 60: with `k` at least one and enough polls for the distance, `h < n + c + k * m`, the
    -- watcher is caught up, and its cursor has passed the last confirmed block.
    pub follow-catches_up :
        (p : Provider) (h : ℕ)
        → Honest e address chain p
        → Serves e address p
        → p.get_now_block ≡ ok (pos h)
        → h < 2 ^ 60
        → (k : ℕ) (w : EventWatcher) (n c m : ℕ) → 1 ≤ k
        → h < n + c + k * m
        → Stands w n c m
        → (n' : ℕ) × Stands (follow (replicate k p) w).0 n' c m
          × (h < n' + c)
          × ((follow (replicate k p) w).0.caught_up ≡ true)
    unfolding follow poll
    follow-catches_up p h honest serves at small zero w n c m one near stands = absurd (omega arith)
    follow-catches_up p h honest serves at small (suc zero) w n c m one near stands =
        let (on, events, end) = served p h honest serves at small w n c m stands in
        let past = reached_end n c m h stands.some_blocks near in
        (reached e address chain n c m h, on, past, end past)
    follow-catches_up p h honest serves at small (suc (suc j)) w n c m one near stands =
        let (on, events, end) = served p h honest serves at small w n c m stands in
        follow-catches_up p h honest serves at small (suc j) (poll e address p w).0
          (reached e address chain n c m h) c m (omega arith)
          (reached_nearer n c m h j stands.some_blocks near) on
