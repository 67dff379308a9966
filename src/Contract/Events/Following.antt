-- ===== src/Contract/Events/Following.antt =====
-- One poll of a watcher that follows a chain: it fails, or it moves the cursor.
use tronz.Prelude.{
  ℕ, ◌+◌, ◌-◌, ◌^◌, ◌<◌, ◌≤◌, ◌≡◌, ◌⊎◌, inl, inr, refl, sym, ap, ◌∙◌, subst, true, Option, List, [],
  Result, ok, err, min, arith, Bool-cases, Result-cases, ltb, if◌then◌else◌,
}
use tronz.Prelude.Int.{pos, ◌-ℤ◌, wrap_i64}
use tronz.Primitives.Address.{Address}
use tronz.Contract.Events.{
  SolEvent, Provider, ContractError, EventWatcher, query_range, poll_target, poll_at, Polled,
  scan_to, advanced,
}
use tronz.Contract.Events.Cursor.{
  Stands, window, Honest, confirmed, target_none, target_some, wrap_suc, query_range-window,
  query_range_answers, Serves,
}

module _ (e : SolEvent) (address : Option Address) (chain : ℕ → List e.Event) where
  -- A poll that failed left the watcher as it was.
  abbrev pub Failed : EventWatcher → Polled e address → Type 0
  Failed w p = (p.0 ≡ w) × ((x : ContractError) × (p.1 ≡ err x))

  -- Where the cursor stands after a poll at head `h` that succeeded.
  abbrev pub reached : ℕ → ℕ → ℕ → ℕ → ℕ
  reached n c m h = if ltb h (n + c) then n else min (h - c) (n + m - 1) + 1

  -- A poll that succeeded answered with the events of the blocks that the cursor passed.
  abbrev pub Moved : ℕ → ℕ → ℕ → ℕ → Polled e address → Type 0
  Moved n c m h p =
      Stands p.0 (reached n c m h) c m
      × (p.1 ≡ ok (window e address chain n (reached n c m h - n)))
      × (h < reached n c m h + c → p.0.caught_up ≡ true)

  module _ (provider : Provider) (w : EventWatcher) (n c m : ℕ) (stands : Stands w n c m) where
    poll-waits :
        (h : ℕ) → h < 2 ^ 60 → h < n + c → Moved n c m h (poll_at e address provider w (ok (pos h)))
    poll-waits h small low =
        let at : poll_at e address provider w (ok (pos h))
            ≡ (record w { caught_up = true }, ok []) =
          ap (λ t. scan_to e address provider w (wrap_i64 (pos h -ℤ w.confirmations)) t)
            ((λ i.
                poll_target (stands.next i) (wrap_i64 (pos h -ℤ stands.behind i)) (stands.most i))
              ∙ target_none n c m h (omega arith) (stands.small.1) low) in
        let stay : reached n c m h ≡ n = ground arith in
        subst (Moved n c m h) (sym at) (
          subst (λ k. Stands (record w { caught_up = true }) k c m) (sym stay)
              (record {
                next = stands.next;
                behind = stands.behind;
                most = stands.most;
                some_blocks = stands.some_blocks;
                small = stands.small;
              }),
          ap (λ (k : ℕ). ok (window e address chain n k)) {x = 0} (omega (arith, stay)),
          λ _. refl,
        )

    -- What a poll with something to scan does with what it scanned.
    scanned : (h t : ℕ) → Result ContractError (List e.Event) → Polled e address
    scanned h t r = advanced e address w (pos t) (pos (h - c)) r

    poll-scanned :
        (h : ℕ)
        → h < 2 ^ 60
        → n + c ≤ h
        → poll_at e address provider w (ok (pos h))
          ≡ scanned h
              (min (h - c) (n + m - 1))
              (query_range e address provider (pos n) (pos (min (h - c) (n + m - 1))))
    unfolding scanned
    poll-scanned h small high =
        let (hn, hc, hm) = stands.small in
        let last = confirmed h c (omega arith) hc (omega arith) in
        (λ i.
          scan_to e address provider w (wrap_i64 (pos h -ℤ stands.behind i))
            (poll_target (stands.next i) (wrap_i64 (pos h -ℤ stands.behind i)) (stands.most i)))
        ∙ ap (λ o. scan_to e address provider w (wrap_i64 (pos h -ℤ pos c)) o)
            (target_some n c m h hn (omega arith) hc hm stands.some_blocks high)
        ∙ (λ i.
            advanced e address w (pos (min (h - c) (n + m - 1))) (last i)
              (query_range e address provider (stands.next i) (pos (min (h - c) (n + m - 1)))))

    scanned-Moved :
        (h : ℕ) (events : List e.Event)
        → h < 2 ^ 60
        → n + c ≤ h
        → events ≡ window e address chain n (min (h - c) (n + m - 1) + 1 - n)
        → Moved n c m h (scanned h (min (h - c) (n + m - 1)) (ok events))
    unfolding scanned
    scanned-Moved h events small high those =
        let one = stands.some_blocks in
        let there : reached n c m h ≡ min (h - c) (n + m - 1) + 1 = ground arith in
        (
          record {
            next = wrap_suc (min (h - c) (n + m - 1)) (omega arith) ∙ ap pos (sym there);
            behind = stands.behind;
            most = stands.most;
            some_blocks = one;
            small = (omega (arith, there), stands.small.1, stands.small.2);
          },
          ap ok (those ∙ ap (λ k. window e address chain n (k - n)) (sym there)),
          λ near. ground (arith, there),
        )

    pub poll-cases :
        Honest e address chain provider
        → (h : ℕ) → h < 2 ^ 60
        → Failed w (poll_at e address provider w (ok (pos h)))
          ⊎ Moved n c m h (poll_at e address provider w (ok (pos h)))
    unfolding scanned
    poll-cases honest h small = elim (Bool-cases (ltb h (n + c))) [
      | inl low ↦ inr (poll-waits h small (ground arith))
      | inr high ↦
          let above : n + c ≤ h = ground arith in
          let one = stands.some_blocks in
          elim (Result-cases
            (query_range e address provider (pos n) (pos (min (h - c) (n + m - 1))))) [
              | inl (events, read) ↦ inr (
                  subst (Moved n c m h)
                    (sym
                      (poll-scanned h small above ∙ ap (scanned h (min (h - c) (n + m - 1))) read))
                    (scanned-Moved h events small above (
                      query_range-window e address chain provider n (min (h - c) (n + m - 1)) events
                        (omega arith) honest read)))
              | inr (x, lost) ↦ inl (
                  subst (Failed w)
                    (sym
                      (poll-scanned h small above ∙ ap (scanned h (min (h - c) (n + m - 1))) lost))
                    (refl, (x, refl)))
            ]
    ]

    -- A provider that answers for every block makes no poll fail.
    pub poll-Moved :
        Honest e address chain provider
        → Serves e address provider
        → (h : ℕ) → h < 2 ^ 60
        → Moved n c m h (poll_at e address provider w (ok (pos h)))
    unfolding scanned
    poll-Moved honest serves h small = elim (poll-cases honest h small) [
      | inr moved ↦ moved
      | inl (same, (x, lost)) ↦ elim (Bool-cases (ltb h (n + c))) [
        | inl low ↦ poll-waits h small (ground arith)
        | inr high ↦
            let above : n + c ≤ h = ground arith in
            let (events, read) =
              query_range_answers e address provider n (min (h - c) (n + m - 1)) serves in
            absurd (
              cc (
                lost,
                ap (λ p. p.1)
                    (poll-scanned h small above ∙ ap (scanned h (min (h - c) (n + m - 1))) read),
              ))
      ]
    ]
