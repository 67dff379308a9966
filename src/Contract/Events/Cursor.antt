-- ===== src/Contract/Events/Cursor.antt =====
-- The blocks that a poll scans, and where it leaves the cursor.
use tronz.Prelude.{
  ℕ, zero, suc, ◌+◌, ◌-◌, ◌^◌, ◌<◌, ◌≤◌, ◌≡◌, inl, inr, refl, sym, ap, ◌∙◌, true, Option, none,
  some, List, [], ◌++◌, ok, bind_ok_then, ok-injective, min, arith, Bool-cases, if◌then◌else◌,
}
use tronz.Prelude.Int.{ℤ, pos, negsuc, pos_part, ◌+ℤ◌, ◌-ℤ◌, ltb_ℤ, leb_ℤ, wrap_i64, fits_i64}
use tronz.Primitives.Address.{Address}
use tronz.Contract.Events.{
  SolEvent, Provider, EventWatcher, query_block, query_blocks, query_range, poll_target,
  saturating_add, min_ℤ,
}

-- Heights and windows far below the bounds of an `i64`.
abbrev pub Small : ℕ → Type 0
Small n = n ≤ 2 ^ 60

pub record Stands (w : EventWatcher) (n c m : ℕ) : Type 0 where
  pub next : w.next_block ≡ pos n
  pub behind : w.confirmations ≡ pos c
  pub most : w.max_blocks ≡ pos m
  pub some_blocks : 1 ≤ m
  pub small : Small n × Small c × Small m

wrap_fits : (z : ℤ) → fits_i64 z ≡ true → wrap_i64 z ≡ z
wrap_fits (pos n) h = ground arith
wrap_fits (negsuc n) h = ground arith

wrap_sub : (a b : ℕ) → Small a → Small b → wrap_i64 (pos a -ℤ pos b) ≡ pos a -ℤ pos b
unfolding ◌-ℤ◌
wrap_sub a b ha hb = wrap_fits (pos a -ℤ pos b) (ground arith)

pub wrap_suc : (a : ℕ) → Small a → wrap_i64 (pos a +ℤ pos 1) ≡ pos (a + 1)
unfolding ◌+ℤ◌
wrap_suc a h = wrap_fits (pos a +ℤ pos 1) (ground arith) ∙ ground arith

next_pos : (a : ℕ) → pos a +ℤ pos 1 ≡ pos (a + 1)
unfolding ◌+ℤ◌
next_pos a = ground arith

sub_pos : (a b : ℕ) → b ≤ a → pos a -ℤ pos b ≡ pos (a - b)
unfolding ◌-ℤ◌
sub_pos a b h = ground arith

pub confirmed : (h c : ℕ) → Small h → Small c → c ≤ h → wrap_i64 (pos h -ℤ pos c) ≡ pos (h - c)
confirmed h c hh hc le = wrap_sub h c hh hc ∙ sub_pos h c le

pub target_none :
    (n c m h : ℕ)
    → Small h
    → Small c
    → h < n + c
    → poll_target (pos n) (wrap_i64 (pos h -ℤ pos c)) (pos m) ≡ none
unfolding poll_target ◌-ℤ◌
target_none n c m h hh hc low =
    ap (λ z. poll_target (pos n) z (pos m)) (wrap_sub h c hh hc) ∙ ground arith

pub target_some :
    (n c m h : ℕ)
    → Small n
    → Small h
    → Small c
    → Small m
    → 1 ≤ m
    → n + c ≤ h
    → poll_target (pos n) (wrap_i64 (pos h -ℤ pos c)) (pos m) ≡ some (pos (min (h - c) (n + m - 1)))
unfolding poll_target ◌+ℤ◌
target_some n c m h hn hh hc hm one low =
    ap (λ z. poll_target (pos n) z (pos m)) (wrap_sub h c hh hc ∙ sub_pos h c (omega arith))
    ∙ ap
        (λ z.
          if leb_ℤ (pos n) (pos (h - c))
          then some (min_ℤ (pos (h - c)) (saturating_add (pos n) z))
          else none)
        (wrap_sub m 1 hm (omega arith) ∙ sub_pos m 1 one)
    ∙ ground arith

module _ (e : SolEvent) (address : Option Address) where
  -- The events of `count` blocks from `block` on.
  abbrev pub window : (ℕ → List e.Event) → ℕ → ℕ → List e.Event
  window chain block zero = []
  window chain block (suc count) = chain block ++ window chain (block + 1) count

  -- Whenever the provider answers for a block, it answers with the events of the chain.
  abbrev pub Honest : (ℕ → List e.Event) → Provider → Type 0
  Honest chain provider =
      (n : ℕ) (events : List e.Event)
      → query_block e address provider (pos n) ≡ ok events
      → events ≡ chain n

  query_blocks-window :
      (chain : ℕ → List e.Event) (provider : Provider) (n count : ℕ) (events : List e.Event)
      → Honest chain provider
      → query_blocks e address provider (pos n) count ≡ ok events
      → events ≡ window chain n count
  unfolding query_blocks
  query_blocks-window chain provider n zero events honest h = sym (ok-injective h)
  query_blocks-window chain provider n (suc count) events honest h =
      bind_ok_then (query_block e address provider (pos n)) _ h λ first asked h1.
        bind_ok_then (query_blocks e address provider (pos n +ℤ pos 1) count) _ h1 λ rest more h2.
          sym (ok-injective h2)
          ∙ ap (λ t. t ++ rest) (honest n first asked)
          ∙ ap (λ t. chain n ++ t)
              (query_blocks-window chain provider (n + 1) count rest honest
                (ap (λ z. query_blocks e address provider z count) (sym (next_pos n)) ∙ more))

  pub query_range-window :
      (chain : ℕ → List e.Event) (provider : Provider) (n t : ℕ) (events : List e.Event)
      → n ≤ t
      → Honest chain provider
      → query_range e address provider (pos n) (pos t) ≡ ok events
      → events ≡ window chain n (t + 1 - n)
  unfolding query_range ◌-ℤ◌
  query_range-window chain provider n t events le honest h =
      query_blocks-window chain provider n (t + 1 - n) events honest
        (ap (query_blocks e address provider (pos n)) (ground arith) ∙ in_order ∙ h)
    where
      in_order :
          query_blocks e address provider (pos n) (pos_part (pos t -ℤ pos n) + 1)
          ≡ query_range e address provider (pos n) (pos t)
      in_order = ground arith

  -- A provider that answers for every block.
  abbrev pub Serves : Provider → Type 0
  Serves provider =
      (n : ℕ) → (events : List e.Event) × (query_block e address provider (pos n) ≡ ok events)

  query_blocks_answers :
      (provider : Provider) (n count : ℕ)
      → Serves provider
      → (events : List e.Event) × (query_blocks e address provider (pos n) count ≡ ok events)
  unfolding query_blocks
  query_blocks_answers provider n zero serves = ([], refl)
  query_blocks_answers provider n (suc count) serves =
      let (first, asked) = serves n in
      let (rest, more) = query_blocks_answers provider (n + 1) count serves in
      (first ++ rest, rw (asked, next_pos n, more) refl)

  pub query_range_answers :
      (provider : Provider) (n t : ℕ)
      → Serves provider
      → (events : List e.Event) × (query_range e address provider (pos n) (pos t) ≡ ok events)
  unfolding query_range
  query_range_answers provider n t serves = elim (Bool-cases (ltb_ℤ (pos t) (pos n))) [
    | inl none_left ↦ ([], rw none_left refl)
    | inr some_left ↦
        let (events, asked) =
          query_blocks_answers provider n (pos_part (pos t -ℤ pos n) + 1) serves in
        (events, rw some_left asked)
  ]
