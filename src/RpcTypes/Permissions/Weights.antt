-- ===== src/RpcTypes/Permissions/Weights.antt =====
-- The weight of a list of signers.
use tronz.Prelude.{
  ℕ, ◌+◌, ◌*◌, ◌≤◌, ◌≡◌, inl, inr, refl, sym, ap, ◌∙◌, true, ◌||◌, Option, none, some, List, [],
  ◌∷◌, ◌++◌, length, bytes_eq_iff, if◌then◌else◌, arith, Bool-cases, Option-cases,
}
use tronz.Prelude.Int.{ℤ, pos, ◌+ℤ◌, leb_ℤ, wrap_i64, i64_max}
use tronz.Primitives.Address.{Address}
use tronz.RpcTypes.Permissions.{
  Permission, address_eq, among, weight_of, weigh, weight_of_all, is_satisfied_by,
}

-- The addresses of a list without repetitions, and without those that were seen.
unfoldable pub distinct : List Address → List Address → List Address
distinct seen [] = []
distinct seen (a ∷ more) =
    let later = distinct (a ∷ seen) more in
    let rest = distinct seen more in if among seen a then rest else a ∷ later

abbrev add_weight : (ℤ → ℤ) → ℤ → Option ℤ → ℤ
add_weight rest total none = rest total
add_weight rest total (some weight) = rest (wrap_i64 (total +ℤ weight))

-- The weights of all addresses of a list, whether they repeat or not.
pub total_weight : Permission → List Address → ℤ → ℤ
total_weight p [] total = total
total_weight p (a ∷ more) total = add_weight (total_weight p more) total (weight_of p a)

pub address_eq→≡ : (a b : Address) → address_eq a b ≡ true → a ≡ b
address_eq→≡ a b h = ap (λ bs. record { bytes = bs }) ((bytes_eq_iff a.bytes b.bytes).0 h)

pub address_eq_refl : (a : Address) → address_eq a a ≡ true
address_eq_refl a = (bytes_eq_iff a.bytes a.bytes).1 refl

-- The addresses that were counted are those seen that have a weight.
abbrev Related : Permission → List Address → List Address → Type 0
Related p counted seen =
    (b : Address)
    → ((w : ℤ) → weight_of p b ≡ some w → among counted b ≡ among seen b)
      × (among counted b ≡ true → among seen b ≡ true)

seen_without_weight :
    (p : Permission) (counted seen : List Address) (a : Address)
    → weight_of p a ≡ none
    → Related p counted seen
    → Related p counted (a ∷ seen)
unfolding among
seen_without_weight p counted seen a h related b = (
  λ w weighs. elim (Bool-cases (address_eq a b)) [
    | inl same ↦ absurd (cc (h, weighs, ap (weight_of p) (address_eq→≡ a b same)))
    | inr other ↦ rw other ((related b).0 w weighs)
  ],
  λ counts. elim (Bool-cases (address_eq a b)) [
    | inl same ↦ rw same refl
    | inr other ↦ rw other ((related b).1 counts)
  ],
)

counted_with_weight :
    (p : Permission) (counted seen : List Address) (a : Address)
    → Related p counted seen
    → Related p (a ∷ counted) (a ∷ seen)
unfolding among
counted_with_weight p counted seen a related b = (
  λ w weighs. ap (λ t. address_eq a b || t) ((related b).0 w weighs),
  λ counts. elim (Bool-cases (address_eq a b)) [
    | inl same ↦ rw same refl
    | inr other ↦ rw other ((related b).1 (rw other at counts))
  ],
)

weigh-distinct :
    (p : Permission) (ks counted seen : List Address) (total : ℤ)
    → Related p counted seen
    → weigh p ks counted total ≡ total_weight p (distinct seen ks) total
unfolding weigh distinct total_weight
weigh-distinct p [] counted seen total related = refl
weigh-distinct p (a ∷ ks) counted seen total related = elim (Bool-cases (among counted a)) [
  | inl old ↦ rw (old, (related a).1 old) (weigh-distinct p ks counted seen total related)
  | inr new ↦ elim (Option-cases (weight_of p a)) [
    | inl none_given ↦ elim (Bool-cases (among seen a)) [
      | inl known ↦ rw (new, known, none_given) (weigh-distinct p ks counted seen total related)
      | inr fresh ↦
          rw (new, fresh, none_given)
            (weigh-distinct p ks counted (a ∷ seen) total
              (seen_without_weight p counted seen a none_given related))
    ]
    | inr (w, weighs) ↦
        rw (new, sym ((related a).0 w weighs) ∙ new, weighs)
          (weigh-distinct p ks (a ∷ counted) (a ∷ seen) (wrap_i64 (total +ℤ w))
            (counted_with_weight p counted seen a related))
  ]
]

-- The weight of a list of signers is the sum of the weights of its distinct addresses: a repeated
-- address counts once, and one without authority counts nothing.
pub weight_of_all-distinct :
    (p : Permission) (ks : List Address)
    → weight_of_all p ks ≡ total_weight p (distinct [] ks) (pos 0)
unfolding weight_of_all
weight_of_all-distinct p ks = weigh-distinct p ks [] [] (pos 0) (λ b. (λ w h. refl, λ h. h))

-- Listing an address again changes nothing.
pub distinct-distinct :
    (ks seen : List Address) → distinct seen (distinct seen ks) ≡ distinct seen ks
unfolding distinct
distinct-distinct [] seen = refl
distinct-distinct (a ∷ ks) seen = elim (Bool-cases (among seen a)) [
  | inl old ↦ rw old (distinct-distinct ks seen)
  | inr new ↦ rw new (rw new (ap (λ t. a ∷ t) (distinct-distinct ks (a ∷ seen))))
]

-- Weights that are not negative and at most `most`.
abbrev pub Weighs : ℕ → Permission → Type 0
Weighs most p = (a : Address) (w : ℤ) → weight_of p a ≡ some w → (n : ℕ) × (w ≡ pos n) × (n ≤ most)

wrap-pos : (n : ℕ) → n ≤ i64_max → wrap_i64 (pos n) ≡ pos n
wrap-pos n h = ground arith

added : (t n : ℕ) → t + n ≤ i64_max → wrap_i64 (pos t +ℤ pos n) ≡ pos (t + n)
unfolding ◌+ℤ◌
added t n h = ap wrap_i64 {y = pos (t + n)} (ground arith) ∙ wrap-pos (t + n) h

weigh_step :
    (p : Permission) (most : ℕ) (a : Address) (counted : List Address) (t : ℕ)
    → Weighs most p
    → t + most ≤ i64_max
    → (counted' : List Address) × (t' : ℕ) × (t ≤ t')
      × (t' ≤ t + most)
      × ((ks : List Address) → weigh p (a ∷ ks) counted (pos t) ≡ weigh p ks counted' (pos t'))
unfolding weigh
weigh_step p most a counted t bounded fits = elim (Bool-cases (among counted a)) [
  | inl old ↦ (counted, t, omega arith, omega arith, λ ks. rw old refl)
  | inr new ↦ elim (Option-cases (weight_of p a)) [
    | inl none_given ↦ (counted, t, omega arith, omega arith, λ ks. rw (new, none_given) refl)
    | inr (w, weighs) ↦
        let (n, is_n, small) = bounded a w weighs in
        (
          a ∷ counted,
          t + n,
          omega arith,
          omega arith,
          λ ks.
              rw (new, weighs)
                (ap (weigh p ks (a ∷ counted))
                  (ap (λ v. wrap_i64 (pos t +ℤ v)) is_n ∙ added t n (omega arith))),
        )
  ]
]

weigh_up :
    (p : Permission) (most : ℕ) (ks counted : List Address) (t : ℕ)
    → Weighs most p
    → t + length ks * most ≤ i64_max
    → (r : ℕ) × (weigh p ks counted (pos t) ≡ pos r) × (t ≤ r)
unfolding weigh
weigh_up p most [] counted t bounded fits = (t, refl, omega arith)
weigh_up p most (a ∷ ks) counted t bounded fits =
    let (counted', t', low, high, step) = weigh_step p most a counted t bounded (ground arith) in
    let (r, result, up) = weigh_up p most ks counted' t' bounded (ground arith) in
    (r, step ks ∙ result, omega arith)

weigh-grows :
    (p : Permission) (most : ℕ) (ks more counted : List Address) (t : ℕ)
    → Weighs most p
    → t + length (ks ++ more) * most ≤ i64_max
    → (low : ℕ) × (high : ℕ) × (weigh p ks counted (pos t) ≡ pos low)
      × (weigh p (ks ++ more) counted (pos t) ≡ pos high)
      × (low ≤ high)
unfolding weigh
weigh-grows p most [] more counted t bounded fits =
    let (r, result, up) = weigh_up p most more counted t bounded fits in (t, r, refl, result, up)
weigh-grows p most (a ∷ ks) more counted t bounded fits =
    let (counted', t', low, high, step) = weigh_step p most a counted t bounded (ground arith) in
    let (l, h, first, all, le) = weigh-grows p most ks more counted' t' bounded (ground arith) in
    (l, h, step ks ∙ first, step (ks ++ more) ∙ all, le)

-- More signers never lose what fewer of them reach, if the weights are not negative and too small to
-- overflow.
pub is_satisfied_by-append :
    (p : Permission) (most : ℕ) (ks more : List Address)
    → Weighs most p
    → length (ks ++ more) * most ≤ i64_max
    → is_satisfied_by p ks ≡ true
    → is_satisfied_by p (ks ++ more) ≡ true
unfolding is_satisfied_by weight_of_all
is_satisfied_by-append p most ks more bounded fits reached =
    let (l, h, first, all, le) = weigh-grows p most ks more [] 0 bounded (omega arith) in
    ap (leb_ℤ p.threshold) all
    ∙ reaches p.threshold l h le (ap (leb_ℤ p.threshold) (sym first) ∙ reached)
  where
    reaches : (z : ℤ) (l h : ℕ) → l ≤ h → leb_ℤ z (pos l) ≡ true → leb_ℤ z (pos h) ≡ true
    reaches z l h le r = ground arith
