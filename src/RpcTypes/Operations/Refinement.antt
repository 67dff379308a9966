-- ===== src/RpcTypes/Operations/Refinement.antt =====
-- The operations on a set of contract kinds, as operations on the set of their ids.
use Prim.Native.Nat.{bit_and}
use tronz.Prelude.{
  ℕ, zero, suc, ◌-◌, ◌<◌, ◌≡◌, refl, sym, ap, ◌∙◌, subst, Bool, true, false, not, ◌||◌, ◌&&◌, none,
  some, List, [], ◌∷◌, get_elem?, replicate, All, ok, ◌==◌, arith, Bool-cases, inl, inr, ◌⊎◌,
  lt→ltb, Result-cases, ◌/◌, bind_ok_then, ok-injective, Option-cases,
}
use tronz.Prelude.Int.{ℤ, pos, negsuc, eqb_ℤ}
use tronz.Prelude.Bits.{zero-bit_and}
use tronz.RpcTypes.Kind.{ContractKind, id}
use tronz.RpcTypes.Operations.{
  OperationSet, IsOperationSet, mask, contains_at, contains, has_bit, insert, insert_at, remove,
  remove_at, to_usize, put_byte, insert_all, try_from_iter, empty, remove_byte,
}
use tronz.RpcTypes.Operations.Sets.{
  member, with_bit, without_bit, with_bit-member, without_bit-member, bits-IsOperationSet,
  insert_at-with_bit, get_elem?-in, replicate-All,
}

abbrev pub same_id : ContractKind → ContractKind → Bool
same_id j k = eqb_ℤ (id j) (id k)

abbrev granted : OperationSet → ℤ → Bool
granted s i = contains_at s (to_usize i)

with_bit-granted :
    (s : OperationSet) (n : ℕ) (i : ℤ)
    → IsOperationSet s
    → n < 256
    → granted (with_bit s n) i ≡ (eqb_ℤ i (pos n) || granted s i)
with_bit-granted s n (pos m) good h =
    with_bit-member s n m good h ∙ ap (λ t. t || member s m) (ground arith)
with_bit-granted s n (negsuc m) good h = ground arith

without_bit-granted :
    (s : OperationSet) (n : ℕ) (i : ℤ)
    → IsOperationSet s
    → n < 256
    → granted (without_bit s n) i ≡ (not (eqb_ℤ i (pos n)) && granted s i)
without_bit-granted s n (pos m) good h =
    without_bit-member s n m good h ∙ ap (λ t. not t && member s m) (ground arith)
without_bit-granted s n (negsuc m) good h = ground arith

-- Inserting a kind adds its id to the set and nothing else, and tells whether it was new.
pub insert-adds :
    (s s' : OperationSet) (k : ContractKind) (inserted : Bool)
    → IsOperationSet s
    → insert s k ≡ ok (inserted, s')
    → IsOperationSet s'
      × (inserted ≡ not (contains s k))
      × ((j : ContractKind) → contains s' j ≡ (same_id j k || contains s j))
unfolding insert contains
insert-adds s s' k inserted good h =
    let (n, e, small, now, new) = insert_at-with_bit s s' (id k) inserted good h in
    (
      subst IsOperationSet (sym now) (bits-IsOperationSet s n good).0,
      new ∙ ap (λ i. not (granted s i)) (sym e),
      λ j.
          ap (λ t. granted t (id j)) now
          ∙ with_bit-granted s n (id j) good small
          ∙ ap (λ i. eqb_ℤ (id j) i || granted s (id j)) (sym e),
    )

abbrev Dropped : OperationSet → ℤ → Bool × OperationSet → Type 0
Dropped s i r =
    IsOperationSet r.1
    × (r.0 ≡ granted s i)
    × ((j : ℤ) → granted r.1 j ≡ (not (eqb_ℤ j i) && granted s j))

eqb_eq : (i j : ℤ) → eqb_ℤ i j ≡ true → i ≡ j
eqb_eq i j h = ground arith

kept : (s : OperationSet) (i : ℤ) → IsOperationSet s → granted s i ≡ false → Dropped s i (false, s)
kept s i good absent = (
  good,
  sym absent,
  λ j. elim (Bool-cases (eqb_ℤ j i)) [
    | inl same ↦ rw same (ap (granted s) (eqb_eq j i same) ∙ absent)
    | inr other ↦ rw other refl
  ],
)

remove_at-Dropped :
    (s : OperationSet) (i : ℤ) → IsOperationSet s → Dropped s i (remove_at s (to_usize i))
remove_at-Dropped s (negsuc n) good = kept s (negsuc n) good refl
remove_at-Dropped s (pos n) good = elim (Option-cases (get_elem? s.bitmap (n / 8))) [
  | inl none_there ↦
      subst (Dropped s (pos n)) (ap (remove_byte s n) (sym none_there))
        (kept s (pos n) good (ap (λ o. has_bit o (mask n)) none_there))
  | inr (byte, there) ↦
      let (inside, value) = get_elem?-in s.bitmap (n / 8) byte there in
      let small : n < 256 = omega (arith, good.0) in
      subst (Dropped s (pos n)) (ap (remove_byte s n) (sym there)) (
        subst (λ b. IsOperationSet (put_byte s n (bit_and b (255 - mask n)))) (sym value)
            (bits-IsOperationSet s n good).1,
        ap (λ o. has_bit o (mask n)) (sym there),
        λ j.
            ap (λ b. granted (put_byte s n (bit_and b (255 - mask n))) j) value
            ∙ without_bit-granted s n j good small,
      )
]

-- Removing a kind takes its id out of the set and nothing else, and tells whether it was there.
pub remove-drops :
    (s : OperationSet) (k : ContractKind)
    → IsOperationSet s
    → IsOperationSet (remove s k).1
      × ((remove s k).0 ≡ contains s k)
      × ((j : ContractKind) → contains (remove s k).1 j ≡ (not (same_id j k) && contains s j))
unfolding remove contains
remove-drops s k good =
    let (good', there, rest) = remove_at-Dropped s (id k) good in (good', there, λ j. rest (id j))

abbrev pub any_same : List ContractKind → ContractKind → Bool
any_same [] j = false
any_same (k ∷ ks) j = same_id j k || any_same ks j

insert_all-adds :
    (ks : List ContractKind) (s s' : OperationSet)
    → IsOperationSet s
    → insert_all ks s ≡ ok s'
    → IsOperationSet s' × ((j : ContractKind) → contains s' j ≡ (any_same ks j || contains s j))
unfolding insert_all
insert_all-adds [] s s' good h =
    let same : s ≡ s' = ok-injective h in
    (subst IsOperationSet same good, λ j. ap (λ t. contains t j) (sym same))
insert_all-adds (k ∷ ks) s s' good h = bind_ok_then (insert s k) _ h λ (inserted, s1) first h1.
    let (good1, _, now) = insert-adds s s1 k inserted good first in
    let (good', rest) = insert_all-adds ks s1 s' good1 h1 in
    (good', λ j. rest j ∙ ap (λ t. any_same ks j || t) (now j) ∙ ground arith)

zeros :
    (n i : ℕ)
    → (get_elem? {A = ℕ} (replicate n 0) i ≡ none) ⊎ (get_elem? {A = ℕ} (replicate n 0) i ≡ some 0)
zeros zero i = inl refl
zeros (suc n) zero = inr refl
zeros (suc n) (suc i) = zeros n i

empty-granted : (i : ℤ) → granted empty i ≡ false
empty-granted (negsuc n) = refl
empty-granted (pos n) = elim (zeros 32 (n / 8)) [
  | inl e ↦ ap (λ o. has_bit o (mask n)) e
  | inr e ↦ ap (λ o. has_bit o (mask n)) e ∙ ap (λ b. not (b == 0)) (zero-bit_and (mask n))
]

-- A set that is built from kinds grants exactly the ids of these kinds.
pub try_from_iter-contains :
    (ks : List ContractKind) (s : OperationSet)
    → try_from_iter ks ≡ ok s
    → IsOperationSet s × ((j : ContractKind) → contains s j ≡ any_same ks j)
unfolding try_from_iter contains
try_from_iter-contains ks s h =
    let (good, all) =
      insert_all-adds ks empty s (refl, replicate-All (λ b. b < 256) 32 0 (omega arith)) h in
    (good, λ j. all j ∙ ap (λ t. any_same ks j || t) (empty-granted (id j)) ∙ ground arith)

-- The kinds that fit into the bitmap.
abbrev pub InRange : ContractKind → Type 0
InRange k = (n : ℕ) × (id k ≡ pos n) × (n < 256)

insert_fits :
    (s : OperationSet) (k : ContractKind)
    → InRange k
    → (r : Bool × OperationSet) × (insert s k ≡ ok r)
unfolding insert
insert_fits s k (n, e, small) =
    let at = ap (λ i. insert_at s i (to_usize i)) e in
    elim (Result-cases (insert_at s (pos n) (some n))) [
      | inl (r, done) ↦ (r, at ∙ done)
      | inr (x, failed) ↦ absurd (ground (arith, lt→ltb n 256 small))
    ]

pub insert_all_fits :
    (ks : List ContractKind) (s : OperationSet)
    → All InRange ks
    → (s' : OperationSet) × (insert_all ks s ≡ ok s')
unfolding insert_all
insert_all_fits [] s h = (s, refl)
insert_all_fits (k ∷ ks) s (h, hs) =
    let (r, done) = insert_fits s k h in
    let (s', rest) = insert_all_fits ks r.1 hs in (s', rw done rest)
