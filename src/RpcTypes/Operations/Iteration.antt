-- ===== src/RpcTypes/Operations/Iteration.antt =====
-- What the iterator of an operation set yields.
use tronz.Prelude.{
  ℕ, zero, suc, ◌+◌, ◌/◌, ◌<◌, ◌≤◌, ◌≡◌, ◌⊎◌, refl, sym, ap, ◌∙◌, Bool, false, ◌||◌, ◌&&◌, none,
  some, List, [], ◌∷◌, map, get_or, All, ok, ◌==◌, if◌then◌else◌, arith, Bool-cases, inl, inr, leb,
  ltb, ==_iff,
}
use tronz.Prelude.Int.{ℤ, pos, negsuc, eqb_ℤ}
use tronz.RpcTypes.Kind.{ContractKind, id, from_i32}
use tronz.RpcTypes.Kind.Ids.{id-from_i32}
use tronz.RpcTypes.Operations.{
  OperationSet, IsOperationSet, has, mask, contains, to_usize, try_from_iter, next_loop, next,
  collect, and_collect, iter, contains_at, empty,
}
use tronz.RpcTypes.Operations.Sets.{member-has, member-outside}
use tronz.RpcTypes.Operations.Refinement.{
  same_id, any_same, try_from_iter-contains, insert_all_fits, InRange,
}

abbrev bit : OperationSet → ℕ → Bool
bit s n = has (get_or s.bitmap (n / 8) 0) (mask n)

-- The ids of a set, in order, of the `left` from `n` on.
abbrev pub members : ℕ → OperationSet → ℕ → List ℕ
members zero s n = []
members (suc left) s n =
    let rest = members left s (n + 1) in
    if has (get_or s.bitmap (n / 8) 0) (mask n) then n ∷ rest else rest

abbrev Found : ℕ → OperationSet → ℕ → Type 0
Found left s n =
    (m : ℕ) × (after : ℕ) × (n ≤ m)
    × (m + 1 + after ≡ n + left)
    × (next_loop left s n ≡ some (from_i32 (pos m), m + 1))
    × (members left s n ≡ m ∷ members after s (m + 1))

next_loop-members :
    (left : ℕ) (s : OperationSet) (n : ℕ)
    → ((next_loop left s n ≡ none) × (members left s n ≡ [])) ⊎ Found left s n
unfolding next_loop
next_loop-members zero s n = inl (refl, refl)
next_loop-members (suc left) s n = elim (Bool-cases (bit s n)) [
  | inl set ↦ inr (n, left, omega arith, omega arith, rw set refl, rw set refl)
  | inr clear ↦ elim (next_loop-members left s (n + 1)) [
    | inl (stop, none_left) ↦ inl (rw clear stop, rw clear none_left)
    | inr (m, after, low, place, yields, rest) ↦
        inr (m, after, omega arith, omega arith, rw clear yields, rw clear rest)
  ]
]

next-next_loop : (s : OperationSet) (n left : ℕ) → n + left ≡ 256 → next s n ≡ next_loop left s n
unfolding next
next-next_loop s n left h = ap (λ (k : ℕ). next_loop k s n) (omega arith)

collect-members :
    (fuel : ℕ) (s : OperationSet) (n left : ℕ)
    → n + left ≡ 256
    → left < fuel
    → map id (collect fuel s n) ≡ map pos (members left s n)
unfolding collect
collect-members zero s n left h e = absurd (omega arith)
collect-members (suc fuel) s n left h e = elim (next_loop-members left s n) [
  | inl (stop, none_left) ↦
      ap (λ o. map id (and_collect o (collect fuel s))) (next-next_loop s n left h ∙ stop)
      ∙ ap (map pos) (sym none_left)
  | inr (m, after, low, place, yields, rest) ↦
      ap (λ o. map id (and_collect o (collect fuel s))) (next-next_loop s n left h ∙ yields)
      ∙ rw (id-from_i32 (pos m), collect-members fuel s (m + 1) after (omega arith) (omega arith))
          (ap (map pos) (sym rest))
]

-- Iterating yields kinds with exactly the ids of the set, in increasing order.
pub iter-members : (s : OperationSet) → map id (iter s) ≡ map pos (members 256 s 0)
unfolding iter
iter-members s = collect-members 257 s 0 256 refl (omega arith)

abbrev any_id : List ℤ → ℤ → Bool
any_id [] j = false
any_id (i ∷ is) j = eqb_ℤ j i || any_id is j

any_same-map :
    (ks : List ContractKind) (j : ContractKind) → any_same ks j ≡ any_id (map id ks) (id j)
any_same-map [] j = refl
any_same-map (k ∷ ks) j = ap (λ t. same_id j k || t) (any_same-map ks j)

any_id-members :
    (left : ℕ) (s : OperationSet) (n m : ℕ)
    → any_id (map pos (members left s n)) (pos m) ≡ (leb n m && ltb m (n + left) && bit s m)
any_id-members zero s n m = ground arith
any_id-members (suc left) s n m = elim (Bool-cases (bit s n)) [
  | inl set ↦ rw set (
      ap (λ t. m + 0 == n + 0 || t) (any_id-members left s (n + 1) m) ∙ elim (Bool-cases (m == n)) [
        | inl here ↦ ground (arith, ap (bit s) ((==_iff m n).0 here) ∙ set)
        | inr there ↦ ground arith
      ])
  | inr clear ↦ rw clear (
      any_id-members left s (n + 1) m ∙ elim (Bool-cases (m == n)) [
        | inl here ↦ ground (arith, ap (bit s) ((==_iff m n).0 here) ∙ clear)
        | inr there ↦ ground arith
      ])
]

any_id-negative : (ns : List ℕ) (m : ℕ) → any_id (map pos ns) (negsuc m) ≡ false
any_id-negative [] m = refl
any_id-negative (n ∷ ns) m = ground (arith, any_id-negative ns m)

any_id-contains :
    (s : OperationSet) (i : ℤ)
    → IsOperationSet s
    → any_id (map pos (members 256 s 0)) i ≡ contains_at s (to_usize i)
any_id-contains s (negsuc m) good = any_id-negative (members 256 s 0) m
any_id-contains s (pos m) good = elim (Bool-cases (ltb m 256)) [
  | inl small ↦ any_id-members 256 s 0 m ∙ ground arith ∙ sym (member-has s m good (ground arith))
  | inr big ↦ any_id-members 256 s 0 m ∙ ground arith ∙ sym (member-outside s m good (ground arith))
]

-- A kind is yielded, by its id, exactly if it is granted.
pub iter-contains :
    (s : OperationSet) (j : ContractKind) → IsOperationSet s → any_same (iter s) j ≡ contains s j
unfolding contains
iter-contains s j good =
    any_same-map (iter s) j
    ∙ ap (λ is. any_id is (id j)) (iter-members s)
    ∙ any_id-contains s (id j) good

members-All :
    (left : ℕ) (s : OperationSet) (n : ℕ) → n + left ≡ 256 → All (λ m. m < 256) (members left s n)
members-All zero s n h = tt
members-All (suc left) s n h = elim (Bool-cases (bit s n)) [
  | inl set ↦ rw set (omega arith, members-All left s (n + 1) (omega arith))
  | inr clear ↦ rw clear (members-All left s (n + 1) (omega arith))
]

head_eq : {A : Type 0} {x y : A} {xs ys : List A} → ◌≡◌ {A = List A} (x ∷ xs) (y ∷ ys) → x ≡ y
head_eq h = cc

tail_eq : {A : Type 0} {x y : A} {xs ys : List A} → ◌≡◌ {A = List A} (x ∷ xs) (y ∷ ys) → xs ≡ ys
tail_eq h = cc

kinds_fit :
    (ks : List ContractKind) (ns : List ℕ)
    → map id ks ≡ map pos ns
    → All (λ m. m < 256) ns
    → All InRange ks
kinds_fit [] ns h small = tt
kinds_fit (k ∷ ks) [] h small = cc
kinds_fit (k ∷ ks) (n ∷ ns) h (first, rest) =
    ((n, head_eq h, first), kinds_fit ks ns (tail_eq h) rest)

-- A set is rebuilt from what its iterator yields: this succeeds, and grants the same kinds.
pub try_from_iter-iter :
    (s : OperationSet)
    → IsOperationSet s
    → (s' : OperationSet) × (try_from_iter (iter s) ≡ ok s')
      × ((j : ContractKind) → contains s' j ≡ contains s j)
unfolding try_from_iter
try_from_iter-iter s good =
    let small = kinds_fit (iter s) (members 256 s 0) (iter-members s) (members-All 256 s 0 refl) in
    let (s', built) = insert_all_fits (iter s) empty small in
    (s', built, λ j. (try_from_iter-contains (iter s) s' built).1 j ∙ iter-contains s j good)
