-- ===== src/RpcTypes/Operations/Sets.antt =====
-- An operation set against the set of ids that it stands for.
use Prim.Native.Nat.{bit_and, bit_or}
use tronz.Prelude.{
  ℕ, zero, suc, ◌-◌, ◌/◌, ◌%◌, ◌<◌, ◌≤◌, ◌≡◌, ◌≢◌, refl, sym, ap, ◌∙◌, Bool, false, not, ◌||◌, ◌&&◌,
  some, [], ◌∷◌, Bytes, length, get_elem?, get_or, replicate, All, ok, ==_iff, ◌==◌, arith,
  Bool-cases, inl, inr, ltb, some-injective, Option-cases, ok-injective,
}
use tronz.Prelude.Int.{ℤ, pos, negsuc}
use tronz.RpcTypes.Operations.{
  OperationSet, IsOperationSet, has, mask, set_at, put_byte, contains_at, has_bit, insert_at,
  to_usize,
}
use tronz.RpcTypes.Operations.Bitmap.{has-bit_or, has-bit_and, byte_stays}

get_elem?-set_at-same :
    (i byte : ℕ) (bs : Bytes) → i < length bs → get_elem? (set_at i byte bs) i ≡ some byte
unfolding set_at
get_elem?-set_at-same i byte [] h = absurd (omega arith)
get_elem?-set_at-same zero byte (b ∷ bs) h = refl
get_elem?-set_at-same (suc i) byte (b ∷ bs) h = get_elem?-set_at-same i byte bs (omega arith)

get_elem?-set_at-other :
    (i j byte : ℕ) (bs : Bytes) → j ≢ i → get_elem? (set_at i byte bs) j ≡ get_elem? bs j
unfolding set_at
get_elem?-set_at-other i j byte [] h = refl
get_elem?-set_at-other zero zero byte (b ∷ bs) h = absurd (h refl)
get_elem?-set_at-other zero (suc j) byte (b ∷ bs) h = refl
get_elem?-set_at-other (suc i) zero byte (b ∷ bs) h = refl
get_elem?-set_at-other (suc i) (suc j) byte (b ∷ bs) h =
    get_elem?-set_at-other i j byte bs (λ e. h (ap suc e))

length-set_at : (i byte : ℕ) (bs : Bytes) → length (set_at i byte bs) ≡ length bs
unfolding set_at
length-set_at i byte [] = refl
length-set_at zero byte (b ∷ bs) = refl
length-set_at (suc i) byte (b ∷ bs) = ap suc (length-set_at i byte bs)

set_at-All :
    (i byte : ℕ) (bs : Bytes)
    → byte < 256
    → All (λ b. b < 256) bs
    → All (λ b. b < 256) (set_at i byte bs)
unfolding set_at
set_at-All i byte [] h all = all
set_at-All zero byte (b ∷ bs) h (hb, all) = (h, all)
set_at-All (suc i) byte (b ∷ bs) h (hb, all) = (hb, set_at-All i byte bs h all)

get_elem?-get_or : (bs : Bytes) (i : ℕ) → i < length bs → get_elem? bs i ≡ some (get_or bs i 0)
get_elem?-get_or [] i h = absurd (omega arith)
get_elem?-get_or (b ∷ bs) zero h = refl
get_elem?-get_or (b ∷ bs) (suc i) h = get_elem?-get_or bs i (omega arith)

get_or-small : (bs : Bytes) (i : ℕ) → All (λ b. b < 256) bs → get_or bs i 0 < 256
get_or-small [] i h = omega arith
get_or-small (b ∷ bs) zero (hb, h) = hb
get_or-small (b ∷ bs) (suc i) (hb, h) = get_or-small bs i h

-- Whether the bit of an id is set.
abbrev pub member : OperationSet → ℕ → Bool
member s n = contains_at s (some n)

abbrev byte_of : OperationSet → ℕ → ℕ
byte_of s n = get_or s.bitmap (n / 8) 0

-- A byte that is written where an id stands is read back, and only there.
put_byte-member :
    (s : OperationSet) (n m byte : ℕ)
    → IsOperationSet s
    → n < 256
    → (m / 8 ≡ n / 8 → member (put_byte s n byte) m ≡ has byte (mask m))
      × (m / 8 ≢ n / 8 → member (put_byte s n byte) m ≡ member s m)
put_byte-member s n m byte (len, small) h = (
  λ e.
      ap (λ o. has_bit o (mask m))
        (ap (get_elem? (set_at (n / 8) byte s.bitmap)) e
          ∙ get_elem?-set_at-same (n / 8) byte s.bitmap (omega arith)),
  λ d. ap (λ o. has_bit o (mask m)) (get_elem?-set_at-other (n / 8) (m / 8) byte s.bitmap d),
)

put_byte-IsOperationSet :
    (s : OperationSet) (n byte : ℕ)
    → byte < 256
    → IsOperationSet s
    → IsOperationSet (put_byte s n byte)
put_byte-IsOperationSet s n byte h (len, small) =
    (length-set_at (n / 8) byte s.bitmap ∙ len, set_at-All (n / 8) byte s.bitmap h small)

pub member-has :
    (s : OperationSet) (n : ℕ)
    → IsOperationSet s
    → n < 256
    → member s n ≡ has (byte_of s n) (mask n)
member-has s n (len, small) h =
    ap (λ o. has_bit o (mask n)) (get_elem?-get_or s.bitmap (n / 8) (omega arith))

abbrev pub with_bit : OperationSet → ℕ → OperationSet
with_bit s n = put_byte s n (bit_or (byte_of s n) (mask n))

abbrev pub without_bit : OperationSet → ℕ → OperationSet
without_bit s n = put_byte s n (bit_and (byte_of s n) (255 - mask n))

same_place : (m n : ℕ) → m / 8 ≡ n / 8 → (m % 8 == n % 8) ≡ (m == n)
same_place m n e = ground arith

-- A byte that is written in the place of one id changes the membership of this place only.
rewritten :
    (s : OperationSet) (n m byte : ℕ) (also : Bool → Bool → Bool)
    → IsOperationSet s
    → n < 256
    → has byte (mask m) ≡ also (m % 8 == n % 8) (has (byte_of s n) (mask m))
    → ((b : Bool) → also false b ≡ b)
    → member (put_byte s n byte) m ≡ also (m == n) (member s m)
rewritten s n m byte also good h step keeps = elim (Bool-cases (m / 8 == n / 8)) [
  | inl same ↦
      let e : m / 8 ≡ n / 8 = (==_iff _ _).0 same in
      (put_byte-member s n m byte good h).0 e
      ∙ step
      ∙ ap (λ t. also t (has (byte_of s n) (mask m))) (same_place m n e)
      ∙ ap (also (m == n)) (
          ap (λ i. has (get_or s.bitmap i 0) (mask m)) (sym e)
          ∙ sym (member-has s m good (omega arith)))
  | inr differ ↦
      (put_byte-member s n m byte good h).1 (λ e. ground arith)
      ∙ sym (keeps (member s m))
      ∙ ap (λ t. also t (member s m)) (ground arith)
]

pub with_bit-member :
    (s : OperationSet) (n m : ℕ)
    → IsOperationSet s
    → n < 256
    → member (with_bit s n) m ≡ (m == n || member s m)
with_bit-member s n m good h =
    rewritten s n m _ (λ a b. a || b) good h
      (has-bit_or (byte_of s n) n m (get_or-small s.bitmap (n / 8) (good.1))) (λ b. refl)

pub without_bit-member :
    (s : OperationSet) (n m : ℕ)
    → IsOperationSet s
    → n < 256
    → member (without_bit s n) m ≡ (not (m == n) && member s m)
without_bit-member s n m good h =
    rewritten s n m _ (λ a b. not a && b) good h
      (has-bit_and (byte_of s n) n m (get_or-small s.bitmap (n / 8) (good.1))) (λ b. refl)

pub bits-IsOperationSet :
    (s : OperationSet) (n : ℕ)
    → IsOperationSet s
    → IsOperationSet (with_bit s n) × IsOperationSet (without_bit s n)
bits-IsOperationSet s n good =
    let (set, cleared) = byte_stays (byte_of s n) n (get_or-small s.bitmap (n / 8) (good.1)) in
    (put_byte-IsOperationSet s n _ set good, put_byte-IsOperationSet s n _ cleared good)

pub insert_at-with_bit :
    (s s' : OperationSet) (i : ℤ) (inserted : Bool)
    → IsOperationSet s
    → insert_at s i (to_usize i) ≡ ok (inserted, s')
    → (n : ℕ) × (i ≡ pos n) × (n < 256) × (s' ≡ with_bit s n) × (inserted ≡ not (member s n))
insert_at-with_bit s s' (negsuc n) inserted good h = cc
insert_at-with_bit s s' (pos n) inserted good h = elim (Bool-cases (ltb n 256)) [
  | inl small ↦
      let bit : n < 256 = ground arith in
      let done = ok-injective (sym h ∙ rw small refl) in
      (
        n,
        refl,
        bit,
        ap (λ p. p.1) done,
        ap (λ p. p.0) done ∙ ap not (sym (member-has s n good bit)),
      )
  | inr big ↦ absurd (ground arith)
]

pub get_elem?-in :
    (bs : Bytes) (i byte : ℕ)
    → get_elem? bs i ≡ some byte
    → (i < length bs) × (byte ≡ get_or bs i 0)
get_elem?-in [] i byte h = cc
get_elem?-in (b ∷ bs) zero byte h = (omega arith, sym (some-injective h))
get_elem?-in (b ∷ bs) (suc i) byte h =
    let (inside, value) = get_elem?-in bs i byte h in (omega arith, value)

pub replicate-All : (P : ℕ → Type 0) (n a : ℕ) → P a → All P (replicate n a)
replicate-All P zero a h = tt
replicate-All P (suc n) a h = (h, replicate-All P n a h)

pub member-outside : (s : OperationSet) (n : ℕ) → IsOperationSet s → 256 ≤ n → member s n ≡ false
member-outside s n (len, small) h = elim (Option-cases (get_elem? s.bitmap (n / 8))) [
  | inl out ↦ ap (λ o. has_bit o (mask n)) out
  | inr (byte, there) ↦ absurd (omega (arith, (get_elem?-in s.bitmap (n / 8) byte there).0, len))
]
