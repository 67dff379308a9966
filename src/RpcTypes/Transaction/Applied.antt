-- ===== src/RpcTypes/Transaction/Applied.antt =====
-- crates/rpc-types/src/types/transaction.rs, `apply_request_fields`: what a request changes of the raw data
-- that a node built.
use tronz.Prelude.{
  ◌≡◌, refl, sym, ap, ◌∙◌, subst, true, false, Option, none, some, List, [], ◌∷◌, map, ok,
  bind_ok_then, ok-injective, arith,
}
use tronz.Prelude.Int.{ℤ, pos}
use tronz.RpcTypes.Transaction.{
  ProtoRaw, ProtoContract, TransactionRequest, overridden, set_permission, nothing_to_apply, given,
  or_keep,
}

-- A contract but for its permission.
abbrev pub content : ProtoContract → ProtoContract
content c = record c { permission_id = pos 0 }

-- A field is what the request names, and otherwise what it was.
abbrev pub Names : {A B : Type 0} → (A → B) → Option A → B → B → Type 0
Names f none old new = new ≡ old
Names f (some a) old new = new ≡ f a

-- The permission that a request names is that of the first contract; everything else of the contracts stays.
abbrev pub NamesPermission : Option ℤ → List ProtoContract → List ProtoContract → Type 0
NamesPermission none old new = new ≡ old
NamesPermission (some id) old new =
    (c : ProtoContract) × (more : List ProtoContract) × (old ≡ c ∷ more)
    × (new ≡ record c { permission_id = id } ∷ more)

-- The raw data is as before but for the fields that the request names, which are the request's.
pub record Applied (req : TransactionRequest) (old new : ProtoRaw) : Type 0 where
  pub fee_limit : Names (λ t. t.sun) req.fee_limit old.fee_limit new.fee_limit
  pub memo : Names (λ m. m) req.memo old.memo new.memo
  pub permission : NamesPermission req.permission_id old.contract new.contract
  pub ref_block_bytes : Names (λ b. b) req.ref_block_bytes old.ref_block_bytes new.ref_block_bytes
  pub ref_block_hash : Names (λ b. b) req.ref_block_hash old.ref_block_hash new.ref_block_hash
  pub timestamp : Names (λ v. v) req.timestamp old.timestamp new.timestamp
  pub expiration : Names (λ v. v) req.expiration old.expiration new.expiration
  pub rest : new.rest ≡ old.rest

NamesPermission-content :
    (o : Option ℤ) (old new : List ProtoContract)
    → NamesPermission o old new
    → map content new ≡ map content old
NamesPermission-content none old new h = ap (map content) h
NamesPermission-content (some id) old new (c, more, was, is) =
    ap (map content) is ∙ sym (ap (map content) was)

-- Whatever a request names, its contracts stay what they were but for a permission.
pub Applied-content :
    (req : TransactionRequest) (old new : ProtoRaw)
    → Applied req old new
    → map content new.contract ≡ map content old.contract
Applied-content req old new a =
    NamesPermission-content req.permission_id old.contract new.contract a.permission

or_keep-Names :
    {A B : Type 0} (f : A → B) (o : Option A) (old : B) → Names f o old (or_keep o f old)
or_keep-Names f none old = refl
or_keep-Names f (some a) old = refl

not_given-Names :
    {A B : Type 0} (f : A → B) (o : Option A) (old : B) → given o ≡ false → Names f o old old
not_given-Names f none old h = refl
not_given-Names f (some a) old h = cc

not_given-NamesPermission :
    (o : Option ℤ) (cs : List ProtoContract) → given o ≡ false → NamesPermission o cs cs
not_given-NamesPermission none cs h = refl
not_given-NamesPermission (some id) cs h = cc

set_permission-NamesPermission :
    (o : Option ℤ) (cs cs' : List ProtoContract)
    → set_permission o cs ≡ ok cs'
    → NamesPermission o cs cs'
unfolding set_permission
set_permission-NamesPermission none cs cs' h = sym (ok-injective h)
set_permission-NamesPermission (some id) [] cs' h = cc
set_permission-NamesPermission (some id) (c ∷ cs) cs' h = (c, cs, refl, sym (ok-injective h))

pub overridden-Applied :
    (req : TransactionRequest) (d d' : ProtoRaw) → overridden req d ≡ ok d' → Applied req d d'
unfolding overridden
overridden-Applied req d d' h =
    bind_ok_then (set_permission req.permission_id d.contract) _ h λ cs set h1.
      subst (λ r. Applied req d r) (ok-injective h1)
        (record {
          fee_limit = or_keep-Names (λ t. t.sun) req.fee_limit d.fee_limit;
          memo = or_keep-Names (λ m. m) req.memo d.memo;
          permission = set_permission-NamesPermission req.permission_id d.contract cs set;
          ref_block_bytes = or_keep-Names (λ b. b) req.ref_block_bytes d.ref_block_bytes;
          ref_block_hash = or_keep-Names (λ b. b) req.ref_block_hash d.ref_block_hash;
          timestamp = or_keep-Names (λ v. v) req.timestamp d.timestamp;
          expiration = or_keep-Names (λ v. v) req.expiration d.expiration;
          rest = refl;
        })

pub nothing_to_apply-Applied :
    (req : TransactionRequest) (d : ProtoRaw) → nothing_to_apply req ≡ true → Applied req d d
nothing_to_apply-Applied req d h = record {
  fee_limit = not_given-Names (λ t. t.sun) req.fee_limit d.fee_limit (ground arith);
  memo = not_given-Names (λ m. m) req.memo d.memo (ground arith);
  permission = not_given-NamesPermission req.permission_id d.contract (ground arith);
  ref_block_bytes = not_given-Names (λ b. b) req.ref_block_bytes d.ref_block_bytes (ground arith);
  ref_block_hash = not_given-Names (λ b. b) req.ref_block_hash d.ref_block_hash (ground arith);
  timestamp = not_given-Names (λ v. v) req.timestamp d.timestamp (ground arith);
  expiration = not_given-Names (λ v. v) req.expiration d.expiration (ground arith);
  rest = refl;
}
