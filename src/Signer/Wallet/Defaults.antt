-- ===== src/Signer/Wallet/Defaults.antt =====
-- crates/signer/src/wallet.rs: the credentials that a wallet holds, and its default one.
use tronz.Prelude.{
  ◌≡◌, ◌⊎◌, inl, inr, refl, sym, ap, ◌∙◌, subst, Bool, true, false, Option, none, some, List, [],
  ◌∷◌, ok, if◌then◌else◌, Bool-cases, Option-cases, ok-injective, some-injective, All,
}
use tronz.Primitives.Address.{Address, address_zero}
use tronz.RpcTypes.Permissions.{address_eq}
use tronz.RpcTypes.Permissions.Weights.{address_eq→≡, address_eq_refl}
use tronz.Signer.Wallet.{
  TronWallet, TronSigner, get_signer, put_signer, register_signer, register_default_signer, new,
  has_signer_for, set_default_signer, default_signer, signer_by_address, empty_wallet,
}

-- Every credential stands under its own address.
abbrev pub OwnAddresses : List (Address × TronSigner) → Type 0
OwnAddresses es = All (λ e. e.1.address ≡ e.0) es

-- A wallet that holds a credential for its default address.
abbrev pub IsWallet : TronWallet → Type 0
IsWallet w = OwnAddresses w.signers × ((s : TronSigner) × (get_signer w.signers w.default ≡ some s))

get_signer-put_signer :
    (es : List (Address × TronSigner)) (a b : Address) (c : TronSigner)
    → get_signer (put_signer es a c) b ≡ (if address_eq a b then some c else get_signer es b)
unfolding get_signer put_signer
get_signer-put_signer [] a b c = refl
get_signer-put_signer (e ∷ es) a b c = elim (Bool-cases (address_eq e.0 a)) [
  | inl here ↦
      let same : address_eq e.0 b ≡ address_eq a b =
        ap (λ x. address_eq x b) (address_eq→≡ e.0 a here) in
      rw (here, same) (twice (address_eq a b) (some c) (some e.1) (get_signer es b))
  | inr there ↦ elim (Bool-cases (address_eq e.0 b)) [
    | inl found ↦ rw (there, found, differ e.0 a b there found) refl
    | inr other ↦ rw (there, other) (get_signer-put_signer es a b c)
  ]
]
  where
    twice :
        (t : Bool) (x y z : Option TronSigner)
        → (if t then x else z) ≡ (if t then x else if t then y else z)
    twice true x y z = refl
    twice false x y z = refl

    differ :
        (x a b : Address) → address_eq x a ≡ false → address_eq x b ≡ true → address_eq a b ≡ false
    differ x a b apart met = elim (Bool-cases (address_eq a b)) [
      | inl e ↦ absurd (cc (apart, met, ap (address_eq x) (address_eq→≡ a b e)))
      | inr e ↦ e
    ]

put_signer-OwnAddresses :
    (es : List (Address × TronSigner)) (c : TronSigner)
    → OwnAddresses es
    → OwnAddresses (put_signer es c.address c)
unfolding put_signer
put_signer-OwnAddresses [] c own = (refl, tt)
put_signer-OwnAddresses (e ∷ es) c (first, own) = elim (Bool-cases (address_eq e.0 c.address)) [
  | inl here ↦ rw here (sym (address_eq→≡ e.0 c.address here), own)
  | inr there ↦ rw there (first, put_signer-OwnAddresses es c own)
]

get_signer-own :
    (es : List (Address × TronSigner)) (a : Address) (s : TronSigner)
    → OwnAddresses es
    → get_signer es a ≡ some s
    → s.address ≡ a
unfolding get_signer
get_signer-own [] a s own h = cc
get_signer-own (e ∷ es) a s (first, own) h = elim (Bool-cases (address_eq e.0 a)) [
  | inl here ↦
      ap (λ t. t.address) (sym (some-injective (rw here at h))) ∙ first ∙ address_eq→≡ e.0 a here
  | inr there ↦ get_signer-own es a s own (rw there at h)
]

-- Registering a credential makes it the one for its address, and leaves the others as they were.
pub signer_by_address-register_signer :
    (w : TronWallet) (s : TronSigner) (b : Address)
    → signer_by_address (register_signer w s) b
      ≡ (if address_eq s.address b then some s else signer_by_address w b)
unfolding signer_by_address register_signer
signer_by_address-register_signer w s b = get_signer-put_signer w.signers s.address b s

register-IsWallet :
    (w : TronWallet) (s : TronSigner)
    → OwnAddresses w.signers
    → (w.default ≡ s.address) ⊎ ((t : TronSigner) × (get_signer w.signers w.default ≡ some t))
    → IsWallet (register_signer w s)
unfolding register_signer
register-IsWallet w s own before = (
  put_signer-OwnAddresses w.signers s own,
  elim (Bool-cases (address_eq s.address w.default)) [
    | inl same ↦ (s, get_signer-put_signer w.signers s.address w.default s ∙ rw same refl)
    | inr other ↦ elim before [
      | inl e ↦ absurd (cc (other, ap (address_eq s.address) e ∙ address_eq_refl s.address))
      | inr (t, held) ↦ (t, get_signer-put_signer w.signers s.address w.default s ∙ rw other held)
    ]
  ],
)

-- The wallets that a client can make, by `Default` or from a first credential, and whether a default
-- credential was chosen in the making.
pub data Made : Bool → TronWallet → Type 0 where
  defaulted : Made false empty_wallet
  created : (s : TronSigner) → Made true (new s)
  registered :
      {b : Bool} (w : TronWallet) (s : TronSigner) → Made b w → Made b (register_signer w s)
  made_default :
      {b : Bool} (w : TronWallet) (s : TronSigner)
      → Made b w
      → Made true (register_default_signer w s)
  repointed :
      {b : Bool} (w w' : TronWallet) (a : Address)
      → Made b w
      → set_default_signer w a ≡ ok w'
      → Made true w'

set_default-IsWallet :
    (w w' : TronWallet) (a : Address)
    → OwnAddresses w.signers
    → set_default_signer w a ≡ ok w'
    → IsWallet w'
unfolding set_default_signer has_signer_for
set_default-IsWallet w w' a own h = elim (Option-cases (get_signer w.signers a)) [
  | inl absent ↦ absurd (cc (rw absent at h))
  | inr (s, there) ↦ subst IsWallet (ok-injective (rw there at h)) (own, (s, there))
]

Made-OwnAddresses : (b : Bool) (w : TronWallet) → Made b w → OwnAddresses w.signers
unfolding new register_default_signer register_signer
Made-OwnAddresses b w defaulted = tt
Made-OwnAddresses b w (created s) = put_signer-OwnAddresses [] s tt
Made-OwnAddresses b w (registered w0 s m) =
    put_signer-OwnAddresses w0.signers s (Made-OwnAddresses _ w0 m)
Made-OwnAddresses b w (made_default w0 s m) =
    put_signer-OwnAddresses w0.signers s (Made-OwnAddresses _ w0 m)
Made-OwnAddresses b w (repointed w0 w' a m h) =
    (set_default-IsWallet w0 w a (Made-OwnAddresses _ w0 m) h).0

Made-IsWallet : (b : Bool) (w : TronWallet) → Made b w → b ≡ true → IsWallet w
unfolding new register_default_signer
Made-IsWallet b w defaulted chosen = cc
Made-IsWallet b w (created s) chosen =
    register-IsWallet (record empty_wallet { default = s.address }) s tt (inl refl)
Made-IsWallet b w (registered w0 s m) chosen =
    let (own, held) = Made-IsWallet _ w0 m chosen in register-IsWallet w0 s own (inr held)
Made-IsWallet b w (made_default w0 s m) chosen =
    register-IsWallet (record w0 { default = s.address }) s (Made-OwnAddresses _ w0 m) (inl refl)
Made-IsWallet b w (repointed w0 w' a m h) chosen =
    set_default-IsWallet w0 w a (Made-OwnAddresses _ w0 m) h

Made-undecided : (b : Bool) (w : TronWallet) → Made b w → b ≡ false → w.default ≡ address_zero
unfolding register_signer
Made-undecided b w defaulted open_end = refl
Made-undecided b w (created s) open_end = cc
Made-undecided b w (registered w0 s m) open_end = Made-undecided _ w0 m open_end
Made-undecided b w (made_default w0 s m) open_end = cc
Made-undecided b w (repointed w0 w' a m h) open_end = cc

-- However a wallet was made: if a default was chosen, its credential is there, so `default_signer` does not
-- panic; if none was, the default is still the zero address. Every credential that is found, the
-- default one too, has the address that was asked for.
pub Made-default_signer :
    (b : Bool) (w : TronWallet)
    → Made b w
    → (((b ≡ true) × ((s : TronSigner) × (default_signer w ≡ some s)))
        ⊎ ((b ≡ false) × (w.default ≡ address_zero)))
      × ((s : TronSigner) → default_signer w ≡ some s → s.address ≡ w.default)
      × ((a : Address) (s : TronSigner) → signer_by_address w a ≡ some s → s.address ≡ a)
unfolding default_signer signer_by_address
Made-default_signer b w m = (
  elim (Bool-cases b) [
    | inl chosen ↦ inl (chosen, (Made-IsWallet b w m chosen).1)
    | inr open_end ↦ inr (open_end, Made-undecided b w m open_end)
  ],
  λ s h. get_signer-own w.signers w.default s (Made-OwnAddresses b w m) h,
  λ a s h. get_signer-own w.signers a s (Made-OwnAddresses b w m) h,
)

-- The wallet with these credentials registered, in order.
pub register_all : TronWallet → List TronSigner → TronWallet
register_all w [] = w
register_all w (s ∷ ss) = register_all (register_signer w s) ss

register_all-none :
    (w : TronWallet) (ss : List TronSigner)
    → All (λ s. address_eq s.address w.default ≡ false) ss
    → default_signer w ≡ none
    → default_signer (register_all w ss) ≡ none
unfolding register_all register_signer default_signer
register_all-none w [] apart absent = absent
register_all-none w (s ∷ ss) (first, others) absent =
    register_all-none (register_signer w s) ss others
      (get_signer-put_signer w.signers s.address w.default s ∙ rw first absent)

-- A wallet of `Default` that only has credentials registered, none of them for the zero address, holds the
-- last of them, and still `default_signer` panics on it.
pub default_signer-register_all :
    (ss : List TronSigner) (last : TronSigner)
    → All (λ s. address_eq s.address address_zero ≡ false) ss
    → address_eq last.address address_zero ≡ false
    → let w = register_signer (register_all empty_wallet ss) last in
      (default_signer w ≡ none) × (signer_by_address w last.address ≡ some last)
unfolding default_signer register_signer register_all
default_signer-register_all ss last apart other = (
  get_signer-put_signer (register_all empty_wallet ss).signers last.address
        (register_all empty_wallet ss).default last
      ∙ rw (register_all-default empty_wallet ss, other)
          (subst (λ (a : Address). get_signer (register_all empty_wallet ss).signers a ≡ none)
            (register_all-default empty_wallet ss) (register_all-none empty_wallet ss apart refl)),
  signer_by_address-register_signer (register_all empty_wallet ss) last last.address
      ∙ rw (address_eq_refl last.address) refl,
)
  where
    register_all-default :
        (w : TronWallet) (ss : List TronSigner) → (register_all w ss).default ≡ w.default
    register_all-default w [] = refl
    register_all-default w (s ∷ ss) = register_all-default (register_signer w s) ss
