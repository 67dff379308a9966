-- ===== src/RpcTypes/Permissions/Grants.antt =====
-- The permissions of an account, and what they allow.
use tronz.Prelude.{
  ◌≡◌, ◌⊎◌, ◌↔◌, inl, inr, refl, sym, ap, ◌∙◌, Bool, true, false, Option, none, some, List, [], ◌∷◌,
  arith, Bool-cases, if◌then◌else◌, some-injective,
}
use tronz.Prelude.Int.{ℤ, pos, eqb_ℤ}
use tronz.RpcTypes.Kind.{ContractKind}
use tronz.RpcTypes.Operations.{contains}
use tronz.RpcTypes.Permissions.{
  Permission, AccountPermissions, find_active, locate, allows, map_option, authorizes, by_owner,
  by_witness, by_active,
}

-- The first active permission with an id.
abbrev pub IsActive : List Permission → ℤ → Permission → Type 0
IsActive [] i p = ⊥
IsActive (q ∷ qs) i p =
    ((eqb_ℤ q.id i ≡ true) × (p ≡ q)) ⊎ ((eqb_ℤ q.id i ≡ false) × IsActive qs i p)

find_active-IsActive :
    (ps : List Permission) (i : ℤ) (p : Permission) → (find_active ps i ≡ some p) ↔ IsActive ps i p
unfolding find_active
find_active-IsActive [] i p = (λ h. cc, λ h. absurd h)
find_active-IsActive (q ∷ qs) i p = elim (Bool-cases (eqb_ℤ q.id i)) [
  | inl here ↦ rw here (
    λ h. inl (refl, sym (some-injective h)),
    λ h. elim h [ inl (_, e) ↦ ap some (sym e) | inr (e, _) ↦ cc ],
  )
  | inr there ↦ rw there (
    λ h. inr (refl, (find_active-IsActive qs i p).0 h),
    λ h. elim h [ inl (e, _) ↦ cc | inr (_, rest) ↦ (find_active-IsActive qs i p).1 rest ],
  )
]

abbrev Authorized : Bool → Bool → Option Permission → Option Permission → ContractKind → Type 0
Authorized is_owner is_witness owner active kind =
    ((is_owner ≡ true) × ((p : Permission) × (owner ≡ some p)))
    ⊎ ((is_owner ≡ false)
        × (is_witness ≡ false)
        × ((p : Permission) × (active ≡ some p) × (contains p.operations kind ≡ true)))

authorizes_iff :
    (is_owner is_witness : Bool) (owner witness active : Option Permission) (kind : ContractKind)
    → (authorizes
          (if is_owner
            then map_option by_owner owner
            else if is_witness
            then map_option by_witness witness
            else map_option by_active active)
          kind
        ≡ true)
      ↔ Authorized is_owner is_witness owner active kind
authorizes_iff true w none witness active kind = ground arith
authorizes_iff true w (some p) witness active kind = (λ h. inl (refl, (p, refl)), λ h. refl)
authorizes_iff false true owner none active kind = ground arith
authorizes_iff false true owner (some p) active kind = ground arith
authorizes_iff false false owner witness none kind = ground arith
authorizes_iff false false owner witness (some p) kind = (
  λ h. inr (refl, refl, (p, refl, h)),
  λ h. elim h [
    | inl (e, _) ↦ cc
    | inr (_, _, (q, e, grants)) ↦ ap (λ r. contains r.operations kind) (some-injective e) ∙ grants
  ],
)

-- The owner permission allows everything, and the witness permission nothing; any other id allows
-- exactly what the first active permission with this id grants.
pub allows_iff :
    (ps : AccountPermissions) (i : ℤ) (kind : ContractKind)
    → (allows ps i kind ≡ true) ↔ (
        ((eqb_ℤ i (pos 0) ≡ true) × ((p : Permission) × (ps.owner ≡ some p)))
        ⊎ ((eqb_ℤ i (pos 0) ≡ false)
            × (eqb_ℤ i (pos 1) ≡ false)
            × ((p : Permission) × IsActive ps.actives i p × (contains p.operations kind ≡ true))))
unfolding allows locate
allows_iff ps i kind =
    let given =
      authorizes_iff (eqb_ℤ i (pos 0)) (eqb_ℤ i (pos 1)) ps.owner ps.witness
        (find_active ps.actives i) kind in
    (
      λ h. elim (given.0 h) [
        | inl owner ↦ inl owner
        | inr (a, b, (p, found, grants)) ↦
            inr (a, b, (p, (find_active-IsActive ps.actives i p).0 found, grants))
      ],
      λ h. given.1 (elim h [
        | inl owner ↦ inl owner
        | inr (a, b, (p, active, grants)) ↦
            inr (a, b, (p, (find_active-IsActive ps.actives i p).1 active, grants))
      ]),
    )
