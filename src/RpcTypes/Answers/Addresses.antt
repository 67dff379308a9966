-- ===== src/RpcTypes/Answers/Addresses.antt =====
-- Listings of addresses.
use tronz.Prelude.{
  ◌≡◌, ◌↔◌, refl, sym, ap, ◌∙◌, List, [], ◌∷◌, Bytes, map, ok, map_err, bind_ok_then, map_err-ok,
  ok-injective, All,
}
use tronz.Primitives.Address.{Address, IsAddress, from_slice}
use tronz.Primitives.Address.Slices.{from_slice_iff}
use tronz.RpcTypes.Wire.{malformed, bad_address}
use tronz.RpcTypes.Answers.{addr, collect_results, addresses_from_proto}

pub addr_iff :
    (b : Bytes) (a : Address) → (addr b ≡ ok a) ↔ ((a ≡ record { bytes = b }) × IsAddress a)
unfolding addr
addr_iff b a = (
  λ h. (from_slice_iff b a).0 (map_err-ok (λ e. malformed bad_address) (from_slice b) h),
  λ h. ap (map_err (λ e. malformed bad_address)) ((from_slice_iff b a).1 h),
)

-- A listing is read if every entry of it is an address, and gives these in order: one bad entry fails
-- the whole.
pub addresses_from_proto_iff :
    (raw : List Bytes) (found : List Address)
    → (addresses_from_proto raw ≡ ok found)
      ↔ ((raw ≡ map (λ a. a.bytes) found) × All IsAddress found)
unfolding addresses_from_proto collect_results
addresses_from_proto_iff [] [] = (λ h. (refl, tt), λ h. refl)
addresses_from_proto_iff [] (a ∷ found) = (λ h. cc, λ h. absurd (nil_cons h.0))
  where
    nil_cons : {x : Bytes} {xs : List Bytes} → ◌≡◌ {A = List Bytes} [] (x ∷ xs) → ⊥
    nil_cons e = cc
addresses_from_proto_iff (b ∷ raw) [] = (
  λ h.
      bind_ok_then (addr b) _ h
        λ a read h1. bind_ok_then (collect_results addr raw) _ h1 λ more rest h2. cc,
  λ h. absurd (cons_nil h.0),
)
  where
    cons_nil : {x : Bytes} {xs : List Bytes} → ◌≡◌ {A = List Bytes} (x ∷ xs) [] → ⊥
    cons_nil e = cc
addresses_from_proto_iff (b ∷ raw) (a ∷ found) = (
  λ h. bind_ok_then (addr b) _ h λ a' read h1.
      bind_ok_then (collect_results addr raw) _ h1 λ more rest h2.
        let first : a' ≡ a = head_eq (ok-injective h2) in
        let others : more ≡ found = tail_eq (ok-injective h2) in
        let (is_b, good) = (addr_iff b a).0 (read ∙ ap ok first) in
        let (those, all) = (addresses_from_proto_iff raw found).0 (rest ∙ ap ok others) in
        ((λ i. ap (λ t. t.bytes) (sym is_b) i ∷ those i), (good, all)),
  λ (same, (good, all)).
      let read = (addr_iff b a).1 (ap (λ t. record { bytes = t }) (sym (head_eq same)), good) in
      let rest = (addresses_from_proto_iff raw found).1 (tail_eq same, all) in rw (read, rest) refl,
)
  where
    head_eq : {A : Type 0} {x y : A} {xs ys : List A} → ◌≡◌ {A = List A} (x ∷ xs) (y ∷ ys) → x ≡ y
    head_eq e = cc

    tail_eq : {A : Type 0} {x y : A} {xs ys : List A} → ◌≡◌ {A = List A} (x ∷ xs) (y ∷ ys) → xs ≡ ys
    tail_eq e = cc
