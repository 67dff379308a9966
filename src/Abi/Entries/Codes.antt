-- ===== src/Abi/Entries/Codes.antt =====
-- The numbers of categories and mutabilities.
use tronz.Prelude.{◌≡◌, refl, arith}
use tronz.Prelude.Int.{ℤ, pos, negsuc}
use tronz.Abi.Entries.{
  entry_type_from_i32, entry_type_as_i32, mutability_from_i32, mutability_as_i32,
}

pub entry_type_as_i32-from_i32 : (i : ℤ) → entry_type_as_i32 (entry_type_from_i32 i) ≡ i
unfolding entry_type_as_i32 entry_type_from_i32
entry_type_as_i32-from_i32 (negsuc n) = refl
entry_type_as_i32-from_i32 (pos n) = ground arith

pub mutability_as_i32-from_i32 : (i : ℤ) → mutability_as_i32 (mutability_from_i32 i) ≡ i
unfolding mutability_as_i32 mutability_from_i32
mutability_as_i32-from_i32 (negsuc n) = refl
mutability_as_i32-from_i32 (pos n) = ground arith
