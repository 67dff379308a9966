-- ===== src/Abi/Entries.antt =====
-- crates/abi/src/abi.rs, item.rs and param.rs: the entries of an ABI, their categories and signatures.
pub mod Codes
use tronz.Prelude.{
  ℕ, ◌≡◌, Bool, true, false, ◌&&◌, Option, none, some, List, [], ◌∷◌, ◌++◌, Bytes, codes, bytes_eq,
  ◌==◌, if◌then◌else◌,
}
use tronz.Prelude.Int.{ℤ, pos, negsuc, eqb_ℤ}

pub record TronAbiParam : Type 0 where
  pub indexed : Bool
  pub name : Bytes
  pub ty : Bytes

pub data TronAbiEntryType : Type 0 where
  unknown : ℤ → TronAbiEntryType
  constructor function event fallback receive error : TronAbiEntryType

pub data TronAbiStateMutability : Type 0 where
  unknown_mutability : ℤ → TronAbiStateMutability
  pure view non_payable payable : TronAbiStateMutability

pub record TronAbiEntry : Type 0 where
  pub entry_type : TronAbiEntryType
  pub name : Bytes
  pub inputs : List TronAbiParam
  pub outputs : List TronAbiParam
  pub anonymous : Bool
  pub constant : Bool
  pub accepts_trx : Bool
  pub state_mutability : TronAbiStateMutability

pub record TronAbi : Type 0 where
  pub entries : List TronAbiEntry

unfoldable pub entry_type_from_i32 : ℤ → TronAbiEntryType
entry_type_from_i32 (negsuc n) = unknown (negsuc n)
entry_type_from_i32 (pos n) =
    if n == 1
    then constructor
    else if n == 2
    then function
    else if n == 3
    then event
    else if n == 4
    then fallback
    else if n == 5
    then receive
    else if n == 6
    then error
    else unknown (pos n)

unfoldable pub entry_type_as_i32 : TronAbiEntryType → ℤ
entry_type_as_i32 (unknown i) = i
entry_type_as_i32 constructor = pos 1
entry_type_as_i32 function = pos 2
entry_type_as_i32 event = pos 3
entry_type_as_i32 fallback = pos 4
entry_type_as_i32 receive = pos 5
entry_type_as_i32 error = pos 6

unfoldable pub mutability_from_i32 : ℤ → TronAbiStateMutability
mutability_from_i32 (negsuc n) = unknown_mutability (negsuc n)
mutability_from_i32 (pos n) =
    if n == 1
    then pure
    else if n == 2
    then view
    else if n == 3
    then non_payable
    else if n == 4
    then payable
    else unknown_mutability (pos n)

unfoldable pub mutability_as_i32 : TronAbiStateMutability → ℤ
mutability_as_i32 (unknown_mutability i) = i
mutability_as_i32 pure = pos 1
mutability_as_i32 view = pos 2
mutability_as_i32 non_payable = pos 3
mutability_as_i32 payable = pos 4

-- `name`, with the empty name as none.
abbrev pub entry_name : TronAbiEntry → Option Bytes
entry_name e = elim e.name [ [] ↦ none | b ∷ bs ↦ some (b ∷ bs) ]

abbrev pub has_signature : TronAbiEntryType → Bool
has_signature function = true
has_signature event = true
has_signature error = true
has_signature t = false

-- The loop of `signature`, which writes a comma before every input but the first.
pub later_types : List TronAbiParam → Bytes
later_types [] = []
later_types (p ∷ ps) = codes "," ++ p.ty ++ later_types ps

abbrev pub input_types : List TronAbiParam → Bytes
input_types [] = []
input_types (p ∷ ps) = p.ty ++ later_types ps

abbrev pub signature_of : Option Bytes → List TronAbiParam → Option Bytes
signature_of none inputs = none
signature_of (some name) inputs = some (name ++ codes "(" ++ input_types inputs ++ codes ")")

pub signature : TronAbiEntry → Option Bytes
unfolding later_types
signature e = if has_signature e.entry_type then signature_of (entry_name e) e.inputs else none

-- `==` on categories, by their numbers, which tell them apart but for an unknown one with a known number.
abbrev pub rank : TronAbiEntryType → ℕ
rank (unknown i) = 0
rank constructor = 1
rank function = 2
rank event = 3
rank fallback = 4
rank receive = 5
rank error = 6

abbrev pub same_type : TronAbiEntryType → TronAbiEntryType → Bool
same_type (unknown i) (unknown j) = eqb_ℤ i j
same_type (unknown i) t = false
same_type t (unknown j) = false
same_type t u = rank t == rank u

pub keep_of : TronAbiEntryType → List TronAbiEntry → List TronAbiEntry
keep_of t [] = []
keep_of t (e ∷ es) = let rest = keep_of t es in if same_type e.entry_type t then e ∷ rest else rest

pub items_of : TronAbi → TronAbiEntryType → List TronAbiEntry
unfolding keep_of
items_of abi t = keep_of t abi.entries

pub keep_named : Bytes → List TronAbiEntry → List TronAbiEntry
keep_named name [] = []
keep_named name (e ∷ es) =
    let rest = keep_named name es in if bytes_eq e.name name then e ∷ rest else rest

pub named : TronAbi → TronAbiEntryType → Bytes → List TronAbiEntry
unfolding items_of keep_named
named abi t name = keep_named name (items_of abi t)
