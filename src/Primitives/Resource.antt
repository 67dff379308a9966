-- ===== src/Primitives/Resource.antt =====
-- crates/primitives/src/resource.rs: what a stake is for.
use tronz.Prelude.{Option, none, some, ◌==◌, if◌then◌else◌}
use tronz.Prelude.Int.{ℤ, pos, negsuc}

pub data ResourceCode : Type 0 where
  bandwidth energy tron_power : ResourceCode

abbrev pub as_i32 : ResourceCode → ℤ
as_i32 bandwidth = pos 0
as_i32 energy = pos 1
as_i32 tron_power = pos 2

abbrev pub from_i32 : ℤ → Option ResourceCode
from_i32 (negsuc n) = none
from_i32 (pos n) =
    if n == 0
    then some bandwidth
    else if n == 1
    then some energy
    else if n == 2
    then some tron_power
    else none
