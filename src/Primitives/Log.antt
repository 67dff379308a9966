-- ===== src/Primitives/Log.antt =====
-- crates/primitives/src/log.rs: the log of an event.
use tronz.Prelude.{Bool, Option, none, some, List, Bytes, length, leb, if◌then◌else◌}
use tronz.Primitives.Address.{Address}

pub record Log : Type 0 where
  pub address : Address
  pub topics : List Bytes
  pub log_data : Bytes

abbrev pub new_unchecked : Address → List Bytes → Bytes → Log
new_unchecked address topics log_data = record {
  address = address;
  topics = topics;
  log_data = log_data;
}

abbrev pub is_valid : Log → Bool
is_valid log = leb (length log.topics) 4

abbrev pub new_log : Address → List Bytes → Bytes → Option Log
new_log address topics log_data =
    let log = new_unchecked address topics log_data in if is_valid log then some log else none
