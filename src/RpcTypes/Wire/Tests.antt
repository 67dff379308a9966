-- ===== src/RpcTypes/Wire/Tests.antt =====
-- Runs of the scan for raw data at concrete inputs.
use tronz.Prelude.{◌≡◌, ◌++◌, ok, some, none, [], ◌∷◌, arith, List}
use tronz.RpcTypes.Wire.{read_varint, extract_raw_data}
use tronz.RpcTypes.Wire.Varint.{encode_varint, read_varint-encode_varint}
use tronz.RpcTypes.Wire.Fields.{
  Field, len_field, varint_field, encode_message, raw_data_of, extract_raw_data-encode_message,
}

abbrev two_fields : List Field
two_fields = varint_field 2 300 ∷ len_field 1 (9 ∷ 8 ∷ []) ∷ []

extract_raw_data-encode_message_example :
    extract_raw_data (encode_message two_fields) ≡ some (raw_data_of none two_fields)
extract_raw_data-encode_message_example =
    extract_raw_data-encode_message two_fields
      ((omega arith, omega arith), ((omega arith, omega arith), tt))

read_varint-encode_varint_example : read_varint (encode_varint 300 ++ 7 ∷ []) ≡ ok (300, 7 ∷ [])
read_varint-encode_varint_example = read_varint-encode_varint 300 (7 ∷ []) (omega arith)
