-- ===== src/RpcTypes/Wire/Fields.antt =====
-- `extract_raw_data` against the message as a list of fields.
use Prim.Native.Nat.{bit_and}
use tronz.Prelude.{
  ℕ, zero, suc, ◌+◌, ◌*◌, ◌/◌, ◌^◌, ◌≤◌, ◌<◌, ◌≡◌, refl, sym, ap, ◌∙◌, Bytes, List, [], ◌∷◌, ◌++◌,
  length, All, Option, none, some, Result, ok, err, ok_or, if◌then◌else◌, arith, append_assoc,
  drop-append, take-append, length-append, length-drop, inl, inr, Result-cases, ◌==◌, ◌>>=◌,
}
use tronz.Prelude.Bits.{low_three}
use tronz.RpcTypes.Wire.{
  ResponseError, malformed, read_varint, skip, scan_field, scan_loop, extract_raw_data, no_raw_data,
  repeated_raw_data,
}
use tronz.RpcTypes.Wire.Varint.{
  encode_varint, read_varint-encode_varint, read_varint_shrinks, varint_bytes-pos,
}

-- A field of a protobuf message, by its wire type.
pub data Field : Type 0 where
  varint_field : ℕ → ℕ → Field
  fixed64_field len_field fixed32_field : ℕ → Bytes → Field

abbrev pub IsField : Field → Type 0
IsField (varint_field k v) = (k < 2 ^ 29) × (v < 2 ^ 64)
IsField (fixed64_field k b) = (k < 2 ^ 29) × (length b ≡ 8)
IsField (len_field k b) = (k < 2 ^ 29) × (length b < 2 ^ 64)
IsField (fixed32_field k b) = (k < 2 ^ 29) × (length b ≡ 4)

abbrev pub encode_field : Field → Bytes
encode_field (varint_field k v) = encode_varint (k * 8 + 0) ++ encode_varint v
encode_field (fixed64_field k b) = encode_varint (k * 8 + 1) ++ b
encode_field (len_field k b) = encode_varint (k * 8 + 2) ++ (encode_varint (length b) ++ b)
encode_field (fixed32_field k b) = encode_varint (k * 8 + 5) ++ b

abbrev pub encode_message : List Field → Bytes
encode_message [] = []
encode_message (f ∷ fs) = encode_field f ++ encode_message fs

-- The payload of the one length-delimited field 1; none or two of them is an error.
abbrev pub raw_data_of : Option Bytes → List Field → Result ResponseError Bytes
raw_data_of found [] = ok_or found (malformed no_raw_data)
raw_data_of found (varint_field k v ∷ fs) = raw_data_of found fs
raw_data_of found (fixed64_field k b ∷ fs) = raw_data_of found fs
raw_data_of found (fixed32_field k b ∷ fs) = raw_data_of found fs
raw_data_of none (len_field k b ∷ fs) =
    if k == 1 then raw_data_of (some b) fs else raw_data_of none fs
raw_data_of (some a) (len_field k b ∷ fs) =
    if k == 1 then err (malformed repeated_raw_data) else raw_data_of (some a) fs

abbrev after : Option Bytes → Field → Result ResponseError (Option Bytes)
after found (varint_field k v) = ok found
after found (fixed64_field k b) = ok found
after found (fixed32_field k b) = ok found
after none (len_field k b) = if k == 1 then ok (some b) else ok none
after (some a) (len_field k b) = if k == 1 then err (malformed repeated_raw_data) else ok (some a)

skip-append : (n : ℕ) (b rest : Bytes) → length b ≡ n → skip n (b ++ rest) ≡ ok rest
unfolding skip
skip-append n b rest h = ground (arith, length-append b rest, drop-append n b rest)

read_key :
    (k w : ℕ) (rest : Bytes)
    → k < 2 ^ 29
    → w < 8
    → (read_varint (encode_varint (k * 8 + w) ++ rest) ≡ ok (k * 8 + w, rest))
      × ((k * 8 + w) / 8 ≡ k)
      × (bit_and (k * 8 + w) 7 ≡ w)
read_key k w rest hk hw = (
  read_varint-encode_varint (k * 8 + w) rest (omega arith),
  omega arith,
  omega (arith, low_three (k * 8 + w)),
)

-- One round of the scan takes one field.
scan_field-encode :
    (found : Option Bytes) (f : Field) (rest : Bytes)
    → IsField f
    → scan_field found (encode_field f ++ rest) ≡ (after found f >>= λ g. ok (g, rest))
unfolding scan_field
scan_field-encode found (varint_field k v) rest h =
    rw (append_assoc (encode_varint (k * 8 + 0)) (encode_varint v) rest)
      (ground (arith, read_key k 0 (encode_varint v ++ rest), read_varint-encode_varint v rest))
scan_field-encode found (fixed64_field k b) rest h =
    rw (append_assoc (encode_varint (k * 8 + 1)) b rest)
      (ground (arith, read_key k 1 (b ++ rest), skip-append 8 b rest))
scan_field-encode none (len_field k b) rest h =
    rw
      (
        append_assoc (encode_varint (k * 8 + 2)) (encode_varint (length b) ++ b) rest,
        append_assoc (encode_varint (length b)) b rest,
      )
      (ground (
        arith,
        read_key k 2 (encode_varint (length b) ++ (b ++ rest)),
        read_varint-encode_varint (length b) (b ++ rest),
        skip-append (length b) b rest,
        take-append (length b) b rest,
      ))
scan_field-encode (some a) (len_field k b) rest h =
    rw
      (
        append_assoc (encode_varint (k * 8 + 2)) (encode_varint (length b) ++ b) rest,
        append_assoc (encode_varint (length b)) b rest,
      )
      (ground (
        arith,
        read_key k 2 (encode_varint (length b) ++ (b ++ rest)),
        read_varint-encode_varint (length b) (b ++ rest),
        skip-append (length b) b rest,
      ))
scan_field-encode found (fixed32_field k b) rest h =
    rw (append_assoc (encode_varint (k * 8 + 5)) b rest)
      (ground (arith, read_key k 5 (b ++ rest), skip-append 4 b rest))

raw_data_of-after :
    (found : Option Bytes) (f : Field) (fs : List Field)
    → raw_data_of found (f ∷ fs) ≡ (after found f >>= λ g. raw_data_of g fs)
raw_data_of-after found (varint_field k v) fs = refl
raw_data_of-after found (fixed64_field k b) fs = refl
raw_data_of-after none (len_field k b) fs = ground arith
raw_data_of-after (some a) (len_field k b) fs = ground arith
raw_data_of-after found (fixed32_field k b) fs = refl

skip_shrinks : (n : ℕ) (bytes rest : Bytes) → skip n bytes ≡ ok rest → length rest ≤ length bytes
unfolding skip
skip_shrinks n bytes rest h = ground (arith, length-drop n bytes)

-- A round takes a byte at least, whatever it reads.
scan_field_shrinks :
    (found : Option Bytes) (bytes : Bytes) (g : Option Bytes) (rest : Bytes)
    → scan_field found bytes ≡ ok (g, rest)
    → length rest < length bytes
unfolding scan_field
scan_field_shrinks found bytes g rest h = elim (Result-cases (read_varint bytes)) [
  | inr (x, e) ↦ ground (arith, e)
  | inl ((key, r), e) ↦ elim (Result-cases (read_varint r)) [
    | inr (x, e') ↦ ground (
      arith,
      e,
      e',
      read_varint_shrinks bytes key r e,
      skip_shrinks 8 r rest,
      skip_shrinks 4 r rest,
    )
    | inl ((len, r'), e') ↦ ground (
      arith,
      e,
      e',
      read_varint_shrinks bytes key r e,
      read_varint_shrinks r len r' e',
      skip_shrinks 8 r rest,
      skip_shrinks 4 r rest,
      skip_shrinks len r' rest,
    )
  ]
]

step_ok :
    (fuel : ℕ) (found : Option Bytes) (bytes : Bytes) (g : Option Bytes) (rest : Bytes)
    → 0 < length bytes
    → scan_field found bytes ≡ ok (g, rest)
    → scan_loop (suc fuel) found bytes ≡ scan_loop fuel g rest
unfolding scan_loop
step_ok fuel found [] g rest h e = absurd (omega arith)
step_ok fuel found (b ∷ bs) g rest h e = rw (e, scan_loop)

step_err :
    (fuel : ℕ) (found : Option Bytes) (bytes : Bytes) (x : ResponseError)
    → 0 < length bytes
    → scan_field found bytes ≡ err x
    → scan_loop (suc fuel) found bytes ≡ some (err x)
unfolding scan_loop
step_err fuel found [] x h e = absurd (omega arith)
step_err fuel found (b ∷ bs) x h e = rw (e, scan_loop)

scan_loop_total :
    (fuel : ℕ) (found : Option Bytes) (bytes : Bytes)
    → length bytes ≤ fuel
    → (r : Result ResponseError Bytes) × (scan_loop fuel found bytes ≡ some r)
scan_loop_total fuel found [] h = (ok_or found (malformed no_raw_data), unfold scan_loop in refl)
scan_loop_total zero found (b ∷ bs) h = absurd (omega arith)
scan_loop_total (suc fuel) found (b ∷ bs) h = elim (Result-cases (scan_field found (b ∷ bs))) [
  | inl ((g, rest), e) ↦
      let (r, k) =
        scan_loop_total fuel g rest (omega (arith, scan_field_shrinks found (b ∷ bs) g rest e)) in
      (r, step_ok fuel found (b ∷ bs) g rest (omega arith) e ∙ k)
  | inr (x, e) ↦ (err x, step_err fuel found (b ∷ bs) x (omega arith) e)
]

-- The scan ends on every input: its loop never runs out of rounds.
pub extract_raw_data_total :
    (bytes : Bytes) → (r : Result ResponseError Bytes) × (extract_raw_data bytes ≡ some r)
unfolding extract_raw_data
extract_raw_data_total bytes = scan_loop_total (length bytes) none bytes (omega arith)

encode_field-pos : (f : Field) → 0 < length (encode_field f)
encode_field-pos (varint_field k v) = omega (
  arith,
  length-append (encode_varint (k * 8 + 0)) (encode_varint v),
  varint_bytes-pos 9 (k * 8 + 0),
)
encode_field-pos (fixed64_field k b) =
    omega (arith, length-append (encode_varint (k * 8 + 1)) b, varint_bytes-pos 9 (k * 8 + 1))
encode_field-pos (len_field k b) = omega (
  arith,
  length-append (encode_varint (k * 8 + 2)) (encode_varint (length b) ++ b),
  varint_bytes-pos 9 (k * 8 + 2),
)
encode_field-pos (fixed32_field k b) =
    omega (arith, length-append (encode_varint (k * 8 + 5)) b, varint_bytes-pos 9 (k * 8 + 5))

message-pos :
    (f : Field) (fs : List Field)
    → (0 < length (encode_message (f ∷ fs)))
      × (length (encode_message fs) < length (encode_message (f ∷ fs)))
message-pos f fs =
    let sum = length-append (encode_field f) (encode_message fs) in
    let first = encode_field-pos f in (omega arith, omega arith)

scan_loop-encode :
    (fs : List Field) (fuel : ℕ) (found : Option Bytes)
    → All IsField fs
    → length (encode_message fs) ≤ fuel
    → scan_loop fuel found (encode_message fs) ≡ some (raw_data_of found fs)
scan_loop-encode [] fuel found h hf = unfold scan_loop in refl
scan_loop-encode (f ∷ fs) zero found h hf = absurd (omega (arith, message-pos f fs))
scan_loop-encode (f ∷ fs) (suc fuel) found h hf =
    let (pos, less) = message-pos f fs in
    let round = scan_field-encode found f (encode_message fs) h.0 in
    elim (Result-cases (after found f)) [
      | inl (g, e) ↦
          step_ok fuel found (encode_message (f ∷ fs)) g (encode_message fs) pos (round ∙ rw e)
          ∙ scan_loop-encode fs fuel g h.1 (omega arith)
          ∙ ap some (sym (raw_data_of-after found f fs ∙ rw e))
      | inr (x, e) ↦
          step_err fuel found (encode_message (f ∷ fs)) x pos (round ∙ rw e)
          ∙ ap some (sym (raw_data_of-after found f fs ∙ rw e))
    ]

-- On the encoding of any list of fields the scan finds the payload of the one length-delimited field
-- number 1, whatever stands around it, and refuses a message with none or with two of them.
pub extract_raw_data-encode_message :
    (fs : List Field)
    → All IsField fs
    → extract_raw_data (encode_message fs) ≡ some (raw_data_of none fs)
unfolding extract_raw_data
extract_raw_data-encode_message fs h = scan_loop-encode fs _ none h (omega arith)
