-- ===== src/Sparkplug/Wire.antt =====
-- app/engine/sparkplug.py, the protobuf wire format: varints, field keys and fields. Where the source
-- passes the data and a position, a function here takes the data from that position on.
pub mod Varint
pub mod Fields
use ser2net.Common.{
  ℕ, zero, suc, ◌+◌, ◌-◌, ◌^◌, bit_and, bit_or, not, ◌&&◌, List, [], ◌∷◌, ◌++◌, ltb, leb, ◌==◌,
  if◌then◌else◌, length, take, drop,
}
use ser2net.Common.Bits.{shl, shr}
use ser2net.Common.Result.{Result, ok, err, ◌>>=◌, ◌>>◌, raise_if}

-- The ValueErrors of this part.
pub data WireError : Type 0 where
  out_of_range truncated_varint long_varint bad_number bad_wire_type truncated_field : WireError
  bad_end_group : WireError

abbrev pub u64_max : ℕ
u64_max = 0xFFFFFFFFFFFFFFFF

-- The loop of `_varint`; a value of 64 bits takes ten bytes, so nine rounds and the last byte.
unfoldable pub varint_from : ℕ → ℕ → List ℕ
varint_from zero value = value ∷ []
varint_from (suc fuel) value =
    let rest = varint_from fuel (shr value 7) in
    if ltb 0x7F value then bit_or 0x80 (bit_and value 0x7F) ∷ rest else value ∷ []

unfoldable pub varint : ℕ → Result WireError (List ℕ)
unfolding varint_from
varint value = if leb value u64_max then ok (varint_from 9 value) else err out_of_range

-- `for shift in range(0, 70, 7)`: so many rounds left, the shift, and the value so far.
unfoldable pub read_from : ℕ → ℕ → ℕ → List ℕ → Result WireError (ℕ × List ℕ)
read_from zero shift value bytes = err long_varint
read_from (suc rounds) shift value [] = err truncated_varint
read_from (suc rounds) shift value (byte ∷ bytes) =
    let value' = bit_or value (shl (bit_and byte 0x7F) shift) in
    let more = read_from rounds (shift + 7) value' bytes in
    if ltb byte 0x80 then ok (bit_and value' u64_max, bytes) else more

unfoldable pub read_varint : List ℕ → Result WireError (ℕ × List ℕ)
unfolding read_from
read_varint bytes = read_from 10 0 0 bytes

-- Wire types.
abbrev pub wire_varint : ℕ
wire_varint = 0

abbrev pub wire_i64 : ℕ
wire_i64 = 1

abbrev pub wire_len : ℕ
wire_len = 2

abbrev pub wire_start_group : ℕ
wire_start_group = 3

abbrev pub wire_end_group : ℕ
wire_end_group = 4

abbrev pub wire_i32 : ℕ
wire_i32 = 5

abbrev pub max_field : ℕ
max_field = 2 ^ 29 - 1

unfoldable pub key : ℕ → ℕ → Result WireError (List ℕ)
unfolding varint
key number wire_type = varint (bit_or (shl number 3) wire_type)

unfoldable pub field_varint : ℕ → ℕ → Result WireError (List ℕ)
unfolding key
field_varint number value = do k ← key number wire_varint; v ← varint value; ok (k ++ v)

unfoldable pub field_len : ℕ → List ℕ → Result WireError (List ℕ)
unfolding key
field_len number value = do
  k ← key number wire_len
  size ← varint (length value)
  ok (k ++ (size ++ value))

-- The field number, the wire type, and the data after the key.
unfoldable pub read_key : List ℕ → Result WireError (ℕ × ℕ × List ℕ)
unfolding read_varint
read_key bytes = do
  (k, rest) ← read_varint bytes
  raise_if (not (leb 1 (shr k 3) && leb (shr k 3) max_field)) bad_number
  ok (shr k 3, bit_and k 7, rest)

-- So many bytes, and the data after them.
unfoldable pub take_bytes : ℕ → List ℕ → Result WireError (List ℕ × List ℕ)
take_bytes size bytes =
    if ltb (length bytes) size then err truncated_field else ok (take size bytes, drop size bytes)

-- `_value_span`, as the bytes of the value and the data after them; of a varint the bytes are not
-- used, so they are left out.
unfoldable pub value_span : ℕ → List ℕ → Result WireError (List ℕ × List ℕ)
unfolding read_varint take_bytes
value_span wire_type bytes =
    if wire_type == wire_varint
    then (do (v, rest) ← read_varint bytes; ok ([], rest))
    else if wire_type == wire_i64
    then take_bytes 8 bytes
    else if wire_type == wire_i32
    then take_bytes 4 bytes
    else if wire_type == wire_len
    then (do (size, rest) ← read_varint bytes; take_bytes size rest)
    else err bad_wire_type

-- The loop of `_skip_group`, on fuel: every round takes a key, at least one byte.
unfoldable pub skip_group : ℕ → List ℕ → List ℕ → Result WireError (List ℕ)
unfolding read_key value_span
skip_group fuel [] bytes = ok bytes
skip_group zero (g ∷ groups) bytes = err truncated_varint
skip_group (suc fuel) (g ∷ groups) bytes = do
  (inner, wire_type, rest) ← read_key bytes
  let deeper = skip_group fuel (inner ∷ g ∷ groups) rest
  let outer = skip_group fuel groups rest
  let after = λ (bytes' : List ℕ). skip_group fuel (g ∷ groups) bytes'
  if wire_type == wire_start_group
      then deeper
      else if wire_type == wire_end_group
      then if g == inner then outer else err bad_end_group
      else (value_span wire_type rest >>= λ span. after span.1)

pub data Raw : Type 0 where
  number : ℕ → Raw
  octets : List ℕ → Raw

pub record Field : Type 0 where
  pub id : ℕ
  pub wire_type : ℕ
  pub value : Raw

abbrev pub made : ℕ → ℕ → Raw → Field
made id wire_type value = record { id = id; wire_type = wire_type; value = value }

abbrev pub prepend : Field → Result WireError (List Field) → Result WireError (List Field)
prepend f (ok fs) = ok (f ∷ fs)
prepend f (err e) = err e

-- `_fields`, as the list of all it yields, or the error it ends in; on fuel, with as many rounds as
-- there are bytes.
unfoldable pub fields_from : ℕ → List ℕ → Result WireError (List Field)
unfolding read_key value_span read_varint skip_group
fields_from fuel [] = ok []
fields_from zero (b ∷ bytes) = err truncated_varint
fields_from (suc fuel) (b ∷ bytes) = do
  (id, wire_type, rest) ← read_key (b ∷ bytes)
  let go = λ (bytes' : List ℕ). fields_from fuel bytes'
  if wire_type == wire_start_group
      then (skip_group (length rest) (id ∷ []) rest >>= λ rest'. go rest')
      else if wire_type == wire_varint
      then (read_varint rest >>= λ read. prepend (made id wire_type (number read.0)) (go read.1))
      else (value_span wire_type rest >>= λ span.
          prepend (made id wire_type (octets span.0)) (go span.1))

unfoldable pub fields : List ℕ → Result WireError (List Field)
unfolding fields_from
fields bytes = fields_from (length bytes) bytes
