-- ===== src/Sparkplug/Wire/Fields.antt =====
-- app/engine/sparkplug.py: `_fields` after `_field_varint` and `_field_len`.
use ser2net.Common.{
  ℕ, zero, suc, ◌+◌, ◌*◌, ◌/◌, ◌≤◌, ◌<◌, bit_and, bit_or, ◌≡◌, refl, sym, ap, ◌∙◌, List, [], ◌∷◌,
  ◌++◌, append_assoc, arith, length, All, length-append, take-append_self, drop-append_self,
}
use ser2net.Common.Bits.{shl, bit_and_mask, bit_or_join}
use ser2net.Common.Result.{Result, ok, ◌>>=◌, >>=-ok, ok-injective}
use ser2net.Sparkplug.Wire.{
  WireError, max_field, wire_varint, wire_len, varint, key, field_varint, field_len, read_varint,
  read_key, take_bytes, value_span, number, octets, Field, made, prepend, fields_from, fields,
}
use ser2net.Sparkplug.Wire.Varint.{read_varint-varint, varint-cons}

-- The fields that the payload encoder writes with `_field_varint` and `_field_len`.
pub data Written : Type 0 where
  int_field : ℕ → ℕ → Written
  bytes_field : ℕ → List ℕ → Written

abbrev pub number_of : Written → ℕ
number_of (int_field id v) = id
number_of (bytes_field id content) = id

abbrev pub IsNumbered : Written → Type 0
IsNumbered w = (1 ≤ number_of w) × (number_of w ≤ max_field)

unfoldable pub write_field : Written → Result WireError (List ℕ)
unfolding field_varint field_len
write_field (int_field id v) = field_varint id v
write_field (bytes_field id content) = field_len id content

unfoldable pub write_fields : List Written → Result WireError (List ℕ)
unfolding write_field
write_fields [] = ok []
write_fields (w ∷ ws) = do bytes ← write_field w; rest ← write_fields ws; ok (bytes ++ rest)

abbrev pub field_of : Written → Field
field_of (int_field id v) = made id wire_varint (number v)
field_of (bytes_field id content) = made id wire_len (octets content)

key_value : (id wire_type : ℕ) → wire_type < 8 → bit_or (shl id 3) wire_type ≡ id * 8 + wire_type
key_value id wire_type h = bit_or_join 3 id wire_type h

read_key-key :
    (id wire_type : ℕ) (k rest : List ℕ)
    → 1 ≤ id
    → id ≤ max_field
    → wire_type < 8
    → key id wire_type ≡ ok k
    → read_key (k ++ rest) ≡ ok (id, wire_type, rest)
unfolding read_key key
read_key-key id wire_type k rest low high small h =
    let value = key_value id wire_type small in
    let back = read_varint-varint (bit_or (shl id 3) wire_type) k rest h in
    let e : (id * 8 + wire_type) / 8 ≡ id = omega arith in
    let e' : bit_and (id * 8 + wire_type) 7 ≡ wire_type =
      omega (arith, bit_and_mask 3 (id * 8 + wire_type)) in
    rw (back, value, e, e') (ground arith)

field_step_int :
    (fuel : ℕ) (b : ℕ) (bytes rest rest' : List ℕ) (id v : ℕ)
    → read_key (b ∷ bytes) ≡ ok (id, wire_varint, rest)
    → read_varint rest ≡ ok (v, rest')
    → fields_from (suc fuel) (b ∷ bytes)
      ≡ prepend (made id wire_varint (number v)) (fields_from fuel rest')
unfolding fields_from
field_step_int fuel b bytes rest rest' id v h h' = rw (h, h')

field_step_bytes :
    (fuel : ℕ) (b : ℕ) (bytes rest rest' content : List ℕ) (id : ℕ)
    → read_key (b ∷ bytes) ≡ ok (id, wire_len, rest)
    → value_span wire_len rest ≡ ok (content, rest')
    → fields_from (suc fuel) (b ∷ bytes)
      ≡ prepend (made id wire_len (octets content)) (fields_from fuel rest')
unfolding fields_from
field_step_bytes fuel b bytes rest rest' content id h h' = rw (h, h')

take_bytes-append :
    (content rest : List ℕ) → take_bytes (length content) (content ++ rest) ≡ ok (content, rest)
unfolding take_bytes
take_bytes-append content rest =
    rw (take-append_self content rest, drop-append_self content rest)
      (ground (arith, length-append content rest))

value_span-len :
    (size content rest : List ℕ)
    → varint (length content) ≡ ok size
    → value_span wire_len (size ++ (content ++ rest)) ≡ ok (content, rest)
unfolding value_span
value_span-len size content rest h =
    rw (read_varint-varint (length content) size (content ++ rest) h)
      (take_bytes-append content rest)

-- One written field is read, and the rest after it.
fields_from-write_field :
    (w : Written) (fuel : ℕ) (bytes rest : List ℕ)
    → IsNumbered w
    → write_field w ≡ ok bytes
    → fields_from (suc fuel) (bytes ++ rest) ≡ prepend (field_of w) (fields_from fuel rest)
unfolding write_field field_varint field_len key
fields_from-write_field (int_field id v) fuel bytes rest (low, high) h =
    let (k, hk, h1) = >>=-ok (key id wire_varint) _ h in
    let (value, hv, h2) = >>=-ok (varint v) _ h1 in
    let (b, more, shape) = varint-cons _ k hk in
    let whole : bytes ++ rest ≡ k ++ (value ++ rest) =
      rw (← ok-injective h2) (append_assoc k value rest) in
    let start : k ++ (value ++ rest) ≡ b ∷ (more ++ (value ++ rest)) = rw shape refl in
    let named = read_key-key id wire_varint k (value ++ rest) low high (omega arith) hk in
    rw (whole, start)
      (field_step_int fuel b (more ++ (value ++ rest)) (value ++ rest) rest id v (rw start at named)
        (read_varint-varint v value rest hv))
fields_from-write_field (bytes_field id content) fuel bytes rest (low, high) h =
    let (k, hk, h1) = >>=-ok (key id wire_len) _ h in
    let (size, hs, h2) = >>=-ok (varint (length content)) _ h1 in
    let (b, more, shape) = varint-cons _ k hk in
    let tail = size ++ (content ++ rest) in
    let whole : bytes ++ rest ≡ k ++ tail =
      rw (← ok-injective h2)
        (append_assoc k (size ++ content) rest ∙ ap (◌++◌ k) (append_assoc size content rest)) in
    let start : k ++ tail ≡ b ∷ (more ++ tail) = rw shape refl in
    let named = read_key-key id wire_len k tail low high (omega arith) hk in
    rw (whole, start)
      (field_step_bytes fuel b (more ++ tail) tail rest content id (rw start at named)
        (value_span-len size content rest hs))

-- A written field has at least one byte.
write_field-size : (w : Written) {bytes : List ℕ} → write_field w ≡ ok bytes → 1 ≤ length bytes
unfolding write_field field_varint field_len key
write_field-size (int_field id v) h =
    let (k, hk, h1) = >>=-ok (key id wire_varint) _ h in
    let (value, hv, h2) = >>=-ok (varint v) _ h1 in
    let (b, more, shape) = varint-cons _ k hk in rw (← ok-injective h2, shape) (omega arith)
write_field-size (bytes_field id content) h =
    let (k, hk, h1) = >>=-ok (key id wire_len) _ h in
    let (size, hs, h2) = >>=-ok (varint (length content)) _ h1 in
    let (b, more, shape) = varint-cons _ k hk in rw (← ok-injective h2, shape) (omega arith)

abbrev pub fields_of : List Written → List Field
fields_of [] = []
fields_of (w ∷ ws) = field_of w ∷ fields_of ws

fields_from-nil : (fuel : ℕ) → fields_from fuel [] ≡ ok []
unfolding fields_from
fields_from-nil zero = refl
fields_from-nil (suc fuel) = refl

fields_from-write_fields :
    (ws : List Written) (fuel : ℕ) (bytes : List ℕ)
    → All IsNumbered ws
    → write_fields ws ≡ ok bytes
    → length bytes ≤ fuel
    → fields_from fuel bytes ≡ ok (fields_of ws)
unfolding write_fields
fields_from-write_fields [] fuel bytes h made enough =
    rw (← ok-injective made) (fields_from-nil fuel)
fields_from-write_fields (w ∷ ws) zero bytes h made enough =
    let (first, hf, h1) = >>=-ok (write_field w) _ made in
    let (rest, hr, h2) = >>=-ok (write_fields ws) _ h1 in
    let joined : length (first ++ rest) ≡ length bytes = ap length (ok-injective h2) in
    absurd (omega (arith, enough, joined, write_field-size w hf, length-append first rest))
fields_from-write_fields (w ∷ ws) (suc fuel) bytes h made enough =
    let (first, hf, h1) = >>=-ok (write_field w) _ made in
    let (rest, hr, h2) = >>=-ok (write_fields ws) _ h1 in
    let joined : length (first ++ rest) ≡ length bytes = ap length (ok-injective h2) in
    let small : length rest ≤ fuel =
      omega (arith, enough, joined, write_field-size w hf, length-append first rest) in
    ap (fields_from (suc fuel)) (sym (ok-injective h2))
    ∙ fields_from-write_field w fuel first rest h.0 hf
    ∙ ap (prepend (field_of w)) (fields_from-write_fields ws fuel rest h.1 hr small)

-- Fields that were written one after the other, with field numbers from 1 to 2^29 - 1, are read by
-- `_fields` as those fields, in order and completely.
pub fields-write_fields :
    (ws : List Written) (bytes : List ℕ)
    → All IsNumbered ws
    → write_fields ws ≡ ok bytes
    → fields bytes ≡ ok (fields_of ws)
unfolding fields
fields-write_fields ws bytes h made =
    fields_from-write_fields ws (length bytes) bytes h made (omega arith)
