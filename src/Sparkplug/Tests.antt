-- ===== src/Sparkplug/Tests.antt =====
-- Concrete fields, for the theorems about app/engine/sparkplug.py.
use ser2net.Common.{
  true, ℕ, ◌≡◌, refl, Bool, Option, none, some, List, [], ◌∷◌, arith, ◌==◌, if◌then◌else◌,
}
use ser2net.Common.Result.{ok}
use ser2net.Sparkplug.Wire.{varint, fields}
use ser2net.Sparkplug.Wire.Fields.{
  Written, int_field, bytes_field, write_fields, fields_of, fields-write_fields,
}
use ser2net.Common.Int.{negsuc}
use ser2net.Sparkplug.Ints.{int16, encode_int, int_from_wire}
use ser2net.Sparkplug.Node.{Node, is_point}
use ser2net.Sparkplug.Node.View.{
  born, polled_to, hear_all, live_on, last_polled, StandsFor, live_on-last_polled,
}

three_hundred : varint 300 ≡ ok (0xAC ∷ 2 ∷ [])
unfolding varint
three_hundred = refl

abbrev some_fields : List Written
some_fields = int_field 1 300 ∷ bytes_field 2 (65 ∷ 66 ∷ []) ∷ []

some_written : write_fields some_fields ≡ ok (8 ∷ 0xAC ∷ 2 ∷ 18 ∷ 2 ∷ 65 ∷ 66 ∷ [])
unfolding write_fields
some_written = refl

fields-write_fields_example :
    fields (8 ∷ 0xAC ∷ 2 ∷ 18 ∷ 2 ∷ 65 ∷ 66 ∷ []) ≡ ok (fields_of some_fields)
fields-write_fields_example =
    fields-write_fields some_fields (8 ∷ 0xAC ∷ 2 ∷ 18 ∷ 2 ∷ 65 ∷ 66 ∷ []) (omega arith)
      some_written

minus_one : encode_int int16 (negsuc 0) ≡ ok 0xFFFFFFFF
unfolding encode_int
minus_one = refl

narrow_minus_one : int_from_wire int16 32 0xFFFF ≡ ok (negsuc 0)
unfolding int_from_wire
narrow_minus_one = refl

abbrev same_number : ℕ → ℕ → Bool
same_number a b = a == b

abbrev one_device : Node ℕ same_number
one_device = record {
  devices = record { id = 1; names = 10 ∷ 11 ∷ [] } ∷ [];
  values = λ n. none;
  bdseq = 0;
  seq = 0;
  sessions = 1;
}

abbrev a_poll : ℕ → Option ℕ
a_poll n = if n == 10 then some 7 else none

ten_listed : is_point 10 one_device.devices ≡ true
unfolding is_point
ten_listed = refl

live_on-last_polled_example :
    (told : Option ℕ) × (hear_all ℕ same_number
        (λ n. none)
        (live_on ℕ same_number one_device (born ∷ polled_to a_poll ∷ [])).1
        10
      ≡ some told)
    × StandsFor ℕ same_number told
        (last_polled ℕ same_number (one_device.values 10) (polled_to a_poll ∷ []) 10)
live_on-last_polled_example =
    live_on-last_polled ℕ same_number (λ n. none) one_device (polled_to a_poll ∷ []) 10 ten_listed
