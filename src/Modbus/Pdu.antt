-- ===== src/Modbus/Pdu.antt =====
-- app/engine/modbus.py: request and response PDUs, and the checks on their arguments.
pub mod Bits
pub mod Packing
pub mod Write
use ser2net.Common.{
  ℕ, ◌+◌, bit_and, bit_or, Bool, true, false, not, ◌&&◌, ◌||◌, List, [], ◌∷◌, ltb, leb, ◌==◌,
  if◌then◌else◌, length, get_or, take, drop,
}
use ser2net.Common.Bits.{shr}
use ser2net.Common.Int.{ℤ, pos, negsuc}
use ser2net.Common.Result.{Result, ok, err, raise_if, ◌>>=◌, ◌>>◌}

-- What a caller may pass for an integer or a coil state: Python's bool and int, or any other
-- object (a float, a string, None).
pub data PyValue : Type 0 where
  bool : Bool → PyValue
  int : ℤ → PyValue
  other : PyValue

-- The argument that a message names.
pub data What : Type 0 where
  address bit_count coil_count register_count register_value : What

-- The ValueErrors of this part, one for each raise.
pub data PduError : Type 0 where
  bad_int : What → PduError
  past_end bad_coil_state bad_function bad_bit_count not_enough_data : PduError
  not_write_request empty_pdu unexpected_function short_data short_response mismatch : PduError
  modbus_exception : ℕ → PduError

abbrev pub Pdu : Type 0
Pdu = Result PduError (List ℕ)

abbrev pub read_coils : ℕ
read_coils = 1

abbrev pub read_discrete_inputs : ℕ
read_discrete_inputs = 2

abbrev pub write_single_coil : ℕ
write_single_coil = 5

abbrev pub write_single_register : ℕ
write_single_register = 6

abbrev pub write_multiple_coils : ℕ
write_multiple_coils = 15

abbrev pub write_multiple_registers : ℕ
write_multiple_registers = 16

abbrev pub gateway_target_failed : ℕ
gateway_target_failed = 0x0B

unfoldable pub exception_pdu : ℕ → ℕ → List ℕ
exception_pdu function code = bit_and (bit_or function 0x80) 0xFF ∷ bit_and code 0xFF ∷ []

-- `_check_int`, for the bounds that its callers give, none of them negative.
unfoldable pub check_int : PyValue → ℕ → ℕ → What → Result PduError ℕ
check_int (bool b) lo hi what = err (bad_int what)
check_int other lo hi what = err (bad_int what)
check_int (int (negsuc n)) lo hi what = err (bad_int what)
check_int (int (pos n)) lo hi what = if leb lo n && leb n hi then ok n else err (bad_int what)

-- `_check_span`, with the checked address.
unfoldable pub check_span : PyValue → ℕ → Result PduError ℕ
unfolding check_int
check_span addr count = do
  a ← check_int addr 0 0xFFFF address
  raise_if (ltb 0x10000 (a + count)) past_end
  ok a

-- `_coil_state`: True and False are the ints 1 and 0 in Python.
unfoldable pub coil_state : PyValue → Result PduError Bool
coil_state (bool b) = ok b
coil_state other = err bad_coil_state
coil_state (int (negsuc n)) = err bad_coil_state
coil_state (int (pos n)) =
    if n == 0 then ok false else if n == 1 then ok true else err bad_coil_state

unfoldable pub read_pdu : ℕ → ℕ → ℕ → List ℕ
read_pdu function addr count =
    bit_and function 0xFF
    ∷ bit_and (shr addr 8) 0xFF
    ∷ bit_and addr 0xFF
    ∷ bit_and (shr count 8) 0xFF
    ∷ bit_and count 0xFF
    ∷ []

unfoldable pub response_data : List ℕ → ℕ → Pdu
response_data [] function = err empty_pdu
response_data (head ∷ rest) function =
    let byte_count = get_or rest 0 0 in
    let found = take byte_count (drop 1 rest) in
    if head == bit_and (bit_or function 0x80) 0xFF
    then err (modbus_exception (get_or rest 0 0))
    else if not (head == function) || ltb (length (head ∷ rest)) 2
    then err unexpected_function
    else if not (length found == byte_count)
    then err short_data
    else ok found

unfoldable pub read_bits_pdu : ℕ → PyValue → PyValue → Pdu
unfolding check_int check_span read_pdu
read_bits_pdu function addr count =
    if not (function == read_coils || function == read_discrete_inputs)
    then err bad_function
    else (do
      n ← check_int count 1 2000 bit_count
      a ← check_span addr n
      ok (read_pdu function a n))
