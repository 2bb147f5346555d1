-- ===== src/Modbus/Pdu/Write.antt =====
-- app/engine/modbus.py: the write requests (FC5, FC6, FC15, FC16) and the check of their replies.
pub mod Reply
pub mod Limits
use ser2net.Common.{
  ℕ, ◌/◌, ◌%◌, bit_and, bit_or, Bool, not, ◌||◌, List, [], ◌∷◌, ◌++◌, ltb, ◌==◌, if◌then◌else◌,
  length, get_or, take, bytes_eq,
}
use ser2net.Common.Bits.{shr}
use ser2net.Common.Int.{pos}
use ser2net.Common.Result.{Result, ok, err, ◌>>=◌, ◌>>◌}
use ser2net.Modbus.Pdu.{
  PyValue, int, PduError, Pdu, address, coil_count, register_count, register_value,
  not_write_request, empty_pdu, unexpected_function, short_response, mismatch, modbus_exception,
  check_int, check_span, coil_state, write_single_coil, write_single_register, write_multiple_coils,
  write_multiple_registers,
}
use ser2net.Modbus.Pdu.Bits.{pack_bits}

unfoldable pub write_single_coil_pdu : PyValue → PyValue → Pdu
unfolding check_int coil_state
write_single_coil_pdu addr on = do
  a ← check_int addr 0 0xFFFF address
  state ← coil_state on
  let value = if state then 0xFF00 else 0x0000
  ok (write_single_coil ∷ shr a 8 ∷ bit_and a 0xFF ∷ shr value 8 ∷ bit_and value 0xFF ∷ [])

unfoldable pub write_single_register_pdu : PyValue → PyValue → Pdu
unfolding check_int
write_single_register_pdu addr raw = do
  a ← check_int addr 0 0xFFFF address
  r ← check_int raw 0 0xFFFF register_value
  ok (write_single_register ∷ shr a 8 ∷ bit_and a 0xFF ∷ shr r 8 ∷ bit_and r 0xFF ∷ [])

-- `[_coil_state(v, ...) for v in values]`
unfoldable pub coil_states : List PyValue → Result PduError (List Bool)
unfolding coil_state
coil_states [] = ok []
coil_states (v ∷ values) = do state ← coil_state v; states ← coil_states values; ok (state ∷ states)

-- The header of FC15 and FC16: function, start address, quantity and the count of data bytes.
abbrev pub multiple_header : ℕ → ℕ → ℕ → ℕ → List ℕ
multiple_header function a count size =
    function ∷ shr a 8 ∷ bit_and a 0xFF ∷ shr count 8 ∷ bit_and count 0xFF ∷ size ∷ []

unfoldable pub write_multiple_coils_pdu : PyValue → List PyValue → Pdu
unfolding check_int check_span coil_states
write_multiple_coils_pdu addr values = do
  states ← coil_states values
  count ← check_int (int (pos (length states))) 1 1968 coil_count
  a ← check_span addr count
  let packed = pack_bits states
  ok (multiple_header write_multiple_coils a count (length packed) ++ packed)

unfoldable pub check_registers : List PyValue → Result PduError (List ℕ)
unfolding check_int
check_registers [] = ok []
check_registers (v ∷ values) = do
  r ← check_int v 0 0xFFFF register_value
  rest ← check_registers values
  ok (r ∷ rest)

-- `b"".join(r.to_bytes(2, "big") for r in regs)`
unfoldable pub register_bytes : List ℕ → List ℕ
register_bytes [] = []
register_bytes (r ∷ rest) = r / 256 ∷ r % 256 ∷ register_bytes rest

unfoldable pub write_multiple_registers_pdu : PyValue → List PyValue → Pdu
unfolding check_int check_span check_registers register_bytes
write_multiple_registers_pdu addr registers = do
  regs ← check_registers registers
  count ← check_int (int (pos (length regs))) 1 123 register_count
  a ← check_span addr count
  let content = register_bytes regs
  ok (multiple_header write_multiple_registers a count (length content) ++ content)

abbrev pub is_write_function : ℕ → Bool
is_write_function f =
    f == write_single_coil
    || (f == write_single_register || (f == write_multiple_coils || f == write_multiple_registers))

abbrev pub is_single : ℕ → Bool
is_single f = f == write_single_coil || f == write_single_register

unfoldable pub check_reply : List ℕ → ℕ → List ℕ → Result PduError (Unit {0})
check_reply [] function expected = err empty_pdu
check_reply (head ∷ rest) function expected =
    if head == bit_or function 0x80
    then err (modbus_exception (get_or rest 0 0))
    else if not (head == function)
    then err unexpected_function
    else if ltb (length (head ∷ rest)) (length expected)
    then err short_response
    else if not (bytes_eq (head ∷ rest) expected)
    then err mismatch
    else ok tt

-- The part of the request that the reply echoes.
abbrev pub echo_of : List ℕ → List ℕ
echo_of request = if is_single (get_or request 0 0) then request else take 5 request

unfoldable pub check_write_response : List ℕ → List ℕ → Result PduError (Unit {0})
unfolding check_reply
check_write_response pdu request =
    if ltb (length request) 5 || not (is_write_function (get_or request 0 0))
    then err not_write_request
    else check_reply pdu (get_or request 0 0) (echo_of request)
