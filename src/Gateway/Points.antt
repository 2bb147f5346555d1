-- ===== src/Gateway/Points.antt =====
-- app/engine/modbus_gateway.py, `_read_point` and `write_point`: the poll points of a mapping, read
-- and written over the bus. Python's floats are the parameter of Modbus/Value.
pub mod Echo
pub mod ReadBack
pub mod Requests
pub mod Validated
use ser2net.Common.{
  ℕ, Bool, false, not, ◌||◌, Option, none, some, List, [], ◌∷◌, ◌==◌, if◌then◌else◌, get_or,
}
use ser2net.Common.Result.{Result, ok, err, ◌>>=◌, ◌>>◌}
use ser2net.Common.Int.{pos}
use ser2net.Modbus.Pdu.{
  PyValue, bool, int, other, PduError, read_coils, read_discrete_inputs, read_pdu, response_data,
  read_bits_pdu,
}
use ser2net.Modbus.Pdu.Bits.{decode_bits}
use ser2net.Modbus.Pdu.Write.{
  write_single_coil_pdu, write_single_register_pdu, write_multiple_coils_pdu,
  write_multiple_registers_pdu, check_write_response,
}
use ser2net.Modbus.Value.{
  Dtype, ValueError, Floats, Number, whole, real, not_number, dtype_registers, decode_value,
  encode_value,
}
use ser2net.Gateway.Transaction.{Port, Bus, transaction}

-- What these operations raise.
pub data PointError : Type 0 where
  not_writable : PointError
  bad_pdu : PduError → PointError
  bad_value : ValueError → PointError

abbrev pub lift {ℓ} :
    {E : Type 0} {A : Type ℓ} → (E → PointError) → Result E A → Result PointError A
lift f (ok a) = ok a
lift f (err e) = err (f e)

abbrev pub registers : List ℕ → List PyValue
registers [] = []
registers (r ∷ rest) = int (pos r) ∷ registers rest

-- One transaction for a request, if it could be built.
unfoldable pub send_request :
    Bus → Port → ℕ → Result PointError (List ℕ) → Bus × Result PointError (List ℕ)
unfolding transaction
send_request bus port unit (err e) = (bus, err e)
send_request bus port unit (ok pdu) =
    let (bus', rpdu) = transaction bus port unit pdu in (bus', ok rpdu)

-- `modbus.check_write_response(rpdu, pdu)`
unfoldable pub acknowledged :
    Result PointError (List ℕ) → Result PointError (List ℕ) → Result PointError (Unit {0})
unfolding check_write_response
acknowledged request reply = do
  pdu ← request
  rpdu ← reply
  lift bad_pdu (check_write_response rpdu pdu)

module _ (fl : Floats) where
  open fl use {F}

  pub record Point : Type 0 where
    pub unit : ℕ
    pub fn : ℕ
    pub address : ℕ
    pub dtype : Dtype
    pub scale : F
    pub writable : Bool

  -- A value to write, as Python sees it: a list of values, or one.
  pub data Value : Type 0 where
    several : List PyValue → Value
    one : PyValue → Value
    float : F → Value

  -- What the PDU builders and `encode_value` see of it.
  abbrev pub as_state : Value → PyValue
  as_state (several values) = other
  as_state (one v) = v
  as_state (float x) = other

  abbrev pub as_number : Value → Number fl
  as_number (several values) = not_number
  as_number (one (bool b)) = not_number
  as_number (one (int v)) = whole v
  as_number (one other) = not_number
  as_number (float x) = real x

  unfoldable pub coil_request : ℕ → Value → Result PduError (List ℕ)
  unfolding write_multiple_coils_pdu write_single_coil_pdu
  coil_request address (several values) = write_multiple_coils_pdu (int (pos address)) values
  coil_request address (one v) = write_single_coil_pdu (int (pos address)) v
  coil_request address (float x) = write_single_coil_pdu (int (pos address)) other

  unfoldable pub register_request : ℕ → List ℕ → Result PduError (List ℕ)
  unfolding write_single_register_pdu write_multiple_registers_pdu
  register_request address (r ∷ []) = write_single_register_pdu (int (pos address)) (int (pos r))
  register_request address [] = write_multiple_registers_pdu (int (pos address)) []
  register_request address (r ∷ s ∷ rest) =
      write_multiple_registers_pdu (int (pos address)) (registers (r ∷ s ∷ rest))

  -- The request of `write_point`. `encode_value` takes a scale of 0 for 1, so it gets the scale
  -- where the source writes `point.scale or 1.0`.
  unfoldable pub write_request : Point → Value → Result PointError (List ℕ)
  unfolding coil_request register_request encode_value
  write_request p v =
      if not p.writable
      then err not_writable
      else if p.fn == read_coils
      then lift bad_pdu (coil_request p.address v)
      else (do
        regs ← lift bad_value (encode_value fl (as_number v) p.dtype p.scale)
        lift bad_pdu (register_request p.address regs))

  pub data Reading : Type 0 where
    state : Bool → Reading
    number : Number fl → Reading

  abbrev pub is_bit_point : Point → Bool
  is_bit_point p = p.fn == read_coils || p.fn == read_discrete_inputs

  -- The request of `_read_point`, and what the reply says.
  unfoldable pub read_request : Point → Result PointError (List ℕ)
  unfolding read_bits_pdu read_pdu dtype_registers
  read_request p =
      if is_bit_point p
      then lift bad_pdu (read_bits_pdu p.fn (int (pos p.address)) (int (pos 1)))
      else (do count ← lift bad_value (dtype_registers p.dtype); ok (read_pdu p.fn p.address count))

  unfoldable pub read_reply : Point → List ℕ → Result PointError Reading
  unfolding response_data decode_bits decode_value
  read_reply p rpdu =
      if is_bit_point p
      then (do
        content ← lift bad_pdu (response_data rpdu p.fn)
        states ← lift bad_pdu (decode_bits content (int (pos 1)))
        ok (state (get_or states 0 false)))
      else (do
        content ← lift bad_pdu (response_data rpdu p.fn)
        value ← lift bad_value (decode_value fl content p.dtype p.scale)
        ok (number value))

  unfoldable pub read_point : Bus → Port → Point → Bus × Result PointError Reading
  unfolding send_request read_request read_reply
  read_point bus port p =
      let (bus', reply) = send_request bus port p.unit (read_request p) in
      (bus', reply >>= read_reply p)

  -- What is published after a write: the value read back, unless the reading fails.
  abbrev pub published : Result PointError Reading → Option Reading
  published (ok r) = some r
  published (err e) = none

  abbrev pub conclude :
      Bus
      → Result PointError (Unit {0})
      → Bus × Result PointError Reading
      → Bus × Result PointError (Option Reading)
  conclude bus (err e) (later, reading) = (bus, err e)
  conclude bus (ok done) (later, reading) = (later, ok (published reading))

  -- The write on one state of the port, and the reading back on a later one.
  unfoldable pub write_point :
      Bus → Port → Port → Point → Value → Bus × Result PointError (Option Reading)
  unfolding send_request write_request acknowledged read_point
  write_point bus port later p v =
      let request = write_request p v in
      let (bus', reply) = send_request bus port p.unit request in
      conclude bus' (acknowledged request reply) (read_point bus' later p)
