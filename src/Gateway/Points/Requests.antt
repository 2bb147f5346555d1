-- ===== src/Gateway/Points/Requests.antt =====
-- app/engine/modbus_gateway.py, `write_point`: the requests that it builds, and when the write
-- goes through.
use ser2net.Common.{
  ℕ, ◌≤◌, ◌≡◌, refl, ap, ◌∙◌, Bool, true, false, not, Option, List, [], ◌∷◌, arith, ◌==◌,
  if◌then◌else◌, length, get_or,
}
use ser2net.Common.Result.{Result, ok, err, ◌>>=◌, >>=-ok, ok-injective}
use ser2net.Common.Int.{pos}
use ser2net.Modbus.Pdu.{
  PyValue, int, address, coil_count, register_count, register_value, check_int, check_span,
  coil_state,
}
use ser2net.Modbus.Pdu.{other, read_coils}
use ser2net.Modbus.Value.{Floats, encode_value}
use ser2net.Modbus.Pdu.Write.{echo_of}
use ser2net.Modbus.Pdu.Write.Reply.{check_write_response-echo}
use ser2net.Gateway.Transaction.{Port, Bus, transaction}
use ser2net.Gateway.Points.{
  PointError, bad_pdu, bad_value, not_writable, lift, registers, Point, Value, several, one, float,
  as_number, Reading, coil_request, register_request, write_request, send_request, acknowledged,
  conclude, published, read_point, write_point,
}
use ser2net.Gateway.Points.Echo.{lift_ok}
use ser2net.Modbus.Pdu.Write.{
  is_write_function, write_single_coil_pdu, write_single_register_pdu, coil_states,
  write_multiple_coils_pdu, check_registers, write_multiple_registers_pdu,
}

-- What `check_write_response` asks of a request.
abbrev pub IsWriteRequest : List ℕ → Type 0
IsWriteRequest pdu = (5 ≤ length pdu) × (is_write_function (get_or pdu 0 0) ≡ true)

single_coil-IsWriteRequest :
    (addr on : PyValue) {pdu : List ℕ} → write_single_coil_pdu addr on ≡ ok pdu → IsWriteRequest pdu
unfolding write_single_coil_pdu
single_coil-IsWriteRequest addr on h =
    let (a, ea, h1) = >>=-ok (check_int addr 0 0xFFFF address) _ h in
    let (state, es, h2) = >>=-ok (coil_state on) _ h1 in rw (← ok-injective h2) (omega arith, refl)

single_register-IsWriteRequest :
    (addr raw : PyValue) {pdu : List ℕ}
    → write_single_register_pdu addr raw ≡ ok pdu
    → IsWriteRequest pdu
unfolding write_single_register_pdu
single_register-IsWriteRequest addr raw h =
    let (a, ea, h1) = >>=-ok (check_int addr 0 0xFFFF address) _ h in
    let (r, er, h2) = >>=-ok (check_int raw 0 0xFFFF register_value) _ h1 in
    rw (← ok-injective h2) (omega arith, refl)

multiple_coils-IsWriteRequest :
    (addr : PyValue) (values : List PyValue) {pdu : List ℕ}
    → write_multiple_coils_pdu addr values ≡ ok pdu
    → IsWriteRequest pdu
unfolding write_multiple_coils_pdu
multiple_coils-IsWriteRequest addr values h =
    let (states, es, h1) = >>=-ok (coil_states values) _ h in
    let (count, ec, h2) = >>=-ok (check_int (int (pos (length states))) 1 1968 coil_count) _ h1 in
    let (a, ea, h3) = >>=-ok (check_span addr count) _ h2 in
    rw (← ok-injective h3) (omega arith, refl)

multiple_registers-IsWriteRequest :
    (addr : PyValue) (values : List PyValue) {pdu : List ℕ}
    → write_multiple_registers_pdu addr values ≡ ok pdu
    → IsWriteRequest pdu
unfolding write_multiple_registers_pdu
multiple_registers-IsWriteRequest addr values h =
    let (regs, es, h1) = >>=-ok (check_registers values) _ h in
    let (count, ec, h2) = >>=-ok (check_int (int (pos (length regs))) 1 123 register_count) _ h1 in
    let (a, ea, h3) = >>=-ok (check_span addr count) _ h2 in
    rw (← ok-injective h3) (omega arith, refl)

coil_request-IsWriteRequest :
    (fl : Floats) (addr : ℕ) (v : Value fl) {pdu : List ℕ}
    → coil_request fl addr v ≡ ok pdu
    → IsWriteRequest pdu
unfolding coil_request
coil_request-IsWriteRequest fl addr (several values) h =
    multiple_coils-IsWriteRequest (int (pos addr)) values h
coil_request-IsWriteRequest fl addr (one v) h = single_coil-IsWriteRequest (int (pos addr)) v h
coil_request-IsWriteRequest fl addr (float x) h =
    single_coil-IsWriteRequest (int (pos addr)) other h

register_request-IsWriteRequest :
    (fl : Floats) (addr : ℕ) (regs : List ℕ) {pdu : List ℕ}
    → register_request fl addr regs ≡ ok pdu
    → IsWriteRequest pdu
unfolding register_request
register_request-IsWriteRequest fl addr [] h =
    multiple_registers-IsWriteRequest (int (pos addr)) [] h
register_request-IsWriteRequest fl addr (r ∷ []) h =
    single_register-IsWriteRequest (int (pos addr)) (int (pos r)) h
register_request-IsWriteRequest fl addr (r ∷ s ∷ rest) h =
    multiple_registers-IsWriteRequest (int (pos addr)) (registers (r ∷ s ∷ rest)) h

built :
    (fl : Floats) (p : Point fl) (v : Value fl) {pdu : List ℕ} (writable coils : Bool)
    → (if not writable
        then err not_writable
        else if coils
        then lift bad_pdu (coil_request fl p.address v)
        else (do
          regs ← lift bad_value (encode_value fl (as_number fl v) p.dtype p.scale)
          lift bad_pdu (register_request fl p.address regs)))
      ≡ ok pdu
    → IsWriteRequest pdu
built fl p v false coils h = absurd (cc)
built fl p v true true h =
    coil_request-IsWriteRequest fl p.address v (lift_ok bad_pdu (coil_request fl p.address v) h)
built fl p v true false h =
    let encoded = lift bad_value (encode_value fl (as_number fl v) p.dtype p.scale) in
    let (regs, e, h1) = >>=-ok encoded _ h in
    register_request-IsWriteRequest fl p.address regs
      (lift_ok bad_pdu (register_request fl p.address regs) h1)

pub write_request-IsWriteRequest :
    (fl : Floats) (p : Point fl) (v : Value fl) {pdu : List ℕ}
    → write_request fl p v ≡ ok pdu
    → IsWriteRequest pdu
unfolding write_request
write_request-IsWriteRequest fl p v h = built fl p v p.writable (p.fn == read_coils) h

acknowledged-echo_of :
    (request reply : Result PointError (List ℕ)) (pdu : List ℕ)
    → IsWriteRequest pdu
    → request ≡ ok pdu
    → reply ≡ ok (echo_of pdu)
    → acknowledged request reply ≡ ok tt
unfolding acknowledged
acknowledged-echo_of request reply pdu (long, writes) asked answered =
    let checked = (check_write_response-echo (echo_of pdu) pdu long writes).1 refl in
    rw (asked, answered, checked) refl

send_request-ok :
    (bus : Bus) (port : Port) (unit : ℕ) (request : Result PointError (List ℕ)) (pdu : List ℕ)
    → request ≡ ok pdu
    → (send_request bus port unit request).1 ≡ ok (transaction bus port unit pdu).1
unfolding send_request
send_request-ok bus port unit request pdu asked = rw (asked) refl

conclude-ok :
    (fl : Floats) (bus : Bus) (ack : Result PointError (Unit {0}))
    (read : Bus × Result PointError (Reading fl))
    → ack ≡ ok tt
    → (o : Option (Reading fl)) × ((conclude fl bus ack read).1 ≡ ok o)
conclude-ok fl bus (ok tt) (later, reading) h = (published fl reading, refl)
conclude-ok fl bus (err e) read h = absurd (cc)

-- When the request for the value can be built and the slave answers it with its echo, `write_point`
-- succeeds, whatever the reading back gives.
pub write_point-succeeds :
    (fl : Floats) (bus : Bus) (port later : Port) (p : Point fl) (v : Value fl) (pdu : List ℕ)
    → write_request fl p v ≡ ok pdu
    → (transaction bus port p.unit pdu).1 ≡ echo_of pdu
    → (o : Option (Reading fl)) × ((write_point fl bus port later p v).1 ≡ ok o)
unfolding write_point
write_point-succeeds fl bus port later p v pdu asked echo =
    let request = write_request fl p v in
    let sent = send_request bus port p.unit request in
    let answered = send_request-ok bus port p.unit request pdu asked ∙ ap ok echo in
    conclude-ok fl sent.0 (acknowledged request sent.1) (read_point fl sent.0 later p) (
      acknowledged-echo_of request sent.1 pdu (write_request-IsWriteRequest fl p v asked) asked
        answered)
