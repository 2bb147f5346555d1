-- ===== src/Gateway/Points/Echo.antt =====
-- app/engine/modbus_gateway.py, `write_point`: when a write counts as done.
use ser2net.Common.{ℕ, ◌≤◌, ◌≡◌, refl, ◌∙◌, true, Option, List, arith, length, get_or}
use ser2net.Common.Result.{Result, ok, err, >>=-ok}
use ser2net.Modbus.Pdu.Write.{is_write_function, check_write_response, echo_of}
use ser2net.Modbus.Pdu.Write.Reply.{check_write_response-echo}
use ser2net.Modbus.Value.{Floats}
use ser2net.Gateway.Transaction.{Port, Bus, transaction}
use ser2net.Gateway.Points.{
  PointError, lift, Point, Value, Reading, write_request, send_request, acknowledged, conclude,
  read_point, write_point,
}

checked_request :
    (pdu request : List ℕ)
    → check_write_response pdu request ≡ ok tt
    → (5 ≤ length request) × (is_write_function (get_or request 0 0) ≡ true)
unfolding check_write_response
checked_request pdu request h = ground arith

pub lift_ok {ℓ} :
    {E : Type 0} {A : Type ℓ} (f : E → PointError) (r : Result E A) {a : A}
    → lift f r ≡ ok a
    → r ≡ ok a
lift_ok f (ok a) h = cc
lift_ok f (err e) h = absurd (cc)

acknowledged-echo :
    (request reply : Result PointError (List ℕ))
    → acknowledged request reply ≡ ok tt
    → (pdu : List ℕ) × (rpdu : List ℕ) × (request ≡ ok pdu)
      × (reply ≡ ok rpdu)
      × (rpdu ≡ echo_of pdu)
unfolding acknowledged
acknowledged-echo request reply h =
    let (pdu, asked, h1) = >>=-ok request _ h in
    let (rpdu, answered, h2) = >>=-ok reply _ h1 in
    let checked = lift_ok _ (check_write_response rpdu pdu) h2 in
    let (long, writes) = checked_request rpdu pdu checked in
    (pdu, rpdu, asked, answered, (check_write_response-echo rpdu pdu long writes).0 checked)

send_request_ok :
    (bus : Bus) (port : Port) (unit : ℕ) (request : Result PointError (List ℕ)) (pdu rpdu : List ℕ)
    → request ≡ ok pdu
    → (send_request bus port unit request).1 ≡ ok rpdu
    → (transaction bus port unit pdu).1 ≡ rpdu
unfolding send_request
send_request_ok bus port unit (ok q) pdu rpdu asked h = let same : q ≡ pdu = cc in rw (← same) (cc)
send_request_ok bus port unit (err e) pdu rpdu asked h = absurd (cc)

conclude_ok :
    (fl : Floats) (bus : Bus) (ack : Result PointError (Unit {0}))
    (read : Bus × Result PointError (Reading fl)) {o : Option (Reading fl)}
    → (conclude fl bus ack read).1 ≡ ok o
    → ack ≡ ok tt
conclude_ok fl bus (ok tt) (later, reading) h = refl
conclude_ok fl bus (err e) (later, reading) h = absurd (cc)

-- When `write_point` succeeds, the request for the value was built, and the slave answered it with
-- its echo.
pub write_point-echo :
    (fl : Floats) (bus : Bus) (port later : Port) (p : Point fl) (v : Value fl)
    {o : Option (Reading fl)}
    → (write_point fl bus port later p v).1 ≡ ok o
    → (pdu : List ℕ) × (write_request fl p v ≡ ok pdu)
      × ((transaction bus port p.unit pdu).1 ≡ echo_of pdu)
unfolding write_point
write_point-echo fl bus port later p v h =
    let request = write_request fl p v in
    let sent = send_request bus port p.unit request in
    let (pdu, rpdu, asked, answered, echo) =
      acknowledged-echo request sent.1
        (conclude_ok fl sent.0 (acknowledged request sent.1) (read_point fl sent.0 later p) h) in
    (pdu, asked, send_request_ok bus port p.unit request pdu rpdu asked answered ∙ echo)
