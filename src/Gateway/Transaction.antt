-- ===== src/Gateway/Transaction.antt =====
-- app/engine/modbus_gateway.py, `_transaction` and `_read_rtu_response`: one request on the bus.
-- What the serial port does is an argument: whether it is open (within the response timeout),
-- what the reads give, one after the other, and whether the write succeeds.
pub mod Answer
use ser2net.Common.{
  ℕ, ◌+◌, Bool, not, Option, none, some, List, [], ◌∷◌, ◌++◌, ◌==◌, if◌then◌else◌, length, get_or,
}
use ser2net.Common.Result.{ok, err}
use ser2net.Modbus.Pdu.{exception_pdu, gateway_target_failed}
use ser2net.Modbus.Rtu.{rtu_wrap, rtu_unwrap}

-- One `await asyncio.wait_for(reader.read(...), timeout)`.
pub data Read : Type 0 where
  bytes : List ℕ → Read
  timed_out : Read
  failed : Read

-- Reads until a gap of silence, from the second one on; the list is what the port gives, and
-- silence follows its end. A read that fails raises.
unfoldable pub read_more : List ℕ → List Read → Option (List ℕ)
read_more buf [] = some buf
read_more buf (timed_out ∷ reads) = some buf
read_more buf (failed ∷ reads) = none
read_more buf (bytes [] ∷ reads) = some buf
read_more buf (bytes (b ∷ more) ∷ reads) = read_more (buf ++ (b ∷ more)) reads

-- `none` where the source raises (a timeout, the end of the port, or an error).
unfoldable pub read_rtu_response : List Read → Option (List ℕ)
unfolding read_more
read_rtu_response [] = none
read_rtu_response (timed_out ∷ reads) = none
read_rtu_response (failed ∷ reads) = none
read_rtu_response (bytes [] ∷ reads) = none
read_rtu_response (bytes (b ∷ first) ∷ reads) = read_more (b ∷ first) reads

-- The loop that discards stale bytes: it ends at the first silence, at the end of the port, or at
-- an error, which is suppressed. What is left is what the port gives from then on.
unfoldable pub discard : List Read → List Read
discard [] = []
discard (timed_out ∷ reads) = reads
discard (failed ∷ reads) = reads
discard (bytes [] ∷ reads) = reads
discard (bytes (b ∷ junk) ∷ reads) = discard reads

pub record Port : Type 0 where
  pub is_open : Bool
  pub write_succeeds : Bool
  pub reads : List Read

-- What the observers (monitors, trace, hex view) are shown.
pub data Shown : Type 0 where
  to_device from_device : List ℕ → Shown

pub record Bus : Type 0 where
  pub bytes_in : ℕ
  pub bytes_out : ℕ
  pub shown : List Shown

abbrev pub function_of : List ℕ → ℕ
function_of pdu = get_or pdu 0 0

abbrev pub no_answer : List ℕ → List ℕ
no_answer pdu = exception_pdu (function_of pdu) gateway_target_failed

-- The reply that goes to the master for the frame read.
unfoldable pub reply_of : ℕ → List ℕ → List ℕ → List ℕ
reply_of unit pdu frame = elim (rtu_unwrap frame) [
  | err e ↦ no_answer pdu
  | ok (runit, rpdu) ↦ if runit == unit then rpdu else no_answer pdu
]

-- After the request is on the wire.
unfoldable pub after_write : Bus → ℕ → List ℕ → Option (List ℕ) → Bus × List ℕ
unfolding reply_of
after_write bus unit pdu none = (bus, no_answer pdu)
after_write bus unit pdu (some frame) = (
  record bus {
    bytes_in = bus.bytes_in + length frame;
    shown = bus.shown ++ from_device frame ∷ [];
  },
  reply_of unit pdu frame,
)

unfoldable pub transaction : Bus → Port → ℕ → List ℕ → Bus × List ℕ
unfolding after_write read_rtu_response discard
transaction bus port unit pdu =
    let sent = rtu_wrap unit pdu in
    let seen = record bus { shown = bus.shown ++ to_device sent ∷ [] } in
    if not port.is_open
    then (bus, no_answer pdu)
    else if not port.write_succeeds
    then (seen, no_answer pdu)
    else after_write (record seen { bytes_out = bus.bytes_out + length sent }) unit pdu
        (read_rtu_response (discard port.reads))
