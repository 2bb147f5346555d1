-- ===== src/Gateway/Tests.antt =====
-- Concrete masters and serial ports, for the theorems about app/engine/modbus_gateway.py.
use ser2net.Common.{Option, ℕ, ◌*◌, ◌≡◌, refl, true, none, some, List, [], ◌∷◌, arith, ◌==◌}
use ser2net.Common.Result.{ok}
use ser2net.Common.Int.{pos}
use ser2net.Modbus.Crc.{crc_bit, crc_bits, crc_bytes, crc16}
use ser2net.Modbus.Tcp.{Frame, build_tcp_adu}
use mathlib.Core.List.{flatten}
use ser2net.Modbus.Rtu.{rtu_unwrap, rtu_wrap}
use ser2net.Modbus.Pdu.{exception_pdu, gateway_target_failed}
use ser2net.Gateway.Requests.{open_with, drain, receive_all}
use ser2net.Gateway.Requests.Fuel.{drain_enough}
use ser2net.Gateway.Requests.Chunks.{requests, receive_all-requests}
use ser2net.Gateway.Transaction.{
  discard, bytes, timed_out, Port, Bus, read_rtu_response, transaction,
}
use ser2net.Gateway.Transaction.Answer.{transaction-reply, transaction-corrupted}
use ser2net.Modbus.Pdu.{bool}
use ser2net.Modbus.Pdu.Write.{echo_of, register_bytes}
use ser2net.Modbus.Value.{Floats, uint16, whole, encode_value, int_range}
use ser2net.Gateway.Points.{Point, Reading, one, number, write_request, write_point, read_reply}
use ser2net.Gateway.Points.Echo.{write_point-echo}
use ser2net.Gateway.Points.Requests.{write_point-succeeds}
use ser2net.Gateway.Points.ReadBack.{reply_with, read_reply-encoded}
use ser2net.Gateway.Points.Validated.{IsPort, CanBeAsked, validate-CanBeAsked}
use ser2net.Config.{integer, real}
use ser2net.Config.Tests.{whole_floats, small_world, plant, plant_valid}
use ser2net.Gateway.Masters.{Masters}

abbrev two_frames : List Frame
two_frames =
    record { txn = 1; unit = 17; pdu = 3 ∷ [] } ∷ record { txn = 2; unit = 17; pdu = 7 ∷ [] } ∷ []

-- The two requests, cut inside the first header and inside the second.
abbrev cut_stream : List (List ℕ)
cut_stream =
    (0 ∷ 1 ∷ 0 ∷ []) ∷ (0 ∷ 0 ∷ 2 ∷ 17 ∷ 3 ∷ 0 ∷ 2 ∷ []) ∷ (0 ∷ 0 ∷ 0 ∷ 2 ∷ 17 ∷ 7 ∷ []) ∷ []

cut_requests : flatten cut_stream ≡ requests two_frames
unfolding requests build_tcp_adu flatten
cut_requests = refl

receive_all-requests_example :
    receive_all (open_with []) cut_stream ≡ record { frames = two_frames; conn = open_with [] }
receive_all-requests_example = receive_all-requests two_frames cut_stream (omega arith) cut_requests

drain_enough_example :
    drain 8 (0 ∷ 1 ∷ 0 ∷ 0 ∷ 0 ∷ 2 ∷ 17 ∷ 3 ∷ []) ≡ drain 9 (0 ∷ 1 ∷ 0 ∷ 0 ∷ 0 ∷ 2 ∷ 17 ∷ 3 ∷ [])
drain_enough_example =
    drain_enough 8 9 (0 ∷ 1 ∷ 0 ∷ 0 ∷ 0 ∷ 2 ∷ 17 ∷ 3 ∷ []) (omega arith) (omega arith)

abbrev quiet_bus : Bus
quiet_bus = record { bytes_in = 0; bytes_out = 0; shown = [] }

-- A reply that comes in two reads: unit 1, function 3, ten registers asked.
abbrev good_port : Port
good_port = record {
  is_open = true;
  write_succeeds = true;
  reads =
      bytes (9 ∷ [])
      ∷ timed_out
      ∷ bytes (1 ∷ 3 ∷ 0 ∷ [])
      ∷ bytes (0 ∷ 0 ∷ 10 ∷ 0xC5 ∷ 0xCD ∷ [])
      ∷ timed_out
      ∷ [];
}

wrapped : 1 ∷ 3 ∷ 0 ∷ 0 ∷ 0 ∷ 10 ∷ 0xC5 ∷ 0xCD ∷ [] ≡ rtu_wrap 1 (3 ∷ 0 ∷ 0 ∷ 0 ∷ 10 ∷ [])
unfolding rtu_wrap crc16 crc_bytes crc_bits crc_bit
wrapped = refl

transaction-reply_example : (transaction quiet_bus good_port 1 (3 ∷ [])).1 ≡ 3 ∷ 0 ∷ 0 ∷ 0 ∷ 10 ∷ []
transaction-reply_example =
    transaction-reply quiet_bus good_port 1 (3 ∷ []) 3 (0 ∷ 0 ∷ 0 ∷ 10 ∷ []) (1 ∷ 3 ∷ 0 ∷ [])
      ((0 ∷ 0 ∷ 10 ∷ 0xC5 ∷ 0xCD ∷ []) ∷ []) refl refl (unfold discard in refl) (omega arith)
      wrapped (omega arith) (omega arith)

abbrev noisy_port : Port
noisy_port = record {
  is_open = true;
  write_succeeds = true;
  reads = timed_out ∷ bytes (1 ∷ 3 ∷ 0 ∷ 1 ∷ 0 ∷ 10 ∷ 0xC5 ∷ 0xCD ∷ []) ∷ timed_out ∷ [];
}

noisy_read :
    read_rtu_response (discard noisy_port.reads) ≡ some (1 ∷ 3 ∷ 0 ∷ 1 ∷ 0 ∷ 10 ∷ 0xC5 ∷ 0xCD ∷ [])
unfolding read_rtu_response discard
noisy_read = refl

sent_frame :
    rtu_unwrap (1 ∷ 3 ∷ 0 ∷ 0 ∷ 0 ∷ 10 ∷ 0xC5 ∷ 0xCD ∷ []) ≡ ok (1, 3 ∷ 0 ∷ 0 ∷ 0 ∷ 10 ∷ [])
unfolding rtu_unwrap crc16 crc_bytes crc_bits crc_bit
sent_frame = refl

transaction-corrupted_example :
    (transaction quiet_bus noisy_port 1 (3 ∷ [])).1 ≡ exception_pdu 3 gateway_target_failed
transaction-corrupted_example =
    transaction-corrupted quiet_bus noisy_port 1 (3 ∷ []) (1 ∷ 3 ∷ 0 ∷ [])
      (0 ∷ 10 ∷ 0xC5 ∷ 0xCD ∷ []) 0 1 refl refl noisy_read (omega arith) (omega arith) (omega arith)
      (omega arith) (omega arith) sent_frame

-- Whole numbers in place of the doubles.
abbrev number_floats : Floats
number_floats = record {
  F = ℕ;
  is_finite = λ x. true;
  is_zero = λ x. x == 0;
  is_one = λ x. x == 1;
  of_int = λ v. none;
  times = λ x y. x * y;
  over = λ x y. x;
  round = pos;
  pack32 = λ x. some x;
  unpack32 = λ p. p;
}

abbrev coil_point : Point number_floats
coil_point = record { unit = 1; fn = 1; address = 19; dtype = uint16; scale = 1; writable = true }

abbrev register_point : Point number_floats
register_point = record coil_point { fn = 3 }

-- The slave echoes the write of a coil, and then stays silent.
abbrev echoing_port : Port
echoing_port = record {
  is_open = true;
  write_succeeds = true;
  reads = timed_out ∷ bytes (rtu_wrap 1 (5 ∷ 0 ∷ 19 ∷ 255 ∷ 0 ∷ [])) ∷ timed_out ∷ [];
}

abbrev silent_port : Port
silent_port = record { is_open = true; write_succeeds = true; reads = timed_out ∷ timed_out ∷ [] }

coil_written :
    (write_point number_floats quiet_bus echoing_port silent_port coil_point (one (bool true))).1
    ≡ ok none
unfolding write_point rtu_wrap rtu_unwrap crc16 crc_bytes crc_bits crc_bit exception_pdu
coil_written = refl

write_point-echo_example :
    (pdu : List ℕ) × (write_request number_floats coil_point (one (bool true)) ≡ ok pdu)
    × ((transaction quiet_bus echoing_port 1 pdu).1 ≡ echo_of pdu)
write_point-echo_example =
    write_point-echo number_floats quiet_bus echoing_port silent_port coil_point (one (bool true))
      coil_written

coil_requested :
    write_request number_floats coil_point (one (bool true)) ≡ ok (5 ∷ 0 ∷ 19 ∷ 255 ∷ 0 ∷ [])
unfolding write_request
coil_requested = refl

coil_echoed :
    (transaction quiet_bus echoing_port 1 (5 ∷ 0 ∷ 19 ∷ 255 ∷ 0 ∷ [])).1
    ≡ echo_of (5 ∷ 0 ∷ 19 ∷ 255 ∷ 0 ∷ [])
unfolding transaction rtu_wrap rtu_unwrap crc16 crc_bytes crc_bits crc_bit exception_pdu
coil_echoed = refl

write_point-succeeds_example :
    (o : Option (Reading number_floats)) × ((write_point number_floats quiet_bus echoing_port
        silent_port coil_point
        (one (bool true))).1
      ≡ ok o)
write_point-succeeds_example =
    write_point-succeeds number_floats quiet_bus echoing_port silent_port coil_point
      (one (bool true)) (5 ∷ 0 ∷ 19 ∷ 255 ∷ 0 ∷ []) coil_requested coil_echoed

three_hundred : encode_value number_floats (whole (pos 300)) uint16 1 ≡ ok (300 ∷ [])
unfolding encode_value
three_hundred = refl

read_reply-encoded_example :
    read_reply number_floats register_point (reply_with 3 (register_bytes (300 ∷ [])))
    ≡ ok (number (whole (pos 300)))
unfolding int_range
read_reply-encoded_example =
    read_reply-encoded number_floats register_point (pos 300) (300 ∷ []) refl (omega arith) refl
      refl refl three_hundred

abbrev one_slot : Masters
one_slot = record { connected = []; max_connections = 1; allowed = [] }

-- The point `level` of the mapping `plant`.
abbrev level : Point number_floats
level = record { unit = 1; fn = 3; address = 16; dtype = uint16; scale = 1; writable = true }

validate-CanBeAsked_example :
    (plant.kind ≡ "net")
    × (plant.network.protocol ≡ "modbus")
    × (plant.network.mode ≡ "server")
    × IsPort whole_floats number_floats small_world plant.network.port
    × CanBeAsked whole_floats number_floats small_world level
validate-CanBeAsked_example =
    validate-CanBeAsked whole_floats number_floats small_world plant
      (record {
        name = "level";
        unit = integer (pos 1);
        fn = integer (pos 3);
        address = integer (pos 16);
        dtype = "uint16";
        scale = real 1;
        writable = true;
      })
      level [] [] plant_valid refl (record { unit = refl; fn = refl; address = refl; dtype = refl })
