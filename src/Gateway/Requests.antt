-- ===== src/Gateway/Requests.antt =====
-- app/engine/modbus_gateway.py, the read loop of `_on_client`: the buffer of one master and the
-- frames that are taken from it, each of which is one transaction.
pub mod Fuel
pub mod Chunks
use ser2net.Common.{ℕ, zero, suc, none, some, List, [], ◌∷◌, ◌++◌, length}
use ser2net.Common.Result.{ok, err}
use ser2net.Modbus.Tcp.{Frame, TcpError, take_tcp_adu}

-- A connection buffers what no complete frame has taken, until a framing error closes it.
pub data Conn : Type 0 where
  open_with : List ℕ → Conn
  closed : TcpError → Conn

pub record Progress : Type 0 where
  pub frames : List Frame
  pub conn : Conn

abbrev pub before : Frame → Progress → Progress
before f p = record p { frames = f ∷ p.frames }

-- The inner loop, `while True: frame = take_tcp_adu(buf) ...`, on fuel.
unfoldable pub drain : ℕ → List ℕ → Progress
drain zero buf = record { frames = []; conn = open_with buf }
drain (suc fuel) buf = elim (take_tcp_adu buf) [
  | err e ↦ record { frames = []; conn = closed e }
  | ok (none, rest) ↦ record { frames = []; conn = open_with rest }
  | ok (some f, rest) ↦ before f (drain fuel rest)
]

-- One round of the outer loop on a read that gave data, `buf += data` and the inner loop. An empty
-- read, which ends the loop, is no round. Each frame takes at least seven
-- bytes, so as many rounds as there are bytes are enough.
unfoldable pub receive : Conn → List ℕ → Progress
unfolding drain
receive (closed e) chunk = record { frames = []; conn = closed e }
receive (open_with buf) chunk = drain (length (buf ++ chunk)) (buf ++ chunk)

unfoldable pub receive_all : Conn → List (List ℕ) → Progress
unfolding receive
receive_all conn [] = record { frames = []; conn = conn }
receive_all conn (chunk ∷ chunks) =
    let now = receive conn chunk in
    let later = receive_all now.conn chunks in
    record { frames = now.frames ++ later.frames; conn = later.conn }
