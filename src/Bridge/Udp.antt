-- ===== src/Bridge/Udp.antt =====
-- app/engine/bridge.py, `_UdpBridge` and `_UdpPeer`: the datagram bridge, with its open transport.
-- The transport is the list of the datagrams sent, the serial port the bytes written to it, if it is
-- open.
use ser2net.Common.{
  ℕ, ◌+◌, ◌≡◌, refl, Bool, true, not, ◌||◌, Option, none, some, List, [], ◌∷◌, ◌++◌, arith,
  if◌then◌else◌, if-elim, length, All,
}
use ser2net.Bridge.Access.{Address, Network, client_allowed}

pub record Endpoint : Type 0 where
  pub ip : Address
  pub port : ℕ

pub record Udp : Type 0 where
  pub allowed : List Network
  pub read_only : Bool
  pub serial_open : Bool
  pub peer : Option Endpoint
  pub sent : List (Endpoint × List ℕ)
  pub to_serial : List ℕ
  pub bytes_in : ℕ
  pub bytes_out : ℕ

-- A first sender becomes the peer, and a later one takes its place.
unfoldable pub datagram_received : Udp → List ℕ → Endpoint → Udp
unfolding client_allowed
datagram_received u bytes from =
    let known = record u { peer = some from } in
    if not (client_allowed u.allowed from.ip)
    then u
    else if u.read_only || not u.serial_open
    then known
    else record known { to_serial = u.to_serial ++ bytes; bytes_out = u.bytes_out + length bytes }

-- `feed_from_serial` of the peer, if there is one.
unfoldable pub broadcast : Udp → List ℕ → Option Endpoint → Udp
broadcast u bytes none = u
broadcast u bytes (some to) = record u {
  sent = u.sent ++ (to, bytes) ∷ [];
  bytes_in = u.bytes_in + length bytes;
}

pub data UdpEvent : Type 0 where
  datagram : List ℕ → Endpoint → UdpEvent
  serial : List ℕ → UdpEvent

unfoldable pub exchange : Udp → UdpEvent → Udp
unfolding datagram_received broadcast
exchange u (datagram bytes from) = datagram_received u bytes from
exchange u (serial bytes) = broadcast u bytes u.peer

unfoldable pub exchange_all : Udp → List UdpEvent → Udp
unfolding exchange
exchange_all u [] = u
exchange_all u (e ∷ events) = exchange_all (exchange u e) events

-- Serial data has gone to allowed addresses only, and will.
pub record IsPrivate (nets : List Network) (u : Udp) : Type 0 where
  pub same_nets : u.allowed ≡ nets
  pub peer_allowed : (to : Endpoint) → u.peer ≡ some to → client_allowed nets to.ip ≡ true
  pub sent_allowed : All (λ (s : Endpoint × List ℕ). client_allowed nets s.0.ip ≡ true) u.sent

sent_one :
    (nets : List Network) (sent : List (Endpoint × List ℕ)) (to : Endpoint) (bytes : List ℕ)
    → client_allowed nets to.ip ≡ true
    → All (λ (s : Endpoint × List ℕ). client_allowed nets s.0.ip ≡ true) sent
    → All (λ (s : Endpoint × List ℕ). client_allowed nets s.0.ip ≡ true) (sent ++ (to, bytes) ∷ [])
sent_one nets [] to bytes h all = (h, tt)
sent_one nets (s ∷ sent) to bytes h all = (all.0, sent_one nets sent to bytes h all.1)

datagram-IsPrivate :
    (nets : List Network) (u : Udp) (bytes : List ℕ) (from : Endpoint)
    → IsPrivate nets u
    → IsPrivate nets (datagram_received u bytes from)
unfolding datagram_received
datagram-IsPrivate nets u bytes from v =
    if-elim (IsPrivate nets) (not (client_allowed u.allowed from.ip)) (λ _. v)
      λ listed.
        let ok_ip : client_allowed nets from.ip ≡ true = rw (← v.same_nets) (ground arith) in
        let named : (to : Endpoint) → some from ≡ some to → client_allowed nets to.ip ≡ true =
          λ to e. let same : from ≡ to = cc in rw (← same) ok_ip in
        if-elim (IsPrivate nets) (u.read_only || not u.serial_open)
          (λ _. record {
            same_nets = v.same_nets;
            peer_allowed = named;
            sent_allowed = v.sent_allowed;
          })
          (λ _. record {
            same_nets = v.same_nets;
            peer_allowed = named;
            sent_allowed = v.sent_allowed;
          })

broadcast-IsPrivate :
    (nets : List Network) (u : Udp) (bytes : List ℕ) (o : Option Endpoint)
    → u.peer ≡ o
    → IsPrivate nets u
    → IsPrivate nets (broadcast u bytes o)
unfolding broadcast
broadcast-IsPrivate nets u bytes none e v = v
broadcast-IsPrivate nets u bytes (some to) e v = record {
  same_nets = v.same_nets;
  peer_allowed = v.peer_allowed;
  sent_allowed = sent_one nets u.sent to bytes (v.peer_allowed to e) v.sent_allowed;
}

-- Over any datagrams and serial data, a bridge that has sent serial data to allowed addresses only,
-- and whose peer is allowed, goes on so: no other sender ever becomes the peer or is sent any.
pub exchange_all-IsPrivate :
    (nets : List Network) (u : Udp) (events : List UdpEvent)
    → IsPrivate nets u
    → IsPrivate nets (exchange_all u events)
unfolding exchange_all exchange
exchange_all-IsPrivate nets u [] v = v
exchange_all-IsPrivate nets u (datagram bytes from ∷ events) v =
    exchange_all-IsPrivate nets (datagram_received u bytes from) events
      (datagram-IsPrivate nets u bytes from v)
exchange_all-IsPrivate nets u (serial bytes ∷ events) v =
    exchange_all-IsPrivate nets (broadcast u bytes u.peer) events
      (broadcast-IsPrivate nets u bytes u.peer refl v)
