-- ===== src/Bridge/Admission.antt =====
-- app/engine/bridge.py, `_on_client` and `_pick_victim`: who gets a connection slot.
-- The set of clients is a list; times are numbers that only grow.
pub mod Victim
pub mod Slots
pub mod Room
use ser2net.Common.{
  ℕ, ◌+◌, Bool, true, false, not, ◌||◌, Option, none, some, List, [], ◌∷◌, ◌++◌, ltb, leb, ◌==◌,
  if◌then◌else◌, length,
}
use ser2net.Bridge.Access.{Address, Network, ip_in_nets, client_allowed}

pub record Peer : Type 0 where
  pub id : ℕ
  pub priority : Bool
  pub connected_at : ℕ
  pub closing : Bool

pub record Runner : Type 0 where
  pub clients : List Peer
  pub max_connections : ℕ
  pub kick_old_user : Bool
  pub allowed : List Network
  pub priority_nets : List Network

unfoldable pub non_priority : List Peer → List Peer
non_priority [] = []
non_priority (p ∷ ps) = if p.priority then non_priority ps else p ∷ non_priority ps

-- `min(pool, key=connected_at)`: the first of the smallest, behind a first candidate.
unfoldable pub oldest : Peer → List Peer → Peer
oldest best [] = best
oldest best (p ∷ ps) = oldest (if ltb p.connected_at best.connected_at then p else best) ps

unfoldable pub min_of : List Peer → Option Peer
unfolding oldest
min_of [] = none
min_of (p ∷ ps) = some (oldest p ps)

-- `non_priority or list(self._clients)`
abbrev pub pool_of : List Peer → List Peer → List Peer
pool_of [] clients = clients
pool_of (p ∷ ps) clients = p ∷ ps

unfoldable pub pick_victim : List Peer → Option Peer
unfolding min_of non_priority
pick_victim clients = min_of (pool_of (non_priority clients) clients)

-- `victim.kick(...)`
unfoldable pub kick_peer : ℕ → List Peer → List Peer
kick_peer id [] = []
kick_peer id (p ∷ ps) = (if p.id == id then record p { closing = true } else p) ∷ kick_peer id ps

pub data Verdict : Type 0 where
  not_allowed busy : Verdict
  admitted : Option Peer → Verdict

-- What a new connection may do, before anything is awaited.
unfoldable pub decide : Runner → Address → Verdict
unfolding pick_victim client_allowed ip_in_nets
decide r ip =
    if not (client_allowed r.allowed ip)
    then not_allowed
    else if leb r.max_connections (length r.clients)
    then if ip_in_nets ip r.priority_nets || r.kick_old_user
      then admitted (pick_victim r.clients)
      else busy
    else admitted none

unfoldable pub kick_victim : Runner → Option Peer → Runner
unfolding kick_peer
kick_victim r none = r
kick_victim r (some victim) = record r { clients = kick_peer victim.id r.clients }

-- The client is created and added.
unfoldable pub join : Runner → ℕ → Address → ℕ → Runner
unfolding ip_in_nets
join r id ip now = record r { clients = r.clients ++ client ∷ [] }
  where
    client : Peer
    client = record {
      id = id;
      priority = ip_in_nets ip r.priority_nets;
      connected_at = now;
      closing = false;
    }

unfoldable pub settle : Runner → Verdict → ℕ → Address → ℕ → Runner
unfolding kick_victim join
settle r not_allowed id ip now = r
settle r busy id ip now = r
settle r (admitted victim) id ip now = join (kick_victim r victim) id ip now

-- A connection of a protocol that waits for nothing.
unfoldable pub on_client : Runner → ℕ → Address → ℕ → Runner
unfolding settle decide
on_client r id ip now = settle r (decide r ip) id ip now

-- `self._clients.discard(client)`, when the client's session has ended.
unfoldable pub leave : ℕ → List Peer → List Peer
leave id [] = []
leave id (p ∷ ps) = if p.id == id then leave id ps else p ∷ leave id ps

-- The clients that have not been told to close.
unfoldable pub live : List Peer → ℕ
live [] = 0
live (p ∷ ps) = (if p.closing then 0 else 1) + live ps
