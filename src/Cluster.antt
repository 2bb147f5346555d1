-- ===== src/Cluster.antt =====
-- app/engine/cluster.py: the peers of a node and the addresses it may reach, and
-- `parse_cluster_peer` of app/config.py. Texts are lists of code points. The encodings and the
-- signature are parameters.
pub mod Known
pub mod Reach
mod Tests
use ser2net.Common.{
  ℕ, ◌-◌, ◌*◌, Bool, true, false, not, ◌&&◌, ◌||◌, Option, none, some, List, [], ◌∷◌, ◌++◌, leb,
  ltb, ◌==◌, is_nil, bytes_eq, if◌then◌else◌,
}
use ser2net.Common.Int.{ℤ, pos, negsuc, same_int}
use ser2net.Common.Texts.{codes, strip, is_any_of}

-- In nanoseconds, as the times.
abbrev pub peer_ttl : ℕ
peer_ttl = 20 * 1000000000

abbrev pub loopback : List (List ℕ)
loopback = codes "0.0.0.0" ∷ codes "::" ∷ codes "127.0.0.1" ∷ codes "localhost" ∷ [] ∷ []

-- The fields of a beacon, as `handle_datagram` turns them into texts and numbers.
pub record Beacon : Type 0 where
  pub id : List ℕ
  pub name : List ℕ
  pub ip : List ℕ
  pub port : ℤ
  pub scheme : List ℕ

-- `envelope` gives the texts of `d` and `s` of a datagram, `beacon` the fields of a body, if neither
-- raises. `sign` is `_sign`, `lower` and `int_of` are `str.lower` and `int`.
pub record Library : Type 0 where
  pub envelope : List ℕ → Option (List ℕ × List ℕ)
  pub beacon : List ℕ → Option Beacon
  pub sign : List ℕ → List ℕ → List ℕ
  pub lower : List ℕ → List ℕ
  pub int_of : List ℕ → Option ℤ

pub record Peer : Type 0 where
  pub id : List ℕ
  pub name : List ℕ
  pub ip : List ℕ
  pub port : ℤ
  pub scheme : List ℕ
  pub last_seen : ℕ

-- A datagram, from where it came and when; `source` is empty without an address.
pub record Datagram : Type 0 where
  pub payload : List ℕ
  pub source : List ℕ
  pub time : ℕ

-- What of the configuration the code reads.
pub record Node : Type 0 where
  pub instance_id : List ℕ
  pub key : List ℕ
  pub peers : List (List ℕ)

-- `self._peers[p["id"]] = p`
abbrev pub put_peer : Peer → List Peer → List Peer
put_peer p [] = p ∷ []
put_peer p (q ∷ peers) =
    let rest = put_peer p peers in if bytes_eq q.id p.id then p ∷ peers else q ∷ rest

abbrev pub address_of : List ℕ → List ℕ → List ℕ
address_of ip source = if is_any_of ip loopback && not (is_nil source) then source else ip

abbrev pub scheme_of : List ℕ → List ℕ
scheme_of scheme =
    if is_any_of scheme (codes "http" ∷ codes "https" ∷ []) then scheme else codes "http"

-- The part of a text before its last `:`, and what follows.
abbrev pub rpartition : List ℕ → Option (List ℕ × List ℕ)
rpartition [] = none
rpartition (c ∷ cs) = elim (rpartition cs) [
  | none ↦ if c == b':' then some ([], cs) else none
  | some later ↦ some (c ∷ later.0, later.1)
]

-- The part of a text before its first `://`, and what follows.
abbrev pub split_scheme : List ℕ → Option (List ℕ × List ℕ)
split_scheme [] = none
split_scheme (c ∷ cs) =
    let later = split_scheme cs in
    elim (starts cs) [
      | none ↦ elim later [ none ↦ none | some l ↦ some (c ∷ l.0, l.1) ]
      | some rest ↦
          if c == b':'
          then some ([], rest)
          else elim later [ none ↦ none | some l ↦ some (c ∷ l.0, l.1) ]
    ]
  where
    starts : List ℕ → Option (List ℕ)
    starts [] = none
    starts (a ∷ []) = none
    starts (a ∷ b ∷ rest) = if a == b'/' && b == b'/' then some rest else none

pub record Target : Type 0 where
  pub scheme : List ℕ
  pub ip : List ℕ
  pub port : ℤ
  pub is_auto : Bool

abbrev pub auto_targets : List Peer → List Target
auto_targets [] = []
auto_targets (p ∷ ps) =
    record { scheme = p.scheme; ip = p.ip; port = p.port; is_auto = true } ∷ auto_targets ps

abbrev pub is_seen : Target → List Target → Bool
is_seen t [] = false
is_seen t (u ∷ seen) = bytes_eq t.ip u.ip && same_int t.port u.port || is_seen t seen

abbrev pub add_manual : List Target → List Target → List Target
add_manual targets [] = targets
add_manual targets (m ∷ manual) =
    let skipped = add_manual targets manual in
    let added = add_manual (targets ++ (m ∷ [])) manual in
    if is_seen m targets then skipped else added

module _ (lib : Library) where
  open lib use {envelope, beacon, sign, lower, int_of}

  abbrev pub known_peer : Node → Datagram → Option Beacon → Option Peer
  known_peer node d none = none
  known_peer node d (some b) =
      if is_nil b.id || bytes_eq b.id node.instance_id
      then none
      else some (record {
        id = b.id;
        name = b.name;
        ip = address_of (strip b.ip) d.source;
        port = b.port;
        scheme = scheme_of b.scheme;
        last_seen = d.time;
      })

  abbrev pub verified : Node → Datagram → Option (List ℕ × List ℕ) → Option Peer
  verified node d none = none
  verified node d (some (body, sig)) =
      if bytes_eq (sign node.key body) sig then known_peer node d (beacon body) else none

  -- The peer that a datagram tells of, if it is accepted.
  unfoldable pub peer_of : Node → Datagram → Option Peer
  unfolding strip
  peer_of node d = if is_nil node.key then none else verified node d (envelope d.payload)

  abbrev pub add_peer : Option Peer → List Peer → List Peer
  add_peer none peers = peers
  add_peer (some p) peers = put_peer p peers

  unfoldable pub handle_datagram : Node → Datagram → List Peer → List Peer
  unfolding peer_of
  handle_datagram node d peers = add_peer (peer_of node d) peers

  -- The peers that are alive.
  abbrev pub live : ℕ → List Peer → List Peer
  live now [] = []
  live now (p ∷ peers) =
      let rest = live now peers in if leb (now - p.last_seen) peer_ttl then p ∷ rest else rest

  abbrev pub text_before : List ℕ → List ℕ → Bool
  text_before [] [] = false
  text_before [] (y ∷ ys) = true
  text_before (x ∷ xs) [] = false
  text_before (x ∷ xs) (y ∷ ys) = ltb x y || x == y && text_before xs ys

  -- `(p.name.lower(), p.ip) < (q.name.lower(), q.ip)`
  abbrev pub peer_before : Peer → Peer → Bool
  peer_before p q =
      text_before (lower p.name) (lower q.name)
      || bytes_eq (lower p.name) (lower q.name) && text_before p.ip q.ip

  abbrev pub insert : Peer → List Peer → List Peer
  insert p [] = p ∷ []
  insert p (q ∷ peers) =
      let rest = insert p peers in if peer_before q p then q ∷ rest else p ∷ q ∷ peers

  -- `sorted`, which keeps the order of equal keys.
  abbrev pub sorted : List Peer → List Peer
  sorted [] = []
  sorted (p ∷ peers) = insert p (sorted peers)

  -- The peers and what is left of the dict.
  unfoldable pub peers : ℕ → List Peer → List Peer × List Peer
  peers now known = let alive = live now known in (sorted alive, alive)

  abbrev pub port_of : Option ℤ → Option ℕ
  port_of none = none
  port_of (some (negsuc n)) = none
  port_of (some (pos n)) = if leb 1 n && leb n 65535 then some n else none

  abbrev pub target_to : List ℕ → List ℕ → Option ℕ → Option Target
  target_to scheme host none = none
  target_to scheme host (some port) =
      some (record { scheme = scheme; ip = host; port = pos port; is_auto = false })

  abbrev pub parse_host : List ℕ → Option (List ℕ × List ℕ) → Option Target
  parse_host scheme none = none
  parse_host scheme (some (host, port)) =
      if is_nil host then none else target_to scheme host (port_of (int_of port))

  abbrev pub parse_rest : List ℕ → List ℕ → Option Target
  parse_rest scheme rest =
      if is_any_of scheme (codes "http" ∷ codes "https" ∷ [])
      then parse_host scheme (rpartition rest)
      else none

  abbrev pub parse_split : List ℕ → Option (List ℕ × List ℕ) → Option Target
  parse_split s none = parse_rest (codes "http") s
  parse_split s (some (scheme, rest)) = parse_rest (lower scheme) rest

  -- `parse_cluster_peer`, and `none` where it raises.
  unfoldable pub parse_cluster_peer : List ℕ → Option Target
  unfolding strip
  parse_cluster_peer entry = let s = strip entry in parse_split s (split_scheme s)

  abbrev pub add_target : Option Target → List Target → List Target
  add_target none targets = targets
  add_target (some t) targets = t ∷ targets

  unfoldable pub manual_targets : List (List ℕ) → List Target
  unfolding parse_cluster_peer
  manual_targets [] = []
  manual_targets (e ∷ entries) = add_target (parse_cluster_peer e) (manual_targets entries)

  unfoldable pub all_targets : Node → ℕ → List Peer → List Target
  unfolding peers manual_targets
  all_targets node now known =
      add_manual (auto_targets (peers now known).0) (manual_targets node.peers)

  -- `(host, port) in known_addresses()`
  unfoldable pub is_known : Node → ℕ → List Peer → List ℕ → ℤ → Bool
  unfolding all_targets
  is_known node now known host port =
      is_seen (record { scheme = []; ip = host; port = port; is_auto = false })
        (all_targets node now known)
