-- ===== src/Cluster/Tests.antt =====
-- A node and the beacons it hears.
use ser2net.Common.{
  ◌*◌, ℕ, true, false, ◌≡◌, refl, ◌⊎◌, none, some, List, [], ◌∷◌, ◌++◌, bytes_eq, if◌then◌else◌,
}
use ser2net.Common.Int.{pos}
use ser2net.Common.Texts.{codes, strip}
use ser2net.Cluster.{
  Library, Node, peer_of, handle_datagram, peers, parse_cluster_peer, manual_targets, all_targets,
  is_known,
}
use ser2net.Cluster.Known.{Step, received, listed, known_after}
use ser2net.Cluster.Reach.{IsAlive, IsConfigured, is_known-IsAlive}

-- A datagram is its body, signed with the key "k". Every beacon is of the node that it names.
abbrev small_library : Library
small_library = record {
  envelope = λ p. some (p, codes "k" ++ p);
  beacon = λ b. some (record {
    id = b;
    name = b;
    ip = codes "127.0.0.1";
    port = pos 8080;
    scheme = codes "https";
  });
  sign = λ key body. key ++ body;
  lower = λ s. s;
  int_of = λ s. if bytes_eq s (codes "80") then some (pos 80) else none;
}

abbrev node_with : List ℕ → Node
node_with key = record {
  instance_id = codes "self";
  key = key;
  peers = codes "https://far.example:80" ∷ codes "no port" ∷ [];
}

abbrev heard : List Step
heard =
    listed (12 * 1000000000)
    ∷ received
        (record { payload = codes "other"; source = codes "10.0.0.2"; time = 10 * 1000000000 })
    ∷ []

other_known :
    is_known small_library
      (node_with (codes "k"))
      (20 * 1000000000)
      (known_after small_library (node_with (codes "k")) heard)
      (codes "10.0.0.2")
      (pos 8080)
    ≡ true
unfolding is_known known_after handle_datagram peer_of peers all_targets manual_targets
    parse_cluster_peer strip
other_known = refl

far_known :
    is_known small_library
      (node_with (codes "x"))
      (20 * 1000000000)
      (known_after small_library (node_with (codes "x")) heard)
      (codes "far.example")
      (pos 80)
    ≡ true
unfolding is_known known_after handle_datagram peer_of peers all_targets manual_targets
    parse_cluster_peer strip
far_known = refl

other_key_unknown :
    is_known small_library
      (node_with (codes "x"))
      (20 * 1000000000)
      (known_after small_library (node_with (codes "x")) heard)
      (codes "10.0.0.2")
      (pos 8080)
    ≡ false
unfolding is_known known_after handle_datagram peer_of peers all_targets manual_targets
    parse_cluster_peer strip
other_key_unknown = refl

is_known-IsAlive_example :
    IsAlive small_library
      (node_with (codes "k"))
      heard
      (20 * 1000000000)
      (codes "10.0.0.2")
      (pos 8080)
    ⊎ IsConfigured small_library (node_with (codes "k")).peers (codes "10.0.0.2") (pos 8080)
is_known-IsAlive_example =
    is_known-IsAlive small_library (node_with (codes "k")) heard (20 * 1000000000)
      (codes "10.0.0.2") (pos 8080) other_known
