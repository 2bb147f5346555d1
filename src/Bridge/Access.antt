-- ===== src/Bridge/Access.antt =====
-- app/engine/bridge.py, `_ip_in_nets` and `_client_allowed`, with the addresses and networks of
-- the `ipaddress` module: an IPv4 address is a 32-bit number, an IPv6 address a 128-bit one.
pub mod Mapped
use ser2net.Common.{
  ℕ, ◌-◌, ◌/◌, ◌%◌, ◌^◌, Bool, true, false, ◌||◌, List, [], ◌∷◌, ◌==◌, if◌then◌else◌,
}

pub data Address : Type 0 where
  v4 v6 : ℕ → Address
  invalid : Address

pub data Network : Type 0 where
  net4 net6 : ℕ → ℕ → Network

-- `addr in net`: the same version, and the same first `size` bits.
unfoldable pub in_network : Address → Network → Bool
in_network (v4 a) (net4 base size) = a / 2 ^ (32 - size) == base / 2 ^ (32 - size)
in_network (v6 a) (net6 base size) = a / 2 ^ (128 - size) == base / 2 ^ (128 - size)
in_network (v4 a) (net6 base size) = false
in_network (v6 a) (net4 base size) = false
in_network invalid net = false

-- `addr.ipv4_mapped`: ::ffff:a.b.c.d stands for a.b.c.d.
unfoldable pub unmapped : Address → Address
unmapped (v6 a) = if a / 2 ^ 32 == 0xFFFF then v4 (a % 2 ^ 32) else v6 a
unmapped (v4 a) = v4 a
unmapped invalid = invalid

unfoldable pub any_network : Address → List Network → Bool
any_network a [] = false
any_network a (net ∷ nets) = in_network a net || any_network a nets

unfoldable pub ip_in_nets : Address → List Network → Bool
unfolding any_network unmapped in_network
ip_in_nets a [] = false
ip_in_nets a (net ∷ nets) = any_network (unmapped a) (net ∷ nets)

-- An empty allow-list allows everyone.
unfoldable pub client_allowed : List Network → Address → Bool
unfolding ip_in_nets
client_allowed [] a = true
client_allowed (net ∷ nets) a = ip_in_nets a (net ∷ nets)
