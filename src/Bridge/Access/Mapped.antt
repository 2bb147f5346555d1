-- ===== src/Bridge/Access/Mapped.antt =====
-- app/engine/bridge.py, `_client_allowed`: IPv4-mapped and invalid addresses.
use ser2net.Common.{ℕ, ◌+◌, ◌*◌, ◌^◌, ◌<◌, ◌≡◌, refl, ap, false, List, [], ◌∷◌, arith}
use ser2net.Bridge.Access.{v4, v6, invalid, Network, unmapped, any_network, client_allowed}

-- An IPv4 address and the same address mapped into IPv6 are allowed alike.
pub client_allowed-mapped :
    (nets : List Network) (a : ℕ)
    → a < 2 ^ 32
    → client_allowed nets (v6 (0xFFFF * 2 ^ 32 + a)) ≡ client_allowed nets (v4 a)
unfolding client_allowed
client_allowed-mapped [] a h = refl
client_allowed-mapped (net ∷ nets) a h = ap (λ x. any_network x (net ∷ nets)) same
  where
    same : unmapped (v6 (0xFFFF * 2 ^ 32 + a)) ≡ unmapped (v4 a)
    same = ground arith

-- An address that cannot be parsed is never in a network, so any allow-list keeps it out.
pub client_allowed-invalid :
    (net : Network) (nets : List Network) → client_allowed (net ∷ nets) invalid ≡ false
unfolding client_allowed
client_allowed-invalid net nets = none_in (net ∷ nets)
  where
    none_in : (nets : List Network) → any_network invalid nets ≡ false
    none_in [] = refl
    none_in (n ∷ ns) = none_in ns
