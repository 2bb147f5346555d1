-- ===== src/Config/App/Clashes.antt =====
-- app/config.py, `AppConfig.validate`: when two listeners clash.
use ser2net.Common.{
  Bool, true, false, ◌&&◌, ◌||◌, ◌≡◌, refl, ◌↔◌, ◌⊎◌, inl, inr, Bool-cases, bytes_eq, ==_iff,
}
use ser2net.Common.Texts.{codes, is_any_of, bytes_eq_iff}
use ser2net.Config.App.{Listener, same_flag, wildcards, ip_overlaps, clashes}

-- An address that stands for every one of the machine.
abbrev pub IsWildcard : Listener → Type 0
IsWildcard l = (l.bind_ip ≡ codes "0.0.0.0") ⊎ (l.bind_ip ≡ codes "::")

-- Two listeners that the system would not let be open together: of one transport, on one port, on
-- the same address or with a wildcard.
abbrev pub Clash : Listener → Listener → Type 0
Clash l k =
    (l.is_udp ≡ k.is_udp)
    × ((l.port ≡ k.port) × ((l.bind_ip ≡ k.bind_ip) ⊎ (IsWildcard l ⊎ IsWildcard k)))

same_flag_iff : (a b : Bool) → (same_flag a b ≡ true) ↔ (a ≡ b)
same_flag_iff true true = (λ h. refl, λ h. refl)
same_flag_iff true false = (λ h. absurd (cc), λ h. absurd (cc))
same_flag_iff false true = (λ h. absurd (cc), λ h. absurd (cc))
same_flag_iff false false = (λ h. refl, λ h. refl)

and_iff :
    (P Q : Type 0) (a b : Bool) → (a ≡ true) ↔ P → (b ≡ true) ↔ Q → ((a && b) ≡ true) ↔ (P × Q)
and_iff P Q true b f g = (λ h. (f.0 refl, g.0 h), λ h. g.1 h.1)
and_iff P Q false b f g = (λ h. absurd (cc), λ h. f.1 h.0)

or_iff : (P Q : Type 0) (a b : Bool) → (a ≡ true) ↔ P → (b ≡ true) ↔ Q → ((a || b) ≡ true) ↔ (P ⊎ Q)
or_iff P Q true b f g = (λ h. inl (f.0 refl), λ h. refl)
or_iff P Q false b f g =
    (λ h. inr (g.0 h), λ h. elim h [ inl p ↦ absurd (cc (f.1 p)) | inr q ↦ g.1 q ])

or_false : (b : Bool) → (b || false) ≡ b
or_false true = refl
or_false false = refl

IsWildcard-iff : (l : Listener) → (is_any_of l.bind_ip wildcards ≡ true) ↔ IsWildcard l
IsWildcard-iff l =
    or_iff (l.bind_ip ≡ codes "0.0.0.0") (l.bind_ip ≡ codes "::") _ _
      (bytes_eq_iff l.bind_ip (codes "0.0.0.0"))
      (rw (or_false (bytes_eq l.bind_ip (codes "::"))) (bytes_eq_iff l.bind_ip (codes "::")))

clashes_iff : (l k : Listener) → (clashes l k ≡ true) ↔ Clash l k
unfolding clashes ip_overlaps
clashes_iff l k = and_iff (l.is_udp ≡ k.is_udp) _ _ _ (same_flag_iff l.is_udp k.is_udp) (
    and_iff (l.port ≡ k.port) _ _ _ (==_iff l.port k.port) (
      or_iff (l.bind_ip ≡ k.bind_ip) _ _ _ (bytes_eq_iff l.bind_ip k.bind_ip)
        (or_iff (IsWildcard l) (IsWildcard k) _ _ (IsWildcard-iff l) (IsWildcard-iff k))))

pub not_clashes_iff : (l k : Listener) → (clashes l k ≡ false) ↔ (Clash l k → ⊥)
not_clashes_iff l k = (
  λ h c. absurd (cc (h, (clashes_iff l k).1 c)),
  λ h. elim (Bool-cases (clashes l k)) [ inl e ↦ absurd (h ((clashes_iff l k).0 e)) | inr e ↦ e ],
)
