-- ===== src/Import/Narrow.antt =====
-- app/ser2net_import.py: an imported mapping is not open to more than the connection was.
pub mod Held
pub mod Kept
pub mod Opened
pub mod Finished
pub mod Configured
pub mod Accepted
pub mod Connection
use ser2net.Common.{
  ℕ, Bool, true, false, ◌&&◌, ◌≡◌, refl, ◌⊎◌, inl, inr, Option, none, some, List, Bool-cases, ◌==◌,
  bytes_eq, is_nil, if◌then◌else◌,
}
use ser2net.Common.Texts.{codes, strip_of, bytes_eq_iff}
use ser2net.Config.{Floats, World, Ip}
use ser2net.Config.Network.{is_refused}
use ser2net.Import.{Conn, unusable_address}
use ser2net.Import.Text.{lower}
use ser2net.Import.Listen.{bind_address, is_bracket, bind_ip}

module _ (fl : Floats) (os : World) where
  -- What a mapping may listen on for a host of the configuration: everything where no host was given,
  -- the loopback for a loopback, or the address itself.
  abbrev pub IsNarrow : List ℕ → List ℕ → Type 0
  IsNarrow host bind =
      (is_nil (strip_of (is_bracket fl os) host) ≡ true)
      ⊎ ((bind ≡ codes "127.0.0.1")
          × ((lower (strip_of (is_bracket fl os) host) ≡ codes "localhost")
              ⊎ ((ip : Ip) × (os.ip_address (strip_of (is_bracket fl os) host) ≡ some ip)
                  × (ip.is_loopback ≡ true))))
      ⊎ ((ip : Ip) × (os.ip_address (strip_of (is_bracket fl os) host) ≡ some ip)
          × (bind ≡ codes ip.text))

  -- The host is one that the mapping cannot use, and the connection is held for it.
  abbrev pub IsHeld : List ℕ → Conn fl → Type 0
  IsHeld host c = c.hold ≡ some (unusable_address host)

  address_fits :
      (o : Option Ip) (host : List ℕ) (c : Conn fl)
      → os.ip_address (strip_of (is_bracket fl os) host) ≡ o
      → IsNarrow host (bind_address fl os o host c).1 ⊎ IsHeld host (bind_address fl os o host c).0
  address_fits none host c e = inr refl
  address_fits (some ip) host c e = elim (Bool-cases (ip.version == 6 && ip.is_loopback)) [
    | inl l ↦
        inl (rw (l) (inr (inl (refl, inr (ip, e, loopback ip.is_loopback (ip.version == 6) l)))))
    | inr l ↦ elim (Bool-cases (is_refused ip)) [
      | inl r ↦ inr (rw (l, r) refl)
      | inr r ↦ inl (rw (l, r) (inr (inr (ip, e, refl))))
    ]
  ]
    where
      loopback : (b v : Bool) → (v && b) ≡ true → b ≡ true
      loopback true v h = refl
      loopback false true h = h
      loopback false false h = h

  host_fits :
      (c : Conn fl) (host any : List ℕ) (empty local : Bool)
      → is_nil (strip_of (is_bracket fl os) host) ≡ empty
      → bytes_eq (lower (strip_of (is_bracket fl os) host)) (codes "localhost") ≡ local
      → let bound : Conn fl × List ℕ =
          if empty
          then (c, any)
          else if local
          then (c, codes "127.0.0.1")
          else bind_address fl os (os.ip_address (strip_of (is_bracket fl os) host)) host c in
        IsNarrow host bound.1 ⊎ IsHeld host bound.0
  host_fits c host any true local n l = inl (inl n)
  host_fits c host any false true n l =
      inl (inr (inl (refl, inl ((bytes_eq_iff _ (codes "localhost")).0 l))))
  host_fits c host any false false n l =
      address_fits (os.ip_address (strip_of (is_bracket fl os) host)) host c refl

  -- What `_bind_ip` returns for a host is no wider than the host, or the connection is held.
  pub bind_ip_fits :
      (c : Conn fl) (host family : List ℕ)
      → IsNarrow host (bind_ip fl os c host family).1 ⊎ IsHeld host (bind_ip fl os c host family).0
  unfolding bind_ip
  bind_ip_fits c host family =
      host_fits c host (if bytes_eq family (codes "ipv6") then codes "::" else codes "0.0.0.0")
        (is_nil (strip_of (is_bracket fl os) host))
        (bytes_eq (lower (strip_of (is_bracket fl os) host)) (codes "localhost")) refl refl
