-- ===== src/Import/Assemble/Settled.antt =====
-- app/ser2net_import.py, `_assemble`: what one round of the second loop leaves as it was.
use ser2net.Common.{
  ℕ, Bool, true, false, ◌≡◌, refl, inl, inr, Option, none, some, List, [], ◌∷◌, Bool-cases,
  bytes_eq, All,
}
use ser2net.Common.Result.{ok, raise_if, raise_if-ok, >>-ok}
use ser2net.Common.Texts.{all_space}
use Prim.Native.String.{String}
use ser2net.Config.{name_required, Floats, World}
use ser2net.Config.Mapping.{validate}
use ser2net.Config.App.{Listener}
use ser2net.Import.{Conn, mapping_of}
use ser2net.Import.Assemble.{conn_listener, unique_name, owner_of, give_device, settle_all}
use ser2net.Import.Assemble.Names.{unique_name_not_blank}
use ser2net.Import.Assemble.Kept.{IsValidConn}

module _ (fl : Floats) (os : World) where
  -- The name and the flag may change: the connection stays valid.
  pub named_valid :
      (c : Conn fl) (name : List ℕ) (enabled : Bool)
      → (all_space c.name ≡ false → all_space name ≡ false)
      → IsValidConn fl os c
      → IsValidConn fl os (record c { name = name; enabled = enabled })
  unfolding validate mapping_of
  named_valid c name enabled f h =
      let (shown, rest) = >>-ok (raise_if (all_space c.name) name_required) _ h in
      rw (f (raise_if-ok name_required (all_space c.name) shown)) rest

  -- The id that a mapping gets does not matter.
  pub valid_id :
      (c : Conn fl) (id : String)
      → IsValidConn fl os c
      → validate fl os (mapping_of fl os id c) ≡ ok tt
  unfolding validate mapping_of
  valid_id c id h = h

  -- One round of the second loop.
  abbrev pub with_name : List (List ℕ) → Conn fl → Conn fl
  with_name used c = record c { name = unique_name used c.name }

  abbrev pub owners_after :
      List (List ℕ) → List (List ℕ × List ℕ) → Conn fl → List (List ℕ × List ℕ)
  owners_after used owners c =
      (give_device fl (owner_of c.device owners) (with_name used c) owners).1

  pub given-valid :
      (o : Option (List ℕ)) (c : Conn fl) (owners : List (List ℕ × List ℕ))
      → IsValidConn fl os c
      → IsValidConn fl os (give_device fl o c owners).0
  given-valid none c owners h = h
  given-valid (some other) c owners h = named_valid c c.name false (λ q. q) h

  pub given-listener :
      (o : Option (List ℕ)) (c : Conn fl) (owners : List (List ℕ × List ℕ))
      → conn_listener fl os (give_device fl o c owners).0 ≡ conn_listener fl os c
  unfolding mapping_of
  given-listener none c owners = refl
  given-listener (some other) c owners = refl

  pub given-name :
      (o : Option (List ℕ)) (c : Conn fl) (owners : List (List ℕ × List ℕ))
      → (give_device fl o c owners).0.name ≡ c.name
  given-name none c owners = refl
  given-name (some other) c owners = refl

  pub given-device :
      (o : Option (List ℕ)) (c : Conn fl) (owners : List (List ℕ × List ℕ))
      → (give_device fl o c owners).0.device ≡ c.device
  given-device none c owners = refl
  given-device (some other) c owners = refl

  pub given-enabled :
      (o : Option (List ℕ)) (c : Conn fl) (owners : List (List ℕ × List ℕ))
      → (give_device fl o c owners).0.enabled ≡ true
      → (o ≡ none) × ((give_device fl o c owners).1 ≡ (c.device, c.name) ∷ owners)
  given-enabled none c owners h = (refl, rw (h) refl)
  given-enabled (some other) c owners h = absurd (cc)

  pub given-owner :
      (o : Option (List ℕ)) (c : Conn fl) (owners : List (List ℕ × List ℕ)) (device : List ℕ)
      → owner_of device (give_device fl o c owners).1 ≡ none
      → owner_of device owners ≡ none
  given-owner (some other) c owners device h = h
  given-owner none c owners device h = elim (Bool-cases c.enabled) [
    | inl e ↦ elim (Bool-cases (bytes_eq c.device device)) [
      | inl q ↦ absurd (cc (h, e, q))
      | inr q ↦ rw (← h, e, q) refl
    ]
    | inr e ↦ rw (← h, e) refl
  ]

  pub settle_all-valid :
      (used : List (List ℕ)) (owners : List (List ℕ × List ℕ)) (cs : List (Conn fl))
      → All (IsValidConn fl os) cs
      → All (IsValidConn fl os) (settle_all fl used owners cs).0
  unfolding settle_all
  settle_all-valid used owners [] h = tt
  settle_all-valid used owners (c ∷ cs) h = (
    given-valid (owner_of c.device owners) (with_name used c) owners
        (named_valid c (unique_name used c.name) c.enabled (unique_name_not_blank used c.name) h.0),
    settle_all-valid (unique_name used c.name ∷ used) (owners_after used owners c) cs h.1,
  )

  pub settle_all-listeners :
      (P : Listener → Type 0) (used : List (List ℕ)) (owners : List (List ℕ × List ℕ))
      (cs : List (Conn fl))
      → All (λ c. P (conn_listener fl os c)) cs
      → All (λ c. P (conn_listener fl os c)) (settle_all fl used owners cs).0
  unfolding settle_all mapping_of
  settle_all-listeners P used owners [] h = tt
  settle_all-listeners P used owners (c ∷ cs) h = (
    rw (given-listener (owner_of c.device owners) (with_name used c) owners) h.0,
    settle_all-listeners P (unique_name used c.name ∷ used) (owners_after used owners c) cs h.1,
  )
