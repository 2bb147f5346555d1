-- ===== src/Config/App/Owners.antt =====
-- app/config.py, `AppConfig.validate`: the devices of the mappings.
use ser2net.Common.{
  not, ◌≡◌, refl, sym, ◌∙◌, ◌↔◌, inl, inr, List, [], ◌∷◌, Bool-cases, ℕ, bytes_eq, All, Pairwise,
  All-imply,
}
use ser2net.Common.Result.{ok, raise_if, raise_if-pass, >>-ok, ok-injective}
use ser2net.Common.Texts.{same, same_iff, bytes_eq_iff}
use Prim.Native.String.{String}
use ser2net.Config.{device_clash}
use ser2net.Config.App.{Owner, owner_of, check_owner, claim}

-- Of every two that have one device, the ids are the same.
abbrev pub IsConsistent : List Owner → Type 0
IsConsistent = Pairwise (λ a b. a.device ≡ b.device → a.id ≡ b.id)

-- Whoever has the device is the mapping `id`.
abbrev pub Agrees : List Owner → String → List ℕ → Type 0
Agrees owners id device = All (λ o. o.device ≡ device → o.id ≡ id) owners

abbrev pub claimed : List Owner → String → List ℕ → List (List ℕ) → List Owner
claimed owners id name [] = owners
claimed owners id name (device ∷ devices) =
    claimed (record { device = device; id = id; name = name } ∷ owners) id name devices

accepted-Agrees :
    (owners : List Owner) (id : String) (device : List ℕ)
    → IsConsistent owners
    → check_owner (owner_of device owners) id ≡ ok tt
    → Agrees owners id device
accepted-Agrees [] id device c h = tt
accepted-Agrees (o ∷ owners) id device c h = elim (Bool-cases (bytes_eq o.device device)) [
  | inl e ↦
      let h' : raise_if (not (same o.id id)) device_clash ≡ ok tt = rw (← h, e) refl in
      let here = (same_iff o.id id).0 (raise_if-pass device_clash (same o.id id) h') in
      let device_eq = (bytes_eq_iff o.device device).0 e in
      (λ q. here, All-imply owners (λ o' r q. sym (r (device_eq ∙ sym q)) ∙ here) c.0)
  | inr e ↦ (
    λ q. absurd (cc (e, (bytes_eq_iff o.device device).1 q)),
    accepted-Agrees owners id device c.1 (rw (← h, e) refl),
  )
]

Agrees-accepted :
    (owners : List Owner) (id : String) (device : List ℕ)
    → Agrees owners id device
    → check_owner (owner_of device owners) id ≡ ok tt
Agrees-accepted [] id device h = refl
Agrees-accepted (o ∷ owners) id device h = elim (Bool-cases (bytes_eq o.device device)) [
  | inl e ↦ rw (e, (same_iff o.id id).1 (h.0 ((bytes_eq_iff o.device device).0 e))) refl
  | inr e ↦ rw (e, Agrees-accepted owners id device h.1) refl
]

-- One more device of the mapping `id`.
abbrev owned : List ℕ → String → List ℕ → Owner
owned device id name = record { device = device; id = id; name = name }

owned-IsConsistent :
    (owners : List Owner) (id : String) (name device : List ℕ)
    → IsConsistent owners
    → Agrees owners id device
    → IsConsistent (owned device id name ∷ owners)
owned-IsConsistent owners id name device c h = (All-imply owners (λ o r q. sym (r (sym q))) h, c)

pub claim-Agrees :
    (owners : List Owner) (id : String) (name : List ℕ) (devices : List (List ℕ))
    {owners' : List Owner}
    → IsConsistent owners
    → claim owners id name devices ≡ ok owners'
    → (owners' ≡ claimed owners id name devices) × All (Agrees owners id) devices
unfolding claim
claim-Agrees owners id name [] c h = (sym (ok-injective h), tt)
claim-Agrees owners id name (device ∷ devices) c h =
    let (taken, more) = >>-ok (check_owner (owner_of device owners) id) _ h in
    let here = accepted-Agrees owners id device c taken in
    let (same_owners, later) =
      claim-Agrees (owned device id name ∷ owners) id name devices
        (owned-IsConsistent owners id name device c here) more in
    (same_owners, (here, All-imply devices (λ d r. r.1) later))

pub Agrees-claim :
    (owners : List Owner) (id : String) (name : List ℕ) (devices : List (List ℕ))
    → All (Agrees owners id) devices
    → claim owners id name devices ≡ ok (claimed owners id name devices)
unfolding claim
Agrees-claim owners id name [] h = refl
Agrees-claim owners id name (device ∷ devices) h =
    rw
      (
        Agrees-accepted owners id device h.0,
        Agrees-claim (owned device id name ∷ owners) id name devices
            (All-imply devices (λ d r. (λ q. refl, r)) h.1),
      )
      refl

pub claimed-IsConsistent :
    (owners : List Owner) (id : String) (name : List ℕ) (devices : List (List ℕ))
    → IsConsistent owners
    → All (Agrees owners id) devices
    → IsConsistent (claimed owners id name devices)
claimed-IsConsistent owners id name [] c h = c
claimed-IsConsistent owners id name (device ∷ devices) c h =
    claimed-IsConsistent (owned device id name ∷ owners) id name devices
      (owned-IsConsistent owners id name device c h.0)
      (All-imply devices (λ d r. (λ q. refl, r)) h.1)

-- To agree with what was claimed is to agree with what was there and with each new device.
pub claimed_iff :
    (owners : List Owner) (id : String) (name : List ℕ) (devices : List (List ℕ)) (id' : String)
    (device' : List ℕ)
    → Agrees (claimed owners id name devices) id' device'
      ↔ (Agrees owners id' device' × All (λ d. d ≡ device' → id ≡ id') devices)
claimed_iff owners id name [] id' device' = (λ h. (h, tt), λ h. h.0)
claimed_iff owners id name (device ∷ devices) id' device' =
    let later = claimed_iff (owned device id name ∷ owners) id name devices id' device' in
    (
      λ h. let ((here, before), after) = later.0 h in (before, (here, after)),
      λ h. later.1 ((h.1.0, h.0), h.1.1),
    )
