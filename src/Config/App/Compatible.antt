-- ===== src/Config/App/Compatible.antt =====
-- app/config.py, `AppConfig.validate`: which lists of mappings are accepted.
use ser2net.Common.{
  ◌≡◌, refl, ◌↔◌, List, [], ◌∷◌, ◌++◌, All, Pairwise, All-imply, All-both, All-append,
}
use ser2net.Common.Result.{ok, raise_if, raise_if-ok, >>-ok, >>=-ok}
use ser2net.Config.{port_clash, Floats, World}
use ser2net.Config.Mapping.{MappingConfig, validate}
use ser2net.Config.App.{
  Owner, Listener, clashes, claim, check_listeners, check_free, devices_of, listeners_of,
  check_mappings,
}
use ser2net.Config.App.Clashes.{Clash, not_clashes_iff}
use ser2net.Config.App.Owners.{
  IsConsistent, Agrees, claimed, claim-Agrees, Agrees-claim, claimed-IsConsistent, claimed_iff,
}

abbrev pub IsFree : List Listener → Listener → Type 0
IsFree seen l = All (λ s. Clash s l → ⊥) seen

check_listeners_iff :
    (seen : List Listener) (l : Listener) → (check_listeners seen l ≡ ok tt) ↔ IsFree seen l
unfolding check_listeners
check_listeners_iff [] l = (λ h. tt, λ h. refl)
check_listeners_iff (s ∷ seen) l =
    let later = check_listeners_iff seen l in
    (
      λ h.
          let (here, more) = >>-ok (raise_if (clashes s l) port_clash) _ h in
          ((not_clashes_iff s l).0 (raise_if-ok port_clash (clashes s l) here), later.0 more),
      λ h. rw ((not_clashes_iff s l).1 h.0, later.1 h.1) refl,
    )

module _ (fl : Floats) (os : World) where
  check_free_iff :
      (seen ls : List Listener) → (check_free fl os seen ls ≡ ok tt) ↔ All (IsFree seen) ls
  check_free_iff seen [] = (λ h. tt, λ h. refl)
  check_free_iff seen (l ∷ ls) =
      let here = check_listeners_iff seen l in
      let later = check_free_iff seen ls in
      (
        λ h. let (one, more) = >>-ok (check_listeners seen l) _ h in (here.0 one, later.0 more),
        λ h. rw (here.1 h.0, later.1 h.1) refl,
      )

  -- A device of both mappings is had under one id.
  abbrev pub DevicesApart : MappingConfig fl → MappingConfig fl → Type 0
  DevicesApart m m' =
      All (λ d'. All (λ d. d ≡ d' → m.id ≡ m'.id) (devices_of fl m)) (devices_of fl m')

  -- No address of one clashes with one of the other.
  abbrev pub ListenersApart : MappingConfig fl → MappingConfig fl → Type 0
  ListenersApart m m' =
      All (λ l'. All (λ l. Clash l l' → ⊥) (listeners_of fl m)) (listeners_of fl m')

  abbrev pub AreCompatible : MappingConfig fl → MappingConfig fl → Type 0
  AreCompatible m m' = DevicesApart m m' × ListenersApart m m'

  abbrev pub IsValid : MappingConfig fl → Type 0
  IsValid m = validate fl os m ≡ ok tt

  -- A mapping against the state of the loop.
  abbrev pub Fits : List Owner → List Listener → MappingConfig fl → Type 0
  Fits owners seen m =
      All (Agrees owners m.id) (devices_of fl m) × All (IsFree seen) (listeners_of fl m)

  All-split {ℓ} :
      {A : Type ℓ} (P : A → Type 0) (xs ys : List A) → All P (xs ++ ys) → All P xs × All P ys
  All-split P [] ys h = (tt, h)
  All-split P (x ∷ xs) ys h = let (hx, hy) = All-split P xs ys h.1 in ((h.0, hx), hy)

  -- What the state after `m` asks of a later mapping.
  Fits-next :
      (owners : List Owner) (seen : List Listener) (m m' : MappingConfig fl)
      → Fits (claimed owners m.id m.name (devices_of fl m)) (seen ++ listeners_of fl m) m'
        ↔ (Fits owners seen m' × AreCompatible m m')
  Fits-next owners seen m m' = (
    λ h. (
      (
        All-imply (devices_of fl m')
            (λ d r. ((claimed_iff owners m.id m.name (devices_of fl m) m'.id d).0 r).0) h.0,
        All-imply (listeners_of fl m') (λ l r. (All-split _ seen _ r).0) h.1,
      ),
      (
        All-imply (devices_of fl m')
            (λ d r. ((claimed_iff owners m.id m.name (devices_of fl m) m'.id d).0 r).1) h.0,
        All-imply (listeners_of fl m') (λ l r. (All-split _ seen _ r).1) h.1,
      ),
    ),
    λ h. (
      All-imply (devices_of fl m')
          (λ d r. (claimed_iff owners m.id m.name (devices_of fl m) m'.id d).1 r)
          (All-both _ _ (devices_of fl m') h.0.0 h.1.0),
      All-imply (listeners_of fl m') (λ l r. All-append _ seen _ r.0 r.1)
          (All-both _ _ (listeners_of fl m') h.0.1 h.1.1),
    ),
  )

  All-unzip :
      {A : Type 0} (P Q R : A → Type 0) (xs : List A)
      → ((x : A) → P x → Q x × R x)
      → All P xs
      → All Q xs × All R xs
  All-unzip P Q R xs f h = (All-imply xs (λ x p. (f x p).0) h, All-imply xs (λ x p. (f x p).1) h)

  accepted_mappings :
      (owners : List Owner) (seen : List Listener) (ms : List (MappingConfig fl))
      → IsConsistent owners
      → check_mappings fl os owners seen ms ≡ ok tt
      → All IsValid ms × All (Fits owners seen) ms × Pairwise AreCompatible ms
  unfolding check_mappings
  accepted_mappings owners seen [] c h = (tt, tt, tt)
  accepted_mappings owners seen (m ∷ ms) c h =
      let devices = devices_of fl m in
      let (valid, h1) = >>-ok (validate fl os m) _ h in
      let (owners', claims, h2) = >>=-ok (claim owners m.id m.name devices) _ h1 in
      let (free, h3) = >>-ok (check_free fl os seen (listeners_of fl m)) _ h2 in
      let (owners_eq, agrees) = claim-Agrees owners m.id m.name devices c claims in
      let next : check_mappings fl os (claimed owners m.id m.name devices)
            (seen ++ listeners_of fl m) ms
          ≡ ok tt =
        rw (← owners_eq, h3) refl in
      let (valids, fits, pairs) =
        accepted_mappings (claimed owners m.id m.name devices) (seen ++ listeners_of fl m) ms
          (claimed-IsConsistent owners m.id m.name devices c agrees) next in
      let (before, beside) =
        All-unzip _ (Fits owners seen) (AreCompatible m) ms
          (λ m' r. (Fits-next owners seen m m').0 r) fits in
      (
        (valid, valids),
        ((agrees, (check_free_iff seen (listeners_of fl m)).0 free), before),
        (beside, pairs),
      )

  mappings_accepted :
      (owners : List Owner) (seen : List Listener) (ms : List (MappingConfig fl))
      → All IsValid ms
      → All (Fits owners seen) ms
      → Pairwise AreCompatible ms
      → check_mappings fl os owners seen ms ≡ ok tt
  unfolding check_mappings
  mappings_accepted owners seen [] v f p = refl
  mappings_accepted owners seen (m ∷ ms) v f p =
      rw
        (
          v.0,
          Agrees-claim owners m.id m.name (devices_of fl m) f.0.0,
          (check_free_iff seen (listeners_of fl m)).1 f.0.1,
        )
        (mappings_accepted (claimed owners m.id m.name (devices_of fl m))
          (seen ++ listeners_of fl m) ms v.1
          (All-imply ms (λ m' r. (Fits-next owners seen m m').1 r) (All-both _ _ ms f.1 p.0)) p.1)

  Fits-empty : (ms : List (MappingConfig fl)) → All (Fits [] []) ms
  Fits-empty [] = tt
  Fits-empty (m ∷ ms) = ((nothing (devices_of fl m), nothing (listeners_of fl m)), Fits-empty ms)
    where
      nothing : {A : Type 0} (xs : List A) → All (λ x. Unit {0}) xs
      nothing [] = tt
      nothing (x ∷ xs) = (tt, nothing xs)

  -- The check of the mappings passes exactly if each is valid by itself, no device is had by enabled
  -- mappings of two ids, and no two listeners of one transport share a port on overlapping addresses.
  pub check_mappings_iff :
      (ms : List (MappingConfig fl))
      → (check_mappings fl os [] [] ms ≡ ok tt) ↔ (All IsValid ms × Pairwise AreCompatible ms)
  check_mappings_iff ms = (
    λ h. let (valids, fits, pairs) = accepted_mappings [] [] ms tt h in (valids, pairs),
    λ h. mappings_accepted [] [] ms h.0 (Fits-empty ms) h.1,
  )
