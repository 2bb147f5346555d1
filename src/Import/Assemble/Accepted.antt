-- ===== src/Import/Assemble/Accepted.antt =====
-- app/ser2net_import.py, `_assemble`: the import can be applied as a whole, as app/config.py checks
-- it.
use ser2net.Common.{
  ℕ, Bool, true, false, not, ◌&&◌, ◌≡◌, refl, sym, ◌∙◌, ap, ◌≢◌, inl, inr, none, List, [], ◌∷◌,
  ◌++◌, map, Bool-cases, bytes_eq, All, All-imply, All-map, All-both, is_nil, Pairwise,
  if◌then◌else◌,
}
use ser2net.Common.Result.{ok}
use ser2net.Common.Texts.{is_any_of, bytes_eq_iff}
use Prim.Native.String.{String}
use ser2net.Config.{Floats, World}
use ser2net.Config.App.{Listener, clashes, when, devices_of, listeners_of, check_mappings}
use ser2net.Config.Network.{listens}
use ser2net.Config.App.Clashes.{not_clashes_iff}
use ser2net.Config.App.Compatible.{AreCompatible, IsValid, check_mappings_iff}
use ser2net.Import.{Conn, mapping_of}
use ser2net.Import.Assemble.{
  Warning, conn_listener, keep_all, unique_name, owner_of, settle_all, assemble,
}
use ser2net.Import.Assemble.Names.{unique_name_is_free}
use ser2net.Import.Assemble.Kept.{LeavesFree, keep_all-IsKept}
use ser2net.Import.Assemble.Settled.{
  with_name, owners_after, valid_id, given-listener, given-name, given-device, given-enabled,
  given-owner, settle_all-valid, settle_all-listeners,
}

not_in :
    (s : List ℕ) (t : List ℕ) (used : List (List ℕ))
    → is_any_of s (t ∷ used) ≡ false
    → (t ≢ s) × (is_any_of s used ≡ false)
not_in s t used h = elim (Bool-cases (bytes_eq s t)) [
  | inl e ↦ absurd (cc (h, e))
  | inr e ↦ (λ q. absurd (cc (e, (bytes_eq_iff s t).1 (sym q))), rw (← h, e) refl)
]

owner_not_in :
    (d name e : List ℕ) (owners : List (List ℕ × List ℕ))
    → owner_of e ((d, name) ∷ owners) ≡ none
    → d ≢ e
owner_not_in d name e owners h q = absurd (cc (h, (bytes_eq_iff d e).1 q))

module _ (fl : Floats) (os : World) where
  abbrev pub OneDevice : Conn fl → Conn fl → Type 0
  OneDevice c c' = c.enabled ≡ true → c'.enabled ≡ true → c.device ≢ c'.device

  abbrev pub HasFreeName : List (List ℕ) → Conn fl → Type 0
  HasFreeName used c = is_any_of c.name used ≡ false

  abbrev pub HasFreeDevice : List (List ℕ × List ℕ) → Conn fl → Type 0
  HasFreeDevice owners c = c.enabled ≡ true → owner_of c.device owners ≡ none

  settle_all-names :
      (used : List (List ℕ)) (owners : List (List ℕ × List ℕ)) (cs : List (Conn fl))
      → All (HasFreeName used) (settle_all fl used owners cs).0
        × Pairwise (λ c c'. c.name ≢ c'.name) (settle_all fl used owners cs).0
  unfolding settle_all
  settle_all-names used owners [] = (tt, tt)
  settle_all-names used owners (c ∷ cs) =
      let name = unique_name used c.name in
      let (frees, pairs) = settle_all-names (name ∷ used) (owners_after fl os used owners c) cs in
      let named = given-name fl os (owner_of c.device owners) (with_name fl os used c) owners in
      let rest = (settle_all fl (name ∷ used) (owners_after fl os used owners c) cs).0 in
      (
        (
          rw (named) (unique_name_is_free used c.name),
          All-imply rest (λ c' r. (not_in c'.name name used r).1) frees,
        ),
        (All-imply rest (λ c' r q. (not_in c'.name name used r).0 (sym named ∙ q)) frees, pairs),
      )

  settle_all-devices :
      (used : List (List ℕ)) (owners : List (List ℕ × List ℕ)) (cs : List (Conn fl))
      → All (HasFreeDevice owners) (settle_all fl used owners cs).0
        × Pairwise OneDevice (settle_all fl used owners cs).0
  unfolding settle_all
  settle_all-devices used owners [] = (tt, tt)
  settle_all-devices used owners (c ∷ cs) =
      let name = unique_name used c.name in
      let (frees, pairs) = settle_all-devices (name ∷ used) (owners_after fl os used owners c) cs in
      let c' = with_name fl os used c in
      let o = owner_of c.device owners in
      let device = given-device fl os o c' owners in
      let rest = (settle_all fl (name ∷ used) (owners_after fl os used owners c) cs).0 in
      (
        (
          λ e. rw (device) (given-enabled fl os o c' owners e).0,
          All-imply rest (λ d r e. given-owner fl os o c' owners d.device (r e)) frees,
        ),
        (
          All-imply rest
              (λ d r e e' q.
                owner_not_in c.device name d.device owners
                  (sym (ap (owner_of d.device) (given-enabled fl os o c' owners e).1) ∙ r e')
                  (sym device ∙ q))
              frees,
          pairs,
        ),
      )

  settle_all-LeavesFree :
      (used : List (List ℕ)) (owners : List (List ℕ × List ℕ)) (cs : List (Conn fl))
      → Pairwise (LeavesFree fl os) cs
      → Pairwise (LeavesFree fl os) (settle_all fl used owners cs).0
  unfolding settle_all mapping_of
  settle_all-LeavesFree used owners [] h = tt
  settle_all-LeavesFree used owners (c ∷ cs) h =
      let later = owners_after fl os used owners c in
      let listens =
        given-listener fl os (owner_of c.device owners) (with_name fl os used c) owners in
      (
        All-imply (settle_all fl (unique_name used c.name ∷ used) later cs).0
            (λ c' r. ap (λ l. clashes l (conn_listener fl os c')) listens ∙ r)
            (settle_all-listeners fl os (λ l. clashes (conn_listener fl os c) l ≡ false)
              (unique_name used c.name ∷ used) later cs h.0),
        settle_all-LeavesFree (unique_name used c.name ∷ used) later cs h.1,
      )

  named_only :
      (enabled free : Bool) (d : List ℕ)
      → All (λ x. (x ≡ d) × (enabled ≡ true)) (if enabled then when free d ++ [] else [])
  named_only false free d = tt
  named_only true false d = tt
  named_only true true d = ((refl, refl), tt)

  when_only : (b : Bool) (l : Listener) → All (λ x. x ≡ l) (when b l)
  when_only false l = tt
  when_only true l = (refl, tt)

  -- The mapping of a connection takes at most its device and its address, under any id.
  devices_only :
      (id : String) (c : Conn fl)
      → All (λ d. (d ≡ c.device) × (c.enabled ≡ true)) (devices_of fl (mapping_of fl os id c))
  unfolding devices_of mapping_of
  devices_only id c = named_only c.enabled (not (is_nil c.device) && not c.serial.matched) c.device

  listeners_only :
      (id : String) (c : Conn fl)
      → All (λ l. l ≡ conn_listener fl os c) (listeners_of fl (mapping_of fl os id c))
  unfolding listeners_of mapping_of
  listeners_only id c = when_only (listens fl c.network) (conn_listener fl os c)

  AreCompatible-conns :
      (id id' : String) (c c' : Conn fl)
      → OneDevice c c'
      → LeavesFree fl os c c'
      → AreCompatible fl os (mapping_of fl os id c) (mapping_of fl os id' c')
  AreCompatible-conns id id' c c' one free = (
    All-imply (devices_of fl (mapping_of fl os id' c'))
        (λ d' r'.
          All-imply (devices_of fl (mapping_of fl os id c))
            (λ d r q. absurd (one r.1 r'.1 (sym r.0 ∙ q ∙ r'.0))) (devices_only id c))
        (devices_only id' c'),
    All-imply (listeners_of fl (mapping_of fl os id' c'))
        (λ l' r'.
          All-imply (listeners_of fl (mapping_of fl os id c))
            (λ l r.
              (not_clashes_iff l l').0 (
                ap (λ k. clashes k l') r ∙ (ap (λ k. clashes (conn_listener fl os c) k) r' ∙ free)))
            (listeners_only id c))
        (listeners_only id' c'),
  )

  compatible_map :
      (id_of : Conn fl → String) (cs : List (Conn fl))
      → Pairwise OneDevice cs
      → Pairwise (LeavesFree fl os) cs
      → Pairwise (AreCompatible fl os) (map (λ c. mapping_of fl os (id_of c) c) cs)
  compatible_map id_of [] p q = tt
  compatible_map id_of (c ∷ cs) p q = (
    All-map (AreCompatible fl os (mapping_of fl os (id_of c) c))
        (λ c'. mapping_of fl os (id_of c') c') cs
        (All-imply cs (λ c' r. AreCompatible-conns (id_of c) (id_of c') c c' r.0 r.1)
          (All-both _ _ cs p.0 q.0)),
    compatible_map id_of cs p.1 q.1,
  )

  -- Whatever connections were read, the mappings that `_assemble` returns pass, together and under
  -- any ids, the checks of `AppConfig.validate`, and no two of them have one name.
  pub assemble-check_mappings :
      (id_of : Conn fl → String) (conns : List (Conn fl)) (warnings : List Warning)
      → (check_mappings fl os [] []
            (map (λ c. mapping_of fl os (id_of c) c) (assemble fl os conns warnings).0)
          ≡ ok tt)
        × Pairwise (λ c c'. c.name ≢ c'.name) (assemble fl os conns warnings).0
  unfolding assemble
  assemble-check_mappings id_of conns warnings =
      let kept = (keep_all fl os conns ([], warnings)).0 in
      let good = keep_all-IsKept fl os conns ([], warnings) (tt, tt) in
      let out = (settle_all fl [] [] kept).0 in
      (
        (check_mappings_iff fl os (map (λ c. mapping_of fl os (id_of c) c) out)).1 (
          All-map (IsValid fl os) (λ c. mapping_of fl os (id_of c) c) out
              (All-imply out (λ c r. valid_id fl os c (id_of c) r)
                (settle_all-valid fl os [] [] kept good.0)),
          compatible_map id_of out (settle_all-devices [] [] kept).1
              (settle_all-LeavesFree [] [] kept good.1),
        ),
        (settle_all-names [] [] kept).1,
      )
