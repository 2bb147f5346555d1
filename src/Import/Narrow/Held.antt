-- ===== src/Import/Narrow/Held.antt =====
-- app/ser2net_import.py: what holds a connection holds it to the end.
use ser2net.Common.{
  ℕ, Bool, true, false, ◌&&◌, ◌≡◌, refl, sym, ◌∙◌, inl, inr, Option, none, some, List, [], ◌∷◌,
  Bool-cases, is_nil,
}
use ser2net.Config.{Floats, World}
use ser2net.Import.{Conn, Note}
use ser2net.Import.Settings.{hold_access, held, note_dropped, finish_access}

module _ (fl : Floats) (os : World) where
  held_enabled : (o : Option Note) (c : Conn fl) → (held fl os o c).enabled ≡ true → o ≡ none
  held_enabled none c h = refl
  held_enabled (some why) c h = absurd (cc)

  pub note_dropped-enabled :
      (dropped : List (List ℕ)) (c : Conn fl) → (note_dropped fl os dropped c).enabled ≡ c.enabled
  note_dropped-enabled [] c = refl
  note_dropped-enabled (o ∷ dropped) c = refl

  hold_access-none :
      (c : Conn fl)
      → (hold_access fl os c).hold ≡ none
      → (c.hold ≡ none) × (c.access_given ≡ true → is_nil c.network.allowed_client_ips ≡ false)
  hold_access-none c h = elim (Bool-cases (c.access_given && is_nil c.network.allowed_client_ips)) [
    | inl e ↦ absurd (cc (h, e))
    | inr e ↦ (rw (← h, e) refl, given c.access_given (is_nil c.network.allowed_client_ips) e)
  ]
    where
      given : (a n : Bool) → (a && n) ≡ false → a ≡ true → n ≡ false
      given true n h a = h
      given false n h a = absurd (cc)

  -- A connection that is enabled at the end was not held, and if its configuration names the clients
  -- that may connect, at least one of them is allowed and so not everyone is.
  pub finish_access_enabled :
      (c : Conn fl)
      → (finish_access fl os c).enabled ≡ true
      → (c.hold ≡ none) × (c.access_given ≡ true → is_nil c.network.allowed_client_ips ≡ false)
  unfolding finish_access
  finish_access_enabled c h =
      let c1 = hold_access fl os c in
      let c2 = held fl os c1.hold c1 in
      hold_access-none c (held_enabled c1.hold c1 (sym (note_dropped-enabled c2.dropped c2) ∙ h))
